-- ===== src/Snapshot/Contents.antt =====
-- What a snapshot holds: the bytes of the log's records, in their order.
use dislog.Prelude.{
  ℕ, suc, zero, ◌+◌, ◌^◌, ◌≤◌, ◌<◌, List, [], ◌∷◌, ◌++◌, true, false, Option, none, some, ◌≡◌, refl,
  sym, ap, ◌∙◌, arith, length, drop, slice, length-take, length-drop, take_all, take-append-drop,
  drop-drop, append_assoc, append-nil, is_empty, ok, eof, Error, pure, Bool-cases, inl, inr, ltb,
  lt→leb, if◌then◌else◌,
}
use dislog.Store
use dislog.Store.{Store, opened, pread}
use dislog.Store.Contents.{flush_lem}
use dislog.Store.Append.{IsSound}
use dislog.Store.Read.{flushed_store, flushed_store-IsSound}
use dislog.Segment.{Segment, Config}
use dislog.Segment.Layout.{IsSegment, frames, frames-append, frames-nil}
use dislog.Log.{Log}
use dislog.Log.Chain.{Payloads, concat, Chain, IsLog, payloads-ne-nil, segments-ne-nil}
use dislog.Snapshot
use dislog.Snapshot.{
  OriginReader, read, SnapshotSink, copy_size, copy_rounds, ended, copy_next, copy_all, persist,
  persisted,
}

-- What a read of `n` bytes at `off` answers.
abbrev chunk : ℕ → ℕ → List ℕ → List ℕ × Option Error
chunk n off c = (slice c off n, if ltb (length (slice c off n)) n then some eof else none)

read_lem :
    (n off : ℕ) (s : Store) (c : List ℕ)
    → IsSound s c
    → off < 2 ^ 63
    → read n (record { store = s; off = off }) ≡ (
      ok (chunk n off c),
      record { store = flushed_store s c; off = off + length (slice c off n) },
    )
unfolding read Store.read_at pread
read_lem n off s c h small = rw (flush_lem h.held) (rw (lt→leb (2 ^ 63) off small) refl)

slice-short :
    (n off : ℕ) (c : List ℕ) → ltb (length (slice c off n)) n ≡ true → slice c off n ≡ drop off c
slice-short n off c h = take_all n (drop off c) (ground (arith, h, length-take n (drop off c)))

slice-full :
    (n off : ℕ) (c : List ℕ)
    → ltb (length (slice c off n)) n ≡ false
    → off ≤ length c
    → (length (slice c off n) ≡ n)
      × (off + n ≤ length c)
      × (drop off c ≡ slice c off n ++ drop (off + length (slice c off n)) c)
slice-full n off c h within' =
    let full : n ≤ length (drop off c) = ground (arith, h, length-take n (drop off c)) in
    let len : length (slice c off n) ≡ n = omega (arith, length-take n (drop off c), full) in
    (
      len,
      omega (arith, full, length-drop off c, within'),
      sym (take-append-drop n (drop off c))
          ∙ ap (λ t. slice c off n ++ t) (drop-drop off n c)
          ∙ ap (λ (k : ℕ). slice c off n ++ drop (off + k) c) (sym len),
    )

reread :
    (s : Segment) (ps : Payloads) (o : OriginReader)
    → IsSegment s ps
    → o.store ≡ flushed_store s.store (frames ps)
    → IsSegment (record s { store = o.store }) ps
reread s ps o h e = record {
  stored = rw e (flushed_store-IsSound h.stored);
  indexed = h.indexed;
  counted = h.counted;
  in_range = h.in_range;
  sparse = h.sparse;
  capacity = h.capacity;
}

-- A sink that takes every write, and what it has taken.
pub record Accepts {W : Type 0} (sink : SnapshotSink W) : Type 0 where
  pub out : W → List ℕ
  pub takes :
      (bs : List ℕ) (w : W) → (w' : W) × (sink.write bs w ≡ (ok tt, w')) × (out w' ≡ out w ++ bs)
  pub closes : (w : W) → (w' : W) × (sink.close w ≡ (ok tt, w')) × (out w' ≡ out w)

module _ {W : Type 0} (sink : SnapshotSink W) (a : Accepts sink) where
  write_step :
      (bs : List ℕ) (o : OriginReader) (w : W)
      → (w' : W) × ((if is_empty bs then pure tt else Snapshot.on_sink sink (sink.write bs)) (o, w)
          ≡ (ok tt, (o, w')))
        × (a.out w' ≡ a.out w ++ bs)
  write_step [] o w = (w, refl, sym (append-nil (a.out w)))
  write_step (x ∷ bs) o w = let (w', e, grown) = a.takes (x ∷ bs) w in (w', rw e, grown)

  -- The rest of a store from `off` on, copied.
  record Copied (fuel off : ℕ) (s : Store) (c : List ℕ) (w : W) : Type 0 where
    reader : OriginReader
    after : W
    runs : copy_rounds sink fuel (record { store = s; off = off }, w) ≡ (ok tt, (reader, after))
    same : reader.store ≡ flushed_store s c
    grown : a.out after ≡ a.out w ++ drop off c

  copies :
      (fuel off : ℕ) (s : Store) (c : List ℕ) (w : W)
      → IsSound s c
      → off ≤ length c
      → length c < off + fuel
      → Copied fuel off s c w
  unfolding copy_rounds ended
  copies zero off s c w h lo hi = absurd (omega (arith, lo, hi))
  copies (suc fuel) off s c w h lo hi =
      let small : off < 2 ^ 63 = omega (arith, lo, h.fits) in
      let got : List ℕ = slice c off copy_size in
      let next : OriginReader = record { store = flushed_store s c; off = off + length got } in
      let (w', e, grown) = write_step got next w in
      elim (Bool-cases (ltb (length got) copy_size)) [
        | inl short ↦ record {
          reader = next;
          after = w';
          runs = rw (read_lem copy_size off s c h small) (rw (short, e));
          same = refl;
          grown = grown ∙ ap (λ t. a.out w ++ t) (slice-short copy_size off c short);
        }
        | inr full ↦
            let (len, fits, split) = slice-full copy_size off c full lo in
            let rest =
              copies fuel (off + length got) (flushed_store s c) c w' (flushed_store-IsSound h)
                (omega (arith, len, fits)) (omega (arith, len, hi)) in
            record {
              reader = rest.reader;
              after = rest.after;
              runs = rw (read_lem copy_size off s c h small) (rw (full, e, rest.runs));
              same = rest.same;
              grown =
                  rest.grown
                  ∙ ap (λ t. t ++ drop (off + length got) c) grown
                  ∙ append_assoc (a.out w) got (drop (off + length got) c)
                  ∙ ap (λ t. a.out w ++ t) (sym split);
            }
      ]

  -- The segments of a chain, copied one after another.
  record AllCopied (cf : Config) (k : ℕ) (pss : List Payloads) (ss : List Segment) (w : W)
      : Type 0 where
    segments : List Segment
    after : W
    runs : copy_all sink ss w ≡ (ok tt, (segments, after))
    chained : Chain cf k segments pss
    grown : a.out after ≡ a.out w ++ frames (concat pss)

  all_copied :
      (cf : Config) (k : ℕ) (pss : List Payloads) (ss : List Segment) (w : W)
      → Chain cf k ss pss
      → AllCopied cf k pss ss w
  unfolding copy_all copy_next
  all_copied cf k [] [] w h = record {
    segments = [];
    after = w;
    runs = refl;
    chained = tt;
    grown = sym (ap (λ t. a.out w ++ t) frames-nil ∙ append-nil (a.out w));
  }
  all_copied cf k [] (s ∷ ss) w h = absurd h
  all_copied cf k (ps ∷ pss) [] w h = absurd h
  all_copied cf k (ps ∷ pss) (s ∷ ss) w (base, conf, hs, h) =
      let one =
        copies (suc s.store.size) 0 s.store (frames ps) w hs.stored (omega arith)
          (omega (arith, hs.stored.sized)) in
      let rest = all_copied cf (k + length ps) pss ss one.after h in
      record {
        segments = record s { store = one.reader.store } ∷ rest.segments;
        after = rest.after;
        runs = rw (one.runs, rest.runs);
        chained = (base, conf, reread s ps one.reader hs one.same, rest.chained);
        grown =
            rest.grown
            ∙ ap (λ t. t ++ frames (concat pss)) one.grown
            ∙ append_assoc (a.out w) (frames ps) (frames (concat pss))
            ∙ ap (λ t. a.out w ++ t) (sym (frames-append ps (concat pss)));
      }

  -- Persisting a snapshot of a log, to a sink that takes every write, gives the sink the records'
  -- frames in the order of their offsets and nothing else, and the log holds what it held.
  pub persist_lem :
      (l : Log) (k : ℕ) (pss : List Payloads) (w : W)
      → IsLog l k pss
      → (l' : Log) × (w' : W) × (persist sink (l, w) ≡ (ok tt, (l', w')))
        × (a.out w' ≡ a.out w ++ frames (concat pss))
        × IsLog l' k pss
  unfolding persist persisted
  persist_lem l k pss w h =
      let c = all_copied l.config k pss l.segments w h.chain in
      let (w', e, kept) = a.closes c.after in
      (
        record l { segments = c.segments },
        w',
        rw (c.runs, e),
        kept ∙ c.grown,
        record {
          usable = h.usable;
          chain = c.chained;
          some_segment =
              segments-ne-nil l.config k c.segments pss c.chained
                (payloads-ne-nil l.config k l.segments pss h.chain h.some_segment);
          present = h.present;
          free = h.free;
        },
      )
