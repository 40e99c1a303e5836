-- ===== src/Snapshot/Frames.antt =====
-- Reading a snapshot back: the rounds of fsm.Restore on the bytes that Persist wrote.
use dislog.Prelude.{
  ℕ, suc, zero, ◌+◌, ◌^◌, ◌<◌, List, [], ◌∷◌, ◌++◌, false, ◌≡◌, refl, ap, ◌∙◌, arith, length, take,
  drop, take-length-append, drop-length-append, length-append, append_assoc, append-nil, is_empty,
  ok, lt→leb, le→ltb,
}
use dislog.Prelude.Bytes.{put_uint, uint-put_uint, length-put_uint}
use dislog.Api.{Record, Proto}
use dislog.Index.{Gommap}
use dislog.Store.{len_width}
use dislog.Store.Append.{frame, length-frame}
use dislog.Segment.{Config}
use dislog.Segment.Layout.{frames}
use dislog.Log
use dislog.Log.{Log}
use dislog.Log.Chain.{Payloads, IsUsable}
use dislog.Log.Growing.{Small}
use dislog.Log.Records.{Encodes}
use dislog.Log.History.{History}
use dislog.Log.Lifetime.{history_appends}
use dislog.Cluster.{at_end, next_frame, payload, decoded, begin, restore_frame, restore_loop}

take_front : (n : ℕ) (xs ys : List ℕ) → length xs ≡ n → take n (xs ++ ys) ≡ xs
take_front n xs ys h = rw (← h) (take-length-append xs ys)

drop_front : (n : ℕ) (xs ys : List ℕ) → length xs ≡ n → drop n (xs ++ ys) ≡ ys
drop_front n xs ys h = rw (← h) (drop-length-append xs ys)

module _ ⦃p : Proto⦄ where
  next_frame-nil : next_frame [] ≡ ok at_end
  unfolding next_frame
  next_frame-nil = refl

  not_empty : (b rest : List ℕ) → is_empty (frame b ++ rest) ≡ false
  not_empty b rest =
      some (frame b ++ rest) (omega (arith, length-append (frame b) rest, length-frame b))
    where
      some : (xs : List ℕ) → 0 < length xs → is_empty xs ≡ false
      some [] h = absurd (omega (arith, h))
      some (x ∷ xs) h = refl

  -- A frame in front of other bytes is read as its record.
  next_frame-frame :
      (b rest : List ℕ)
      → length b < 2 ^ 63
      → next_frame (frame b ++ rest) ≡ decoded (p.unmarshal b) rest
  unfolding next_frame payload
  next_frame-frame b rest small =
      let w = put_uint len_width (length b) in
      let width = length-put_uint len_width (length b) in
      let whole = length-append (frame b) rest in
      let front : take len_width (frame b ++ rest) ≡ w =
        ap (take len_width) (append_assoc w b rest) ∙ take_front len_width w (b ++ rest) width in
      let back : drop len_width (frame b ++ rest) ≡ b ++ rest =
        ap (drop len_width) (append_assoc w b rest) ∙ drop_front len_width w (b ++ rest) width in
      rw (
        not_empty b rest,
        le→ltb (length (frame b ++ rest)) len_width (omega (arith, whole, length-frame b)),
        front,
        back,
        uint-put_uint len_width (length b) (omega (arith, small)),
        lt→leb (2 ^ 63) (length b) small,
        le→ltb (length (b ++ rest)) (length b) (omega (arith, length-append b rest)),
        take-length-append b rest,
        drop-length-append b rest,
      )

  -- The records as a log numbers them that ends at `n`, and that each of them fits there.
  abbrev pub renumbered : ℕ → List Record → List Record
  renumbered n [] = []
  renumbered n (r ∷ rs) = record r { offset = n } ∷ renumbered (n + 1) rs

  abbrev pub Fits : Config → ℕ → List Record → Type 0
  Fits c n [] = Unit {0}
  Fits c n (r ∷ rs) =
      ((b : List ℕ) × (p.marshal (record r { offset = n }) ≡ ok b) × Small c n b)
      × Fits c (n + 1) rs

-- One round behind the first: the record of a frame is appended, and the rest of the stream follows.
module _ ⦃p : Proto⦄ ⦃g : Gommap⦄ where
  restore_round :
      (r : Record) (b rest : List ℕ) (fuel off : ℕ) (l m : Log)
      → length b < 2 ^ 63
      → p.marshal r ≡ ok b
      → Log.append r l ≡ (ok off, m)
      → restore_loop (suc fuel) false (frame b ++ rest) l ≡ restore_loop fuel false rest m
  unfolding restore_loop restore_frame begin decoded
  restore_round r b rest fuel off l m small enc runs =
      rw (next_frame-frame b rest small, p.unmarshal-marshal r b enc) (rw runs)

  restore_end : (fuel : ℕ) (l : Log) → restore_loop (suc fuel) false [] l ≡ (ok tt, l)
  unfolding restore_loop restore_frame
  restore_end fuel l = rw next_frame-nil

module _ ⦃p : Proto⦄ ⦃g : Gommap⦄ (c : Config) (u : IsUsable c)
    (small : c.initial_offset + 1 < 2 ^ 63) where
  -- The rounds of Restore behind the first record append the records of a snapshot to the log, one by
  -- one and in their order, and end without an error, on any log with a past; one more round than the
  -- snapshot has bytes is enough. The snapshot is shorter than 2 ^ 63 bytes, each record fits at its new
  -- offset, and the configuration is usable, with an initial offset below 2 ^ 63 - 1.
  pub restore_rounds :
      (rs : List Record) (bs : Payloads) (l : Log) (qs : List Record) (n fuel : ℕ)
      → History c l qs
      → n ≡ c.initial_offset + length qs
      → Encodes rs bs
      → Fits c n rs
      → length (frames bs) < 2 ^ 63
      → length (frames bs) < fuel
      → (l' : Log) × (restore_loop fuel false (frames bs) l ≡ (ok tt, l'))
        × History c l' (qs ++ renumbered n rs)
  unfolding frames
  restore_rounds rs bs l qs n zero h at enc fits whole some = absurd (omega (arith, some))
  restore_rounds [] [] l qs n (suc fuel) h at enc fits whole some =
      (l, restore_end fuel l, rw (append-nil qs) h)
  restore_rounds [] (b ∷ bs) l qs n (suc fuel) h at enc fits whole some = absurd enc
  restore_rounds (r ∷ rs) [] l qs n (suc fuel) h at enc fits whole some = absurd enc
  restore_rounds (r ∷ rs) (b ∷ bs) l qs n (suc fuel) h at (e, enc) ((b', e', fit), fits) whole
        some =
      let len = length-append (frame b) (frames bs) in
      let size = length-frame b in
      let (m, runs, h') = history_appends c u small r b' n h at fit e' in
      let (l', runs', h'') =
        restore_rounds rs bs m (qs ++ (record r { offset = n } ∷ [])) (n + 1) fuel h'
          (omega (arith, at, length-append qs (record r { offset = n } ∷ []))) enc fits
          (omega (arith, whole, len)) (omega (arith, some, len, size)) in
      (
        l',
        restore_round r b (frames bs) fuel n l m (omega (arith, whole, len, size)) e runs ∙ runs',
        rw (append_assoc qs (record r { offset = n } ∷ []) (renumbered (n + 1) rs)) at h'',
      )
