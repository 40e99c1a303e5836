-- ===== src/Log/Rollover.antt =====
-- Log.newSegment at the end of a log: the log has an empty segment more.
use dislog.Prelude.{
  ℕ, ◌+◌, ◌-◌, ◌^◌, ◌<◌, List, [], ◌∷◌, ◌++◌, true, false, ◌≡◌, refl, sym, ap, ◌∙◌, arith, length,
  snoc-ne-nil, length-append, ok, add64,
}
use dislog.Index.{Gommap}
use dislog.Index.Entries.{encode, encode-nil}
use dislog.Dir.{Dir, store_name, index_name}
use dislog.Segment
use dislog.Segment.{Segment, Config}
use dislog.Segment.Layout.{frames-nil, layout-nil}
use dislog.Segment.Bounds.{empty_not_maxed, maxed_some}
use dislog.Segment.Reopen.{OnDisk, Fits, new_segment_lem, touched}
use dislog.Log.{Log, active, highest_offset, new_segment}
use dislog.Log.Chain.{
  Payloads, concat, concat_snoc, Chain-snoc, IsUsable, IsFree, IsLog, IsActive, active_snoc,
}
use dislog.Log.Starts.{starts, Filled, active-AllFilled, AllFilled-Below, Filled-snoc, starts-snoc}
use dislog.Log.Filed.{IsFiled, IsFiled-touched_new}

-- The offset of the next record is one above the highest, or is reached by it.
pub highest_lem :
    (l : Log) (a : Segment) (n : ℕ)
    → active l.segments ≡ ok a
    → a.next_offset ≡ n
    → highest_offset l ≡ (ok (n - 1), l)
unfolding highest_offset
highest_lem l a n e h = rw (e, h) (ground arith)

module _ ⦃g : Gommap⦄ where
  pub empty-OnDisk : (d : Dir) (n : ℕ) → d.present ≡ true → IsFree d n → n < 2 ^ 63 → OnDisk d n []
  empty-OnDisk d n there free small = record {
    is_there = there;
    store_file = (free n (omega arith) small).0 ∙ sym frames-nil;
    index_file = (free n (omega arith) small).1 ∙ sym (ap encode (layout-nil 0 0) ∙ encode-nil);
  }

  pub empty-Fits : (c : Config) (n : ℕ) → IsUsable c → n + 1 < 2 ^ 63 → Fits n c []
  empty-Fits c n u small = record {
    some_index = omega (arith, u.one_entry);
    small_index = omega (arith, u.index_small);
    entries_fit = omega arith;
    few = omega arith;
    store_fits = omega (arith, ap length frames-nil);
    offsets_fit = omega arith;
  }

  -- What Log.newSegment makes of a log that ends at `n`: the same records, and an empty segment.
  pub record Rolled (n k : ℕ) (l : Log) (pss : List Payloads) : Type 0 where
    pub log : Log
    pub segment : Segment
    pub runs : new_segment n l ≡ (ok tt, log)
    pub holds : IsLog log k (pss ++ ([] ∷ []))
    pub is_active : active log.segments ≡ ok segment
    pub has_room : Segment.is_maxed segment ≡ false
    pub same_config : log.config ≡ l.config
    pub next : segment.next_offset ≡ n
    pub path : log.dir ≡ touched n l.dir

  pub rollover :
      (n k : ℕ) (l : Log) (pss : List Payloads)
      → IsLog l k pss
      → n ≡ k + length (concat pss)
      → n + 1 < 2 ^ 63
      → Rolled n k l pss
  unfolding new_segment
  rollover n k l pss h at small =
      let free : IsFree l.dir n = rw at h.free in
      let (s, d', e, hs, base, conf, there, same, path) =
        new_segment_lem n l.config [] l.dir (empty-OnDisk l.dir n h.present free (omega arith))
          (empty-Fits l.config n h.usable small) in
      record {
        log = record l { dir = d'; segments = l.segments ++ (s ∷ []) };
        segment = s;
        runs = rw e;
        holds = record {
          usable = h.usable;
          chain = Chain-snoc l.config k l.segments pss h.chain hs (base ∙ at) conf;
          some_segment = snoc-ne-nil l.segments s;
          present = there;
          free = λ b lo hi.
              let (x, y) =
                free b
                  (omega
                    (arith, lo, at, ap length (concat_snoc pss []), length-append (concat pss) []))
                  hi in
              (same (store_name b) ∙ x, same (index_name b) ∙ y);
        };
        is_active = active_snoc l.segments s;
        has_room =
            empty_not_maxed hs
              (omega (arith, h.usable.one_entry, ap (λ (c : Config). c.max_index_bytes) conf))
              (omega (arith, h.usable.some_store, ap (λ (c : Config). c.max_store_bytes) conf));
        same_config = refl;
        next = omega (arith, hs.counted, base);
        path = path;
      }

  -- A log whose active segment is full: that segment has a record, so the segment that newSegment opens
  -- is at an offset of its own, and its files stand behind those of the others.
  module _ (n k : ℕ) (l : Log) (pss : List Payloads) (h : IsLog l k pss)
      (at : n ≡ k + length (concat pss)) (small : n + 1 < 2 ^ 63) (a : Segment)
      (e : active l.segments ≡ ok a) (is : IsActive l.config (k + length (concat pss)) a)
      (m : Segment.is_maxed a ≡ true) where
    maxed_grew : a.base_offset < a.next_offset
    maxed_grew =
        let some_record =
          maxed_some is.records is.holds m
            (omega (arith, h.usable.one_entry, ap (λ (c : Config). c.max_index_bytes) is.under))
            (omega (arith, h.usable.some_store, ap (λ (c : Config). c.max_store_bytes) is.under)) in
        omega (arith, some_record, is.holds.counted)

    pub maxed_next : add64 (n - 1) 1 ≡ n
    maxed_next = omega (arith, maxed_grew, is.ends, at, small)

    pub rolled_files :
        IsFiled l.dir (starts k pss)
        → Filled pss
        → IsFiled (touched n l.dir) (starts k (pss ++ ([] ∷ []))) × Filled (pss ++ ([] ∷ []))
    rolled_files filed filled =
        let all = active-AllFilled l.config k l.segments pss a h.chain e maxed_grew filled in
        (
          rw (starts-snoc n k pss (sym at)) (
              IsFiled-touched_new n l.dir (starts k pss) (omega (arith, small)) filed
                (AllFilled-Below n k pss all (sym at))),
          Filled-snoc pss all,
        )
