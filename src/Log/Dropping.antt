-- ===== src/Log/Dropping.antt =====
-- Log.Truncate on a log with segments on both sides of the offset.
use dislog.Prelude.{
  ℕ, ◌+◌, ◌^◌, ◌≤◌, ◌<◌, List, [], ◌∷◌, ◌++◌, true, false, ◌≡◌, ◌≢◌, refl, sym, ◌∙◌, arith, length,
  length-append, ok, add64, leb, lt→leb, le→leb,
}
use dislog.Index.{Gommap}
use dislog.Dir.{Dir, bytes_of, store_name, index_name}
use dislog.Dir.Files.{store_name-ne, index_name-ne, store_name-ne-index_name}
use dislog.Segment.{Segment, Config}
use dislog.Segment.Layout.{IsSegment}
use dislog.Segment.Reopen.{segment_close}
use dislog.Segment.Removal.{Removed, remove_files-publish}
use dislog.Log.{remove_segment, removed_one, kept_one, truncate_each}
use dislog.Log.Chain.{Payloads, concat, Chain}

module _ ⦃g : Gommap⦄ where
  -- A sound segment can be removed; the files of other base offsets stay as they are.
  pub removed :
      (s : Segment) (ps : Payloads) (d : Dir)
      → IsSegment s ps
      → (s' : Segment) × (d' : Dir) × (remove_segment (s, d) ≡ (ok tt, (s', d'))) × Removed s d d'
  unfolding remove_segment
  removed s ps d h =
      let (s', e, base, _, _) = segment_close h in
      let (d', e', r) = remove_files-publish s' d in
      (
        s',
        d',
        rw (e, e'),
        record {
          still_there = r.still_there;
          others = rw base at r.others;
          path = rw base at r.path;
        },
      )

  -- Every segment that ends above the offset is kept.
  pub keeps :
      (c : Config) (lowest k : ℕ) (ss : List Segment) (pss : List Payloads) (d : Dir)
      → Chain c k ss pss
      → add64 lowest 1 < k
      → truncate_each lowest ss d ≡ (ok ss, (ss, d))
  unfolding truncate_each kept_one
  keeps c lowest k [] [] d h above = refl
  keeps c lowest k [] (ps ∷ pss) d h above = absurd h
  keeps c lowest k (s ∷ ss) [] d h above = absurd h
  keeps c lowest k (s ∷ ss) (ps ∷ pss) d h above =
      let kept : leb s.next_offset (add64 lowest 1) ≡ false =
        lt→leb s.next_offset (add64 lowest 1) (omega (arith, h.2.counted, h.0)) in
      rw (truncate_each, kept, keeps c lowest (k + length ps) ss pss d h.3 (omega (arith, above)))

  -- What the loop of Truncate leaves, where the segments from `k` on hold `pss`.
  pub record Left (c : Config) (lowest k : ℕ) (pss : List Payloads) (ss : List Segment) (d : Dir)
      : Type 0 where
    pub kept : List Segment
    pub seen : List Segment
    pub dir : Dir
    pub runs : truncate_each lowest ss d ≡ (ok kept, (seen, dir))
    pub chained : Chain c k kept pss
    pub still_there : dir.present ≡ d.present
    pub above :
        (b : ℕ)
        → k < b
        → b < 2 ^ 63
        → (bytes_of (store_name b) dir ≡ bytes_of (store_name b) d)
          × (bytes_of (index_name b) dir ≡ bytes_of (index_name b) d)

  module _ (c : Config) (lowest n : ℕ) (ps : Payloads) (back : List Payloads)
      (below : n ≤ add64 lowest 1) (over : add64 lowest 1 < n + length ps) where
    keeps_first :
        (k : ℕ) (s : Segment) (ss : List Segment) (d : Dir)
        → Chain c k (s ∷ ss) (ps ∷ back)
        → n ≡ k + 0
        → Left c lowest n (ps ∷ back) (s ∷ ss) d
    unfolding truncate_each kept_one
    keeps_first k s ss d h at =
        let kept : leb s.next_offset (add64 lowest 1) ≡ false =
          lt→leb s.next_offset (add64 lowest 1) (omega (arith, h.2.counted, h.0, over, at)) in
        let here : k ≡ n = omega (arith, at) in
        record {
          kept = s ∷ ss;
          seen = s ∷ ss;
          dir = d;
          runs = rw (
            truncate_each,
            kept,
            keeps c lowest (k + length ps) ss back d h.3 (omega (arith, over, at)),
          );
          chained = rw here at h;
          still_there = refl;
          above = λ b lo hi. (refl, refl);
        }

    drops_one :
        (k : ℕ) (s : Segment) (qs : Payloads) (ss : List Segment) (d d1 : Dir) (s' : Segment)
        → s.base_offset ≡ k
        → s.next_offset ≤ n
        → k ≤ n
        → n < 2 ^ 63
        → remove_segment (s, d) ≡ (ok tt, (s', d1))
        → Removed s d d1
        → Left c lowest n (ps ∷ back) ss d1
        → Left c lowest n (ps ∷ back) (s ∷ ss) d
    unfolding truncate_each removed_one
    drops_one k s qs ss d d1 s' base ends lo small e r rest =
        let dropped : leb s.next_offset (add64 lowest 1) ≡ true =
          le→leb s.next_offset (add64 lowest 1) (omega (arith, ends, below)) in
        record {
          kept = rest.kept;
          seen = s' ∷ rest.seen;
          dir = rest.dir;
          runs = rw (truncate_each, dropped, e, rest.runs);
          chained = rest.chained;
          still_there = rest.still_there ∙ r.still_there;
          above = λ b lo' hi.
              let fit : s.base_offset < 2 ^ 64 = omega (arith, base, lo, small) in
              let fit' : b < 2 ^ 64 = omega (arith, hi) in
              let apart : s.base_offset ≢ b = λ q. omega (arith, q, base, lo, lo') in
              let (p, q) = rest.above b lo' hi in
              (
                p
                    ∙ r.others (store_name b) (store_name-ne s.base_offset b fit fit' apart)
                        (λ x. store_name-ne-index_name b s.base_offset (sym x)),
                q
                    ∙ r.others (index_name b) (store_name-ne-index_name s.base_offset b)
                        (index_name-ne s.base_offset b fit fit' apart),
              );
        }

    pub drops :
        (k : ℕ) (front : List Payloads) (ss : List Segment) (d : Dir)
        → Chain c k ss (front ++ (ps ∷ back))
        → n ≡ k + length (concat front)
        → n < 2 ^ 63
        → Left c lowest n (ps ∷ back) ss d
    drops k [] [] d h at small = absurd h
    drops k [] (s ∷ ss) d h at small = keeps_first k s ss d h at
    drops k (qs ∷ front) [] d h at small = absurd h
    drops k (qs ∷ front) (s ∷ ss) d h at small =
        let (s', d1, e, r) = removed s qs d h.2 in
        let len = length-append qs (concat front) in
        drops_one k s qs ss d d1 s' h.0 (omega (arith, h.0, h.2.counted, at, len))
          (omega (arith, at, len)) small e r
          (drops (k + length qs) front ss d1 h.3 (omega (arith, at, len)) small)
