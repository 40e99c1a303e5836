-- ===== src/Log/Emptied.antt =====
-- Log.Truncate at the last offset of a log.
use dislog.Prelude.{
  ℕ, ◌+◌, ◌^◌, ◌≤◌, ◌<◌, List, [], ◌∷◌, true, ◌≡◌, refl, arith, length, length-append, ok, add64,
  leb, le→leb,
}
use dislog.Index.{Gommap}
use dislog.Dir.{Dir}
use dislog.Segment.{Segment, Config}
use dislog.Log.{truncate_each, removed_one}
use dislog.Log.Chain.{Payloads, concat, Chain}
use dislog.Log.Dropping.{removed}

module _ ⦃g : Gommap⦄ where
  -- Truncate at the last offset or behind it drops every segment.
  pub drops_all :
      (c : Config) (lowest k : ℕ) (ss : List Segment) (pss : List Payloads) (d : Dir)
      → Chain c k ss pss
      → k + length (concat pss) ≤ lowest + 1
      → lowest + 1 < 2 ^ 64
      → (seen : List Segment) × (d' : Dir) × (truncate_each lowest ss d ≡ (ok [], (seen, d')))
  unfolding truncate_each removed_one
  drops_all c lowest k [] pss d h below small = ([], d, refl)
  drops_all c lowest k (s ∷ ss) [] d h below small = absurd h
  drops_all c lowest k (s ∷ ss) (ps ∷ pss) d (base, conf, hs, h) below small =
      let count = length-append ps (concat pss) in
      let (s', d1, e, _) = removed s ps d hs in
      let (seen, d', e') =
        drops_all c lowest (k + length ps) ss pss d1 h (omega (arith, count, below)) small in
      let dropped : leb s.next_offset (add64 lowest 1) ≡ true =
        le→leb s.next_offset (add64 lowest 1)
          (omega (arith, hs.counted, base, count, below, small)) in
      (s' ∷ seen, d', rw (truncate_each, dropped, e, e') refl)
