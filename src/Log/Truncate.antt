-- ===== src/Log/Truncate.antt =====
-- Log.Truncate: what is dropped and what is kept, and a log that has lost its last segment.
use dislog.Prelude.{
  ℕ, ◌+◌, ◌^◌, ◌≤◌, ◌<◌, List, [], ◌∷◌, ◌++◌, ◌≡◌, ◌∙◌, arith, length, length-append, ok, panic,
  cons-ne-nil, err, offset_out_of_range, inl, ap,
}
use dislog.Api.{Record, Proto}
use dislog.Index.{Gommap}
use dislog.Segment.{Segment, Config}
use dislog.Log
use dislog.Log.{Log, active, lowest_offset, highest_offset, append, truncate, truncate_each}
use dislog.Log.Chain.{Payloads, concat, Chain, IsLog, segments-ne-nil}
use dislog.Log.Dropping.{drops}
use dislog.Log.Read.{log_read, read_out_of_range}

-- A log without segments.
module _ (l : Log) (empty : l.segments ≡ []) where
  pub lowest_empty : lowest_offset l ≡ (panic, l)
  unfolding lowest_offset
  lowest_empty = rw empty

  pub highest_empty : highest_offset l ≡ (panic, l)
  unfolding highest_offset active
  highest_empty = rw empty

  -- On a log without segments every Append panics, whatever the record, and the log is as it was.
  pub append_empty : ⦃p : Proto⦄ → ⦃g : Gommap⦄ → (r : Record) → append r l ≡ (panic, l)
  unfolding append
  append_empty r = rw highest_empty

pub length-concat :
    (front back : List Payloads)
    → length (concat (front ++ back)) ≡ length (concat front) + length (concat back)
length-concat [] back = omega arith
length-concat (qs ∷ front) back = omega (
  arith,
  length-append qs (concat (front ++ back)),
  length-append qs (concat front),
  length-concat front back,
)

-- The end of a segment of a log is an offset that fits.
pub ends_in_range :
    (c : Config) (k : ℕ) (ss : List Segment) (front back : List Payloads) (ps : Payloads)
    → Chain c k ss (front ++ (ps ∷ back))
    → k + length (concat front) + length ps < 2 ^ 63
ends_in_range c k [] [] back ps h = absurd h
ends_in_range c k [] (qs ∷ front) back ps h = absurd h
ends_in_range c k (s ∷ ss) [] back ps h = omega (arith, h.0, h.2.counted, h.2.in_range)
ends_in_range c k (s ∷ ss) (qs ∷ front) back ps h =
    omega
      (arith, length-append qs (concat front), ends_in_range c (k + length qs) ss front back ps h.3)

module _ ⦃g : Gommap⦄ (lowest k : ℕ) (l : Log) (front back : List Payloads) (ps : Payloads)
    (h : IsLog l k (front ++ (ps ∷ back))) (below : k + length (concat front) ≤ lowest + 1)
    (over : lowest + 1 < k + length (concat front) + length ps) where
  -- Where `lowest + 1` lies inside of a segment, Truncate removes the segments in front of that one and
  -- their files, and the log then holds that segment's records and the later ones, at their offsets.
  pub truncate_lem :
      (l' : Log) × (truncate lowest l ≡ (ok tt, l'))
      × IsLog l' (k + length (concat front)) (ps ∷ back)
  unfolding truncate
  truncate_lem =
      let n = k + length (concat front) in
      let small = ends_in_range l.config k l.segments front back ps h.chain in
      let left =
        drops l.config lowest n ps back (omega (arith, below, over, small))
          (omega (arith, over, small)) k front l.segments l.dir h.chain (omega arith)
          (omega (arith, small)) in
      let whole = length-concat front (ps ∷ back) in
      let some_records = length-append ps (concat back) in
      (
        record l { segments = left.kept; dir = left.dir },
        rw left.runs,
        record {
          usable = h.usable;
          chain = left.chained;
          some_segment =
              segments-ne-nil l.config n left.kept (ps ∷ back) left.chained (cons-ne-nil ps back);
          present = left.still_there ∙ h.present;
          free = λ b lo hi.
              let (p, q) = left.above b (omega (arith, lo, some_records, over, below)) hi in
              let (p', q') = h.free b (omega (arith, lo, whole)) hi in (p ∙ p', q ∙ q');
        },
      )

  -- After such a Truncate every offset in front of the kept segments is out of range, and the offset of
  -- every record that is kept answers what protobuf makes of that record's bytes.
  pub truncate-read :
      ⦃p : Proto⦄
      → (off gone : ℕ) (before after : Payloads) (b : List ℕ) → gone < k + length (concat front)
      → concat (ps ∷ back) ≡ before ++ (b ∷ after)
      → off ≡ k + length (concat front) + length before
      → (l' : Log) × (truncate lowest l ≡ (ok tt, l'))
        × ((Log.read off l').0 ≡ p.unmarshal b)
        × (Log.read gone l' ≡ (err (offset_out_of_range gone), l'))
  truncate-read off gone before after b lost e at =
      let n = k + length (concat front) in
      let (l', runs, holds) = truncate_lem in
      let (_, reads, _) = log_read off n l' (ps ∷ back) before after b holds e at in
      (l', runs, ap (λ x. x.0) reads, read_out_of_range gone n l' (ps ∷ back) holds (inl lost))
