-- ===== src/Log/Read.antt =====
-- Log.Read: every record is read back from its offset, and every other offset is out of range.
use dislog.Prelude.{
  ℕ, ◌+◌, ◌≤◌, ◌<◌, List, [], ◌∷◌, ◌++◌, ◌≡◌, ◌≢◌, ◌⊎◌, refl, ap, ◌∙◌, arith, length, length-append,
  err, offset_out_of_range, le→leb, lt→ltb, lt→leb, le→ltb, cons-ne-nil,
}
use dislog.Api.{Proto}
use dislog.Segment.Read as SegmentRead
use dislog.Segment.{Segment, Config}
use dislog.Log.{Log, read, read_in}
use dislog.Log.Chain.{Payloads, concat, Chain, IsLog}

-- Where the record `b` stands in the first list or behind it.
data Place (ps rest front back : Payloads) (b : List ℕ) : Type 0 where
  here : (behind : Payloads) → ps ≡ front ++ (b ∷ behind) → Place ps rest front back b
  later :
      (before : Payloads)
      → front ≡ ps ++ before
      → rest ≡ before ++ (b ∷ back)
      → Place ps rest front back b

place :
    (ps rest front back : Payloads) (b : List ℕ)
    → ps ++ rest ≡ front ++ (b ∷ back)
    → Place ps rest front back b
place [] rest front back b h = later front refl h
place (x ∷ ps) rest [] back b h = here ps (cc)
place (x ∷ ps) rest (y ∷ front) back b h = deeper (place ps rest front back b (cc))
  where
    deeper : Place ps rest front back b → Place (x ∷ ps) rest (y ∷ front) back b
    deeper (here behind e) = here behind (cc)
    deeper (later before e e') = later before (cc) e'

module _ ⦃p : Proto⦄ (c : Config) (off : ℕ) where
  -- What reading the record of `b` makes of the segments: their buffers are flushed.
  record Found (k : ℕ) (ss : List Segment) (pss : List Payloads) (b : List ℕ) : Type 0 where
    segments : List Segment
    runs : read_in off ss ≡ (p.unmarshal b, segments)
    chained : Chain c k segments pss
    some_segment : segments ≢ []

  Found-here :
      (k : ℕ) (s : Segment) (rest : List Segment) (pss : List Payloads) (front back : Payloads)
      (b : List ℕ)
      → Chain c k (s ∷ rest) ((front ++ (b ∷ back)) ∷ pss)
      → off ≡ k + length front
      → Found k (s ∷ rest) ((front ++ (b ∷ back)) ∷ pss) b
  unfolding read_in
  Found-here k s rest pss front back b h at =
      let count = length-append front (b ∷ back) in
      let (s', e, hs, base, _, conf) =
        SegmentRead.segment_read off front back b h.2 (omega (arith, at, h.0)) in
      let has : off < s.next_offset = omega (arith, at, h.0, h.2.counted, count) in
      record {
        segments = s' ∷ rest;
        runs =
            rw (le→leb s.base_offset off (omega (arith, at, h.0)), lt→ltb off s.next_offset has)
              (rw (lt→leb s.next_offset off has) (rw e));
        chained = (base ∙ h.0, conf ∙ h.1, hs, h.3);
        some_segment = cons-ne-nil s' rest;
      }

  Found-later :
      (k : ℕ) (s : Segment) (rest : List Segment) (ps : Payloads) (pss : List Payloads) (b : List ℕ)
      → Chain c k (s ∷ rest) (ps ∷ pss)
      → k + length ps ≤ off
      → Found (k + length ps) rest pss b
      → Found k (s ∷ rest) (ps ∷ pss) b
  unfolding read_in
  Found-later k s rest ps pss b h past f = record {
    segments = s ∷ f.segments;
    runs =
        rw (le→leb s.base_offset off (omega (arith, past, h.0)))
          (rw (le→ltb off s.next_offset (omega (arith, past, h.0, h.2.counted))) (rw f.runs));
    chained = (h.0, h.1, h.2, f.chained);
    some_segment = cons-ne-nil s f.segments;
  }

  read_in_lem :
      (k : ℕ) (ss : List Segment) (pss : List Payloads) (front back : Payloads) (b : List ℕ)
      → Chain c k ss pss
      → concat pss ≡ front ++ (b ∷ back)
      → off ≡ k + length front
      → Found k ss pss b
  read_in_lem k [] [] front back b h e at =
      absurd (omega (arith, ap length e, length-append front (b ∷ back)))
  read_in_lem k [] (ps ∷ pss) front back b h e at = absurd h
  read_in_lem k (s ∷ rest) [] front back b h e at = absurd h
  read_in_lem k (s ∷ rest) (ps ∷ pss) front back b h e at =
      elim (place ps (concat pss) front back b e) [
        | here behind e' ↦ rw e' (Found-here k s rest pss front behind b (rw e' at h) at)
        | later before e' e'' ↦
            let far : off ≡ k + length ps + length before =
              omega (arith, at, ap length e', length-append ps before) in
            Found-later k s rest ps pss b h (omega (arith, far))
              (read_in_lem (k + length ps) rest pss before back b h.3 e'' far)
      ]

  -- No segment has an offset outside the log.
  read_in_past :
      (k : ℕ) (ss : List Segment) (pss : List Payloads)
      → Chain c k ss pss
      → (off < k) ⊎ (k + length (concat pss) ≤ off)
      → read_in off ss ≡ (err (offset_out_of_range off), ss)
  unfolding read_in
  read_in_past k [] pss h out = refl
  read_in_past k (s ∷ rest) [] h out = absurd h
  read_in_past k (s ∷ rest) (ps ∷ pss) h out = ground (
    arith,
    h.0,
    h.2.counted,
    length-append ps (concat pss),
    read_in_past (k + length ps) rest pss h.3,
  )

module _ ⦃p : Proto⦄ where
  -- Read at the offset of a record answers what protobuf makes of the record's bytes, whichever
  -- segment has it, and the log holds what it held.
  pub log_read :
      (off k : ℕ) (l : Log) (pss : List Payloads) (front back : Payloads) (b : List ℕ)
      → IsLog l k pss
      → concat pss ≡ front ++ (b ∷ back)
      → off ≡ k + length front
      → (l' : Log) × (read off l ≡ (p.unmarshal b, l')) × IsLog l' k pss
  unfolding read
  log_read off k l pss front back b h e at =
      let f = read_in_lem l.config off k l.segments pss front back b h.chain e at in
      (
        record l { segments = f.segments },
        rw f.runs,
        record {
          usable = h.usable;
          chain = f.chained;
          some_segment = f.some_segment;
          present = h.present;
          free = h.free;
        },
      )

  -- Read below the first record or behind the last one is ErrOffsetOutOfRange with that offset, and
  -- changes nothing.
  pub read_out_of_range :
      (off k : ℕ) (l : Log) (pss : List Payloads)
      → IsLog l k pss
      → (off < k) ⊎ (k + length (concat pss) ≤ off)
      → read off l ≡ (err (offset_out_of_range off), l)
  unfolding read
  read_out_of_range off k l pss h out = rw (read_in_past l.config off k l.segments pss h.chain out)
