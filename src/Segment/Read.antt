-- ===== src/Segment/Read.antt =====
-- segment.Read: every record of the segment is read back from its offset.
use dislog.Prelude.{
  ℕ, ◌+◌, ◌^◌, ◌<◌, List, [], ◌∷◌, ◌++◌, ◌≡◌, refl, sym, ap, ◌∙◌, arith, length, length-append, ok,
  ◌⊎◌, inl, inr, sub64,
}
use dislog.Api.{Proto}
use dislog.Store.Append.{frame}
use dislog.Store.Read as StoreRead
use dislog.Index
use dislog.Index.{Index, minus_one}
use dislog.Index.Entries.{Lists}
use dislog.Index.Reading
use dislog.Segment.{Segment, read}
use dislog.Segment.Layout.{
  frames, layout, frames-middle, length-layout, layout-middle, layout-nil, IsSegment,
}

-- A number that names the record behind `front`: its own, or -1 if it is the last.
abbrev pub NamesRecord : ℕ → List (List ℕ) → List (List ℕ) → Type 0
NamesRecord m front back = (m ≡ length front) ⊎ ((m ≡ minus_one) × (back ≡ []))

-- The index entry of the record behind `front`: its number, and where its frame begins.
pub entry_lem :
    (m : ℕ) (front back : List (List ℕ)) (b : List ℕ) {i : Index}
    → Lists i (layout 0 0 (front ++ (b ∷ back)))
    → length (front ++ (b ∷ back)) < 2 ^ 32
    → length (frames (front ++ (b ∷ back))) < 2 ^ 63
    → NamesRecord m front back
    → Index.read m i ≡ (ok (length front, length (frames front)), i)
entry_lem m front back b {i} h few fits named =
    Reading.index_read m (layout 0 0 front) rest n at (rw split at h)
      (omega (arith, few, length-layout 0 0 (front ++ (b ∷ back)), ap length split))
      (omega (arith, few, length-append front (b ∷ back)))
      (omega (
        arith,
        fits,
        ap length (frames-middle front back b),
        length-append (frames front) (frame b ++ frames back),
      ))
      (names named)
  where
    n : ℕ
    n = length front

    at : ℕ
    at = length (frames front)

    rest : List (ℕ × ℕ)
    rest = layout (n + 1) (at + length (frame b)) back

    split : layout 0 0 (front ++ (b ∷ back)) ≡ layout 0 0 front ++ ((n, at) ∷ rest)
    split = layout-middle n at front back b refl refl

    names : NamesRecord m front back → Reading.Names m (layout 0 0 front) rest
    names (inl e) = inl (e ∙ sym (length-layout 0 0 front))
    names (inr (e, none_left)) =
        inr (e, ap (layout (n + 1) (at + length (frame b))) none_left ∙ layout-nil _ _)

module _ ⦃p : Proto⦄ where
  -- The record behind `front` is read at the base offset plus its number; what is answered is what
  -- protobuf makes of its bytes, and the segment holds what it held.
  pub segment_read :
      (off : ℕ) (front back : List (List ℕ)) (b : List ℕ) {s : Segment}
      → IsSegment s (front ++ (b ∷ back))
      → off ≡ s.base_offset + length front
      → (s' : Segment) × (read off s ≡ (p.unmarshal b, s'))
        × IsSegment s' (front ++ (b ∷ back))
        × (s'.base_offset ≡ s.base_offset)
        × (s'.next_offset ≡ s.next_offset)
        × (s'.config ≡ s.config)
  unfolding read
  segment_read off front back b {s} h e =
      let c : List ℕ = frames (front ++ (b ∷ back)) in
      (
        record s { store = StoreRead.flushed_store s.store c },
        rw (
          entry_lem (sub64 off s.base_offset) front back b h.indexed h.sparse h.stored.fits
              (inl (omega (arith, h.counted, h.in_range, length-append front (b ∷ back)))),
          StoreRead.read_frame (frames front) b (frames back) h.stored (frames-middle front back b),
        ),
        record {
          stored = StoreRead.flushed_store-IsSound h.stored;
          indexed = h.indexed;
          counted = h.counted;
          in_range = h.in_range;
          sparse = h.sparse;
          capacity = h.capacity;
        },
        refl,
        refl,
        refl,
      )
