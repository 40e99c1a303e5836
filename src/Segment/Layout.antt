-- ===== src/Segment/Layout.antt =====
-- What a segment holds, as the list of its records' bytes: the store has their frames one after the
-- other, and the index the number and the position of each.
use dislog.Prelude.{
  ℕ, suc, ◌+◌, ◌^◌, ◌<◌, List, [], ◌∷◌, ◌++◌, ◌≡◌, refl, sym, ap, ap₂, ◌∙◌, arith, length,
  length-append, append_assoc, append-nil,
}
use dislog.Store.Append.{frame, length-frame}
use dislog.Store.Append
use dislog.Index.Entries.{Lists}
use dislog.Segment.{Segment}

unfoldable pub frames : List (List ℕ) → List ℕ
frames [] = []
frames (p ∷ ps) = frame p ++ frames ps

-- The entries of the records `ps`, from the number `k` and the position `pos` on.
pub layout : ℕ → ℕ → List (List ℕ) → List (ℕ × ℕ)
layout k pos [] = []
layout k pos (p ∷ ps) = (k, pos) ∷ layout (k + 1) (pos + length (frame p)) ps

pub frames-append : (ps qs : List (List ℕ)) → frames (ps ++ qs) ≡ frames ps ++ frames qs
unfolding frames
frames-append [] qs = refl
frames-append (p ∷ ps) qs =
    ap (λ t. frame p ++ t) (frames-append ps qs)
    ∙ sym (append_assoc (frame p) (frames ps) (frames qs))

pub frames_single : (p : List ℕ) → frames (p ∷ []) ≡ frame p
unfolding frames
frames_single p = append-nil (frame p)

pub frames-middle :
    (front back : List (List ℕ)) (p : List ℕ)
    → frames (front ++ (p ∷ back)) ≡ frames front ++ (frame p ++ frames back)
unfolding frames
frames-middle front back p = frames-append front (p ∷ back)

pub length-layout : (k pos : ℕ) (ps : List (List ℕ)) → length (layout k pos ps) ≡ length ps
unfolding layout
length-layout k pos [] = refl
length-layout k pos (p ∷ ps) = ap suc (length-layout (k + 1) (pos + length (frame p)) ps)

-- The entries before and behind those of `front`.
pub layout-append :
    (k pos m at : ℕ) (front back : List (List ℕ))
    → m ≡ k + length front
    → at ≡ pos + length (frames front)
    → layout k pos (front ++ back) ≡ layout k pos front ++ layout m at back
unfolding layout frames
layout-append k pos m at [] back h e =
    ap₂ (λ (x y : ℕ). layout x y back) (omega arith) (omega arith)
layout-append k pos m at (p ∷ front) back h e =
    ap (λ t. (k, pos) ∷ t)
      (layout-append (k + 1) (pos + length (frame p)) m at front back (omega arith)
        (omega (arith, length-append (frame p) (frames front))))

-- The entry of one more record.
pub layout_snoc :
    (n : ℕ) (ps : List (List ℕ)) (p : List ℕ)
    → n ≡ length ps
    → layout 0 0 (ps ++ (p ∷ [])) ≡ layout 0 0 ps ++ ((n, length (frames ps)) ∷ [])
unfolding layout
layout_snoc n ps p h =
    layout-append 0 0 n (length (frames ps)) ps (p ∷ []) (omega arith) (omega arith)

pub frames-nil : frames [] ≡ []
unfolding frames
frames-nil = refl

pub layout-nil : (k pos : ℕ) → layout k pos [] ≡ []
unfolding layout
layout-nil k pos = refl

-- The entry of the record behind `front`.
pub layout-middle :
    (n at : ℕ) (front back : List (List ℕ)) (p : List ℕ)
    → n ≡ length front
    → at ≡ length (frames front)
    → layout 0 0 (front ++ (p ∷ back))
      ≡ layout 0 0 front ++ ((n, at) ∷ layout (n + 1) (at + length (frame p)) back)
unfolding layout
layout-middle n at front back p h e =
    layout-append 0 0 n at front (p ∷ back) (omega arith) (omega arith)

-- The segment's store holds the frames of `ps`, its index their entries, and the next offset counts
-- them; the store stays below 2 ^ 62 bytes and the offsets below 2 ^ 63.
pub record IsSegment (s : Segment) (ps : List (List ℕ)) : Type 0 where
  pub stored : Append.IsSound s.store (frames ps)
  pub indexed : Lists s.index (layout 0 0 ps)
  pub counted : s.next_offset ≡ s.base_offset + length ps
  pub in_range : s.next_offset < 2 ^ 63
  pub sparse : length ps < 2 ^ 32
  pub capacity : length s.index.mmap ≡ s.config.max_index_bytes
