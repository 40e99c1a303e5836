-- ===== src/Log/Starts.antt =====
-- Where the segments of a log begin, and that only the last one can be empty.
use dislog.Prelude.{
  ℕ, ◌+◌, ◌<◌, List, [], ◌∷◌, ◌++◌, ◌≡◌, ◌≢◌, refl, ap, arith, length, length-append, ◌⊎◌, inl, inr,
  ok, panic-ne-ok,
}
use dislog.Segment.{Segment, Config}
use dislog.Log.{active}
use dislog.Log.Chain.{Payloads, concat, Chain}
use dislog.Log.Filed.{Below}

-- Where the segments begin.
abbrev pub starts : ℕ → List Payloads → List ℕ
starts k [] = []
starts k (ps ∷ pss) = k ∷ starts (k + length ps) pss

-- Every segment but the last one has a record.
abbrev pub Filled : List Payloads → Type 0
Filled [] = Unit {0}
Filled (ps ∷ []) = Unit {0}
Filled (ps ∷ qs ∷ pss) = (0 < length ps) × Filled (qs ∷ pss)

pub Filled-first :
    (k : ℕ) (ps : Payloads) (pss : List Payloads)
    → Filled (ps ∷ pss)
    → (k < k + length ps) ⊎ (pss ≡ [])
Filled-first k ps [] h = inr refl
Filled-first k ps (qs ∷ pss) h = inl (omega (arith, h.0))

pub Filled-rest : (ps : Payloads) (pss : List Payloads) → Filled (ps ∷ pss) → Filled pss
Filled-rest ps [] h = tt
Filled-rest ps (qs ∷ pss) h = h.1

pub Filled-cons :
    (ps : Payloads) (pss qss : List Payloads)
    → Filled (ps ∷ pss)
    → pss ≢ []
    → Filled qss
    → Filled (ps ∷ qss)
Filled-cons ps [] qss h ne f = absurd (ne refl)
Filled-cons ps (qs ∷ pss) [] h ne f = tt
Filled-cons ps (qs ∷ pss) (rs ∷ qss) h ne f = (h.0, f)

-- Every segment has a record.
abbrev pub AllFilled : List Payloads → Type 0
AllFilled [] = Unit {0}
AllFilled (ps ∷ pss) = (0 < length ps) × AllFilled pss

-- Where the active segment has a record, all have one.
pub active-AllFilled :
    (c : Config) (k : ℕ) (ss : List Segment) (pss : List Payloads) (a : Segment)
    → Chain c k ss pss
    → active ss ≡ ok a
    → a.base_offset < a.next_offset
    → Filled pss
    → AllFilled pss
unfolding active
active-AllFilled c k [] pss a h e some f = absurd (panic-ne-ok e)
active-AllFilled c k (s ∷ []) [] a h e some f = absurd h
active-AllFilled c k (s ∷ []) (ps ∷ qs ∷ pss) a h e some f = absurd h.3
active-AllFilled c k (s ∷ []) (ps ∷ []) a h e some f =
    let same : s ≡ a = cc in
    (
      omega (
        arith,
        h.2.counted,
        ap (λ (x : Segment). x.base_offset) same,
        ap (λ (x : Segment). x.next_offset) same,
        some,
      ),
      tt,
    )
active-AllFilled c k (s ∷ t ∷ rest) [] a h e some f = absurd h
active-AllFilled c k (s ∷ t ∷ rest) (ps ∷ []) a h e some f = absurd h.3
active-AllFilled c k (s ∷ t ∷ rest) (ps ∷ qs ∷ pss) a h e some f =
    (f.0, active-AllFilled c (k + length ps) (t ∷ rest) (qs ∷ pss) a h.3 e some f.1)

pub AllFilled-Below :
    (n k : ℕ) (pss : List Payloads)
    → AllFilled pss
    → k + length (concat pss) ≡ n
    → Below n (starts k pss)
AllFilled-Below n k [] h at = tt
AllFilled-Below n k (ps ∷ pss) h at =
    let len = length-append ps (concat pss) in
    (
      omega (arith, h.0, at, len),
      AllFilled-Below n (k + length ps) pss h.1 (omega (arith, at, len)),
    )

pub Filled-snoc : (pss : List Payloads) → AllFilled pss → Filled (pss ++ ([] ∷ []))
Filled-snoc [] h = tt
Filled-snoc (ps ∷ []) h = (h.0, tt)
Filled-snoc (ps ∷ qs ∷ pss) h = (h.0, Filled-snoc (qs ∷ pss) h.1)

pub starts-snoc :
    (n k : ℕ) (pss : List Payloads)
    → k + length (concat pss) ≡ n
    → starts k (pss ++ ([] ∷ [])) ≡ starts k pss ++ (n ∷ [])
starts-snoc n k [] at = ap (λ (x : ℕ). x ∷ []) (omega (arith, at))
starts-snoc n k (ps ∷ pss) at =
    ap (λ t. k ∷ t)
      (starts-snoc n (k + length ps) pss (omega (arith, at, length-append ps (concat pss))))
