-- ===== src/Log/Limits.antt =====
-- How far the segments of a log outgrow MaxStoreBytes: by less than one record.
use dislog.Prelude.{ℕ, ◌+◌, ◌≤◌, ◌<◌, List, [], ◌∷◌, ◌++◌, ap, arith, length, length-append}
use dislog.Store.Append.{length-frame}
use dislog.Segment.{Config}
use dislog.Segment.Layout.{frames, frames-append, frames_single, frames-nil}
use dislog.Log.Chain.{Payloads}

-- No record has more than `w` bytes.
abbrev pub AtMost : ℕ → Payloads → Type 0
AtMost w [] = Unit {0}
AtMost w (b ∷ bs) = (length b ≤ w) × AtMost w bs

pub AtMost-init :
    (w : ℕ) (bs : Payloads) (b : List ℕ) → AtMost w (bs ++ (b ∷ [])) → AtMost w bs × (length b ≤ w)
AtMost-init w [] b h = (tt, h.0)
AtMost-init w (x ∷ bs) b h = let (front, last) = AtMost-init w bs b h.1 in ((h.0, front), last)

-- The frames of each segment stay below MaxStoreBytes and the frame of one record of `w` bytes.
abbrev pub Tight : Config → ℕ → List Payloads → Type 0
Tight c w [] = Unit {0}
Tight c w (ps ∷ pss) = (length (frames ps) < c.max_store_bytes + w + 8) × Tight c w pss

pub Tight-empty : (c : Config) (w : ℕ) → 0 < c.max_store_bytes → Tight c w ([] ∷ [])
Tight-empty c w some_store = (omega (arith, ap length frames-nil, some_store), tt)

pub Tight-snoc :
    (c : Config) (w : ℕ) (pss : List Payloads)
    → 0 < c.max_store_bytes
    → Tight c w pss
    → Tight c w (pss ++ ([] ∷ []))
Tight-snoc c w [] some_store h = Tight-empty c w some_store
Tight-snoc c w (ps ∷ pss) some_store h = (h.0, Tight-snoc c w pss some_store h.1)

-- One record more, in a segment that had room.
pub Tight-grown :
    (c : Config) (w : ℕ) (ps : Payloads) (b : List ℕ)
    → length (frames ps) < c.max_store_bytes
    → length b ≤ w
    → Tight c w ((ps ++ (b ∷ [])) ∷ [])
Tight-grown c w ps b room short = (
  omega (
    arith,
    room,
    short,
    length-frame b,
    ap length (frames_single b),
    ap length (frames-append ps (b ∷ [])),
    length-append (frames ps) (frames (b ∷ [])),
  ),
  tt,
)
