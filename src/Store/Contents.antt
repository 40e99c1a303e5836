-- ===== src/Store/Contents.antt =====
-- What a store holds: the bytes of its file with those that still wait in the buffer, and the
-- writer's calls on a file that accepts writes.
use dislog.Prelude.{
  ℕ, ◌-◌, List, [], ◌∷◌, ◌++◌, false, ◌≡◌, refl, sym, ap, Exec, ok, leb, length, take, drop,
  take-append-drop, append_assoc, append-nil, Bool-cases, inl, inr,
}
use dislog.Store.{opened, Writer, buf_size, flush, write_rest, write}

-- An open file that takes writes, under a writer that never failed.
abbrev pub working : List ℕ → List ℕ → Writer
working bs waiting = record { file = opened bs; buffered = waiting; failed = false }

-- The writer works, and its file and its buffer together hold the bytes `c`.
pub record Holds (w : Writer) (c : List ℕ) : Type 0 where
  pub on_disk : List ℕ
  pub waiting : List ℕ
  pub works : w ≡ working on_disk waiting
  pub joined : on_disk ++ waiting ≡ c

pub working-Holds : (bs b : List ℕ) → Holds (working bs b) (bs ++ b)
working-Holds bs b = record { on_disk = bs; waiting = b; works = refl; joined = refl }

-- `m` succeeds on `w` and leaves a working writer that holds `c`.
abbrev pub Leaves : Exec Writer (Unit {0}) → Writer → List ℕ → Type 0
Leaves m w c = (w' : Writer) × (m w ≡ (ok tt, w')) × Holds w' c

flush-working : (bs b : List ℕ) → flush (working bs b) ≡ (ok tt, working (bs ++ b) [])
unfolding flush
flush-working bs [] = rw append-nil
flush-working bs (x ∷ b) = refl

-- Flushing a working writer succeeds, empties the buffer and loses nothing.
pub flush_lem : {w : Writer} {c : List ℕ} → Holds w c → flush w ≡ (ok tt, working c [])
flush_lem h = rw (h.works, ← h.joined) (flush-working h.on_disk h.waiting)

write_rest-working : (bs p : List ℕ) → Leaves (write_rest p) (working bs []) (bs ++ p)
unfolding write_rest
write_rest-working bs p = elim (Bool-cases (leb (length p) buf_size)) [
  | inl t ↦ (working bs p, rw t, working-Holds bs p)
  | inr t ↦ (
    working (bs ++ p) [],
    rw t,
    record { on_disk = bs ++ p; waiting = []; works = refl; joined = append-nil _ },
  )
]

-- The buffer filled up and flushed, with the rest of `p` behind it.
fill_joins : (bs b p : List ℕ) (room : ℕ) → bs ++ (b ++ take room p) ++ drop room p ≡ bs ++ b ++ p
fill_joins bs b p room = simp append_assoc (ap (λ t. bs ++ (b ++ t)) (take-append-drop room p))

module _ (bs p : List ℕ) where
  write-large :
      (b : List ℕ)
      → leb (length p) (buf_size - length b) ≡ false
      → Leaves (write p) (working bs b) (bs ++ b ++ p)
  unfolding write
  write-large [] t = (
    working (bs ++ p) [],
    rw t,
    record { on_disk = bs ++ p; waiting = []; works = refl; joined = rw (append-nil, append-nil) },
  )
  write-large (x ∷ b) t =
      let room = buf_size - length (x ∷ b) in
      rw (t, ← fill_joins bs (x ∷ b) p room)
        (write_rest-working (bs ++ ((x ∷ b) ++ take room p)) (drop room p))

  write-working : (b : List ℕ) → Leaves (write p) (working bs b) (bs ++ b ++ p)
  unfolding write
  write-working b = elim (Bool-cases (leb (length p) (buf_size - length b))) [
    | inl t ↦ (
      working bs (b ++ p),
      rw t,
      record { on_disk = bs; waiting = b ++ p; works = refl; joined = sym (append_assoc bs b p) },
    )
    | inr t ↦ write-large b t
  ]

-- Writing to a working writer succeeds, whatever the length, and puts the bytes behind the others.
pub writer_write : (p : List ℕ) {w : Writer} {c : List ℕ} → Holds w c → Leaves (write p) w (c ++ p)
writer_write p h = rw (h.works, ← h.joined) (write-working h.on_disk p h.waiting)
