-- ===== src/Log/Readers.antt =====
-- Log.Append beside readers. It takes the lock for HighestOffset and for the last step, so that other
-- goroutines read between its steps.
pub mod Between
use dislog.Prelude.{
  Run-cases, done, failed, panicked, ℕ, ◌+◌, ◌-◌, List, [], ◌∷◌, ◌++◌, Bool, true, ◌≡◌, refl, sym,
  ap, ◌∙◌, arith, length, Result, ok, err, panic, Exec, pure, lift, gets, ◌>>=◌, ◌>>◌,
  if◌then◌else◌, add64, map, Bool-cases, inl, inr, ltb,
}
use dislog.Api.{Record, Proto}
use dislog.Index.{Gommap}
use dislog.Segment
use dislog.Segment.{Segment}
use dislog.Log.{Log, active, highest_offset, new_segment, on_segments, on_active, append, read}
use dislog.Log.Chain.{Payloads, concat, IsLog}
use dislog.Log.Read.{log_read, read_out_of_range}
use dislog.Log.Roundtrip.{split}
use dislog.Log.History.{read-IsLog, read-config}

-- The steps of Log.Append: what it finds, the new segment, and the record
unfoldable pub append_check : Exec Log (ℕ × Bool)
append_check = do
  highest ← highest_offset
  ss ← gets (λ l. l.segments)
  s ← lift (active ss)
  pure (highest, Segment.is_maxed s)

unfoldable pub append_roll : ⦃g : Gommap⦄ → ℕ × Bool → Exec Log (Unit {0})
append_roll (highest, full) = if full then new_segment (add64 highest 1) else pure tt

unfoldable pub append_write : ⦃p : Proto⦄ → Record → Exec Log ℕ
append_write r = on_segments (on_active (Segment.append r))

-- Reads of other goroutines, one after another
unfoldable pub read_all : ⦃p : Proto⦄ → List ℕ → Log → List (Result Record) × Log
read_all [] l = ([], l)
read_all (off ∷ offs) l =
    let (x, l') = read off l in let (xs, l'') = read_all offs l' in (x ∷ xs, l'')

-- An Append, with the reads that come before its second step and before its third
unfoldable pub roll_after : ⦃g : Gommap⦄ → Result (ℕ × Bool) → Exec Log (Unit {0})
roll_after (ok x) l = append_roll x l
roll_after (err e) l = (err e, l)
roll_after panic l = (panic, l)

unfoldable pub write_after : ⦃p : Proto⦄ → Record → Result (Unit {0}) → Exec Log ℕ
write_after r (ok _) l = append_write r l
write_after r (err e) l = (err e, l)
write_after r panic l = (panic, l)

unfoldable pub append_among :
    ⦃p : Proto⦄ ⦃g : Gommap⦄
    → Record
    → List ℕ
    → List ℕ
    → Log
    → Result ℕ × List (Result Record) × Log
unfolding roll_after write_after
append_among r early late l =
    let (x, l1) = append_check l in
    let (xs, l2) = read_all early l1 in
    let (y, l3) = roll_after x l2 in
    let (ys, l4) = read_all late l3 in let (z, l5) = write_after r y l4 in (z, xs ++ ys, l5)

module _ ⦃p : Proto⦄ ⦃g : Gommap⦄ where
  -- What a log answers depends on its records alone.
  pub same_answer :
      (off k : ℕ) (l m : Log) (pss qss : List Payloads)
      → IsLog l k pss
      → IsLog m k qss
      → concat qss ≡ concat pss
      → (read off m).0 ≡ (read off l).0
  same_answer off k l m pss qss h h' same = elim (Bool-cases (ltb off k)) [
    | inl low ↦
        ap (λ x. x.0) (read_out_of_range off k m qss h' (inl (ground (arith, low))))
        ∙ sym (ap (λ x. x.0) (read_out_of_range off k l pss h (inl (ground (arith, low)))))
    | inr low ↦ elim (Bool-cases (ltb off (k + length (concat pss)))) [
      | inl high ↦
          let s = split (concat pss) (off - k) (ground (arith, low, high)) in
          let at : off ≡ k + length s.front = ground (arith, low, s.count) in
          ap (λ x. x.0) (log_read off k m qss s.front s.back s.elem h' (same ∙ s.whole) at).1
          ∙ sym (ap (λ x. x.0) (log_read off k l pss s.front s.back s.elem h s.whole at).1)
      | inr high ↦
          let past = ap length same in
          ap (λ x. x.0) (read_out_of_range off k m qss h' (inr (ground (arith, high, past))))
          ∙ sym (ap (λ x. x.0) (read_out_of_range off k l pss h (inr (ground (arith, high)))))
    ]
  ]

  -- Reads answer as they would on another log of the same records, and leave the log its records.
  pub reads :
      (offs : List ℕ) (k : ℕ) (l m : Log) (pss qss : List Payloads)
      → IsLog l k pss
      → IsLog m k qss
      → concat qss ≡ concat pss
      → (m' : Log) × (read_all offs m ≡ (map (λ off. (read off l).0) offs, m'))
        × IsLog m' k qss
        × (m'.config ≡ m.config)
  unfolding read_all
  reads [] k l m pss qss h h' same = (m, refl, h', refl)
  reads (off ∷ offs) k l m pss qss h h' same =
      let (m', e, h'', conf) =
        reads offs k l (read off m).1 pss qss h (read-IsLog m.config off k m qss h') same in
      (
        m',
        rw (e, same_answer off k l m pss qss h h' same) refl,
        h'',
        conf ∙ read-config m.config off m,
      )

module _ ⦃p : Proto⦄ ⦃g : Gommap⦄ (r : Record) where
  abbrev alone : Result ℕ × Log → Result ℕ × List (Result Record) × Log
  alone (x, l) = (x, [], l)

  rolled_alone :
      (l m : Log) (highest : ℕ) (s : Segment)
      → highest_offset l ≡ (ok highest, m)
      → active m.segments ≡ ok s
      → Segment.is_maxed s ≡ true
      → append_among r [] [] l ≡ alone (append r l)
  unfolding append_among append roll_after write_after append_check append_roll append_write
      read_all
  rolled_alone l m highest s e a full = elim (Run-cases (new_segment (add64 highest 1) m)) [
    | done _ t f ↦ rw (e, a, full) (rw f refl)
    | failed x t f ↦ rw (e, a, full) (rw f refl)
    | panicked t f ↦ rw (e, a, full) (rw f refl)
  ]

  -- With no reads in between, the steps are those of Log.Append.
  append_among-nil : (l : Log) → append_among r [] [] l ≡ alone (append r l)
  unfolding append_among append roll_after write_after append_check append_roll append_write
      read_all
  append_among-nil l = elim (Run-cases (highest_offset l)) [
    | done highest m e ↦ elim (Run-cases (active m.segments, m)) [
      | done s m' e' ↦
          let a : active m.segments ≡ ok s = ap (λ x. x.0) e' in
          elim (Bool-cases (Segment.is_maxed s)) [
            | inl full ↦ rolled_alone l m highest s e a full
            | inr full ↦ rw (e, a, full) refl
          ]
      | failed x m' e' ↦ rw (e, ap (λ x. x.0) e') refl
      | panicked m' e' ↦ rw (e, ap (λ x. x.0) e') refl
    ]
    | failed x m e ↦ rw e refl
    | panicked m e ↦ rw e refl
  ]
