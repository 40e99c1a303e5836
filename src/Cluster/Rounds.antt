-- ===== src/Cluster/Rounds.antt =====
-- The rounds of fsm.Restore end on every stream.
use dislog.Prelude.{
  ℕ, zero, suc, ◌+◌, ◌^◌, ◌≤◌, ◌<◌, List, [], ◌∷◌, Bool, true, false, ◌≡◌, refl, ap, arith, length,
  length-drop, drop, take, leb, ltb, Result, ok, err, panic, eof, unexpected_eof, Exec, ◌>>=◌, ◌>>◌,
  Bool-cases, inl, inr, Error, Run-cases, done, failed, panicked,
}
use dislog.Prelude.Bytes.{uint}
use dislog.Store.{len_width}
use dislog.Api.{Record, Proto}
use dislog.Index.{Gommap}
use dislog.Log
use dislog.Log.{Log}
use dislog.Cluster.{
  Frame, frame, at_end, next_frame, payload, decoded, begin, restore_frame, restore, restore_loop,
}

decoded_rest :
    (x : Result Record) (s rest : List ℕ) (r : Record) → decoded x s ≡ ok (frame r rest) → s ≡ rest
unfolding decoded
decoded_rest (ok y) s rest r h = cc
decoded_rest (err e) s rest r h = cc
decoded_rest panic s rest r h = cc

module _ ⦃p : Proto⦄ where
  payload-shorter :
      (size : ℕ) (s rest : List ℕ) (r : Record)
      → payload size s ≡ ok (frame r rest)
      → length rest ≤ length s
  unfolding payload
  payload-shorter size s rest r h = elim (Bool-cases (leb (2 ^ 63) size)) [
    | inl big ↦
        let same = decoded_rest (p.unmarshal []) s rest r (rw big at h) in
        omega (arith, ap length same)
    | inr big ↦ elim (Bool-cases (ltb (length s) size)) [
      | inl short ↦ let bad : payload size s ≡ err eof = rw (big, short) refl in cc
      | inr short ↦
          let same =
            decoded_rest (p.unmarshal (take size s)) (drop size s) rest r (rw (big, short) at h) in
          omega (arith, ap length same, length-drop size s)
    ]
  ]

  -- A round that finds a record takes eight bytes at least.
  next_frame-shorter :
      (stream rest : List ℕ) (r : Record)
      → next_frame stream ≡ ok (frame r rest)
      → length rest + 8 ≤ length stream
  unfolding next_frame
  next_frame-shorter [] rest r h = cc
  next_frame-shorter (x ∷ xs) rest r h = elim (Bool-cases (ltb (length (x ∷ xs)) len_width)) [
    | inl short ↦ let bad : next_frame (x ∷ xs) ≡ err unexpected_eof = rw short refl in cc
    | inr short ↦
        let less =
          payload-shorter (uint (take len_width (x ∷ xs))) (drop len_width (x ∷ xs)) rest r
            (rw short at h) in
        ground (arith, less, short, length-drop len_width (x ∷ xs))
  ]

module _ ⦃p : Proto⦄ ⦃g : Gommap⦄ where
  -- A run of the rounds of Restore that comes to an end, with its result: the stream is over or broken,
  -- a record is refused, or one is appended and the rounds go on behind it.
  pub data Ends : Bool → List ℕ → Log → Result (Unit {0}) × Log → Type 0 where
    over :
        (first : Bool) (stream : List ℕ) (l : Log)
        → next_frame stream ≡ ok at_end
        → Ends first stream l (ok tt, l)
    broken :
        (first : Bool) (stream : List ℕ) (l : Log) (e : Error)
        → next_frame stream ≡ err e
        → Ends first stream l (err e, l)
    broke_down :
        (first : Bool) (stream : List ℕ) (l : Log)
        → next_frame stream ≡ panic
        → Ends first stream l (panic, l)
    refused :
        (first : Bool) (stream rest : List ℕ) (r : Record) (l l' : Log) (e : Error)
        → next_frame stream ≡ ok (frame r rest)
        → (begin first r >> Log.append r) l ≡ (err e, l')
        → Ends first stream l (err e, l')
    panicked_in :
        (first : Bool) (stream rest : List ℕ) (r : Record) (l l' : Log)
        → next_frame stream ≡ ok (frame r rest)
        → (begin first r >> Log.append r) l ≡ (panic, l')
        → Ends first stream l (panic, l')
    goes_on :
        (first : Bool) (stream rest : List ℕ) (r : Record) (off : ℕ) (l l' : Log)
        → {out : Result (Unit {0}) × Log} → next_frame stream ≡ ok (frame r rest)
        → (begin first r >> Log.append r) l ≡ (ok off, l')
        → Ends false rest l' out
        → Ends first stream l out

  one_round :
      (first : Bool) (r : Record) (next : Exec Log (Unit {0})) (l : Log)
      → (begin first r >> (Log.append r >>= λ _. next)) l
        ≡ ((begin first r >> Log.append r) >>= λ _. next) l
  one_round first r next l = elim (Run-cases (begin first r l)) [
    | done _ m e ↦ rw e refl
    | failed x m e ↦ rw e refl
    | panicked m e ↦ rw e refl
  ]

  -- A round, whose frame is `x`, and the rounds behind it.
  round-Ends :
      (fuel : ℕ) (first : Bool) (stream : List ℕ) (l : Log) (x : Result Frame)
      → ((rest : List ℕ) (m : Log)
          → length rest + 8 ≤ length stream
          → Ends false rest m (restore_loop fuel false rest m))
      → next_frame stream ≡ x
      → Ends first stream l (restore_loop (suc fuel) first stream l)
  unfolding restore_loop restore_frame
  round-Ends fuel first stream l (ok at_end) behind e = rw e (over first stream l e)
  round-Ends fuel first stream l (ok (frame r rest)) behind e =
      let run = restore_loop fuel false rest in
      rw e (
        rw (one_round first r run l) (elim (Run-cases ((begin first r >> Log.append r) l)) [
          | done off m runs ↦ rw runs (
              goes_on first stream rest r off l m e runs
                (behind rest m (next_frame-shorter stream rest r e)))
          | failed x m runs ↦ rw runs (refused first stream rest r l m x e runs)
          | panicked m runs ↦ rw runs (panicked_in first stream rest r l m e runs)
        ]))
  round-Ends fuel first stream l (err x) behind e = rw e (broken first stream l x e)
  round-Ends fuel first stream l panic behind e = rw e (broke_down first stream l e)

  rounds-End :
      (fuel : ℕ) (first : Bool) (stream : List ℕ) (l : Log)
      → length stream < fuel
      → Ends first stream l (restore_loop fuel first stream l)
  rounds-End zero first stream l h = absurd (omega (arith, h))
  rounds-End (suc fuel) first stream l h =
      round-Ends fuel first stream l (next_frame stream)
        (λ rest m less. rounds-End fuel false rest m (omega (arith, less, h))) refl

  -- The rounds of Restore end on every stream, a broken one too, and on every log, whether the first
  -- round resets the log or none does: where more rounds are allowed than the stream has bytes, there is
  -- a run of the rounds that comes to an end, and its result is the one computed. So Restore, which
  -- allows one round more than bytes, has the result of such a run.
  pub restore_loop-Ends :
      (fuel : ℕ) (first : Bool) (stream : List ℕ) (l : Log)
      → length stream < fuel
      → Ends first stream l (restore_loop fuel first stream l)
        × Ends true stream l (restore stream l)
  unfolding restore
  restore_loop-Ends fuel first stream l h = (
    rounds-End fuel first stream l h,
    rounds-End (suc (length stream)) true stream l (omega arith),
  )
