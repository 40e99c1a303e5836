-- ===== src/Cluster/Fsm.antt =====
-- The finite state machine of Raft: entries applied to the log, and snapshots restored.
use dislog.Prelude.{
  ℕ, ◌^◌, arith, List, [], ◌∷◌, true, false, ◌≡◌, ◌≢◌, refl, ltb, leb, length, take, drop,
  Bool-cases, inl, inr, Result, ok, err, panic, Error, Run-cases, done, failed, panicked, Exec,
  lift, ◌>>=◌, ◌>>◌,
}
use dislog.Prelude.Bytes.{uint}
use dislog.Store.{len_width}
use dislog.Api.{Record, Proto, ProtoRequest}
use dislog.Index.{Gommap}
use dislog.Log
use dislog.Log.{Log}
use dislog.Log.Reset.{reset-ne-ok}
use dislog.Cluster.{
  Raft, Frame, frame, at_end, append, fsm_apply, apply_append, answer, apply_record, response,
  offset_of, apply, next_frame, payload, decoded, begin, restore_frame, restore, restore_loop,
}

module _ ⦃p : Proto⦄ ⦃q : ProtoRequest⦄ ⦃g : Gommap⦄ (raft : Raft Log) (r : Record)
    (b : List ℕ) where
  module _ (applies : (entry : List ℕ) (m : Log) → raft.apply entry m ≡ fsm_apply entry m)
      (enc : q.marshal r ≡ ok b) where
    -- The entry of an Append, applied.
    applied : (l : Log) → raft.apply (0 ∷ b) l ≡ answer (Log.append r l)
    unfolding fsm_apply apply_append apply_record
    applied l = rw (applies (0 ∷ b) l, q.unmarshal-marshal r b enc)

    append_done :
        (l l' : Log) (off : ℕ) → Log.append r l ≡ (ok off, l') → append raft r l ≡ (ok off, l')
    unfolding append apply response offset_of answer
    append_done l l' off h = rw (enc, applied l, h)

    append_failed :
        (l l' : Log) (e : Error) → Log.append r l ≡ (err e, l') → append raft r l ≡ (err e, l')
    unfolding append apply response offset_of answer
    append_failed l l' e h = rw (enc, applied l, h)

    append_panicked : (l l' : Log) → Log.append r l ≡ (panic, l') → append raft r l ≡ (panic, l')
    unfolding append apply response offset_of answer
    append_panicked l l' h = rw (enc, applied l, h)

    -- With Raft applying the entry to the log of this node, and a request that protobuf can encode,
    -- DistributedLog.Append is Log.Append on the record of the request: the same answer, the same
    -- error, the same log after it.
    pub append_applies : (l : Log) → append raft r l ≡ Log.append r l
    append_applies l = elim (Run-cases (Log.append r l)) [
      | done off m h ↦ rw h (append_done l m off h)
      | failed e m h ↦ rw h (append_failed l m e h)
      | panicked m h ↦ rw h (append_panicked l m h)
    ]

module _ ⦃p : Proto⦄ where
  decoded-ne-at_end : (x : Result Record) (rest : List ℕ) → decoded x rest ≢ ok at_end
  unfolding decoded
  decoded-ne-at_end (ok r) rest h = cc
  decoded-ne-at_end (err e) rest h = cc
  decoded-ne-at_end panic rest h = cc

  payload-ne-at_end : (size : ℕ) (stream : List ℕ) → payload size stream ≢ ok at_end
  unfolding payload
  payload-ne-at_end size stream h = elim (Bool-cases (leb (2 ^ 63) size)) [
    | inl e ↦ decoded-ne-at_end (p.unmarshal []) stream (rw (← h, e))
    | inr e ↦ elim (Bool-cases (ltb (length stream) size)) [
      | inl f ↦ ground (arith, e, f, h)
      | inr f ↦
          decoded-ne-at_end (p.unmarshal (take size stream)) (drop size stream) (rw (← h, e, f))
    ]
  ]

module _ ⦃p : Proto⦄ ⦃g : Gommap⦄ where
  begin-ne-ok : (r : Record) (l l' : Log) → begin true r l ≢ (ok tt, l')
  unfolding begin
  begin-ne-ok r l l' h = reset-ne-ok _ l' h

  stopped :
      (next : Exec Log (Unit {0})) (r : Record) (l l' : Log)
      → (begin true r >> next) l ≢ (ok tt, l')
  stopped next r l l' h = elim (Run-cases (begin true r l)) [
    | done t m e ↦ begin-ne-ok r l m e
    | failed x m e ↦ let same : (begin true r >> next) l ≡ (err x, m) = rw e in cc
    | panicked m e ↦ let same : (begin true r >> next) l ≡ (panic, m) = rw e in cc
  ]

  framed-ne-ok :
      (x : Result Frame) (next : List ℕ → Exec Log (Unit {0})) (l l' : Log)
      → x ≢ ok at_end
      → (lift x >>= restore_frame next true) l ≢ (ok tt, l')
  unfolding restore_frame
  framed-ne-ok (ok at_end) next l l' ne h = ne refl
  framed-ne-ok (ok (frame r rest)) next l l' ne h =
      stopped (Log.append r >>= λ _. next rest) r l l' h
  framed-ne-ok (err e) next l l' ne h = cc
  framed-ne-ok panic next l l' ne h = cc

  next_frame-ne-at_end : (x : ℕ) (xs : List ℕ) → next_frame (x ∷ xs) ≢ ok at_end
  unfolding next_frame
  next_frame-ne-at_end x xs h = elim (Bool-cases (ltb (length (x ∷ xs)) len_width)) [
    | inl e ↦ ground (arith, e, h)
    | inr e ↦
        payload-ne-at_end (uint (take len_width (x ∷ xs))) (drop len_width (x ∷ xs)) (rw (← h, e))
  ]

  -- Restoring a snapshot that is not empty never succeeds, whatever the bytes and the log: before the
  -- first record is appended the log is reset, and a reset fails.
  pub restore-ne-ok : (stream : List ℕ) (l l' : Log) → stream ≢ [] → restore stream l ≢ (ok tt, l')
  unfolding restore restore_loop
  restore-ne-ok [] l l' ne h = ne refl
  restore-ne-ok (x ∷ xs) l l' ne h =
      framed-ne-ok (next_frame (x ∷ xs)) (restore_loop (length (x ∷ xs)) false) l l'
        (next_frame-ne-at_end x xs) h
