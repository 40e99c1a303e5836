-- ===== src/Grpc/Streams.antt =====
-- The two streaming RPCs: what the client gets, and how they end.
use dislog.Prelude.{
  suc, lt→ltb, err-ne-ok, ◌-◌, ℕ, ◌+◌, ◌≤◌, List, [], ◌∷◌, ◌++◌, true, String, ◌≡◌, refl, sym, ap,
  ◌∙◌, arith, length, append_assoc, append-nil, Result, ok, err, panic, Error, offset_out_of_range,
  add64, ltb, Bool-cases, inl, inr,
}
use dislog.Api.{Record}
use dislog.Grpc.{
  CommitLog, Enforcer, Client, consume, produce, produce_stream, consume_stream, consume_round,
  consume_action, produce_action, object_wildcard,
}

-- The records `rs` are those of the offsets from `off` on, by `Q`.
abbrev pub Consecutive : (ℕ → Record → Type 0) → ℕ → List Record → Type 0
Consecutive Q off [] = Unit
Consecutive Q off (r ∷ rs) = Q off r × Consecutive Q (add64 off 1) rs

module _ {S : Type 0} (log : CommitLog S) (enforce : Enforcer) (subject : String) where
  -- What a stream sent: the records behind those that the client had.
  pub record Sends (Q : ℕ → Record → Type 0) (off : ℕ) (c c' : Client Record) : Type 0 where
    pub records : List Record
    pub behind : c'.sent ≡ c.sent ++ records
    pub in_order : Consecutive Q off records

  module _ (Q : ℕ → Record → Type 0)
      (reads : (off : ℕ) (s : S) (r : Record) (s' : S)
        → log.read off s ≡ (ok r, s')
        → Q off r) where
    consume-Q :
        (off : ℕ) (s s' : S) (r : Record) → consume log enforce subject off s ≡ (ok r, s') → Q off r
    unfolding consume
    consume-Q off s s' r h = elim (Bool-cases (enforce subject object_wildcard consume_action)) [
      | inl e ↦ reads off s r s' (rw e at h)
      | inr e ↦ absurd (err-ne-ok (ap (λ x. x.0) (rw e at h)))
    ]

    Sends-nothing : (off : ℕ) (c : Client Record) → Sends Q off c c
    Sends-nothing off c = record { records = []; behind = sym (append-nil c.sent); in_order = tt }

    send-Sends :
        (off : ℕ) (next : ℕ → S × Client Record → Result (Unit {0}) × (S × Client Record))
        → ((o : ℕ) (st : S × Client Record) → Sends Q o st.1 (next o st).1.1)
        → (r : Record) (s : S) (c : Client Record) → Q off r
        → Sends Q off c (consume_round log enforce subject off next (ok r, (s, c))).1.1
    unfolding consume_round
    send-Sends off next ih r s c q = elim (Bool-cases (ltb 0 c.reachable)) [
      | inl e ↦
          let more =
            ih (add64 off 1)
              (s, record { sent = c.sent ++ (r ∷ []); reachable = c.reachable - 1 }) in
          rw e (record {
            records = r ∷ more.records;
            behind = more.behind ∙ append_assoc c.sent (r ∷ []) more.records;
            in_order = (q, more.in_order);
          })
      | inr e ↦ rw e (Sends-nothing off c)
    ]

    consume_round-Sends :
        (off : ℕ) (next : ℕ → S × Client Record → Result (Unit {0}) × (S × Client Record))
        → ((o : ℕ) (st : S × Client Record) → Sends Q o st.1 (next o st).1.1)
        → (x : Result Record) (s : S) (c : Client Record) → ((r : Record) → x ≡ ok r → Q off r)
        → Sends Q off c (consume_round log enforce subject off next (x, (s, c))).1.1
    unfolding consume_round
    consume_round-Sends off next ih (ok r) s c q = send-Sends off next ih r s c (q r refl)
    consume_round-Sends off next ih (err (offset_out_of_range _)) s c q = ih off (s, c)
    consume_round-Sends off next ih (err e) s c q = Sends-nothing off c
    consume_round-Sends off next ih panic s c q = Sends-nothing off c

    -- Whatever others do to the log between the rounds, the records that ConsumeStream sends are those
    -- of consecutive offsets from the one that was asked for: none is left out, repeated or out of
    -- order. `Q` says what a read at an offset answers.
    pub consume_stream_in_order :
        (rounds : List (S → S)) (off : ℕ) (s : S) (c : Client Record)
        → Sends Q off c (consume_stream log enforce subject rounds off (s, c)).1.1
    unfolding consume_stream
    consume_stream_in_order [] off s c = Sends-nothing off c
    consume_stream_in_order (others ∷ rounds) off s c =
        let (x, s') = consume log enforce subject off (others s) in
        consume_round-Sends off (consume_stream log enforce subject rounds)
          (λ o st. consume_stream_in_order rounds o st.0 st.1) x s' c
          (λ r e. consume-Q off (others s) s' r (ap (λ y. (y, s')) e))

  -- `n` and the numbers behind it.
  abbrev pub offsets : ℕ → List Record → List ℕ
  offsets n [] = []
  offsets n (r ∷ rs) = n ∷ offsets (n + 1) rs

  -- The log takes the requests one after another, the first at the offset `n`.
  abbrev pub Takes : ℕ → List Record → S → S → Type 0
  Takes n [] s s' = s ≡ s'
  Takes n (r ∷ rs) s s' = (m : S) × (log.append r s ≡ (ok n, m)) × Takes (n + 1) rs m s'

  -- The client that has been sent the offsets.
  abbrev pub acknowledged : ℕ → List Record → Client ℕ → Client ℕ
  acknowledged n rs c = record {
    sent = c.sent ++ offsets n rs;
    reachable = c.reachable - length rs;
  }

  -- ProduceStream of requests that the log takes, to a client that can be reached.
  pub produce_stream-Takes :
      (n : ℕ) (requests : List Record) (end_error : Error) (s s' : S) (c : Client ℕ)
      → enforce subject object_wildcard produce_action ≡ true
      → Takes n requests s s'
      → length requests ≤ c.reachable
      → produce_stream log enforce subject requests end_error (s, c)
        ≡ (err end_error, (s', acknowledged n requests c))
  unfolding produce_stream produce
  produce_stream-Takes n [] end_error s s' c allowed takes reach =
      let all_left : c.reachable - 0 ≡ c.reachable = omega arith in
      rw (append-nil c.sent, takes, all_left) refl
  produce_stream-Takes n (r ∷ requests) end_error s s' c allowed (m, e, takes) reach =
      let c1 : Client ℕ = record { sent = c.sent ++ (n ∷ []); reachable = c.reachable - 1 } in
      let more =
        produce_stream-Takes (n + 1) requests end_error m s' c1 allowed takes
          (omega (arith, reach)) in
      let left : c.reachable - 1 - length requests ≡ c.reachable - suc (length requests) =
        omega arith in
      rw (allowed, e)
        (rw (lt→ltb 0 c.reachable (omega (arith, reach)))
          (rw (more, append_assoc c.sent (n ∷ []) (offsets (n + 1) requests), left) refl))
