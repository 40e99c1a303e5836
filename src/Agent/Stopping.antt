-- ===== src/Agent/Stopping.antt =====
-- What the calls of Shutdown do, however many there are: the signal handler of the command, the
-- goroutine of the gRPC server and serve all call it.
use dislog.Prelude.{
  ℕ, zero, suc, true, false, ◌≡◌, refl, ap, ◌∙◌, Result, ok, err, panic, Error, Exec, pure, modify,
  ◌>>◌, Run-cases, done, failed, panicked,
}
use dislog.Agent.{
  Agent, AgentConfig, Parts, close_shutdowns, new, run_all, shutdowns, shutdown, on_process,
}

module _ {S T : Type 0} (parts : Parts S T) where
  -- The agent is running: its channel is open.
  pub record IsRunning (a : Agent S) : Type 0 where
    pub not_shut : a.shutdown ≡ false
    pub still_open : a.closed ≡ false

  -- What the calls of Shutdown leave of an agent.
  pub after_calls : ℕ → Agent S → Agent S
  after_calls zero a = a
  after_calls (suc n) a = after_calls n (shutdown parts a).1

  pub new-IsRunning : (c : AgentConfig T) (s : S) → IsRunning (new parts c s).1
  unfolding new on_process
  new-IsRunning c s = record { not_shut = refl; still_open = refl }

  first_call :
      (a : Agent S)
      → IsRunning a
      → shutdown parts a ≡ (
        (run_all parts (shutdowns parts) a.process).0,
        record {
          process = (run_all parts (shutdowns parts) a.process).1;
          shutdown = true;
          closed = true;
        },
      )
  unfolding shutdown close_shutdowns on_process
  first_call a r = rw (r.not_shut, r.still_open) refl

  next_call : (a : Agent S) → a.shutdown ≡ true → shutdown parts a ≡ (ok tt, a)
  unfolding shutdown
  next_call a h = rw h

  later_calls : (n : ℕ) (a : Agent S) → a.shutdown ≡ true → after_calls n a ≡ a
  unfolding after_calls
  later_calls zero a h = refl
  later_calls (suc n) a h = rw (next_call a h) (later_calls n a h)

  -- A running agent after all its calls of Shutdown
  abbrev stopped : Agent S → Agent S
  stopped a = record {
    process = (run_all parts (shutdowns parts) a.process).1;
    shutdown = true;
    closed = true;
  }

  settled : (a : Agent S) (n : ℕ) → IsRunning a → after_calls n (shutdown parts a).1 ≡ stopped a
  settled a n r = rw (first_call a r) (later_calls n (stopped a) refl)

  all_calls : (a : Agent S) (n : ℕ) → IsRunning a → after_calls (suc n) a ≡ stopped a
  unfolding after_calls
  all_calls a n r = settled a n r

  -- What stops an agent: it leaves the membership, stops the server, and closes the log.
  abbrev pub in_order : Exec S (Unit {0})
  in_order = do parts.leave; modify parts.graceful_stop; parts.close_log

  shutdowns-in_order : (s : S) → run_all parts (shutdowns parts) s ≡ in_order s
  unfolding run_all
  shutdowns-in_order s = elim (Run-cases (parts.leave s)) [
    | done _ s' e ↦ rw e (ends (parts.close_log (parts.graceful_stop s')) refl)
    | failed x s' e ↦ rw e refl
    | panicked s' e ↦ rw e refl
  ]
    where
      ends :
          {s' : S} (y : Result (Unit {0}) × S)
          → parts.close_log (parts.graceful_stop s') ≡ y
          → (parts.close_log >> pure tt) (parts.graceful_stop s') ≡ y
      ends (ok _, t) e = rw e refl
      ends (err x, t) e = rw e refl
      ends (panic, t) e = rw e refl

  -- However often the Shutdown of a running agent is called, the membership is left, then the server is
  -- stopped, then the log is closed, each once and none behind one that fails: the first call answers
  -- what these three answer, and the process stays as they leave it. Each later call answers nil and
  -- changes nothing, and no call closes the channel again.
  pub shutdown_once :
      (a : Agent S) (n : ℕ)
      → IsRunning a
      → ((shutdown parts a).0 ≡ (in_order a.process).0)
        × ((after_calls (suc n) a).process ≡ (in_order a.process).1)
        × (shutdown parts (after_calls (suc n) a) ≡ (ok tt, after_calls (suc n) a))
  shutdown_once a n r = (
    ap (λ y. y.0) (first_call a r) ∙ ap (λ y. y.0) (shutdowns-in_order a.process),
    ap (λ (b : Agent S). b.process) (all_calls a n r)
        ∙ ap (λ y. y.1) (shutdowns-in_order a.process),
    rw (all_calls a n r) (next_call (stopped a) refl),
  )

  -- When a running agent cannot leave the membership, the first Shutdown answers that error, and
  -- neither it nor any later call of Shutdown stops the server or closes the log: the process stays as
  -- the failed call left it.
  pub shutdown-leave_err :
      (a : Agent S) (n : ℕ) (e : Error) (s : S)
      → IsRunning a
      → parts.leave a.process ≡ (err e, s)
      → ((shutdown parts a).0 ≡ err e) × ((after_calls (suc n) a).process ≡ s)
  shutdown-leave_err a n e s r h =
      let all : in_order a.process ≡ (err e, s) = rw h in
      let once = shutdown_once a n r in (once.0 ∙ ap (λ y. y.0) all, once.1 ∙ ap (λ y. y.1) all)
