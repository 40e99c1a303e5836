-- ===== src/Grpc/Serving.antt =====
-- The service of NewGRPCServer, called by a peer that the policy allows nothing.
use dislog.Prelude.{
  ℕ, List, [], ◌∷◌, false, Option, String, ◌≡◌, refl, ap, Result, ok, err, panic, Error,
  permission_denied, Exec, Run-cases, done, failed, panicked,
}
use dislog.Api.{Record}
use dislog.Grpc.{
  CommitLog, Enforcer, AuthInfo, Client, ServerConfig, Service, authenticate, intercepted,
  authorize, produce, consume, produce_stream, consume_stream, consume_round, produce_action,
  consume_action, object_wildcard, service, new_grpc_server,
}

-- The credentials of the peer name no subject that the policy allows the action.
abbrev pub Denied : Enforcer → Option AuthInfo → String → Type 0
Denied enforce info action =
    (subject : String)
    → authenticate info ≡ ok subject
    → enforce subject object_wildcard action ≡ false

-- A call that changes nothing for a subject that is denied changes nothing for the peer.
intercepted-Denied :
    {S A B : Type 0} (enforce : Enforcer) (info : Option AuthInfo) (action : String) (view : S → B)
    (call : String → Exec S A) (s : S)
    → Denied enforce info action
    → ((subject : String)
        → enforce subject object_wildcard action ≡ false
        → view (call subject s).1 ≡ view s)
    → view (intercepted info call s).1 ≡ view s
unfolding intercepted
intercepted-Denied enforce info action view call s no_one same = go (authenticate info) refl
  where
    go : (x : Result String) → authenticate info ≡ x → view (intercepted info call s).1 ≡ view s
    go (ok subject) e = rw e (same subject (no_one subject e))
    go (err x) e = rw e refl
    go panic e = rw e refl

module _ {S : Type 0} (log : CommitLog S) (enforce : Enforcer) (subject : String) where
  produce-denied :
      (r : Record) (s : S)
      → enforce subject object_wildcard produce_action ≡ false
      → produce log enforce subject r s
        ≡ (err (permission_denied subject produce_action object_wildcard), s)
  unfolding produce authorize
  produce-denied r s h = rw h refl

  consume-denied :
      (off : ℕ) (s : S)
      → enforce subject object_wildcard consume_action ≡ false
      → consume log enforce subject off s
        ≡ (err (permission_denied subject consume_action object_wildcard), s)
  unfolding consume authorize
  consume-denied off s h = rw h refl

  produce_stream-denied :
      (requests : List Record) (end_error : Error) (s : S) (c : Client ℕ)
      → enforce subject object_wildcard produce_action ≡ false
      → (produce_stream log enforce subject requests end_error (s, c)).1 ≡ (s, c)
  unfolding produce_stream
  produce_stream-denied [] end_error s c h = refl
  produce_stream-denied (r ∷ requests) end_error s c h = rw (produce-denied r s h) refl

  consume_stream-denied :
      (rounds : List (S → S)) (off : ℕ) (s : S) (c : Client Record)
      → enforce subject object_wildcard consume_action ≡ false
      → (consume_stream log enforce subject rounds off (s, c)).1.1 ≡ c
  unfolding consume_stream consume_round
  consume_stream-denied [] off s c h = refl
  consume_stream-denied (others ∷ rounds) off s c h = rw (consume-denied off (others s) h) refl

module _ {S V : Type 0} (apply_config : V → V) (register : Exec V (Unit {0}))
    (c : ServerConfig S) where
  served :
      (v v' : V) (srv : Service S)
      → new_grpc_server apply_config register c v ≡ (ok srv, v')
      → service c ≡ srv
  unfolding new_grpc_server
  served v v' srv h = elim (Run-cases (register (apply_config v))) [
    | done t w e ↦
        let runs : new_grpc_server apply_config register c v ≡ (ok (service c), w) = rw e refl in cc
    | failed x w e ↦
        let runs : new_grpc_server apply_config register c v ≡ (err x, w) = rw e refl in cc
    | panicked w e ↦
        let runs : new_grpc_server apply_config register c v ≡ (panic, w) = rw e refl in cc
  ]

  -- A server that NewGRPCServer has made keeps out a peer whose credentials name no subject that the
  -- policy allows to produce or to consume: a Produce and a ProduceStream of any requests leave the
  -- log and the client's stream as they were, and a ConsumeStream of any number of rounds sends nothing,
  -- whatever others do to the log meanwhile.
  pub new_grpc_server-Denied :
      (v v' : V) (srv : Service S)
      → new_grpc_server apply_config register c v ≡ (ok srv, v')
      → (info : Option AuthInfo) → Denied c.authorizer info produce_action
      → Denied c.authorizer info consume_action
      → (r : Record) (requests : List Record) (end_error : Error) (rounds : List (S → S)) (off : ℕ)
        (s : S) (client : Client ℕ) (reader : Client Record)
      → ((srv.produce_rpc info r s).1 ≡ s)
        × ((srv.produce_stream_rpc info requests end_error (s, client)).1 ≡ (s, client))
        × ((srv.consume_stream_rpc info rounds off (s, reader)).1.1 ≡ reader)
  unfolding service
  new_grpc_server-Denied v v' srv h info no_produce no_consume r requests end_error rounds off s
        client reader =
      let log = c.commit_log in
      let may = c.authorizer in
      rw (← served v v' srv h) (
        intercepted-Denied may info produce_action (λ x. x) (λ subject. produce log may subject r) s
            no_produce (λ subject d. ap (λ y. y.1) (produce-denied log may subject r s d)),
        intercepted-Denied may info produce_action (λ x. x)
            (λ subject. produce_stream log may subject requests end_error) (s, client) no_produce
            (λ subject d. produce_stream-denied log may subject requests end_error s client d),
        intercepted-Denied may info consume_action (λ x. x.1)
            (λ subject. consume_stream log may subject rounds off) (s, reader) no_consume
            (λ subject d. consume_stream-denied log may subject rounds off s reader d),
      )
