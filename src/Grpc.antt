-- ===== src/Grpc.antt =====
-- internal/server/server.go: the RPCs of the log service, over any commit log and authorizer; and
-- internal/auth/authorizer.go.
pub mod Streams
pub mod Calls
pub mod Serving
pub mod Storing
use dislog.Prelude.{
  ℕ, ◌-◌, List, [], ◌∷◌, ◌++◌, Bool, Option, none, some, String, if◌then◌else◌, add64, ltb, Result,
  ok, err, panic, Error, offset_out_of_range, permission_denied, unknown_peer, unavailable, Exec,
  pure, lift, fail, modify, within, ◌>>=◌, ◌>>◌,
}
use dislog.Api.{Record, Server}

-- The interface CommitLog, over the state `S` of what implements it.
pub record CommitLog (S : Type 0) : Type 0 where
  pub append : Record → Exec S ℕ
  pub read : ℕ → Exec S Record

-- github.com/casbin/casbin, which the program imports: whether the policy allows a subject an action
-- on an object.
abbrev pub Enforcer : Type 0
Enforcer = String → String → String → Bool

-- Authorizer.Authorize
unfoldable pub authorize : Enforcer → String → String → String → Result (Unit {0})
authorize enforce subject object action =
    if enforce subject object action then ok tt else err (permission_denied subject action object)

abbrev pub object_wildcard : String
object_wildcard = "*"

abbrev pub produce_action : String
produce_action = "produce"

abbrev pub consume_action : String
consume_action = "consume"

-- What the transport says of a peer: nothing, the verified chains of certificates by their common
-- names, or credentials of another kind.
pub data AuthInfo : Type 0 where
  no_auth : AuthInfo
  tls : List (List String) → AuthInfo
  other_auth : AuthInfo

first_name : List (List String) → Result String
first_name [] = panic
first_name ([] ∷ chains) = panic
first_name ((name ∷ chain) ∷ chains) = ok name

-- authenticate: the subject that is put into the context
unfoldable pub authenticate : Option AuthInfo → Result String
unfolding first_name
authenticate none = err unknown_peer
authenticate (some no_auth) = ok ""
authenticate (some (tls chains)) = first_name chains
authenticate (some other_auth) = panic

-- What the client of a stream has been sent, and how many more sends will reach it.
pub record Client (A : Type 0) : Type 0 where
  pub sent : List A
  pub reachable : ℕ

send : {A : Type 0} → A → Exec (Client A) (Unit {0})
send a c =
    if ltb 0 c.reachable
    then (ok tt, record { sent = c.sent ++ (a ∷ []); reachable = c.reachable - 1 })
    else (err unavailable, c)

abbrev pub on_log : {S C A : Type 0} → Exec S A → Exec (S × C) A
on_log = within (λ st. st.0) (λ s st. (s, st.1))

abbrev pub on_client : {S C A : Type 0} → Exec C A → Exec (S × C) A
on_client = within (λ st. st.1) (λ c st. (st.0, c))

module _ {S : Type 0} (log : CommitLog S) (enforce : Enforcer) (subject : String) where
  -- grpcServer.Produce; `subject` is subject(ctx)
  unfoldable pub produce : Record → Exec S ℕ
  unfolding authorize
  produce r = do lift (authorize enforce subject object_wildcard produce_action); log.append r

  -- grpcServer.Consume
  unfoldable pub consume : ℕ → Exec S Record
  unfolding authorize
  consume off = do lift (authorize enforce subject object_wildcard consume_action); log.read off

  -- grpcServer.ProduceStream on the requests that Recv gives, and the error that it gives then
  unfoldable pub produce_stream : List Record → Error → Exec (S × Client ℕ) (Unit {0})
  unfolding send
  produce_stream [] end_error = fail end_error
  produce_stream (r ∷ requests) end_error = do
    off ← on_log (produce r)
    on_client (send off)
    produce_stream requests end_error

  consume_round :
      ℕ
      → (ℕ → Exec (S × Client Record) (Unit {0}))
      → Result Record × (S × Client Record)
      → Result (Unit {0}) × (S × Client Record)
  unfolding send
  consume_round off next (ok r, st) = (on_client (send r) >> next (add64 off 1)) st
  consume_round off next (err (offset_out_of_range _), st) = next off st
  consume_round off next (err e, st) = (err e, st)
  consume_round off next (panic, st) = (panic, st)

  -- grpcServer.ConsumeStream from an offset on. A list entry is a round of the loop, with what others
  -- do to the log before it; the list ends when the stream's context is done.
  unfoldable pub consume_stream : List (S → S) → ℕ → Exec (S × Client Record) (Unit {0})
  unfolding consume_round
  consume_stream [] off st = (ok tt, st)
  consume_stream (others ∷ rounds) off (s, c) =
      consume_round off (consume_stream rounds) (on_log (consume off) (others s, c))

-- The interface GetServerer
pub record GetServerer (S : Type 0) : Type 0 where
  pub servers : Exec S (List Server)

-- grpcServer.GetServers
unfoldable pub get_servers : {S : Type 0} → GetServerer S → Exec S (List Server)
get_servers serverer = do servers ← serverer.servers; pure servers

-- What NewGRPCServer puts in front of an RPC: the subject comes from authenticate, whose error ends the
-- call.
unfoldable pub intercepted : {S A : Type 0} → Option AuthInfo → (String → Exec S A) → Exec S A
intercepted info rpc = do subject ← lift (authenticate info); rpc subject

-- Config of the gRPC server
pub record ServerConfig (S : Type 0) : Type 0 where
  pub commit_log : CommitLog S
  pub authorizer : Enforcer
  pub get_serverer : GetServerer S

-- What clients can call: the RPCs of the log service, with what the transport says of the peer
pub record Service (S : Type 0) : Type 0 where
  pub produce_rpc : Option AuthInfo → Record → Exec S ℕ
  pub consume_rpc : Option AuthInfo → ℕ → Exec S Record
  pub produce_stream_rpc : Option AuthInfo → List Record → Error → Exec (S × Client ℕ) (Unit {0})
  pub consume_stream_rpc : Option AuthInfo → List (S → S) → ℕ → Exec (S × Client Record) (Unit {0})
  pub get_servers_rpc : Option AuthInfo → Exec S (List Server)

-- The two chains of interceptors around the RPCs of newgrpcServer
unfoldable pub service : {S : Type 0} → ServerConfig S → Service S
service c = record {
  produce_rpc = λ info r. intercepted info (λ subject. produce c.commit_log c.authorizer subject r);
  consume_rpc =
      λ info off. intercepted info (λ subject. consume c.commit_log c.authorizer subject off);
  produce_stream_rpc = λ info requests end_error.
      intercepted info
        (λ subject. produce_stream c.commit_log c.authorizer subject requests end_error);
  consume_stream_rpc = λ info rounds off.
      intercepted info (λ subject. consume_stream c.commit_log c.authorizer subject rounds off);
  get_servers_rpc = λ info. intercepted info (λ subject. get_servers c.get_serverer);
}

-- NewGRPCServer; `apply_config` and `register` are those of OpenCensus, on the state `V` that it keeps.
unfoldable pub new_grpc_server :
    {S V : Type 0} → (V → V) → Exec V (Unit {0}) → ServerConfig S → Exec V (Service S)
new_grpc_server apply_config register c = do modify apply_config; register; pure (service c)
