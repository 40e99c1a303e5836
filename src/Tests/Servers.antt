-- ===== src/Tests/Servers.antt =====
-- Runs of the servers: gRPC, HTTP, the picker and the membership.
use text.Mathlib.Text.{◌==◌ as same_string}
use dislog.Prelude.{
  ℕ, ◌+◌, List, [], ◌∷◌, ◌++◌, Bool, true, false, Option, some, ◌≡◌, refl, ap, get_elem?, map, inl,
  inr, ◌≢◌, Bool-cases, if◌then◌else◌, ◌&&◌, String, ok, eof,
}
use dislog.Api
use dislog.Log
use dislog.Log.{Log}
use dislog.Grpc.{
  CommitLog, Enforcer, Client, produce, consume, consume_stream, produce_action, consume_action,
  AuthInfo, tls, intercepted, authenticate, ServerConfig, service, new_grpc_server,
}
use dislog.Grpc.Calls.{Gated, call_gate}
use dislog.Grpc.Serving.{Denied, new_grpc_server-Denied}
use dislog.Grpc.Storing.{log_service}
use dislog.Grpc.Streams.{Sends, consume_stream_in_order}
use dislog.Http
use text.Mathlib.TextEquality.{eq_iff}
use text.Mathlib.TextPositions.{eq_refl}
use dislog.Http.{Response, Request, Router, Json, serve_all, produced, consumed, not_found}
use dislog.Http.Serving.{Routes, Talk, posts, gets, silence, post, get, found, serve_all_lem}
use dislog.Balance.{Picker, new_picker, build}
use dislog.Balance.Picking.{build-marked, marked}
use dislog.Membership.{Member, Event, member_join, member_leave, Handler}
use dislog.Tests.{codec, plain_map, hello, start}

-- Root may do everything, nobody else anything.
abbrev root_only : Enforcer
root_only subject object action = same_string subject "root"

-- The credentials of a peer whose certificate has another name
abbrev stranger : Option AuthInfo
stranger = some (tls (("nobody" ∷ []) ∷ []))

call_gate_example :
    Gated root_only stranger produce_action
      (intercepted stranger (λ subject. produce log_service root_only subject hello))
      (Log.append hello)
      start
    × Gated root_only stranger consume_action
        (intercepted stranger (λ subject. consume log_service root_only subject 5))
        (Log.read 5)
        start
call_gate_example = call_gate log_service root_only stranger start hello 5

-- A service over the log, for which OpenCensus registers its views
abbrev service_config : ServerConfig Log
service_config = record {
  commit_log = log_service;
  authorizer = root_only;
  get_serverer = record { servers = λ l. (ok [], l) };
}

stranger-Denied : (action : String) → Denied root_only stranger action
unfolding authenticate
stranger-Denied action subject named =
    let same : ok "nobody" ≡ ok subject = named in
    let name : "nobody" ≡ subject = cc in rw (← name) refl

new_grpc_server-Denied_example :
    (((service service_config).produce_rpc stranger hello start).1 ≡ start)
    × (((service service_config).produce_stream_rpc stranger
          (hello ∷ [])
          eof
          (start, record { sent = []; reachable = 1 })).1
        ≡ (start, record { sent = []; reachable = 1 }))
    × (((service service_config).consume_stream_rpc stranger
          ((λ l. l) ∷ [])
          5
          (start, record { sent = []; reachable = 1 })).1.1
        ≡ record { sent = []; reachable = 1 })
unfolding new_grpc_server
new_grpc_server-Denied_example =
    new_grpc_server-Denied {V = ℕ} (λ v. v) (λ v. (ok tt, v)) service_config 0 0
      (service service_config) refl stranger (stranger-Denied produce_action)
      (stranger-Denied consume_action) hello (hello ∷ []) eof ((λ l. l) ∷ []) 5 start
      (record { sent = []; reachable = 1 }) (record { sent = []; reachable = 1 })

-- A commit log that counts the records, and reads them with their offsets
abbrev counter : CommitLog ℕ
counter = record {
  append = λ r n. (ok n, n + 1);
  read = λ off n. (ok (record hello { offset = off }), n);
}

abbrev Numbered : ℕ → Api.Record → Type 0
Numbered off r = r.offset ≡ off

abbrev nobody_yet : {A : Type 0} → Client A
nobody_yet = record { sent = []; reachable = 9 }

counter-Numbered :
    (off : ℕ) (s : ℕ) (r : Api.Record) (s' : ℕ) → counter.read off s ≡ (ok r, s') → Numbered off r
counter-Numbered off s r s' e =
    let same : ok (record hello { offset = off }) ≡ ok r = ap (λ x. x.0) e in
    let here : record hello { offset = off } ≡ r = cc in rw (← here)

consume_stream_in_order_example :
    Sends counter root_only "root" Numbered 3 nobody_yet
      (consume_stream counter root_only "root" ((λ n. n) ∷ (λ n. n) ∷ []) 3 (7, nobody_yet)).1.1
consume_stream_in_order_example =
    consume_stream_in_order counter root_only "root" Numbered counter-Numbered
      ((λ n. n) ∷ (λ n. n) ∷ []) 3 7 nobody_yet

-- A router that takes the first route that fits
abbrev first_fit : Router
first_fit [] req l = (not_found, l)
first_fit (route ∷ routes) req l =
    let other = first_fit routes req l in
    if same_string req.path route.route_path && same_string req.method route.route_method
    then route.handler req l
    else other

different : (s t : String) → s ≢ t → same_string s t ≡ false
different s t ne = elim (Bool-cases (same_string s t)) [
  | inl e ↦ absurd (ne ((eq_iff s t).0 e))
  | inr e ↦ e
]

first_fit-Routes : Routes first_fit
first_fit-Routes = record {
  first = λ a b req l at is. rw (at, is) (rw (eq_refl a.route_path, eq_refl a.route_method) refl);
  second = λ a b req l at is other. elim (Bool-cases (same_string req.path a.route_path)) [
    | inl e ↦
        rw (e, different req.method a.route_method other)
          (rw (at, is) (rw (eq_refl b.route_path, eq_refl b.route_method) refl))
    | inr e ↦ rw e (rw (at, is) (rw (eq_refl b.route_path, eq_refl b.route_method) refl))
  ];
}

-- Bodies are values, or one digit.
abbrev digits : Json
digits = record {
  decode_record = λ body. some (record { value = body; offset = 9 });
  decode_offset = λ body. get_elem? body 0;
}

abbrev said : List Request
said =
    record { method = "POST"; path = "/"; body = 104 ∷ []; reached = true }
    ∷ record { method = "GET"; path = "/"; body = 0 ∷ []; reached = true }
    ∷ record { method = "GET"; path = "/"; body = 7 ∷ []; reached = true }
    ∷ []

abbrev answered : List Response
answered = produced 0 ∷ consumed (record { value = 104 ∷ []; offset = 0 }) ∷ not_found ∷ []

said-Talk : Talk digits [] said answered
unfolding post get found
said-Talk = posts _ refl refl (gets _ refl refl (gets _ refl refl silence))

serve_all_lem_example : (serve_all first_fit digits said Http.new_log).0 ≡ answered
serve_all_lem_example = serve_all_lem first_fit first_fit-Routes digits said answered said-Talk

-- Three connections, the second to the leader
abbrev three : List (ℕ × Bool)
three = (10, false) ∷ (20, true) ∷ (30, false) ∷ []

abbrev built : Picker
built = record { leader = some 20; followers = 10 ∷ 30 ∷ []; current = 0 }

build-marked_example : build (map marked three) new_picker ≡ (ok tt, built)
build-marked_example = build-marked three new_picker

-- A handler that lists the names
abbrev roll : Handler (List String)
roll = record {
  join = λ name addr names. (ok tt, names ++ (name ∷ []));
  leave = λ name names. (ok tt, names);
}

abbrev self : Member
self = record { name = "0"; rpc_addr = "a0" }

abbrev peer : Member
peer = record { name = "1"; rpc_addr = "a1" }

abbrev events : List Event
events = member_join (self ∷ peer ∷ []) ∷ member_leave (self ∷ []) ∷ member_join (peer ∷ []) ∷ []
