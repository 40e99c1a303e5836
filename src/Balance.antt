-- ===== src/Balance.antt =====
-- internal/loadbalance: the picker (picker.go) and the resolver (resolver.go). Connections are
-- numbers; the ready connections of a Build come in the order in which Go's map is walked.
pub mod Picking
pub mod Routing
use dislog.Prelude.{
  ℕ, ◌+◌, ◌%◌, List, [], ◌∷◌, ◌++◌, Bool, true, false, ◌||◌, Option, none, some, String,
  if◌then◌else◌, add64, Result, ok, err, panic, no_sub_conn, Exec, ◌>>=◌, ◌>>◌, length, get_elem?,
  is_empty, map,
}
use dislog.Api.{Server}
use text.Mathlib.Text.{find?}

-- A ready connection, with the attribute "is_leader" of its address, if that has one.
pub record Ready : Type 0 where
  pub conn : ℕ
  pub is_leader : Option Bool

pub record Picker : Type 0 where
  pub leader : Option ℕ
  pub followers : List ℕ
  pub current : ℕ

-- The registered picker, before any Build
abbrev pub new_picker : Picker
new_picker = record { leader = none; followers = []; current = 0 }

-- The loop of Picker.Build, with the followers found so far; a missing attribute panics.
unfoldable pub collect : List Ready → List ℕ → Option ℕ → Result (Option ℕ × List ℕ)
collect [] followers leader = ok (leader, followers)
collect (sc ∷ ready) followers leader = elim sc.is_leader [
  | none ↦ panic
  | some is_leader ↦
      if is_leader
      then collect ready followers (some sc.conn)
      else collect ready (followers ++ (sc.conn ∷ [])) leader
]

unfoldable pub rebuilt : Result (Option ℕ × List ℕ) → Exec Picker (Unit {0})
rebuilt (ok (leader, followers)) p =
    (ok tt, record { leader = leader; followers = followers; current = p.current })
rebuilt (err e) p = (err e, p)
rebuilt panic p = (panic, p)

-- Picker.Build
unfoldable pub build : List Ready → Exec Picker (Unit {0})
unfolding collect rebuilt
build ready p = rebuilt (collect ready [] p.leader) p

-- Picker.nextFollower
unfoldable pub next_follower : Exec Picker (Option ℕ)
next_follower p =
    let cur = add64 p.current 1 in
    (ok (get_elem? p.followers (cur % length p.followers)), record p { current = cur })

-- strings.Contains
unfoldable pub contains : String → String → Bool
contains text part = elim (find? text part) [ none ↦ false | some _ ↦ true ]

unfoldable pub picked : Result (Option ℕ) × Picker → Result ℕ × Picker
picked (ok none, p) = (err no_sub_conn, p)
picked (ok (some conn), p) = (ok conn, p)
picked (err e, p) = (err e, p)
picked (panic, p) = (panic, p)

-- Picker.Pick
unfoldable pub pick : String → Exec Picker ℕ
unfolding picked next_follower
pick method p = picked (
    if contains method "Produce" || is_empty p.followers
    then (ok p.leader, p)
    else if contains method "Consume"
    then next_follower p
    else (ok none, p))

-- resolver.Address, with the attribute that the resolver attaches
pub record Address : Type 0 where
  pub addr : String
  pub is_leader : Bool

-- What Resolver.ResolveNow hands to the client connection, and how often it logged a failure.
pub record Resolver : Type 0 where
  pub updated : Option (List Address)
  pub failures : ℕ

abbrev pub address_of : Server → Address
address_of s = record { addr = s.rpc_addr; is_leader = s.is_leader }

-- Resolver.ResolveNow, on the answer of the GetServers call
unfoldable pub resolve_now : Result (List Server) → Resolver → Resolver
resolve_now (ok servers) r = record r { updated = some (map address_of servers) }
resolve_now (err e) r = record r { failures = r.failures + 1 }
resolve_now panic r = r

-- Resolver.Build: the answer of Dial, and then of GetServers
unfoldable pub build_resolver : Result (Unit {0}) → Result (List Server) → Exec Resolver (Unit {0})
build_resolver (ok _) servers r = (ok tt, resolve_now servers r)
build_resolver (err e) servers r = (err e, r)
build_resolver panic servers r = (panic, r)

-- Resolver.Close, on what closing the connection answers: a failure is logged.
unfoldable pub close : Result (Unit {0}) → Resolver → Resolver
close (ok _) r = r
close (err e) r = record r { failures = r.failures + 1 }
close panic r = r

-- Name
abbrev pub resolver_name : String
resolver_name = "proglog"

-- Resolver.Scheme
abbrev pub scheme : Resolver → String
scheme r = resolver_name
