-- ===== src/Membership.antt =====
-- internal/discovery/membership.go: the start of Serf, and the loop that hands its events to a handler.
pub mod Events
pub mod Voters
use dislog.Prelude.{
  ℕ, List, [], ◌∷◌, ◌++◌, Bool, true, false, String, if◌then◌else◌, Result, ok, err, panic, Error,
  not_leader, Option, none, some, Exec, pure, lift, modify, ◌>>=◌, ◌>>◌,
}
use text.Mathlib.Text.{◌==◌}

-- serf.Member, with the tag "rpc_addr" (empty if it is missing)
pub record Member : Type 0 where
  pub name : String
  pub rpc_addr : String

pub data Event : Type 0 where
  member_join member_leave member_failed : List Member → Event
  other_event : Event

-- The interface Handler, over the state `S` of what implements it.
pub record Handler (S : Type 0) : Type 0 where
  pub join : String → String → Exec S (Unit {0})
  pub leave : String → Exec S (Unit {0})

pub data Level : Type 0 where
  debug error : Level

-- A line of the log: the message and its member.
pub record Line : Type 0 where
  pub level : Level
  pub message : String
  pub member : Member

-- Membership.logError
unfoldable pub level_of : Error → Level
level_of not_leader = debug
level_of _ = error

abbrev pub State : Type 0 → Type 0
State S = S × List Line

unfoldable pub logged :
    {S : Type 0} → String → Member → Result (Unit {0}) × S → List Line → Result (Unit {0}) × State S
logged message m (ok _, s) lines = (ok tt, (s, lines))
logged message m (err e, s) lines =
    (ok tt, (s, lines ++ (record { level = level_of e; message = message; member = m } ∷ [])))
logged message m (panic, s) lines = (panic, (s, lines))

module _ {S : Type 0} (h : Handler S) (local : String) where
  -- Membership.handleJoin and handleLeave
  unfoldable pub handle_join : Member → Exec (State S) (Unit {0})
  unfolding logged
  handle_join m (s, lines) = logged "failed to join" m (h.join m.name m.rpc_addr s) lines

  unfoldable pub handle_leave : Member → Exec (State S) (Unit {0})
  unfolding logged
  handle_leave m (s, lines) = logged "failed to leave" m (h.leave m.name s) lines

  -- Membership.isLocal
  abbrev pub is_local : Member → Bool
  is_local m = local == m.name

  unfoldable pub join_members : List Member → Exec (State S) (Unit {0})
  join_members [] = pure tt
  join_members (m ∷ ms) = (if is_local m then pure tt else handle_join m) >> join_members ms

  -- `false` is the `return` of the loop: the event handler has ended.
  unfoldable pub leave_members : List Member → Exec (State S) Bool
  leave_members [] = pure true
  leave_members (m ∷ ms) = if is_local m then pure false else (handle_leave m >> leave_members ms)

  unfoldable pub handle_event : Event → Exec (State S) Bool
  handle_event (member_join ms) = do join_members ms; pure true
  handle_event (member_leave ms) = leave_members ms
  handle_event (member_failed ms) = leave_members ms
  handle_event other_event = pure true

  -- Membership.eventHandler on the events of its channel
  unfoldable pub event_handler : List Event → Exec (State S) (Unit {0})
  event_handler [] = pure tt
  event_handler (e ∷ es) = do
    goes_on ← handle_event e
    if goes_on then event_handler es else pure tt

-- Config
pub record MembershipConfig : Type 0 where
  pub node_name : String
  pub bind_addr : String
  pub tags : List (String × String)
  pub start_join_addrs : Option (List String)

-- The configuration that setupSerf makes for Serf
pub record SerfConfig : Type 0 where
  pub node_name : String
  pub bind_addr : String
  pub bind_port : ℕ
  pub tags : List (String × String)

-- net.ResolveTCPAddr and the package serf, over the state `S` of the process
pub record Serf (S : Type 0) : Type 0 where
  pub resolve_tcp_addr : String → Result (String × ℕ)
  pub create : SerfConfig → Exec S (Unit {0})
  pub start_handler : S → S
  pub join : List String → Exec S ℕ
  pub members : S → List Member
  pub leave : Exec S (Unit {0})

module _ {S : Type 0} (serf : Serf S) where
  unfoldable pub join_start : Option (List String) → Exec S (Unit {0})
  join_start none = pure tt
  join_start (some addrs) = do _ ← serf.join addrs; pure tt

  -- Membership.setupSerf, which New calls
  unfoldable pub setup_serf : MembershipConfig → Exec S (Unit {0})
  setup_serf c = do
    (ip, port) ← lift (serf.resolve_tcp_addr c.bind_addr)
    serf.create
        (record { node_name = c.node_name; bind_addr = ip; bind_port = port; tags = c.tags })
    modify serf.start_handler
    join_start c.start_join_addrs

  -- Membership.Members
  abbrev pub members : S → List Member
  members s = serf.members s

  -- Membership.Leave
  abbrev pub leave : Exec S (Unit {0})
  leave = serf.leave
