-- ===== src/Membership/Events.antt =====
-- The event handler: the local member is never handled, and its leaving ends the loop.
use dislog.Prelude.{
  List, [], ◌∷◌, ◌++◌, Bool, true, ◌≡◌, refl, String, Exec, pure, ◌>>=◌, ◌>>◌, if◌then◌else◌,
  Run-cases, done, failed, panicked, Bool-cases, inl, inr, map,
}
use text.Mathlib.Text.{◌==◌}
use dislog.Membership.{
  Member, Event, member_join, member_leave, member_failed, other_event, Handler, State, logged,
  join_members, leave_members, handle_event, event_handler, handle_join, handle_leave,
}

-- A single change of the membership, as Serf reports it.
pub data Move : Type 0 where
  joined left : Member → Move

-- The changes that a channel delivers, one by one.
abbrev pub moves : List Event → List Move
moves [] = []
moves (member_join ms ∷ es) = map joined ms ++ moves es
moves (member_leave ms ∷ es) = map left ms ++ moves es
moves (member_failed ms ∷ es) = map left ms ++ moves es
moves (other_event ∷ es) = moves es

module _ {S : Type 0} (h : Handler S) (local : String) where
  -- The changes that reach the handler: none of the local member's, and none after it has left.
  abbrev pub handled : List Move → List Move
  handled [] = []
  handled (joined m ∷ rest) = if local == m.name then handled rest else joined m ∷ handled rest
  handled (left m ∷ rest) = if local == m.name then [] else left m ∷ handled rest

  -- What one change asks of the handler; an error of the handler is logged.
  abbrev pub tell : Move → Exec (State S) (Unit {0})
  tell (joined m) (s, lines) = logged "failed to join" m (h.join m.name m.rpc_addr s) lines
  tell (left m) (s, lines) = logged "failed to leave" m (h.leave m.name s) lines

  abbrev pub hand_over : List Move → Exec (State S) (Unit {0})
  hand_over [] = pure tt
  hand_over (move ∷ rest) = tell move >> hand_over rest

  module _ (k : Exec (State S) (Unit {0})) (rest : List Move)
      (agrees : (s : State S) → k s ≡ hand_over (handled rest) s) where
    -- What follows a batch of members.
    abbrev goes_on : Bool → Exec (State S) (Unit {0})
    goes_on b = if b then k else pure tt

    joins :
        (ms : List Member) (s : State S)
        → ((join_members h local ms >> pure true) >>= goes_on) s
          ≡ hand_over (handled (map joined ms ++ rest)) s
    unfolding join_members handle_join
    joins [] s = agrees s
    joins (m ∷ ms) s = elim (Bool-cases (local == m.name)) [
      | inl e ↦ rw e (joins ms s)
      | inr e ↦ elim (Run-cases (tell (joined m) s)) [
        | done t s' r ↦ rw (e, r) (joins ms s')
        | failed x s' r ↦ rw (e, r)
        | panicked s' r ↦ rw (e, r)
      ]
    ]

    leaves :
        (ms : List Member) (s : State S)
        → (leave_members h local ms >>= goes_on) s ≡ hand_over (handled (map left ms ++ rest)) s
    unfolding leave_members handle_leave
    leaves [] s = agrees s
    leaves (m ∷ ms) s = elim (Bool-cases (local == m.name)) [
      | inl e ↦ rw e
      | inr e ↦ elim (Run-cases (tell (left m) s)) [
        | done t s' r ↦ rw (e, r) (leaves ms s')
        | failed x s' r ↦ rw (e, r)
        | panicked s' r ↦ rw (e, r)
      ]
    ]

  pub event_handler_lem :
      (es : List Event) (s : State S)
      → event_handler h local es s ≡ hand_over (handled (moves es)) s
  unfolding event_handler handle_event
  event_handler_lem [] s = refl
  event_handler_lem (member_join ms ∷ es) s =
      joins (event_handler h local es) (moves es) (event_handler_lem es) ms s
  event_handler_lem (member_leave ms ∷ es) s =
      leaves (event_handler h local es) (moves es) (event_handler_lem es) ms s
  event_handler_lem (member_failed ms ∷ es) s =
      leaves (event_handler h local es) (moves es) (event_handler_lem es) ms s
  event_handler_lem (other_event ∷ es) s = event_handler_lem es s
