-- ===== src/Membership/Voters.antt =====
-- The membership hands its events to the distributed log: on the leader, the servers of Raft follow the
-- members of Serf.
use text.Mathlib.Text.{◌==◌ as same_string}
use dislog.Prelude.{List, [], ◌∷◌, ◌++◌, true, ◌≡◌, refl, ap, ◌∙◌, String, ok, if◌then◌else◌}
use dislog.Cluster.{Raft, Peer, join, leave}
use dislog.Cluster.Join.{Apart, known, join_fresh, join_known}
use dislog.Membership.{Member, Event, Handler, Line, logged, event_handler}
use dislog.Membership.Events.{
  Move, joined, left, moves, tell, handled, hand_over, event_handler_lem,
}

-- DistributedLog as the handler of the membership
unfoldable pub log_handler : {R : Type 0} → Raft R → Handler R
log_handler raft = record { join = join raft; leave = leave raft }

abbrev pub without : String → List Peer → List Peer
without id [] = []
without id (p ∷ ps) = let rest = without id ps in if same_string p.id id then rest else p ∷ rest

abbrev pub peer_of : Member → Peer
peer_of m = record { id = m.name; address = m.rpc_addr }

-- What Raft promises of a leader whose changes of the configuration succeed.
pub record Leads {R : Type 0} (raft : Raft R) : Type 0 where
  pub servers : R → List Peer
  pub configures : (r : R) → raft.configuration r ≡ ok (servers r)
  pub adds :
      (id addr : String) (r : R)
      → Apart id addr (servers r)
      → (r' : R) × (raft.add_voter id addr r ≡ (ok tt, r'))
        × (servers r' ≡ servers r ++ (record { id = id; address = addr } ∷ []))
  pub removes :
      (id : String) (r : R)
      → (r' : R) × (raft.remove_server id r ≡ (ok tt, r')) × (servers r' ≡ without id (servers r))

-- The servers through changes in which no member takes the id or the address of another one: a new
-- member comes last, one that is there stays, and one that leaves is taken out.
pub data Follows : List Move → List Peer → List Peer → Type 0 where
  still : {ps : List Peer} → Follows [] ps ps
  comes :
      (m : Member) {ms : List Move} {ps qs : List Peer}
      → Apart m.name m.rpc_addr ps
      → Follows ms (ps ++ (peer_of m ∷ [])) qs
      → Follows (joined m ∷ ms) ps qs
  stays :
      (m : Member) (srv : Peer) (before after : List Peer) {ms : List Move} {qs : List Peer}
      → Apart m.name m.rpc_addr before
      → known m.name m.rpc_addr srv ≡ true
      → Follows ms (before ++ (srv ∷ after)) qs
      → Follows (joined m ∷ ms) (before ++ (srv ∷ after)) qs
  goes :
      (m : Member) {ms : List Move} {ps qs : List Peer}
      → Follows ms (without m.name ps) qs
      → Follows (left m ∷ ms) ps qs

module _ {R : Type 0} (raft : Raft R) (leads : Leads raft) (local : String) where
  join_step :
      (m : Member) (r r' : R) (lines : List Line)
      → join raft m.name m.rpc_addr r ≡ (ok tt, r')
      → tell (log_handler raft) local (joined m) (r, lines) ≡ (ok tt, (r', lines))
  unfolding logged log_handler
  join_step m r r' lines h = rw h refl

  leave_step :
      (m : Member) (r r' : R) (lines : List Line)
      → raft.remove_server m.name r ≡ (ok tt, r')
      → tell (log_handler raft) local (left m) (r, lines) ≡ (ok tt, (r', lines))
  unfolding logged log_handler leave
  leave_step m r r' lines h = rw h refl

  -- Where the changes lead.
  abbrev Reaches : List Move → List Peer → R → List Line → Type 0
  Reaches ms qs r lines =
      (r' : R) × (hand_over (log_handler raft) local ms (r, lines) ≡ (ok tt, (r', lines)))
      × (leads.servers r' ≡ qs)

  followed :
      {ms : List Move} {ps qs : List Peer} (r : R) (lines : List Line)
      → Follows ms ps qs
      → leads.servers r ≡ ps
      → Reaches ms qs r lines
  followed r lines still h = (r, refl, h)
  followed r lines (comes m apart rest) h =
      let now : Apart m.name m.rpc_addr (leads.servers r) = rw h apart in
      let (r1, e, same) = leads.adds m.name m.rpc_addr r now in
      let step =
        join_step m r r1 lines
          (join_fresh raft m.name m.rpc_addr (leads.servers r) r now (leads.configures r) ∙ e) in
      let (r', e', same') = followed r1 lines rest (same ∙ ap (λ t. t ++ (peer_of m ∷ [])) h) in
      (r', rw (step, e') refl, same')
  followed r lines (stays m srv before after apart is rest) h =
      let step = join_step m r r lines (
        join_known raft m.name m.rpc_addr before r apart srv after is
          (leads.configures r ∙ ap ok h)) in
      let (r', e', same') = followed r lines rest h in (r', rw (step, e') refl, same')
  followed r lines (goes m rest) h =
      let (r1, e, same) = leads.removes m.name r in
      let step = leave_step m r r1 lines e in
      let (r', e', same') = followed r1 lines rest (same ∙ ap (without m.name) h) in
      (r', rw (step, e') refl, same')

  -- On the leader, the event handler over DistributedLog takes any events without an error and without a
  -- line in the log, and the servers of Raft's configuration are then those that the changes of the
  -- membership leave: new members added in their order, members that left or failed taken out. The
  -- changes are those of members other than the local one, up to its own leaving; Raft changes its
  -- configuration as it is asked to, and no member takes the id or the address of another server.
  pub event_handler-Follows :
      (es : List Event) (qs : List Peer) (r : R) (lines : List Line)
      → Follows (handled (log_handler raft) local (moves es)) (leads.servers r) qs
      → (r' : R) × (event_handler (log_handler raft) local es (r, lines) ≡ (ok tt, (r', lines)))
        × (leads.servers r' ≡ qs)
  event_handler-Follows es qs r lines f =
      let (r', e, same) = followed r lines f refl in
      (r', event_handler_lem (log_handler raft) local es (r, lines) ∙ e, same)
