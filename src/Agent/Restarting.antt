-- ===== src/Agent/Restarting.antt =====
-- An agent whose log is the node of internal/log/distributed.go: it is shut down and started again.
use Prim.Native.String.{◌++◌ as ◌+++◌}
use dislog.Prelude.{
  List, [], ◌∷◌, true, false, ◌≡◌, ◌≢◌, refl, ◌∙◌, arith, String, ok, Exec, Bool-cases, inl, inr,
}
use dislog.Api.{Record, Proto}
use dislog.Index.{Gommap}
use dislog.Log.{with_defaults}
use dislog.Log.Chain.{IsUsable}
use dislog.Membership.{MembershipConfig}
use dislog.Node
use dislog.Node.{Node, Library, Settings}
use dislog.Node.Restarting.{IsNode, Works, close-new_distributed_log}
use dislog.Agent.{
  Agent, AgentConfig, Parts, new, shutdown, run_all, close_shutdowns, on_process, log_config,
  setup_log, setup_mux, setup_server, setup_membership, rpc_addr,
}
use dislog.Agent.Stopping.{IsRunning}

-- The state of a process: its node, with the two directories of the logs, and the rest.
pub record Process (W V : Type 0) : Type 0 where
  pub node : Node W
  pub rest : V

module _ ⦃g : Gommap⦄ {W V : Type 0} (lib : Library W) where
  -- NewDistributedLog, on the directories that the process finds under DataDir
  unfoldable pub start_log : Settings → Exec (Process W V) (Unit {0})
  start_log s st =
      let (r, n) =
        Node.new_distributed_log lib s st.node.log.dir st.node.raft_log.dir st.node.world in
      (r, record st { node = n })

  -- DistributedLog.Close
  unfoldable pub stop_log : Exec (Process W V) (Unit {0})
  stop_log st = let (r, n) = Node.close lib st.node in (r, record st { node = n })

  -- The parts of an agent, with the node for its log
  unfoldable pub with_log : {T : Type 0} → Parts (Process W V) T → Parts (Process W V) T
  with_log parts = record parts { new_distributed_log = λ dir s. start_log s; close_log = stop_log }

-- A call that succeeds and leaves the node as it is.
abbrev pub Quiet : {W V : Type 0} → Exec (Process W V) (Unit {0}) → Type 0
Quiet {W} {V} call =
    (st : Process W V) → (st' : Process W V) × (call st ≡ (ok tt, st')) × (st'.node ≡ st.node)

-- What the agent calls beside its log succeeds, and Raft applies no entry meanwhile.
pub record Cooperates {W V T : Type 0} (parts : Parts (Process W V) T) (c : AgentConfig T)
    (host port : String) : Type 0 where
  pub splits : parts.split_host_port c.bind_addr ≡ ok (host, port)
  pub logs : Quiet parts.new_logger
  pub listens : (addr : String) → Quiet (parts.listen addr)
  pub matches :
      (st : Process W V)
      → (parts.match_raft c.server_tls_config c.peer_tls_config st).node ≡ st.node
  pub leads : Quiet (parts.wait_for_leader 3000000000)
  pub serves : Quiet (parts.new_server c.acl_model_file c.acl_policy_file c.server_tls_config)
  pub matches_rest : (st : Process W V) → (parts.match_any st).node ≡ st.node
  pub joins : (m : MembershipConfig) → Quiet (parts.new_membership m)
  pub leaves : Quiet parts.leave
  pub stops : (st : Process W V) → (parts.graceful_stop st).node ≡ st.node

module _ ⦃p : Proto⦄ ⦃g : Gommap⦄ {W V T : Type 0} (lib : Library W) (base : Parts (Process W V) T)
    (c : AgentConfig T) (host port : String) (co : Cooperates base c host port) where
  abbrev pub parts : Parts (Process W V) T
  parts = with_log lib base

  abbrev pub addr : String
  addr = host +++ (":" +++ base.format_port c.rpc_port)

  abbrev pub settings : Settings
  settings = log_config base c addr

  -- Shutdown closes the node as it stands.
  shut :
      (a : Agent (Process W V)) (n : Node W)
      → IsRunning parts a
      → Node.close lib a.process.node ≡ (ok tt, n)
      → (a' : Agent (Process W V)) × (shutdown parts a ≡ (ok tt, a')) × (a'.process.node ≡ n)
  unfolding shutdown close_shutdowns run_all with_log stop_log on_process
  shut a n r h =
      let (st, e, same) = co.leaves a.process in
      let still : (base.graceful_stop st).node ≡ a.process.node = co.stops st ∙ same in
      (
        record {
          process = record (base.graceful_stop st) { node = n };
          shutdown = true;
          closed = true;
        },
        rw (r.not_shut, r.still_open) (rw e (rw still (rw h refl))),
        refl,
      )

  -- The setup of the log, on a process whose node opens as `n`.
  opens_log :
      (st : Process W V) (n : Node W)
      → Node.new_distributed_log lib settings st.node.log.dir st.node.raft_log.dir st.node.world
        ≡ (ok tt, n)
      → (st' : Process W V) × (setup_log parts c st ≡ (ok tt, st')) × (st'.node ≡ n)
  unfolding setup_log rpc_addr with_log start_log
  opens_log st n h =
      let matched = base.match_raft c.server_tls_config c.peer_tls_config st in
      let opened : Process W V = record matched { node = n } in
      let same : matched.node ≡ st.node = co.matches st in
      let start : start_log lib settings matched ≡ (ok tt, opened) = rw same (rw h refl) in
      elim (Bool-cases c.bootstrap) [
        | inl b ↦
            let (st', e, same') = co.leads opened in
            (st', rw co.splits (rw start (rw b (rw e refl))), same')
        | inr b ↦ (opened, rw co.splits (rw start (rw b refl)), refl)
      ]

  -- New on such a process: the agent runs, with that node.
  starts :
      (st : Process W V) (n : Node W)
      → Node.new_distributed_log lib settings st.node.log.dir st.node.raft_log.dir st.node.world
        ≡ (ok tt, n)
      → (a : Agent (Process W V)) × (new parts c st ≡ (ok tt, a))
        × (a.process.node ≡ n)
        × IsRunning parts a
  unfolding new run_all setup_mux setup_server setup_membership rpc_addr with_log on_process
  starts st n h =
      let (st1, e1, same1) = co.logs st in
      let (st2, e2, same2) = co.listens (":" +++ base.format_port c.rpc_port) st1 in
      let (st3, e3, same3) = opens_log st2 n (rw (same2 ∙ same1) h) in
      let (st4, e4, same4) = co.serves st3 in
      let (st5, e5, same5) =
        co.joins
          (record {
            node_name = c.node_name;
            bind_addr = c.bind_addr;
            tags = ("rpc_addr", addr) ∷ [];
            start_join_addrs = c.start_join_addrs;
          })
          (base.match_any st4) in
      (
        record { process = st5; shutdown = false; closed = false },
        rw e1 (rw e2 (rw e3 (rw e4 (rw co.splits (rw e5 refl))))),
        same5 ∙ co.matches_rest st4 ∙ same4 ∙ same3,
        record { not_shut = refl; still_open = refl },
      )

  -- A running agent whose Raft log has an entry is shut down, and New with the same configuration is
  -- called on the process that it leaves: both succeed, the agent runs again, and both logs of its node
  -- have the records that they had, whatever sizes the segments have by default. The libraries do their
  -- work, Raft applies no entry meanwhile, and the other calls of the agent succeed and leave the logs
  -- alone.
  pub shutdown-new :
      (a : Agent (Process W V)) (rs qs : List Record)
      → IsRunning parts a
      → Works lib settings
      → IsNode lib settings a.process.node rs qs
      → qs ≢ []
      → (a' : Agent (Process W V)) × (a'' : Agent (Process W V)) × (shutdown parts a ≡ (ok tt, a'))
        × (new parts c a'.process ≡ (ok tt, a''))
        × IsRunning parts a''
        × IsNode lib settings a''.process.node rs qs
  shutdown-new a rs qs r works is ne =
      let (n', n'', e, e', is') =
        close-new_distributed_log lib settings works agent-IsUsable (omega arith) a.process.node rs
          qs is ne in
      let (a', runs, same) = shut a n' r e in
      let (a'', runs', same', r') = starts a'.process n'' (rw same e') in
      (a', a'', runs, runs', r', rw same' is')
    where
      agent-IsUsable : IsUsable (with_defaults settings.segment)
      agent-IsUsable = record {
        one_entry = omega arith;
        index_small = omega arith;
        some_store = omega arith;
        store_small = omega arith;
      }
