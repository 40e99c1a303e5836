-- ===== src/Tests/Agents.antt =====
-- A run of an agent that is shut down and started again.
use dislog.Prelude.{ℕ, List, [], ◌∷◌, true, false, none, ◌≡◌, refl, arith, ok, cons-ne-nil}
use dislog.Segment.{Config}
use dislog.Log
use dislog.Log.{Log}
use dislog.Log.Chain.{IsUsable}
use dislog.Log.Creating.{empty_dir, new_log_empty}
use dislog.Log.Reopening.{IsDurable}
use dislog.Log.History.{History, created}
use dislog.Log.Lifetime.{history_appends}
use dislog.Cluster.{Peer}
use dislog.Node.Restarting.{IsNode, Works}
use dislog.Agent.{Agent, AgentConfig, Parts, new, shutdown}
use dislog.Agent.Stopping.{IsRunning}
use dislog.Agent.Restarting.{Process, with_log, Cooperates, shutdown-new, settings}
use dislog.Tests.{codec, plain_map, hello}
use dislog.Tests.Nodes.{library, there-same}

-- The default sizes, for the log of the records and for that of Raft
abbrev default_sizes : Config
default_sizes = record { max_store_bytes = 1024; max_index_bytes = 1024; initial_offset = 0 }

abbrev raft_sizes : Config
raft_sizes = record default_sizes { initial_offset = 1 }

default_sizes-IsUsable : IsUsable default_sizes
default_sizes-IsUsable = record {
  one_entry = omega arith;
  index_small = omega arith;
  some_store = omega arith;
  store_small = omega arith;
}

raft_sizes-IsUsable : IsUsable raft_sizes
raft_sizes-IsUsable = record {
  one_entry = omega arith;
  index_small = omega arith;
  some_store = omega arith;
  store_small = omega arith;
}

abbrev made :
    (l : Log) × (Log.new_log empty_dir default_sizes ≡ (ok tt, l))
    × IsDurable l 0 ([] ∷ [])
    × (l.config ≡ default_sizes)
made = new_log_empty default_sizes default_sizes-IsUsable (omega arith)

abbrev raft_made :
    (l : Log) × (Log.new_log empty_dir raft_sizes ≡ (ok tt, l))
    × IsDurable l 1 ([] ∷ [])
    × (l.config ≡ raft_sizes)
raft_made = new_log_empty raft_sizes raft_sizes-IsUsable (omega arith)

abbrev entered :
    (l : Log) × (Log.append hello raft_made.0 ≡ (ok 1, l))
    × History raft_sizes l (record hello { offset = 1 } ∷ [])
entered =
    history_appends raft_sizes raft_sizes-IsUsable (omega arith) hello (1 ∷ 1 ∷ 0 ∷ 104 ∷ 105 ∷ [])
      1 (created raft_made.1) refl (record { bytes_fit = omega arith; offset_fits = omega arith })
      refl

abbrev process : Process (List Peer) ℕ
process = record { node = record { log = made.0; raft_log = entered.0; world = [] }; rest = 0 }

abbrev agent : Agent (Process (List Peer) ℕ)
agent = record { process = process; shutdown = false; closed = false }

-- The calls count those that there were before.
abbrev base : Parts (Process (List Peer) ℕ) ℕ
base = record {
  split_host_port = λ addr. ok ("127.0.0.1", "8401");
  format_port = λ port. "8400";
  new_logger = λ s. (ok tt, s);
  listen = λ addr s. (ok tt, record s { rest = 1 });
  match_raft = λ server peer s. s;
  new_distributed_log = λ dir c s. (ok tt, s);
  wait_for_leader = λ timeout s. (ok tt, s);
  new_server = λ model policy t s. (ok tt, record s { rest = 2 });
  match_any = λ s. s;
  new_membership = λ c s. (ok tt, record s { rest = 3 });
  leave = λ s. (ok tt, record s { rest = 4 });
  graceful_stop = λ s. record s { rest = 5 };
  close_log = λ s. (ok tt, s);
  serve_mux = λ s. (ok tt, s);
}

abbrev agent_config : AgentConfig ℕ
agent_config = record {
  server_tls_config = none;
  peer_tls_config = none;
  data_dir = "/tmp/dislog";
  bind_addr = "127.0.0.1:8401";
  rpc_port = 8400;
  node_name = "0";
  start_join_addrs = none;
  acl_model_file = "";
  acl_policy_file = "";
  bootstrap = true;
}

base-Cooperates : Cooperates base agent_config "127.0.0.1" "8401"
base-Cooperates = record {
  splits = refl;
  logs = λ s. (s, refl, refl);
  listens = λ addr s. (record s { rest = 1 }, refl, refl);
  matches = λ s. refl;
  leads = λ s. (s, refl, refl);
  serves = λ s. (record s { rest = 2 }, refl, refl);
  matches_rest = λ s. refl;
  joins = λ m s. (record s { rest = 3 }, refl, refl);
  leaves = λ s. (record s { rest = 4 }, refl, refl);
  stops = λ s. refl;
}

library-Works :
    Works library (settings library base agent_config "127.0.0.1" "8401" base-Cooperates)
library-Works = record {
  dirs = there-same;
  bolt = λ w. (w, refl);
  snapshots = λ w. (w, refl);
  starts = record { to = λ n. n; succeeds = λ n. refl; keeps = λ h. h };
  stops = record { to = λ n. n; succeeds = λ n. refl; keeps = λ h. h };
  has_state = λ h ne. refl;
}

shutdown-new_example :
    (a' : Agent (Process (List Peer) ℕ)) × (a'' : Agent (Process (List Peer) ℕ)) × (shutdown
        (with_log library base)
        agent
      ≡ (ok tt, a'))
    × (new (with_log library base) agent_config a'.process ≡ (ok tt, a''))
    × IsRunning (with_log library base) a''
    × IsNode library
        (settings library base agent_config "127.0.0.1" "8401" base-Cooperates)
        a''.process.node
        []
        (record hello { offset = 1 } ∷ [])
shutdown-new_example =
    shutdown-new library base agent_config "127.0.0.1" "8401" base-Cooperates agent []
      (record hello { offset = 1 } ∷ []) (record { not_shut = refl; still_open = refl })
      library-Works (record { records = created made.1; entries = entered.2 })
      (cons-ne-nil (record hello { offset = 1 }) [])
