-- ===== src/Agent.antt =====
-- internal/agent/agent.go: the process that starts the parts of a server and shuts them down.
pub mod Stopping
pub mod Restarting
use Prim.Native.String.{◌++◌ as ◌+++◌}
use dislog.Prelude.{
  ℕ, List, [], ◌∷◌, Bool, true, false, String, Option, if◌then◌else◌, Result, ok, err, panic, Error,
  Exec, pure, lift, modify, ◌>>=◌, ◌>>◌, within,
}
use dislog.Membership.{MembershipConfig}
use dislog.Node.{Settings}

-- Config of the agent. A configuration of TLS is a `T`.
pub record AgentConfig (T : Type 0) : Type 0 where
  pub server_tls_config : Option T
  pub peer_tls_config : Option T
  pub data_dir : String
  pub bind_addr : String
  pub rpc_port : ℕ
  pub node_name : String
  pub start_join_addrs : Option (List String)
  pub acl_model_file : String
  pub acl_policy_file : String
  pub bootstrap : Bool

-- What the agent calls, over the state `S` of the process: functions of Go's packages, and the other
-- parts of the program.
pub record Parts (S T : Type 0) : Type 0 where
  pub split_host_port : String → Result (String × String)
  pub format_port : ℕ → String
  pub new_logger : Exec S (Unit {0})
  pub listen : String → Exec S (Unit {0})
  pub match_raft : Option T → Option T → S → S
  pub new_distributed_log : String → Settings → Exec S (Unit {0})
  pub wait_for_leader : ℕ → Exec S (Unit {0})
  pub new_server : String → String → Option T → Exec S (Unit {0})
  pub match_any : S → S
  pub new_membership : MembershipConfig → Exec S (Unit {0})
  pub leave : Exec S (Unit {0})
  pub graceful_stop : S → S
  pub close_log : Exec S (Unit {0})
  pub serve_mux : Exec S (Unit {0})

-- Agent, with the rest of the process
pub record Agent (S : Type 0) : Type 0 where
  pub process : S
  pub shutdown : Bool
  -- Whether the channel `shutdowns` is closed
  pub closed : Bool

-- Closing a channel that is closed panics.
unfoldable pub close_shutdowns : {S : Type 0} → Exec (Agent S) (Unit {0})
close_shutdowns a = if a.closed then (panic, a) else (ok tt, record a { closed = true })

module _ {S T : Type 0} (parts : Parts S T) where
  -- Config.RPCAddr
  unfoldable pub rpc_addr : AgentConfig T → Result String
  rpc_addr c = joined (parts.split_host_port c.bind_addr)
    where
      joined : Result (String × String) → Result String
      joined (ok (host, port)) = ok (host +++ (":" +++ parts.format_port c.rpc_port))
      joined (err e) = err e
      joined panic = panic

  -- Agent.setupMux
  unfoldable pub setup_mux : AgentConfig T → Exec S (Unit {0})
  setup_mux c = parts.listen (":" +++ parts.format_port c.rpc_port)

  -- The configuration that Agent.setupLog makes; durations are in nanoseconds.
  abbrev pub log_config : AgentConfig T → String → Settings
  log_config c addr = record {
    raft = record {
      bind_addr = addr;
      local_id = c.node_name;
      bootstrap = c.bootstrap;
      timeouts = record { heartbeat = 0; election = 0; leader_lease = 0; commit = 1000000000 };
    };
    segment = record { max_store_bytes = 0; max_index_bytes = 0; initial_offset = 0 };
  }

  -- Agent.setupLog
  unfoldable pub setup_log : AgentConfig T → Exec S (Unit {0})
  setup_log c = do
    modify (parts.match_raft c.server_tls_config c.peer_tls_config)
    addr ← lift (rpc_addr c)
    parts.new_distributed_log c.data_dir (log_config c addr)
    if c.bootstrap then parts.wait_for_leader 3000000000 else pure tt

  -- Agent.setupServer, before its goroutine, which calls Shutdown when the server stops with an error
  unfoldable pub setup_server : AgentConfig T → Exec S (Unit {0})
  setup_server c = do
    parts.new_server c.acl_model_file c.acl_policy_file c.server_tls_config
    modify parts.match_any

  -- Agent.setupMembership
  unfoldable pub setup_membership : AgentConfig T → Exec S (Unit {0})
  setup_membership c = do
    addr ← lift (rpc_addr c)
    parts.new_membership (record {
      node_name = c.node_name;
      bind_addr = c.bind_addr;
      tags = ("rpc_addr", addr) ∷ [];
      start_join_addrs = c.start_join_addrs;
    })

  -- The loops of New and Shutdown: the functions run until one fails.
  unfoldable pub run_all : {S' : Type 0} → List (Exec S' (Unit {0})) → Exec S' (Unit {0})
  run_all [] = pure tt
  run_all (fn ∷ rest) = fn >> run_all rest

  on_process : {A : Type 0} → Exec S A → Exec (Agent S) A
  on_process = within (λ a. a.process) (λ s a. record a { process = s })

  -- New, before its call of serve
  unfoldable pub new : AgentConfig T → S → Result (Unit {0}) × Agent S
  unfolding on_process
  new c s =
      on_process
        (run_all
          (parts.new_logger ∷ setup_mux c ∷ setup_log c ∷ setup_server c ∷ setup_membership c ∷ []))
        (record { process = s; shutdown = false; closed = false })

  -- The functions that Agent.Shutdown runs
  abbrev pub shutdowns : List (Exec S (Unit {0}))
  shutdowns = parts.leave ∷ modify parts.graceful_stop ∷ parts.close_log ∷ []

  -- Agent.Shutdown
  unfoldable pub shutdown : Exec (Agent S) (Unit {0})
  unfolding on_process
  shutdown a =
      if a.shutdown
      then (ok tt, a)
      else (do close_shutdowns; on_process (run_all shutdowns)) (record a { shutdown = true })

  -- The error of the multiplexer stands, whatever Shutdown answers.
  shut_behind : Error → Result (Unit {0}) × Agent S → Result (Unit {0}) × Agent S
  shut_behind e (ok _, a) = (err e, a)
  shut_behind e (err _, a) = (err e, a)
  shut_behind e (panic, a) = (panic, a)

  served : Result (Unit {0}) × Agent S → Result (Unit {0}) × Agent S
  unfolding shut_behind
  served (ok _, a) = (ok tt, a)
  served (err e, a) = shut_behind e (shutdown a)
  served (panic, a) = (panic, a)

  -- Agent.serve: an error of the multiplexer shuts the agent down.
  unfoldable pub serve : Exec (Agent S) (Unit {0})
  unfolding served on_process
  serve a = served (on_process parts.serve_mux a)
