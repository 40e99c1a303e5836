-- ===== src/Tests/Processes.antt =====
-- Runs of theorems on the process of a server, on its flags, and on the way to the leader.
use text.Mathlib.Text.{◌==◌ as same_string}
use dislog.Prelude.{
  ℕ, List, [], ◌∷◌, Bool, true, false, some, none, String, ◌≡◌, refl, ok, err, unavailable,
  if◌then◌else◌, map,
}
use dislog.Grpc
use dislog.Cluster
use dislog.Cluster.{Raft, Peer}
use dislog.Agent.{Agent, Parts, run_all, shutdown as shutdown_agent}
use dislog.Agent.Stopping.{after_calls, shutdown_once, shutdown-leave_err}
use dislog.Tls.{
  Keys, Tls, TlsConfig, require_and_verify, no_client_cert, setup_tls_config, set_certificate,
  set_authority,
}
use dislog.Commands.{
  Viper, not_found, Cfg, setup_config, setup_flags, read_config, setup_server_tls, setup_peer_tls,
}
use dislog.Commands.Flags.{is_flag, server_demands_certificates, peer_names_no_server, no_acl_model}
use dislog.Balance.{Address, Resolver, new_picker, build, pick, resolve_now, contains, address_of}
use dislog.Balance.Picking.{marked}
use dislog.Balance.Routing.{tagged, LeadsTo, produce_to_leader}

-- The calls that the process has seen, as numbers; `0` is a leave that fails.
abbrev parts : Bool → Parts (List ℕ) ℕ
parts can_leave = record {
  split_host_port = λ addr. ok (addr, addr);
  format_port = λ port. "8400";
  new_logger = λ s. (ok tt, s);
  listen = λ addr s. (ok tt, s);
  match_raft = λ server peer s. s;
  new_distributed_log = λ dir c s. (ok tt, s);
  wait_for_leader = λ timeout s. (ok tt, s);
  new_server = λ model policy t s. (ok tt, s);
  match_any = λ s. s;
  new_membership = λ c s. (ok tt, s);
  leave = λ s. if can_leave then (ok tt, 1 ∷ s) else (err unavailable, 0 ∷ s);
  graceful_stop = λ s. 2 ∷ s;
  close_log = λ s. (ok tt, 3 ∷ s);
  serve_mux = λ s. (ok tt, s);
}

abbrev running : Agent (List ℕ)
running = record { process = []; shutdown = false; closed = false }

shutdown_once_example :
    ((shutdown_agent (parts true) running).0 ≡ ok tt)
    × ((after_calls (parts true) 3 running).process ≡ 3 ∷ 2 ∷ 1 ∷ [])
    × (shutdown_agent (parts true) (after_calls (parts true) 3 running)
        ≡ (ok tt, after_calls (parts true) 3 running))
unfolding run_all
shutdown_once_example =
    shutdown_once (parts true) running 2 (record { not_shut = refl; still_open = refl })

shutdown-leave_err_example :
    ((shutdown_agent (parts false) running).0 ≡ err unavailable)
    × ((after_calls (parts false) 3 running).process ≡ 0 ∷ [])
shutdown-leave_err_example =
    shutdown-leave_err (parts false) running 2 unavailable (0 ∷ [])
      (record { not_shut = refl; still_open = refl }) refl

-- Files whose contents are their names' numbers
abbrev key_files : Keys ℕ ℕ
key_files = record {
  load_key_pair = λ cert key. ok 1;
  read_file = λ name. ok (2 ∷ []);
  certs_from_pem = λ bs. some 3;
}

-- The flags of TLS are set, and nothing else.
abbrev given : String → String
given key =
    if is_flag key (setup_flags "host" "/tmp")
    then (if same_string key "acl-model-file" then "model.conf" else "file.pem")
    else ""

abbrev flags : Viper
flags = record {
  read_in_config = not_found;
  get_string = given;
  get_int = λ key. 8400;
  get_bool = λ key. false;
  get_string_slice = λ key. none;
}

abbrev no_tls : TlsConfig
no_tls = record { cert_file = ""; key_file = ""; ca_file = ""; server_address = ""; server = false }

abbrev start : Cfg (Tls ℕ ℕ)
start = record {
  agent = record {
    server_tls_config = none;
    peer_tls_config = none;
    data_dir = "";
    bind_addr = "";
    rpc_port = 0;
    node_name = "";
    start_join_addrs = none;
    acl_model_file = "";
    acl_policy_file = "";
    bootstrap = false;
  };
  server_tls = no_tls;
  peer_tls = no_tls;
}

abbrev server_tls : Tls ℕ ℕ
server_tls = record {
  certificates = 1 ∷ [];
  root_cas = none;
  client_cas = some 3;
  client_auth = require_and_verify;
  server_name = "";
}

abbrev peer_tls : Tls ℕ ℕ
peer_tls = record {
  certificates = 1 ∷ [];
  root_cas = some 3;
  client_cas = none;
  client_auth = no_client_cert;
  server_name = "";
}

abbrev finish : Cfg (Tls ℕ ℕ)
finish = (setup_config key_files flags start).1

start_runs :
    (setup_config key_files flags start ≡ (ok tt, finish))
    × (finish.agent.server_tls_config ≡ some server_tls)
    × (finish.agent.peer_tls_config ≡ some peer_tls)
unfolding setup_config read_config setup_server_tls setup_tls_config set_certificate set_authority
    setup_peer_tls
start_runs = (refl, refl, refl)

server_demands_certificates_example : server_tls.client_auth ≡ require_and_verify
server_demands_certificates_example =
    server_demands_certificates key_files flags start finish server_tls start_runs.0 refl
      start_runs.1 refl

peer_names_no_server_example : peer_tls.server_name ≡ ""
peer_names_no_server_example =
    peer_names_no_server key_files flags start finish peer_tls start_runs.0 refl refl start_runs.2

given-undefined : (key : String) → is_flag key (setup_flags "host" "/tmp") ≡ false → given key ≡ ""
given-undefined key h = rw h

no_acl_model_example : finish.agent.acl_model_file ≡ ""
no_acl_model_example =
    no_acl_model key_files flags start finish "host" "/tmp" given-undefined start_runs.0

-- A cluster of three nodes, whose leader is the second
abbrev peers : List Peer
peers =
    record { id = "0"; address = "a0" }
    ∷ record { id = "1"; address = "a1" }
    ∷ record { id = "2"; address = "a2" }
    ∷ []

abbrev cluster : Raft (List Peer)
cluster = record {
  apply = λ entry ps. (ok Cluster.nothing, ps);
  configuration = ok;
  remove_server = λ id ps. (ok tt, ps);
  add_voter = λ id addr ps. (ok tt, ps);
  leader = λ ps. "a1";
}

abbrev resolver : Resolver
resolver = record { updated = none; failures = 0 }

abbrev follower_address : Address
follower_address = record { addr = "a2"; is_leader = false }

abbrev leader_address : Address
leader_address = record { addr = "a1"; is_leader = true }

-- The ready connections: one to the third node, and one to the second
abbrev ready : List (ℕ × Address)
ready = (7, follower_address) ∷ (8, leader_address) ∷ []

produce_to_leader_example :
    (conn' : ℕ) × LeadsTo "a1" ready conn'
    × ((pick "/log.v1.Log/Produce" (build (map marked (map tagged ready)) new_picker).1).0
        ≡ ok conn')
unfolding resolve_now Grpc.get_servers Cluster.get_servers Cluster.servers_of contains
produce_to_leader_example =
    produce_to_leader cluster peers peers resolver (map address_of (Cluster.servers_of "a1" peers))
      ready 1 8 leader_address "/log.v1.Log/Produce" new_picker refl refl
      ((2, refl), ((1, refl), tt)) refl refl refl
