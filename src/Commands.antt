-- ===== src/Commands.antt =====
-- cmd/dislog/main.go: the flags of the command, and the configuration of the agent that it makes of
-- them. Viper is imported.
pub mod Flags
pub mod Clients
use text.Mathlib.Text.{◌==◌ as same_string}
use Prim.Native.String.{◌++◌ as ◌+++◌}
use dislog.Prelude.{
  ℕ, List, [], ◌∷◌, Bool, true, false, ◌&&◌, String, Option, none, some, if◌then◌else◌, Result, ok,
  err, panic, Error, Exec, pure, fail, modify, continue, ◌>>=◌, ◌>>◌,
}
use dislog.Tls.{TlsConfig, Keys, Tls, is_set, setup_tls_config}
use dislog.Agent.{AgentConfig, Agent, Parts, new as new_agent, shutdown as shutdown_agent}

-- The default of a flag
pub data Value : Type 0 where
  word : String → Value
  number : ℕ → Value
  switch : Bool → Value
  texts : List String → Value

-- setupFlags: the flags that viper learns of, on a host and its directory for data
abbrev pub setup_flags : String → String → List (String × Value)
setup_flags hostname data_dir =
    ("config-file", word "")
    ∷ ("data-dir", word data_dir)
    ∷ ("node-name", word hostname)
    ∷ ("bind-addr", word "127.0.0.1:8401")
    ∷ ("rpc-port", number 8400)
    ∷ ("start-join-addrs", texts [])
    ∷ ("bootstrap", switch false)
    ∷ ("acl-model-file", word "")
    ∷ ("acl-policy-file", word "")
    ∷ ("server-tls-cert-file", word "")
    ∷ ("server-tls-key-file", word "")
    ∷ ("server-tls-ca-file", word "")
    ∷ ("peer-tls-cert-file", word "")
    ∷ ("peer-tls-key-file", word "")
    ∷ ("peer-tls-ca-file", word "")
    ∷ []

-- viper.ReadInConfig: a missing file is an error of its own.
pub data Reading : Type 0 where
  was_read not_found : Reading
  unreadable : Error → Reading

-- The package viper, once the flags are bound
pub record Viper : Type 0 where
  pub read_in_config : Reading
  pub get_string : String → String
  pub get_int : String → ℕ
  pub get_bool : String → Bool
  pub get_string_slice : String → Option (List String)

-- cfg: the configuration of the agent, and the files for its TLS
pub record Cfg (T : Type 0) : Type 0 where
  pub agent : AgentConfig T
  pub server_tls : TlsConfig
  pub peer_tls : TlsConfig

module _ {C P : Type 0} (keys : Keys C P) (viper : Viper) where
  unfoldable pub read_config : Reading → Exec (Cfg (Tls C P)) (Unit {0})
  read_config was_read = pure tt
  read_config not_found = pure tt
  read_config (unreadable e) = fail e

  -- The fields that setupConfig takes from viper
  abbrev pub fill : Cfg (Tls C P) → Cfg (Tls C P)
  fill c = record {
    agent = record c.agent {
      data_dir = viper.get_string "data-dir";
      node_name = viper.get_string "node-name";
      bind_addr = viper.get_string "bind-addr";
      rpc_port = viper.get_int "rpc-port";
      start_join_addrs = viper.get_string_slice "start-join-addrs";
      bootstrap = viper.get_bool "bootstrap";
      acl_model_file = viper.get_string "acl-mode-file";
      acl_policy_file = viper.get_string "acl-policy-file";
    };
    server_tls = record c.server_tls {
      cert_file = viper.get_string "server-tls-cert-file";
      key_file = viper.get_string "server-tls-key-file";
      ca_file = viper.get_string "server-tls-ca-file";
    };
    peer_tls = record c.peer_tls {
      cert_file = viper.get_string "peer-tls-cert-file";
      key_file = viper.get_string "peer-tls-key-file";
      ca_file = viper.get_string "peer-tls-ca-file";
    };
  }

  abbrev pub has_pair : TlsConfig → Bool
  has_pair t = is_set t.cert_file && is_set t.key_file

  abbrev pub serving : TlsConfig → TlsConfig
  serving t = record t { server = true }

  -- An assignment of what SetupTLSConfig answers: nil beside an error
  unfoldable pub assigned :
      (Option (Tls C P) → Cfg (Tls C P) → Cfg (Tls C P))
      → Result (Tls C P)
      → Exec (Cfg (Tls C P)) (Unit {0})
  assigned set (ok t) c = (ok tt, set (some t) c)
  assigned set (err e) c = (err e, set none c)
  assigned set panic c = (panic, c)

  abbrev pub set_server_tls : Option (Tls C P) → Cfg (Tls C P) → Cfg (Tls C P)
  set_server_tls t c = record c { agent = record c.agent { server_tls_config = t } }

  abbrev pub set_peer_tls : Option (Tls C P) → Cfg (Tls C P) → Cfg (Tls C P)
  set_peer_tls t c = record c { agent = record c.agent { peer_tls_config = t } }

  unfoldable pub setup_server_tls : Exec (Cfg (Tls C P)) (Unit {0})
  unfolding assigned
  setup_server_tls c =
      if has_pair c.server_tls
      then assigned set_server_tls (setup_tls_config keys (serving c.server_tls))
          (record c { server_tls = serving c.server_tls })
      else (ok tt, c)

  unfoldable pub setup_peer_tls : Exec (Cfg (Tls C P)) (Unit {0})
  unfolding assigned
  setup_peer_tls c =
      if has_pair c.peer_tls
      then assigned set_peer_tls (setup_tls_config keys c.peer_tls) c
      else (ok tt, c)

  -- cli.setupConfig
  unfoldable pub setup_config : Exec (Cfg (Tls C P)) (Unit {0})
  setup_config =
      read_config viper.read_in_config >> modify fill >> setup_server_tls >> setup_peer_tls

-- cli.run: the agent runs until a signal comes.
unfoldable pub run :
    {S T : Type 0}
    → Parts S T
    → Exec (Agent S) (Unit {0})
    → AgentConfig T
    → S
    → Result (Unit {0}) × Agent S
run parts until_signal c s =
    continue (new_agent parts c s) (λ _. until_signal >> shutdown_agent parts)
