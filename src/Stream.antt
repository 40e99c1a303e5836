-- ===== src/Stream.antt =====
-- StreamLayer of internal/log/distributed.go, and the match of internal/agent/agent.go that hands it
-- its connections. The network and crypto/tls are imported.
pub mod Handshake
use dislog.Prelude.{
  ℕ, List, [], ◌∷◌, Bool, false, Option, none, some, String, if◌then◌else◌, ◌==◌, Result, ok, err,
  panic, unavailable, Exec, pure, fail, ◌>>=◌, ◌>>◌,
}

-- The packages net and crypto/tls over the state `W` of the network: listeners `L`, connections `C` and
-- the configurations `T` of TLS.
pub record Net (W L C T : Type 0) : Type 0 where
  pub dial : String → ℕ → Exec W C
  pub accept : L → Exec W C
  pub write : C → List ℕ → Exec W (Unit {0})
  pub read : C → ℕ → Exec W (List ℕ)
  pub client : C → T → C
  pub server : C → T → C
  pub close : L → Exec W (Unit {0})
  pub addr : L → String

pub record StreamLayer (L T : Type 0) : Type 0 where
  pub ln : L
  pub server_tls_config : Option T
  pub peer_tls_config : Option T

-- NewStreamLayer
abbrev pub new_stream_layer : {L T : Type 0} → L → Option T → Option T → StreamLayer L T
new_stream_layer ln server peer = record {
  ln = ln;
  server_tls_config = server;
  peer_tls_config = peer;
}

-- RaftRPC
abbrev pub raft_rpc : ℕ
raft_rpc = 1

-- A buffer of one byte, zero at first, after a read into it
unfoldable pub first_byte : List ℕ → ℕ
first_byte [] = 0
first_byte (b ∷ bs) = b

module _ {W L C T : Type 0} (net : Net W L C T) where
  -- A connection under TLS, if that is configured
  abbrev pub wrapped : (C → T → C) → Option T → C → C
  wrapped over none conn = conn
  wrapped over (some config) conn = over conn config

  -- StreamLayer.Dial
  unfoldable pub dial : StreamLayer L T → String → ℕ → Exec W C
  dial s addr timeout = do
    conn ← net.dial addr timeout
    net.write conn (raft_rpc ∷ [])
    pure (wrapped net.client s.peer_tls_config conn)

  -- StreamLayer.Accept
  unfoldable pub accept : StreamLayer L T → Exec W C
  unfolding first_byte
  accept s = do
    conn ← net.accept s.ln
    b ← net.read conn 1
    if raft_rpc == first_byte b
        then pure (wrapped net.server s.server_tls_config conn)
        else fail unavailable

  -- StreamLayer.Close
  unfoldable close : StreamLayer L T → Exec W (Unit {0})
  close s = net.close s.ln

  -- StreamLayer.Addr
  unfoldable addr : StreamLayer L T → String
  addr s = net.addr s.ln

  unfoldable pub matched : Result (List ℕ) × W → Bool × W
  unfolding first_byte
  matched (ok b, w) = (first_byte b == raft_rpc, w)
  matched (err e, w) = (false, w)
  matched (panic, w) = (false, w)

  -- The match of Agent.setupLog
  unfoldable pub match_raft : C → W → Bool × W
  unfolding matched
  match_raft conn w = matched (net.read conn 1 w)
