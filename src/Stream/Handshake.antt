-- ===== src/Stream/Handshake.antt =====
-- Which connections a StreamLayer takes.
use dislog.Prelude.{
  ℕ, List, [], ◌∷◌, true, false, String, ◌==◌, ◌≡◌, arith, ok, err, unavailable, take, Bool-cases,
  ◌⊎◌, inl, inr,
}
use dislog.Stream.{
  Net, StreamLayer, wrapped, dial, accept, match_raft, matched, first_byte, raft_rpc,
}

-- The network brings the connection `c` to the listener of the server; from there, `c'` is read.
pub record Delivers {W L C T : Type 0} (net : Net W L C T) (s : StreamLayer L T) (bs : List ℕ)
    (w : W) : Type 0 where
  pub conn : C
  pub there : W
  pub accepted : net.accept s.ln w ≡ (ok conn, there)
  pub after : W
  pub has : net.read conn 1 there ≡ (ok bs, after)

swapped : (a : ℕ) → (a == raft_rpc) ≡ false → (raft_rpc == a) ≡ false
swapped a h = ground arith

==→eq : (a b : ℕ) → (a == b) ≡ true → a ≡ b
==→eq a b h = ground arith

module _ {W L C T : Type 0} (net : Net W L C T) (s : StreamLayer L T) (bs : List ℕ) (w : W)
    (d : Delivers net s bs w) where
  -- Of a connection that the network brings, Accept takes away one byte. The match of the agent
  -- answers whether that byte is the one of Raft, and Accept gives the connection, under TLS if that is
  -- configured, exactly when it is; otherwise it answers an error.
  pub accept_matched :
      ((match_raft net d.conn d.there ≡ (true, d.after))
        × (accept net s w ≡ (ok (wrapped net net.server s.server_tls_config d.conn), d.after)))
      ⊎ ((match_raft net d.conn d.there ≡ (false, d.after))
          × (accept net s w ≡ (err unavailable, d.after)))
  unfolding match_raft matched accept
  accept_matched = elim (Bool-cases (first_byte bs == raft_rpc)) [
    | inl same ↦
        let e = ==→eq (first_byte bs) raft_rpc same in
        inl (rw (d.has, same), rw (d.accepted, d.has, e))
    | inr other ↦ inr (rw (d.has, other), rw (d.accepted, d.has, swapped (first_byte bs) other))
  ]

-- The network carries what is written on the connection `conn` to the listener of `s`.
pub record Carries {W L C T : Type 0} (net : Net W L C T) (s : StreamLayer L T) (conn : C) (w : W)
    : Type 0 where
  pub written : List ℕ → W
  pub takes : (bs : List ℕ) → net.write conn bs w ≡ (ok tt, written bs)
  pub delivers : (bs : List ℕ) → Delivers net s (take 1 bs) (written bs)

-- If the network connects to an address and carries what is written there to the StreamLayer `s`, then
-- Dial succeeds, the match of the agent leaves what it has dialled to `s`, and Accept of `s` takes it;
-- each side has its end of the connection under TLS if that is configured there.
pub dial-accept :
    {W L C T : Type 0} (net : Net W L C T) (from s : StreamLayer L T) (addr : String) (timeout : ℕ)
    (w w' : W) (conn : C)
    → net.dial addr timeout w ≡ (ok conn, w')
    → (n : Carries net s conn w')
    → let d = n.delivers (raft_rpc ∷ []) in
      (dial net from addr timeout w
        ≡ (ok (wrapped net net.client from.peer_tls_config conn), n.written (raft_rpc ∷ [])))
      × (match_raft net d.conn d.there ≡ (true, d.after))
      × (accept net s (n.written (raft_rpc ∷ []))
          ≡ (ok (wrapped net net.server s.server_tls_config d.conn), d.after))
unfolding dial match_raft matched accept first_byte
dial-accept net from s addr timeout w w' conn e n =
    let d = n.delivers (raft_rpc ∷ []) in
    (rw (e, n.takes (raft_rpc ∷ [])), rw d.has, rw (d.accepted, d.has))
