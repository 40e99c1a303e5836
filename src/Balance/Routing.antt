-- ===== src/Balance/Routing.antt =====
-- Where a request goes: the servers that Raft knows, as GetServers answers them, become the addresses of
-- the resolver, and the ready connections among these become the picker's.
use text.Mathlib.Text.{◌==◌ as same_string}
use dislog.Prelude.{
  ℕ, zero, suc, List, [], ◌∷◌, Bool, true, Option, some, ◌≡◌, refl, sym, ap, ◌∙◌, get_elem?, String,
  ok, map, if◌then◌else◌, Bool-cases, inl, inr,
}
use dislog.Cluster
use dislog.Cluster.{Raft, Peer, servers_of}
use dislog.Grpc
use dislog.Grpc.{GetServerer}
use dislog.Balance.{
  Picker, Address, Resolver, address_of, build, resolve_now, pick, picked, contains,
}
use dislog.Balance.Picking.{marked, last_leader, build-marked}

-- A ready connection to an address
abbrev pub tagged : ℕ × Address → ℕ × Bool
tagged (conn, a) = (conn, a.is_leader)

-- The connection is one of `cs`, and its address is the one of the leader.
pub record LeadsTo (leader : String) (cs : List (ℕ × Address)) (conn : ℕ) : Type 0 where
  pub address : Address
  pub place : ℕ
  pub among : get_elem? cs place ≡ some (conn, address)
  pub leads : same_string leader address.addr ≡ true

-- Each connection is to one of the addresses.
abbrev pub Come : List Address → List (ℕ × Address) → Type 0
Come addrs [] = Unit {0}
Come addrs ((conn, a) ∷ cs) = ((i : ℕ) × (get_elem? addrs i ≡ some a)) × Come addrs cs

address-is_leader :
    (leader : String) (peers : List Peer) (i : ℕ) (a : Address)
    → get_elem? (map address_of (servers_of leader peers)) i ≡ some a
    → a.is_leader ≡ same_string leader a.addr
unfolding servers_of
address-is_leader leader [] i a h = cc
address-is_leader leader (p ∷ peers) zero a h =
    let at : address_of
          (record { id = p.id; rpc_addr = p.address; is_leader = same_string leader p.address })
        ≡ a =
      cc in
    ap (λ (x : Address). x.is_leader) (sym at) ∙ ap (λ (x : Address). same_string leader x.addr) at
address-is_leader leader (p ∷ peers) (suc i) a h = address-is_leader leader peers i a h

LeadsTo-rest :
    {leader : String} {cs : List (ℕ × Address)} {conn : ℕ} (c : ℕ × Address)
    → LeadsTo leader cs conn
    → LeadsTo leader (c ∷ cs) conn
LeadsTo-rest c l = record {
  address = l.address;
  place = suc l.place;
  among = l.among;
  leads = l.leads;
}

-- The last leader of some connections has the property `Q`.
abbrev Ends : (ℕ → Type 0) → Option ℕ → List (ℕ × Address) → Type 0
Ends Q known cs = (conn : ℕ) × (last_leader known (map tagged cs) ≡ some conn) × Q conn

module _ (leader : String) (peers : List Peer) where
  leads-at :
      (c : ℕ × Address) (cs : List (ℕ × Address))
      → Come (map address_of (servers_of leader peers)) (c ∷ cs)
      → c.1.is_leader ≡ true
      → LeadsTo leader (c ∷ cs) c.0
  leads-at (conn, a) cs ((i, at), h) marked_so = record {
    address = a;
    place = 0;
    among = refl;
    leads = sym (address-is_leader leader peers i a at) ∙ marked_so;
  }

  keeps :
      (Q : ℕ → Type 0) (cs : List (ℕ × Address)) (k : ℕ)
      → Come (map address_of (servers_of leader peers)) cs
      → ((conn : ℕ) → LeadsTo leader cs conn → Q conn)
      → Q k
      → Ends Q (some k) cs
  keeps Q [] k h leads q = (k, refl, q)
  keeps Q ((conn, a) ∷ cs) k h leads q = elim (Bool-cases a.is_leader) [
    | inl marked_so ↦ rw marked_so (
        keeps Q cs conn h.1 (λ c l. leads c (LeadsTo-rest (conn, a) l))
          (leads conn (leads-at (conn, a) cs h marked_so)))
    | inr not_so ↦ rw not_so (keeps Q cs k h.1 (λ c l. leads c (LeadsTo-rest (conn, a) l)) q)
  ]

  finds :
      (Q : ℕ → Type 0) (cs : List (ℕ × Address)) (known : Option ℕ) (place conn : ℕ) (a : Address)
      → Come (map address_of (servers_of leader peers)) cs
      → ((c : ℕ) → LeadsTo leader cs c → Q c)
      → get_elem? cs place ≡ some (conn, a)
      → same_string leader a.addr ≡ true
      → Ends Q known cs
  finds Q [] known place conn a h leads at is = cc
  finds Q ((conn', b) ∷ cs) known zero conn a ((i, come), h) leads at is =
      let same : b ≡ a = cc in
      let marked_so : b.is_leader ≡ true =
        address-is_leader leader peers i b come
        ∙ ap (λ (x : Address). same_string leader x.addr) same
        ∙ is in
      rw marked_so (
        keeps Q cs conn' h (λ c l. leads c (LeadsTo-rest (conn', b) l))
          (leads conn' (leads-at (conn', b) cs ((i, come), h) marked_so)))
  finds Q ((conn', b) ∷ cs) known (suc place) conn a (come, h) leads at is =
      finds Q cs (if b.is_leader then some conn' else known) place conn a h
        (λ c l. leads c (LeadsTo-rest (conn', b) l)) at is

-- The GetServerer of a server: its distributed log
abbrev pub raft_servers : {R : Type 0} → Raft R → GetServerer R
raft_servers raft = record { servers = Cluster.get_servers raft }

pick_leader :
    (method : String) (p : Picker) (conn : ℕ)
    → contains method "Produce" ≡ true
    → p.leader ≡ some conn
    → (pick method p).0 ≡ ok conn
unfolding pick picked
pick_leader method p conn is known = rw (is, known)

-- When the resolver asks a server for its cluster, and a build follows over connections to addresses
-- that the resolver then has, in any order, one of which is to the address that Raft names as the
-- leader's, then Pick of a Produce answers a connection to that address, whatever the builds before.
pub produce_to_leader :
    {R : Type 0} (raft : Raft R) (r : R) (peers : List Peer) (res : Resolver) (addrs : List Address)
    (cs : List (ℕ × Address)) (place conn : ℕ) (a : Address) (method : String) (p : Picker)
    → raft.configuration r ≡ ok peers
    → (resolve_now (Grpc.get_servers (raft_servers raft) r).0 res).updated ≡ some addrs
    → Come addrs cs
    → get_elem? cs place ≡ some (conn, a)
    → same_string (raft.leader r) a.addr ≡ true
    → contains method "Produce" ≡ true
    → (conn' : ℕ) × LeadsTo (raft.leader r) cs conn'
      × ((pick method (build (map marked (map tagged cs)) p).1).0 ≡ ok conn')
unfolding resolve_now Grpc.get_servers Cluster.get_servers
produce_to_leader raft r peers res addrs cs place conn a method p known updated come at is produce =
    let leader = raft.leader r in
    let both : some (map address_of (servers_of leader peers)) ≡ some addrs = rw known at updated in
    let same : addrs ≡ map address_of (servers_of leader peers) = cc in
    let (conn', last, leads) =
      finds leader peers (LeadsTo leader cs) cs p.leader place conn a (rw same at come) (λ c l. l)
        at is in
    let built = build-marked (map tagged cs) p in
    (
      conn',
      leads,
      pick_leader method (build (map marked (map tagged cs)) p).1 conn' produce
          (ap (λ y. y.1.leader) built ∙ last),
    )
