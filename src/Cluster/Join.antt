-- ===== src/Cluster/Join.antt =====
-- Servers joining the cluster.
use dislog.Prelude.{
  List, [], ◌∷◌, ◌++◌, Bool, true, false, ◌||◌, ◌&&◌, ◌≡◌, refl, String, ok, append-nil, Run-cases,
  done, failed, panicked, ◌>>◌,
}
use text.Mathlib.Text.{◌==◌ as same_string}
use dislog.Cluster.{Raft, Peer, join, join_each}

-- Whether a server of the configuration has the id or the address.
abbrev pub shares : String → String → Peer → Bool
shares id addr srv = same_string srv.id id || same_string srv.address addr

-- Whether it has both.
abbrev pub known : String → String → Peer → Bool
known id addr srv = same_string srv.id id && same_string srv.address addr

-- No server of the list shares the id or the address.
unfoldable pub Apart : String → String → List Peer → Type 0
Apart id addr [] = Unit {0}
Apart id addr (srv ∷ rest) = (shares id addr srv ≡ false) × Apart id addr rest

both-either : (a b : Bool) → (a && b) ≡ true → (a || b) ≡ true
both-either true b h = refl
both-either false b h = cc

module _ {R : Type 0} (raft : Raft R) (id addr : String) where
  passed :
      (before rest : List Peer) (r : R)
      → Apart id addr before
      → join_each raft id addr (before ++ rest) r ≡ join_each raft id addr rest r
  unfolding join_each Apart
  passed [] rest r _ = refl
  passed (srv ∷ before) rest r (h, hs) = rw h (passed before rest r hs)

  module _ (before : List Peer) (r : R) (others : Apart id addr before) where
    -- Joining a cluster in which no server shares the id or the address adds the server, at once.
    pub join_fresh :
        raft.configuration r ≡ ok before → join raft id addr r ≡ raft.add_voter id addr r
    unfolding join join_each
    join_fresh conf =
        let none_found : join_each raft id addr before r ≡ (ok false, r) =
          rw (← append-nil before) (passed before [] r others) in
        rw (conf, none_found)

    -- Joining a cluster of which a server with the id and the address is a member already changes
    -- nothing, where the servers listed before it share neither; whatever is listed after it.
    pub join_known :
        (srv : Peer) (after : List Peer)
        → known id addr srv ≡ true
        → raft.configuration r ≡ ok (before ++ (srv ∷ after))
        → join raft id addr r ≡ (ok tt, r)
    unfolding join join_each
    join_known srv after same conf =
        let either : shares id addr srv ≡ true = both-either (same_string srv.id id) _ same in
        rw (conf, passed before (srv ∷ after) r others, either, same)

    -- Where one server shares only the id or only the address, and the others share neither, Join
    -- removes the id of the joining server and adds the joining server after that; the server that was
    -- found is not removed when its id is another one. Where the removal fails, nothing is added.
    pub join_conflict :
        (srv : Peer) (after : List Peer)
        → shares id addr srv ≡ true
        → known id addr srv ≡ false
        → Apart id addr after
        → raft.configuration r ≡ ok (before ++ (srv ∷ after))
        → join raft id addr r ≡ (raft.remove_server id >> raft.add_voter id addr) r
    unfolding join join_each
    join_conflict srv after one both rest conf =
        let none_after : (s : R) → join_each raft id addr after s ≡ (ok false, s) =
          λ s. rw (← append-nil after) (passed after [] s rest) in
        elim (Run-cases (raft.remove_server id r)) [
          | done t s e ↦ rw (conf, passed before (srv ∷ after) r others, one, both, e, none_after s)
          | failed x s e ↦ rw (conf, passed before (srv ∷ after) r others, one, both, e)
          | panicked s e ↦ rw (conf, passed before (srv ∷ after) r others, one, both, e)
        ]
