-- ===== src/Node/Replaying.antt =====
-- A node started again on its directories, whose Raft then catches up: the record log still has the
-- records that the entries of Raft's log made, and gets them again.
use dislog.Prelude.{
  ℕ, zero, suc, ◌+◌, ◌^◌, ◌<◌, List, [], ◌∷◌, ◌++◌, some, get_elem?, ◌≡◌, ◌≢◌, ap, ◌∙◌, arith,
  length, ok, Exec, map, get_elem?-append_lt, get_elem?-behind,
}
use dislog.Api.{Record, Proto, ProtoRequest}
use dislog.Index.{Gommap}
use dislog.Log.{Log, with_defaults, read}
use dislog.Log.Chain.{IsUsable}
use dislog.Log.Lifetime.{history_reads}
use dislog.Cluster.{Entry}
use dislog.Cluster.Replay.{
  entry_of, CatchesUp, Commands, catch_up_lem, get_elem?-renumbered, length-renumbered,
}
use dislog.Snapshot.Frames.{renumbered, Fits}
use dislog.Node.{Settings, Node, Library, new_distributed_log, close}
use dislog.Node.Restarting.{IsNode, Works, close-new_distributed_log}

get_elem?-some_lt :
    (rs : List Record) (i : ℕ) (r : Record) → get_elem? rs i ≡ some r → i < length rs
get_elem?-some_lt [] i r h = cc
get_elem?-some_lt (x ∷ rs) zero r h = omega arith
get_elem?-some_lt (x ∷ rs) (suc i) r h = omega (arith, get_elem?-some_lt rs i r h)

module _ ⦃p : Proto⦄ ⦃q : ProtoRequest⦄ ⦃g : Gommap⦄ {W : Type 0} (lib : Library W) (s : Settings)
    (catch_up : List Entry → Exec Log (Unit {0})) where
  -- A node whose record log has the records of the commands of its Raft log, from the initial offset on
  -- and each once, is closed and started again: both succeed, the record log keeps its records, and when
  -- Raft then catches up on the entries of its log, each command is appended a second time. The record
  -- of the i-th command is read from the initial offset plus `i`, and again from the offset as many
  -- places behind as there are commands. Raft's log has an entry, the libraries do their work, Raft
  -- applies the commands in their order, and no snapshot stands in for entries; the configuration, with
  -- the default for a size that is not set, is usable, with an initial offset below 2 ^ 63 - 1, and the
  -- records fit behind those that are there.
  pub restart-doubles :
      Works lib s
      → CatchesUp catch_up
      → IsUsable (with_defaults s.segment)
      → s.segment.initial_offset + 1 < 2 ^ 63
      → (n : Node W) (qs vs : List Record) (i : ℕ) (r : Record)
      → IsNode lib s n (renumbered s.segment.initial_offset vs) qs
      → qs ≢ []
      → Commands (map entry_of qs) vs
      → Fits (with_defaults s.segment) (s.segment.initial_offset + length vs) vs
      → get_elem? vs i ≡ some r
      → (n' : Node W) × (n'' : Node W) × (l : Log) × (close lib n ≡ (ok tt, n'))
        × (new_distributed_log lib s n'.log.dir n'.raft_log.dir n'.world ≡ (ok tt, n''))
        × (catch_up (map entry_of qs) n''.log ≡ (ok tt, l))
        × ((read (s.segment.initial_offset + i) l).0
            ≡ ok (record r { offset = s.segment.initial_offset + i }))
        × ((read (s.segment.initial_offset + (length vs + i)) l).0
            ≡ ok (record r { offset = s.segment.initial_offset + (length vs + i) }))
  restart-doubles works raft u small n qs vs i r is ne commands fits e =
      let c = with_defaults s.segment in
      let k : ℕ = s.segment.initial_offset in
      let rs = renumbered k vs in
      let count = length-renumbered k vs in
      let (n', n'', closed, opened, is') =
        close-new_distributed_log lib s works u small n rs qs is ne in
      let (l, runs, h) =
        catch_up_lem c u small catch_up raft n''.log rs (k + length vs) commands is'.records
          (omega (arith, count)) fits in
      let within : i < length rs = omega (arith, count, get_elem?-some_lt vs i r e) in
      let first : get_elem? (rs ++ renumbered (k + length vs) vs) i
          ≡ some (record r { offset = k + i }) =
        get_elem?-append_lt rs (renumbered (k + length vs) vs) i within
        ∙ get_elem?-renumbered k i vs r e in
      let again : get_elem? (rs ++ renumbered (k + length vs) vs) (length vs + i)
          ≡ some (record r { offset = k + (length vs + i) }) =
        get_elem?-behind rs (renumbered (k + length vs) vs) (length vs + i) i (omega (arith, count))
        ∙ get_elem?-renumbered (k + length vs) i vs r e
        ∙ ap (λ (m : ℕ). some (record r { offset = m })) (omega arith) in
      (
        n',
        n'',
        l,
        closed,
        opened,
        runs,
        history_reads c u small h i _ first,
        history_reads c u small h (length vs + i) _ again,
      )
