-- ===== src/Node/Restarting.antt =====
-- A node that is closed and started again.
use dislog.Prelude.{
  ◌+◌, ◌^◌, ◌<◌, List, [], true, ◌≡◌, ◌≢◌, sym, ap, ◌∙◌, arith, Result, ok, err, refused, err-ne-ok,
  Bool-cases, inl, inr,
}
use dislog.Api.{Record, Proto}
use dislog.Index.{Gommap}
use dislog.Dir.{Dir, read_dir}
use dislog.Segment.{Config}
use dislog.Log
use dislog.Log.{Log, new_log, setup, with_defaults}
use dislog.Log.Reopening.{new_log-with_defaults}
use dislog.Log.Chain.{IsUsable}
use dislog.Log.History.{History}
use dislog.Log.Lifetime.{history_reopens}
use dislog.Node
use dislog.Node.{
  Settings, Node, Library, open_log, setup_log, setup_raft, bootstrap, raft_segment,
  new_distributed_log, close,
}

module _ ⦃p : Proto⦄ ⦃g : Gommap⦄ {W : Type 0} (lib : Library W) (s : Settings) where
  -- A node whose log has the records `rs` and whose Raft log has the records `qs`.
  pub record IsNode (n : Node W) (rs qs : List Record) : Type 0 where
    pub records : History (with_defaults s.segment) n.log rs
    pub entries : History (with_defaults (raft_segment s.segment)) n.raft_log qs

  -- What a call of Raft that succeeds and only reads the logs leaves of a node.
  pub record LeavesAlone (call : Node W → Result (Unit {0}) × Node W) : Type 0 where
    pub to : Node W → Node W
    pub succeeds : (n : Node W) → call n ≡ (ok tt, to n)
    pub keeps : {n : Node W} {rs qs : List Record} → IsNode n rs qs → IsNode (to n) rs qs

  -- The libraries do their work: a directory that is there is left as it is, the stores of Raft open,
  -- Raft starts and stops, and it finds its state where its log has an entry.
  pub record Works : Type 0 where
    pub dirs : (d : Dir) → d.present ≡ true → lib.make_dirs d ≡ ok d
    pub bolt : (w : W) → (w' : W) × (lib.bolt_store w ≡ (ok tt, w'))
    pub snapshots : (w : W) → (w' : W) × (lib.snapshot_store 1 w ≡ (ok tt, w'))
    pub starts :
        LeavesAlone
          (lib.new_raft s.raft.local_id (Node.timeouts_of s.raft.timeouts lib.default_timeouts))
    pub stops : LeavesAlone lib.shutdown
    pub has_state :
        {n : Node W} {rs qs : List Record}
        → IsNode n rs qs
        → qs ≢ []
        → lib.has_existing_state n ≡ (ok true, n)

  new_log-present : (d : Dir) (c : Config) (l : Log) → new_log d c ≡ (ok tt, l) → d.present ≡ true
  unfolding new_log setup read_dir
  new_log-present d c l h = elim (Bool-cases d.present) [
    | inl there ↦ there
    | inr gone ↦
        let fails : new_log d c
            ≡ (err refused, record { dir = d; config = Log.with_defaults c; segments = [] }) =
          rw gone in
        absurd (err-ne-ok (ap (λ y. y.0) (sym fails ∙ h)))
  ]

  open_log_lem :
      (works : Works) (c : Config) (l l' : Log)
      → new_log l.dir c ≡ (ok tt, l')
      → open_log lib c l ≡ (ok tt, l')
  unfolding open_log
  open_log_lem works c l l' h = rw (works.dirs l.dir (new_log-present l.dir c l' h), h)

  has_bootstrapped :
      (works : Works) (n : Node W) (rs qs : List Record)
      → IsNode n rs qs
      → qs ≢ []
      → bootstrap lib s n ≡ (ok tt, n)
  unfolding bootstrap
  has_bootstrapped works n rs qs is ne = elim (Bool-cases s.raft.bootstrap) [
    | inl b ↦ rw (works.has_state is ne, b)
    | inr b ↦ rw (works.has_state is ne, b)
  ]

  -- Close of a node whose Raft log has an entry succeeds, and NewDistributedLog on the directories that
  -- it leaves succeeds without a second bootstrap: both logs have the records that they had. The
  -- libraries do their work, the logs have seen appends, reads, closings and reopenings only, and the
  -- configuration, with the default for a size that is not set, is usable, with an initial offset below 2 ^ 63 - 1.
  pub close-new_distributed_log :
      Works
      → IsUsable (with_defaults s.segment)
      → s.segment.initial_offset + 1 < 2 ^ 63
      → (n : Node W) (rs qs : List Record) → IsNode n rs qs
      → qs ≢ []
      → (n' : Node W) × (n'' : Node W) × (close lib n ≡ (ok tt, n'))
        × (new_distributed_log lib s n'.log.dir n'.raft_log.dir n'.world ≡ (ok tt, n''))
        × IsNode n'' rs qs
  unfolding close new_distributed_log setup_log setup_raft
  close-new_distributed_log works u small n rs qs is ne =
      let stopped = works.stops.to n in
      let still = works.stops.keeps is in
      let (q, q', qe, qe', _, qh) =
        history_reopens (with_defaults (raft_segment s.segment)) (usable u) (omega arith)
          still.entries in
      let (l, l', le, le', _, lh) =
        history_reopens (with_defaults s.segment) u small still.records in
      let closed : Node W = record { log = l; raft_log = q; world = stopped.world } in
      let (w, we) = works.bolt closed.world in
      let (w', we') = works.snapshots w in
      let open_ : Node W = record {
        log = l';
        raft_log = q';
        world = lib.transport 5 10000000000 w';
      } in
      let is' = works.starts.keeps {n = open_} (record { records = lh; entries = qh }) in
      (
        closed,
        works.starts.to open_,
        rw (works.stops.succeeds n, qe, le),
        rw (
          open_log_lem works s.segment (record { dir = l.dir; config = s.segment; segments = [] })
              l' (sym (new_log-with_defaults l.dir s.segment) ∙ le'),
          open_log_lem works (raft_segment s.segment)
              (record { dir = q.dir; config = raft_segment s.segment; segments = [] }) q'
              (sym (new_log-with_defaults q.dir (raft_segment s.segment)) ∙ qe'),
          we,
          we',
          works.starts.succeeds open_,
          has_bootstrapped works (works.starts.to open_) rs qs is' ne,
        ),
        is',
      )
    where
      usable :
          IsUsable (with_defaults s.segment) → IsUsable (with_defaults (raft_segment s.segment))
      usable u = record {
        one_entry = u.one_entry;
        index_small = u.index_small;
        some_store = u.some_store;
        store_small = u.store_small;
      }
