-- ===== src/Node.antt =====
-- NewDistributedLog, setupLog, setupRaft and Close of internal/log/distributed.go: the life of a node,
-- which has two logs on disk, one for the records and one for Raft's own entries.
pub mod Restarting
pub mod Replaying
use dislog.Prelude.{
  ℕ, List, [], ◌∷◌, Bool, ◌&&◌, not, String, if◌then◌else◌, ◌==◌, Result, Exec, pure, lift, modify,
  ◌>>=◌, ◌>>◌, within,
}
use dislog.Index.{Gommap}
use dislog.Dir.{Dir}
use dislog.Segment.{Config}
use dislog.Log
use dislog.Log.{Log}
use dislog.Cluster.{Peer}

-- The timeouts of raft.Config, as durations in nanoseconds
pub record Timeouts : Type 0 where
  pub heartbeat : ℕ
  pub election : ℕ
  pub leader_lease : ℕ
  pub commit : ℕ

-- Config of internal/log/config.go, with the part for Raft
pub record RaftConfig : Type 0 where
  pub bind_addr : String
  pub local_id : String
  pub bootstrap : Bool
  pub timeouts : Timeouts

pub record Settings : Type 0 where
  pub raft : RaftConfig
  pub segment : Config

-- DistributedLog, with the state `W` of Raft and of the files that only Raft uses
pub record Node (W : Type 0) : Type 0 where
  pub log : Log
  pub raft_log : Log
  pub world : W

-- os.MkdirAll and the packages raft and raft-boltdb. Raft calls the logs, so its calls act on the node.
pub record Library (W : Type 0) : Type 0 where
  pub make_dirs : Dir → Result Dir
  pub bolt_store : Exec W (Unit {0})
  pub snapshot_store : ℕ → Exec W (Unit {0})
  pub transport : ℕ → ℕ → W → W
  pub default_timeouts : Timeouts
  pub new_raft : String → Timeouts → Exec (Node W) (Unit {0})
  pub has_existing_state : Exec (Node W) Bool
  pub bootstrap_cluster : List Peer → Exec (Node W) (Unit {0})
  pub shutdown : Exec (Node W) (Unit {0})

-- A timeout that is set, or the default of Raft
abbrev pub timeout_or : ℕ → ℕ → ℕ
timeout_or set default' = if set == 0 then default' else set

abbrev pub timeouts_of : Timeouts → Timeouts → Timeouts
timeouts_of set default' = record {
  heartbeat = timeout_or set.heartbeat default'.heartbeat;
  election = timeout_or set.election default'.election;
  leader_lease = timeout_or set.leader_lease default'.leader_lease;
  commit = timeout_or set.commit default'.commit;
}

-- The log of Raft starts at offset 1.
abbrev pub raft_segment : Config → Config
raft_segment c = record c { initial_offset = 1 }

module _ {W : Type 0} ⦃g : Gommap⦄ (lib : Library W) where
  abbrev pub on_world : {A : Type 0} → Exec W A → Exec (Node W) A
  on_world = within (λ n. n.world) (λ w n. record n { world = w })

  abbrev pub on_log : {A : Type 0} → Exec Log A → Exec (Node W) A
  on_log = within (λ n. n.log) (λ l n. record n { log = l })

  abbrev pub on_raft_log : {A : Type 0} → Exec Log A → Exec (Node W) A
  on_raft_log = within (λ n. n.raft_log) (λ l n. record n { raft_log = l })

  -- NewLog in a directory that is made if it is missing
  unfoldable pub open_log : Config → Exec Log (Unit {0})
  open_log c l = (do dir ← lift (lib.make_dirs l.dir); (λ _. Log.new_log dir c)) l

  -- DistributedLog.setupLog
  unfoldable pub setup_log : Settings → Exec (Node W) (Unit {0})
  setup_log s = on_log (open_log s.segment)

  -- The last part of DistributedLog.setupRaft
  unfoldable pub bootstrap : Settings → Exec (Node W) (Unit {0})
  bootstrap s = do
    has_state ← lib.has_existing_state
    (if s.raft.bootstrap && not has_state
        then lib.bootstrap_cluster
            (record { id = s.raft.local_id; address = s.raft.bind_addr } ∷ [])
        else pure tt)

  -- DistributedLog.setupRaft
  unfoldable pub setup_raft : Settings → Exec (Node W) (Unit {0})
  setup_raft s = do
    on_raft_log (open_log (raft_segment s.segment))
    on_world lib.bolt_store
    on_world (lib.snapshot_store 1)
    modify (λ n. record n { world = lib.transport 5 10000000000 n.world })
    lib.new_raft s.raft.local_id (timeouts_of s.raft.timeouts lib.default_timeouts)
    bootstrap s

  -- NewDistributedLog, on the directories of the two logs
  unfoldable pub new_distributed_log : Settings → Dir → Dir → W → Result (Unit {0}) × Node W
  new_distributed_log s log_dir raft_dir w =
      (do setup_log s; setup_raft s)
        (record {
          log = record { dir = log_dir; config = s.segment; segments = [] };
          raft_log = record { dir = raft_dir; config = raft_segment s.segment; segments = [] };
          world = w;
        })

  -- DistributedLog.Close
  unfoldable pub close : Exec (Node W) (Unit {0})
  close = do lib.shutdown; on_raft_log Log.close; on_log Log.close
