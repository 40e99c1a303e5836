-- ===== src/Tests/Nodes.antt =====
-- Runs of theorems on the connections of Raft, and on a node that is closed and started again.
use dislog.Prelude.{
  ℕ, List, [], ◌∷◌, ◌++◌, true, some, none, ◌≡◌, refl, arith, take, drop, ◌+◌, cons-ne-nil, ok,
  Exec, ◌==◌, if◌then◌else◌, ne→==,
}
use dislog.Dir.{Dir}
use dislog.Segment.{Config}
use dislog.Log
use dislog.Log.{Log}
use dislog.Log.Chain.{IsUsable}
use dislog.Log.Creating.{empty_dir, new_log_empty}
use dislog.Log.Reopening.{IsDurable}
use dislog.Log.History.{History, created}
use dislog.Log.Lifetime.{history_appends}
use dislog.Api.{Record}
use dislog.Cluster.{Peer, Entry, fsm_apply}
use dislog.Cluster.Replay.{entry_of, CatchesUp, command, none as no_entries}
use dislog.Stream
use dislog.Stream.{Net, StreamLayer}
use dislog.Stream.Handshake.{Carries, dial-accept}
use dislog.Node
use dislog.Node.{Node, Settings, Library, new_distributed_log}
use dislog.Node.Replaying.{restart-doubles}
use dislog.Node.Restarting.{IsNode, Works, close-new_distributed_log}
use dislog.Tests.{codec, plain_map, hello, request_codec, hello_bytes, config, config-IsUsable}

-- A network of one wire, whose state is the bytes on it
abbrev wire : Net (List ℕ) ℕ ℕ ℕ
wire = record {
  dial = λ addr timeout w. (ok 0, w);
  accept = λ ln w. (ok 1, w);
  write = λ conn bs w. (ok tt, w ++ bs);
  read = λ conn n w. (ok (take n w), drop n w);
  client = λ conn t. conn + t;
  server = λ conn t. conn + t;
  close = λ ln w. (ok tt, w);
  addr = λ ln. "127.0.0.1:8400";
}

abbrev near : StreamLayer ℕ ℕ
near = record { ln = 0; server_tls_config = none; peer_tls_config = some 10 }

abbrev far : StreamLayer ℕ ℕ
far = record { ln = 0; server_tls_config = some 20; peer_tls_config = none }

wire-Carries : Carries wire far 0 []
wire-Carries = record {
  written = λ bs. bs;
  takes = λ bs. refl;
  delivers = λ bs. record { conn = 1; there = bs; accepted = refl; after = drop 1 bs; has = refl };
}

dial-accept_example :
    (Stream.dial wire near "far" 5 [] ≡ (ok 10, 1 ∷ []))
    × (Stream.match_raft wire 1 (1 ∷ []) ≡ (true, []))
    × (Stream.accept wire far (1 ∷ []) ≡ (ok 21, []))
unfolding wire-Carries
dial-accept_example = dial-accept wire near far "far" 5 [] [] 0 refl wire-Carries

abbrev raft_config : Config
raft_config = record config { initial_offset = 1 }

raft_config-IsUsable : IsUsable raft_config
raft_config-IsUsable = record {
  one_entry = omega arith;
  index_small = omega arith;
  some_store = omega arith;
  store_small = omega arith;
}

abbrev made :
    (l : Log) × (Log.new_log empty_dir config ≡ (ok tt, l))
    × IsDurable l 5 ([] ∷ [])
    × (l.config ≡ config)
made = new_log_empty config config-IsUsable (omega arith)

abbrev raft_made :
    (l : Log) × (Log.new_log empty_dir raft_config ≡ (ok tt, l))
    × IsDurable l 1 ([] ∷ [])
    × (l.config ≡ raft_config)
raft_made = new_log_empty raft_config raft_config-IsUsable (omega arith)

-- The first entry of Raft
abbrev entered :
    (l : Log) × (Log.append hello raft_made.0 ≡ (ok 1, l))
    × History raft_config l (record hello { offset = 1 } ∷ [])
entered =
    history_appends raft_config raft_config-IsUsable (omega arith) hello
      (1 ∷ 1 ∷ 0 ∷ 104 ∷ 105 ∷ []) 1 (created raft_made.1) refl
      (record { bytes_fit = omega arith; offset_fits = omega arith }) refl

abbrev node : Node (List Peer)
node = record { log = made.0; raft_log = entered.0; world = [] }

abbrev settings : Settings
settings = record {
  raft = record {
    bind_addr = "a0";
    local_id = "0";
    bootstrap = true;
    timeouts = record { heartbeat = 0; election = 0; leader_lease = 0; commit = 1000000000 };
  };
  segment = config;
}

-- Libraries whose calls succeed, and a Raft that finds its state
abbrev pub library : Library (List Peer)
library = record {
  make_dirs = λ d. ok (record d { present = true });
  bolt_store = λ w. (ok tt, w);
  snapshot_store = λ retain w. (ok tt, w);
  transport = λ pool timeout w. w;
  default_timeouts = record { heartbeat = 1; election = 1; leader_lease = 1; commit = 1 };
  new_raft = λ id t n. (ok tt, n);
  has_existing_state = λ n. (ok true, n);
  bootstrap_cluster = λ peers n. (ok tt, record n { world = peers });
  shutdown = λ n. (ok tt, n);
}

pub there-same : (d : Dir) → d.present ≡ true → ok (record d { present = true }) ≡ ok d
there-same d h = rw (← h) refl

library-Works : Works library settings
library-Works = record {
  dirs = there-same;
  bolt = λ w. (w, refl);
  snapshots = λ w. (w, refl);
  starts = record { to = λ n. n; succeeds = λ n. refl; keeps = λ h. h };
  stops = record { to = λ n. n; succeeds = λ n. refl; keeps = λ h. h };
  has_state = λ h ne. refl;
}

node-IsNode : IsNode library settings node [] (record hello { offset = 1 } ∷ [])
node-IsNode = record { records = created made.1; entries = entered.2 }

close-new_distributed_log_example :
    (n' : Node (List Peer)) × (n'' : Node (List Peer)) × (Node.close library node ≡ (ok tt, n'))
    × (new_distributed_log library settings n'.log.dir n'.raft_log.dir n'.world ≡ (ok tt, n''))
    × IsNode library settings n'' [] (record hello { offset = 1 } ∷ [])
close-new_distributed_log_example =
    close-new_distributed_log library settings library-Works config-IsUsable (omega arith) node []
      (record hello { offset = 1 } ∷ []) node-IsNode (cons-ne-nil (record hello { offset = 1 }) [])

-- The entry that an Append of `hello` makes, and the log of Raft with it
abbrev command_entry : Record
command_entry = record { value = 0 ∷ 0 ∷ 1 ∷ 0 ∷ 104 ∷ 105 ∷ []; offset = 1; term = 1; kind = 0 }

abbrev commanded :
    (l : Log) × (Log.append command_entry raft_made.0 ≡ (ok 1, l))
    × History raft_config l (command_entry ∷ [])
commanded =
    history_appends raft_config raft_config-IsUsable (omega arith) command_entry
      (1 ∷ 1 ∷ 0 ∷ 0 ∷ 0 ∷ 1 ∷ 0 ∷ 104 ∷ 105 ∷ []) 1 (created raft_made.1) refl
      (record { bytes_fit = omega arith; offset_fits = omega arith }) refl

-- The log of the records after that Append
abbrev said_once :
    (l : Log) × (Log.append hello made.0 ≡ (ok 5, l))
    × History config l (record hello { offset = 5 } ∷ [])
said_once =
    history_appends config config-IsUsable (omega arith) hello hello_bytes 5 (created made.1) refl
      (record { bytes_fit = omega arith; offset_fits = omega arith }) refl

abbrev busy : Node (List Peer)
busy = record { log = said_once.0; raft_log = commanded.0; world = [] }

-- The commands applied in their order
abbrev apply_commands : List Entry → Exec Log (Unit {0})
apply_commands [] l = (ok tt, l)
apply_commands (e ∷ es) l = apply_commands es (if e.kind == 0 then (fsm_apply e.data' l).1 else l)

apply_commands-CatchesUp : CatchesUp apply_commands
apply_commands-CatchesUp = record {
  ends = λ l. refl;
  applies = λ e es l is. rw is refl;
  skips = λ e es l not. rw (ne→== e.kind 0 not) refl;
}

restart-doubles_example :
    (n' : Node (List Peer)) × (n'' : Node (List Peer)) × (l : Log) × (Node.close library busy
      ≡ (ok tt, n'))
    × (new_distributed_log library settings n'.log.dir n'.raft_log.dir n'.world ≡ (ok tt, n''))
    × (apply_commands (entry_of command_entry ∷ []) n''.log ≡ (ok tt, l))
    × ((Log.read 5 l).0 ≡ ok (record hello { offset = 5 }))
    × ((Log.read 6 l).0 ≡ ok (record hello { offset = 6 }))
restart-doubles_example =
    restart-doubles library settings apply_commands library-Works apply_commands-CatchesUp
      config-IsUsable (omega arith) busy (command_entry ∷ []) (hello ∷ []) 0 hello
      (record { records = said_once.2; entries = commanded.2 }) (cons-ne-nil command_entry [])
      (command (entry_of command_entry) (0 ∷ 1 ∷ 0 ∷ 104 ∷ 105 ∷ []) hello refl refl refl
        no_entries)
      (
        (
          6 ∷ 1 ∷ 0 ∷ 104 ∷ 105 ∷ [],
          refl,
          record { bytes_fit = omega arith; offset_fits = omega arith },
        ),
        tt,
      )
      refl
