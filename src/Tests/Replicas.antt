-- ===== src/Tests/Replicas.antt =====
-- Runs of the replicated log.
use dislog.Prelude.{
  ℕ, List, [], ◌∷◌, ◌++◌, ◌≡◌, ◌≢◌, refl, cons-ne-nil, true, false, ok, err, panic, arith,
  offset_out_of_range,
}
use dislog.Log
use dislog.Log.{Log}
use dislog.Cluster
use dislog.Cluster.{
  Raft, Peer, Entry, append, fsm_apply, restore, restore_loop, get_log, store_log, delete_range,
  join,
}
use dislog.Cluster.Fsm.{append_applies, restore-ne-ok}
use dislog.Cluster.LogStore.{store_log-get_log}
use dislog.Cluster.Overwriting.{delete_range-loses}
use dislog.Cluster.Rounds.{Ends, restore_loop-Ends}
use dislog.Tests.Logs.{two, two-IsLog, bytes_6}
use dislog.Membership.{Member, Event, member_join, member_failed, event_handler}
use dislog.Membership.Voters.{
  log_handler, without, Leads, comes, stays, goes, still, event_handler-Follows,
}
use dislog.Cluster.Join.{Apart, join_conflict}
use dislog.Tests.{
  codec, request_codec, plain_map, hello, hello_bytes, start, start-IsLog, hello-Small,
}

-- A cluster of one node, which applies every entry at once
abbrev alone : Raft Log
alone = record {
  apply = fsm_apply;
  configuration = λ l. ok [];
  remove_server = λ id l. (ok tt, l);
  add_voter = λ id addr l. (ok tt, l);
  leader = λ l. "0";
}

append_applies_example : append alone hello start ≡ Log.append hello start
append_applies_example =
    append_applies alone hello (0 ∷ 1 ∷ 0 ∷ 104 ∷ 105 ∷ []) (λ entry m. refl) refl start

restore-ne-ok_example : restore (0 ∷ 0 ∷ []) start ≢ (ok tt, start)
restore-ne-ok_example = restore-ne-ok (0 ∷ 0 ∷ []) start start (cons-ne-nil 0 (0 ∷ []))

-- An entry that Raft numbers 9
abbrev hi : Entry
hi = record { data' = 104 ∷ 105 ∷ []; index = 9; term = 1; kind = 0 }

store_log-get_log_example :
    (l' : Log) × (store_log hi start ≡ (ok tt, l'))
    × ((get_log 5 l').0 ≡ ok (record { data' = 104 ∷ 105 ∷ []; index = 5; term = 1; kind = 0 }))
store_log-get_log_example =
    store_log-get_log hi hello_bytes 5 5 start ([] ∷ []) start-IsLog refl hello-Small refl

-- DeleteRange of the second of two entries
delete_range-loses_example :
    (l' : Log) × (delete_range 6 6 two ≡ (ok tt, l'))
    × (get_log 5 l' ≡ (err (offset_out_of_range 5), l'))
    × (store_log hi l' ≡ (panic, l'))
delete_range-loses_example =
    delete_range-loses 6 6 5 5 hi two ((hello_bytes ∷ []) ∷ (bytes_6 ∷ []) ∷ []) two-IsLog refl
      (omega arith)

-- A frame of five bytes, which is a record, and the beginning of a length
abbrev cut_off : List ℕ
cut_off = 0 ∷ 0 ∷ 0 ∷ 0 ∷ 0 ∷ 0 ∷ 0 ∷ 5 ∷ 0 ∷ 1 ∷ 0 ∷ 104 ∷ 105 ∷ 0 ∷ 0 ∷ []

restore_loop-Ends_example :
    Ends false cut_off start (restore_loop 20 false cut_off start)
    × Ends true cut_off start (restore cut_off start)
restore_loop-Ends_example = restore_loop-Ends 20 false cut_off start (omega arith)

-- The servers of a cluster as its state
abbrev members : Raft (List Peer)
members = record {
  apply = λ entry ps. (ok Cluster.nothing, ps);
  configuration = ok;
  remove_server = λ id ps. (ok tt, without id ps);
  add_voter = λ id addr ps. (ok tt, ps ++ (record { id = id; address = addr } ∷ []));
  leader = λ ps. "a0";
}

abbrev first : Peer
first = record { id = "0"; address = "a0" }

abbrev second : Peer
second = record { id = "1"; address = "a1" }

first-Apart_2 : Apart "2" "a1" (first ∷ [])
unfolding Apart
first-Apart_2 = (refl, tt)

none-Apart : Apart "2" "a1" []
unfolding Apart
none-Apart = tt

-- The server 2 comes with the address of the server 1: both are members then.
join_conflict_example :
    join members "2" "a1" (first ∷ second ∷ [])
    ≡ (ok tt, first ∷ second ∷ record { id = "2"; address = "a1" } ∷ [])
join_conflict_example =
    join_conflict members "2" "a1" (first ∷ []) (first ∷ second ∷ []) first-Apart_2 second [] refl
      refl none-Apart refl

members-Leads : Leads members
members-Leads = record {
  servers = λ ps. ps;
  configures = λ ps. refl;
  adds = λ id addr ps apart. (ps ++ (record { id = id; address = addr } ∷ []), refl, refl);
  removes = λ id ps. (without id ps, refl, refl);
}

-- A member comes, comes once more, and fails.
abbrev guest : Member
guest = record { name = "1"; rpc_addr = "a1" }

abbrev host : Member
host = record { name = "0"; rpc_addr = "a0" }

abbrev visit : List Event
visit = member_join (host ∷ guest ∷ []) ∷ member_join (guest ∷ []) ∷ member_failed (guest ∷ []) ∷ []

first-Apart : Apart "1" "a1" (first ∷ [])
unfolding Apart
first-Apart = (refl, tt)

event_handler-Follows_example :
    (ps : List Peer) × (event_handler (log_handler members) "0" visit (first ∷ [], [])
      ≡ (ok tt, (ps, [])))
    × (ps ≡ first ∷ [])
unfolding members-Leads
event_handler-Follows_example =
    event_handler-Follows members members-Leads "0" visit (first ∷ []) (first ∷ []) [] (
      comes guest first-Apart
        (stays guest second (first ∷ []) [] first-Apart refl (goes guest still)))
