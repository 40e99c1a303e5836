-- ===== src/Cluster.antt =====
-- internal/log/distributed.go: the replicated log. Raft is imported; it is taken as its calls.
pub mod Fsm
pub mod LogStore
pub mod Join
pub mod Replay
pub mod Overwriting
pub mod Rounds
use dislog.Prelude.{
  ℕ, zero, suc, ◌^◌, ◌%◌, List, [], ◌∷◌, Bool, true, false, ◌||◌, ◌&&◌, String, leb, ltb, ◌==◌,
  if◌then◌else◌, is_empty, length, take, drop, Result, ok, err, panic, Error, eof, unexpected_eof,
  unavailable, Option, some, none, add64, Exec, pure, lift, gets, modify, ◌>>=◌, ◌>>◌,
}
use text.Mathlib.Text.{◌==◌ as same_string}
use dislog.Prelude.Bytes.{uint}
use dislog.Api.{Record, Server, Proto, ProtoRequest}
use dislog.Index.{Gommap}
use dislog.Store.{len_width}
use dislog.Segment
use dislog.Log
use dislog.Log.{Log}

-- What fsm.Apply returns: an error, a ProduceResponse, or nil.
pub data Response : Type 0 where
  failed : Error → Response
  produced : ℕ → Response
  nothing : Response

abbrev pub append_request_type : ℕ
append_request_type = 0

answer : Result ℕ × Log → Result Response × Log
answer (ok off, l) = (ok (produced off), l)
answer (err e, l) = (ok (failed e), l)
answer (panic, l) = (panic, l)

module _ ⦃p : Proto⦄ ⦃q : ProtoRequest⦄ ⦃g : Gommap⦄ where
  -- Log.Append of a nil record, which the active segment dereferences
  append_nil : Exec Log ℕ
  append_nil = do
    highest ← Log.highest_offset
    ss ← gets (λ l. l.segments)
    s ← lift (Log.active ss)
    if Segment.is_maxed s then Log.new_segment (add64 highest 1) else pure tt
    lift panic

  apply_record : Result (Option Record) → Exec Log Response
  unfolding answer append_nil
  apply_record (ok (some r)) l = answer (Log.append r l)
  apply_record (ok none) l = answer (append_nil l)
  apply_record (err e) l = (ok (failed e), l)
  apply_record panic l = (panic, l)

  -- fsm.applyAppend
  unfoldable pub apply_append : List ℕ → Exec Log Response
  unfolding apply_record
  apply_append b = apply_record (q.unmarshal b)

  -- fsm.Apply on the data of a Raft entry
  unfoldable pub fsm_apply : List ℕ → Exec Log Response
  fsm_apply [] l = (panic, l)
  fsm_apply (req_type ∷ b) l =
      if req_type == append_request_type then apply_append b l else (ok nothing, l)

-- raft.Raft, which the program imports, over its state `R`
pub record Peer : Type 0 where
  pub id : String
  pub address : String

pub record Raft (R : Type 0) : Type 0 where
  pub apply : List ℕ → Exec R Response
  pub configuration : R → Result (List Peer)
  pub remove_server : String → Exec R (Unit {0})
  pub add_voter : String → String → Exec R (Unit {0})
  pub leader : R → String

-- The answer of DistributedLog.GetServers
unfoldable pub servers_of : String → List Peer → List Server
servers_of leader [] = []
servers_of leader (srv ∷ rest) =
    record { id = srv.id; rpc_addr = srv.address; is_leader = same_string leader srv.address }
    ∷ servers_of leader rest

-- DistributedLog.GetServers

module _ {R : Type 0} (raft : Raft R) where
  response : Response → Exec R Response
  response (failed e) r = (err e, r)
  response (produced off) r = (ok (produced off), r)
  response nothing r = (ok nothing, r)

  -- DistributedLog.apply
  unfoldable pub apply : ⦃q : ProtoRequest⦄ → ℕ → Record → Exec R Response
  unfolding response
  apply ⦃q⦄ req_type record' = do
    b ← lift (q.marshal record')
    res ← raft.apply (req_type ∷ b)
    response res

  offset_of : Response → Exec R ℕ
  offset_of (failed e) r = (panic, r)
  offset_of (produced off) r = (ok off, r)
  offset_of nothing r = (panic, r)

  -- DistributedLog.Append: the answer is asserted to be a ProduceResponse.
  unfoldable pub append : ⦃q : ProtoRequest⦄ → Record → Exec R ℕ
  unfolding apply offset_of
  append record' = do res ← apply append_request_type record'; offset_of res

  -- The loop of DistributedLog.Join: `true` when the server has already joined.
  unfoldable pub join_each : String → String → List Peer → Exec R Bool
  join_each id addr [] = pure false
  join_each id addr (srv ∷ rest) =
      if same_string srv.id id || same_string srv.address addr
      then (if same_string srv.id id && same_string srv.address addr
          then pure true
          else (raft.remove_server id >> join_each id addr rest))
      else join_each id addr rest

  -- DistributedLog.Join
  unfoldable pub join : String → String → Exec R (Unit {0})
  join id addr = do
    servers ← (λ r. (raft.configuration r, r))
    joined ← join_each id addr servers
    if joined then pure tt else raft.add_voter id addr

  -- DistributedLog.Leave
  unfoldable pub leave : String → Exec R (Unit {0})
  leave id = raft.remove_server id

  unfoldable pub get_servers : Exec R (List Server)
  unfolding servers_of
  get_servers = do
    peers ← (λ r. (raft.configuration r, r))
    leader ← gets raft.leader
    pure (servers_of leader peers)

-- DistributedLog.WaitForLeader: what its two channels deliver, in order. The timeout always comes: where
-- a list ends without it, it comes next.
pub data Tick : Type 0 where
  timed_out : Tick
  leader_seen : String → Tick

unfoldable pub wait_for_leader : List Tick → Result (Unit {0})
wait_for_leader [] = err unavailable
wait_for_leader (timed_out ∷ ticks) = err unavailable
wait_for_leader (leader_seen leader ∷ ticks) =
    let rest = wait_for_leader ticks in if same_string leader "" then rest else ok tt

-- One round of the loop of fsm.Restore: the next record of the stream, and the rest of the stream.
pub data Frame : Type 0 where
  at_end : Frame
  frame : Record → List ℕ → Frame

unfoldable pub decoded : Result Record → List ℕ → Result Frame
decoded (ok r) rest = ok (frame r rest)
decoded (err e) rest = err e
decoded panic rest = panic

module _ ⦃p : Proto⦄ where
  unfoldable pub payload : ℕ → List ℕ → Result Frame
  payload size stream =
      if leb (2 ^ 63) size
      then decoded (p.unmarshal []) stream
      else if ltb (length stream) size
      then err eof
      else decoded (p.unmarshal (take size stream)) (drop size stream)

  -- io.ReadFull of the length, io.CopyN of the payload (an int64: a negative size copies nothing), and
  -- Unmarshal
  unfoldable pub next_frame : List ℕ → Result Frame
  unfolding payload decoded
  next_frame stream =
      if is_empty stream
      then ok at_end
      else if ltb (length stream) len_width
      then err unexpected_eof
      else payload (uint (take len_width stream)) (drop len_width stream)

module _ ⦃p : Proto⦄ ⦃g : Gommap⦄ where
  -- The first record of a snapshot sets the initial offset and resets the log.
  unfoldable pub begin : Bool → Record → Exec Log (Unit {0})
  begin false r = pure tt
  begin true r = do
    modify (λ l. record l { config = record l.config { initial_offset = r.offset } })
    Log.reset

  unfoldable pub restore_frame : (List ℕ → Exec Log (Unit {0})) → Bool → Frame → Exec Log (Unit {0})
  unfolding begin
  restore_frame next first at_end = pure tt
  restore_frame next first (frame r rest) = begin first r >> (Log.append r >>= λ _. next rest)

  -- fsm.Restore. A round takes eight bytes at least, so the length of the stream bounds the rounds.
  unfoldable pub restore_loop : ℕ → Bool → List ℕ → Exec Log (Unit {0})
  unfolding restore_frame
  restore_loop zero first stream = lift panic
  restore_loop (suc fuel) first stream = do
    f ← lift (next_frame stream)
    restore_frame (restore_loop fuel false) first f

  unfoldable pub restore : List ℕ → Exec Log (Unit {0})
  unfolding restore_loop
  restore stream = restore_loop (suc (length stream)) true stream

-- raft.Log
pub record Entry : Type 0 where
  pub data' : List ℕ
  pub index : ℕ
  pub term : ℕ
  pub kind : ℕ

-- logStore.FirstIndex and LastIndex
unfoldable pub first_index : Exec Log ℕ
first_index = Log.lowest_offset

unfoldable pub last_index : Exec Log ℕ
last_index = Log.highest_offset

module _ ⦃p : Proto⦄ where
  -- logStore.GetLog; raft.LogType is a byte
  unfoldable pub get_log : ℕ → Exec Log Entry
  get_log index = do
    r ← Log.read index
    pure (record { data' = r.value; index = r.offset; term = r.term; kind = r.kind % 256 })

abbrev pub record_of : Entry → Record
record_of e = record { value = e.data'; offset = 0; term = e.term; kind = e.kind }

module _ ⦃p : Proto⦄ ⦃g : Gommap⦄ where
  -- logStore.StoreLogs and StoreLog
  unfoldable pub store_logs : List Entry → Exec Log (Unit {0})
  store_logs [] = pure tt
  store_logs (e ∷ es) = Log.append (record_of e) >>= λ _. store_logs es

  unfoldable pub store_log : Entry → Exec Log (Unit {0})
  unfolding store_logs
  store_log e = store_logs (e ∷ [])

-- logStore.DeleteRange
unfoldable pub delete_range : ⦃g : Gommap⦄ → ℕ → ℕ → Exec Log (Unit {0})
delete_range min max = Log.truncate max
