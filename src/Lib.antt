-- ===== src/Lib.antt =====
-- Dislog, a distributed commit log: a model of its Go code, with the theorems about it.
--
-- A record that a client produces goes through these parts. The gRPC server (internal/server/server.go)
-- asks the authorizer (internal/auth/authorizer.go) and hands the record to a commit log. That is the
-- distributed log (internal/log/distributed.go), which has Raft replicate the record, and applies what
-- Raft commits to the log on disk (internal/log/log.go). The log is a list of segments
-- (internal/log/segment.go); a segment is a store (store.go), the file of the records, and an index
-- (index.go), which finds a record in it. A second Log keeps the entries of Raft itself. The client's
-- side has a resolver and a picker (internal/loadbalance). Serf tells the membership
-- (internal/discovery/membership.go) of servers that come and go, which has them join the cluster. An
-- HTTP server over a log in memory (internal/server/http.go and log.go) stands apart. The command
-- (cmd/dislog/main.go) makes a configuration of its flags and starts an agent (internal/agent/agent.go),
-- which starts these parts and shuts them down; Raft's connections come through a StreamLayer.
--
-- The files:
--   Prelude     numbers, lists, the 64-bit operations, and the actions: Go's methods that change their
--               receiver and return an error or panic (Prelude.Actions); encoding/binary (Prelude.Bytes)
--   Api         the messages of api/v1/log.proto; error.go
--   Store       store.go: newStore, Append, Read, ReadAt, Close
--   Index       index.go: newIndex, Close, Read, Write, IsMaxed
--   Dir         the directory of a log, and the names of a segment's files
--   Segment     segment.go and config.go
--   Log         log.go: NewLog, setup, Append, Read, Close, Remove, Reset, LowestOffset, HighestOffset,
--               Truncate, newSegment
--   Cluster     distributed.go: DistributedLog, fsm and logStore
--   Grpc        server.go and authorizer.go
--   Http        http.go and server/log.go
--   Balance     picker.go and resolver.go
--   Membership  membership.go
--   Snapshot    log.go: Reader and originReader.Read; distributed.go: Snapshot and Persist
--   Stream      distributed.go: StreamLayer; the match of agent.go that feeds it
--   Node        distributed.go: NewDistributedLog, setupLog, setupRaft, Close
--   Agent       agent.go
--   Tls         internal/config/tls.go and files.go
--   Commands    cmd/dislog/main.go: setupFlags, setupConfig, run; cmd/server and cmd/getservers
--   Tests       runs of the theorems on concrete values
-- The module of a component holds its state and its operations, in snake_case under the names of the
-- source; the modules below it hold the proofs.
--
-- State. A method is a function from the state of its receiver to a result and the new state; what was
-- changed before an error stays changed. `panic` is a Go panic, which no `if err != nil` sees. An open
-- segment has the bytes of its two files; the directory has names, and gets the bytes when the segment
-- closes. Two open segments over the same files are not modelled: they arise only when MaxIndexBytes is
-- below the width of an entry. The active segment is the last of the list. Locks are left out: a call is
-- one step. Log.Append takes its lock twice, and Log.Readers has it in three steps, between which others
-- read. Two Appends at once are not modelled: Raft applies its entries one by one.
--
-- The life of a log. Log.History has the logs that come of NewLog on an empty directory by appends, reads,
-- closings and reopenings in any order, each with the list of the records that were appended. Truncate is
-- no step of a history; a log that was truncated is in Log.Surviving. Log.Abandoned has what a process
-- leaves that ends without Close: the index keeps the full width of its map on disk, and the buffer of the
-- store is lost. Node.Replaying has Raft apply the entries of its log again.
--
-- Numbers. A uint64 is a natural number, and sums and differences are taken modulo 2 ^ 64 where the
-- source can wrap; an int64 is the bit pattern of one, so that -1 is 2 ^ 64 - 1. A byte is a number; the
-- length of a file stays below 2 ^ 63.
--
-- Files. A file takes every write, or it is faulty and refuses them all; reads of an open file succeed.
-- The buffer of bufio.Writer has 4096 bytes, as in Go, and after one failed write it fails always.
--
-- Parameters. Protobuf (Proto, ProtoRequest), the memory map (Gommap), Raft, the policy of casbin
-- (Enforcer), encoding/json (Json) and the router of the HTTP server (Router), the events of Serf, the
-- network (Net), the files of keys (Keys), viper (Viper) and what starts a node (Library) are imported by
-- the program; the model takes them as arguments, with their documented behaviour as laws. The agent has
-- the parts of the program that it starts among its arguments (Parts) too; Agent.Restarting puts the node
-- in among them, and Membership.Voters the distributed log as the handler of the membership.
--
-- Fuel. fsm.Restore has it: a round takes eight bytes off the stream, so one more than the length of the
-- stream is enough. So do the rounds of io.Copy on a store, of 32768 bytes each: a round that does not end
-- the copy takes a byte at least, so one more than the size of the store is enough.
--
-- Not modelled: the generated files of api/v1; logging, statistics and the health service, which
-- NewGRPCServer sets up with libraries.
-- Snapshot and Persist are one step: appends between the two are left out.
pub mod Prelude
pub mod Store
pub mod Api
pub mod Index
pub mod Dir
pub mod Segment
pub mod Log
pub mod Http
pub mod Grpc
pub mod Balance
pub mod Membership
pub mod Cluster
pub mod Snapshot
pub mod Stream
pub mod Node
pub mod Agent
pub mod Tls
pub mod Commands
pub mod Tests
