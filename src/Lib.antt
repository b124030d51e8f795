-- ===== src/Lib.antt =====
-- Verification of the Raft key/value store of this repository (packages raft and kvraft),
-- of its simulated network (labrpc), of the checks before encoding (labgob), of the harnesses
-- (raft/config.go, kvraft/config.go) and of the model that its tests check it by (linearizability).
--
-- The program. A client (kvraft/client.go) sends Get, Put and Append to the servers one after the
-- other until one answers. A server (kvraft/server.go) hands each new command to its Raft peer
-- (raft/raft.go) and waits until the daemon that reads the peer's applyCh has applied it. The peers
-- elect a leader, which copies its log to the others; an entry that most of them hold is committed
-- and sent to applyCh. A persister (raft/persister.go) keeps the peer's state and the service's
-- snapshot over a crash. Peers and clients talk over a simulated network (labrpc).
--
-- The files. Names follow the source, with the words of a name joined by underscores.
--   Prelude, Prelude/Tests, Prelude/Lists, Prelude/Dict: numbers, Boolean tests, Go's slices as
--     lists and Go's maps as association lists.
--   Persister: raft/persister.go, and the record Gob, the documented behaviour of encoding/gob that
--     the code relies on (what was encoded is decoded, and takes at least a byte).
--   Raft/State: the struct Raft, its messages, slices of the log. Raft/Persist: persist,
--     readPersist, Make. Raft/Vote: RequestVote, canvassVotes. Raft/Append: AppendEntries.
--     Raft/Snapshot: NewSnapShot, InstallSnapshot, sendSnapshot. Raft/Leader: Start, Kill,
--     updateCommitIndex, consistencyCheck and its reply handler, heartbeatDaemon. Raft/Apply:
--     applyLogEntryDaemon.
--   Raft/Election, OneVote, Totality, Matching, Requests, Replication, Sorting, Commit, Backtrack,
--     Probing, Durability, Compaction, Delivery, Recovery, Lapses, Stale: the theorems on the peer.
--     Raft/Daemon: electionDaemon.
--     Raft/Tests and the files below it: concrete peers.
--   Raft/Cluster: peers and the vote replies between them, as a step relation. Cluster/Calls: what the
--     calls that are not about votes keep. Cluster/Votes: what canvasses and votes change.
--     Cluster/History: the history of the votes and its invariant. Cluster/Safety: the theorem on
--     leaders. Cluster/Logs: the cluster with the AppendEntries requests that were sent, without
--     snapshots. Cluster/Calm, Appended, Requests: what the calls do to a log. Cluster/Chains: the logs that
--     the leaders had. Cluster/LogInv, LogLead: the invariant of the logs. Cluster/Matching: log matching.
--     Cluster/Tests and Cluster/LogTests: an election, and a command that is copied.
--   Kv/State: kvraft/common.go and the data of kvraft/server.go. Kv/Server: Get, PutAppend, the
--     switch of applyDaemon. Kv/Apply: applyDaemon, the snapshots, StartKVServer, Kill. Kv/Clerk:
--     kvraft/client.go.
--   Labrpc/Network: the configuration of labrpc/labrpc.go's Network, and ProcessReq. Labrpc/Requests:
--     the theorems on it. Labrpc/Server: Server and Service of the same file. Labrpc/Dispatch: the
--     theorems on them. Labrpc/ClientEnd: ClientEnd.Call. Labrpc/EndToEnd: a call from end to end.
--     Labrpc/Tests and Labrpc/DispatchTests: a concrete network and server.
--   Labgob/Types: checkType of labgob/labgob.go. Labgob/Checked, Labgob/Closure: the theorems on it.
--     Labgob/Defaults: checkDefault. Labgob/Tests: a type and a value.
--   Harness/Config: the struct config of raft/config.go, the readers of applyCh that start1 starts,
--     nCommitted and wait. Harness/Checks: checkOneLeader, checkTerms, checkNoLeader. Harness/Servers:
--     connect, disconnect, crash1, start1, make_config, over the network of Labrpc/Network and the peers
--     of Raft. Harness/Agreement, Committed: the theorems on the readers. Harness/One: one. Harness/Leaders, OneLeader: those
--     on checkOneLeader. Harness/Ends, Touched, Wiring, Partition, Starting, Made, MakeConfig: those on the
--     network. Harness/Service: connect, disconnect and partition of kvraft/config.go. Harness/Links,
--     Harness/Parts: the theorems on them. Harness/KvConfig: the struct config of kvraft/config.go, its
--     servers and clients, make_partition, make_config. Harness/Minority: the theorem on the parts.
--     Harness/KvStart, KvMade: those on make_config and make_partition. Harness/FreshEnds, KvRestart: those on
--     a restart. Harness/KvClients: those on clients. Harness/Tests, NetworkTests and KvTests: concrete runs.
--   Linearizability/KvModel: linearizability/models.go. Linearizability/Agreement: the model against
--     the service. Linearizability/Tests: a short history.
--   Kv/Once, Snapshots, Requests, Lost, Retries, Progress: the theorems on the service. Kv/Tests and
--     Kv/ProgressTests: concrete runs.
--
-- How code becomes a definition. A method is a function from the state to the new state, its reply
-- and its effects, a list of the goroutines started and the channel sends, in the order of the
-- source. A method runs under the peer's mutex, so one call is one step; the two halves of Get and
-- PutAppend on either side of their wait are two steps. Where Go panics (an index or a slice out of
-- range, an explicit panic, a channel closed twice) the result is `none`. Go's ints are natural
-- numbers, without overflow, and -1 is `none`. The closing of shutdownCh is the flag `shutdown`.
-- Loops are structural recursion on a list or on the number of rounds left. Only checkType, whose
-- types may be made of themselves, takes fuel: one more than the number of types is enough. What
-- the clock and the network do to a client is a list of outcomes, one for each round, and the random
-- numbers of generateID are a list; those of the network are arguments. So is what the array of a log
-- holds beyond its length, which Go's rf.Logs[a:b] may read. sort.Ints is written out as
-- an insertion sort. The types of byte slices and of commands are parameters of the peer.
--
-- Not modelled. Durations and sleeps, since time is not part of the model: that a timer expires is an
-- event. Interleavings inside a method, since the mutex excludes them. Debug output. Channels, and
-- reflection and encoding, of which the results are parameters. The search of
-- the linearizability checker and its bit set, which are those of another project (Porcupine) and
-- which only the tests call. Of the harnesses, the parts that the clock drives and
-- those that print. The tests.
pub mod Prelude
pub mod Persister
pub mod Raft
pub mod Harness
pub mod Labgob
pub mod Labrpc
pub mod Kv
pub mod Linearizability
