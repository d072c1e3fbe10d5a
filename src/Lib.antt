-- ===== src/Lib.antt =====
-- Verification of the distributed-systems services of this repository: Raft with log compaction, the
-- layer between Raft and a service, the key/value service replicated by them, the sharded key/value
-- service with its configurations, its controller, its groups and its clerks, MapReduce with its
-- coordinator and its workers, the single key/value server of 2024, and the simulated network.
--
-- The parts and the files
-- - Base: Boolean tests and lists over the native numbers (Tests, Lists), Go maps as association lists
--   (Assoc), and sorted slices (Sort).
-- - Raft: one peer of lec-2025/src/raft1/raft.go. State has the records, the accessors of the log,
--   persistence (with lec-2025/src/tester1/persister.go) and `Make`; Election has `RequestVote`,
--   `StartElection` and the count of the votes; Append has `AppendEntries`; Snapshot has `Snapshot`
--   and `InstallSnapshot`; Leader has `Start`, `BroadcastAppendEntries`, the reply handlers and
--   `commit`; Applier has a round of `applier`; Event has every call that reaches a peer as one step.
--   The proofs: Log and Reconcile (what the log says after a merge), Validity and Invariant (the
--   invariant of a peer), Recovery (persistence), Follower and Replication (`AppendEntries`), Majority
--   (`commit`), Votes, Backoff (`nextIndex` after a refusal) and Compaction.
-- - Rpc: the errors, arguments and replies of lec-2025/src/kvsrv1/rpc/rpc.go.
-- - Kv: the server of lec-2025/src/kvraft1/server.go; Clerk is lec-2025/src/kvraft1/client.go, Model
--   the specification of lec-2025/src/models1/kv.go and its refinement by the server, Rounds and Once
--   what the clerk's answer says about the server.
-- - Shard: Key is `Key2Shard` of lec-2025/src/shardkv1/shardcfg/shardcfg.go, Group the server of
--   lec-2025/src/shardkv1/shardgrp/server.go with the requests of shardgrp/shardrpc/shardrpc.go;
--   Migration is about a shard's move between two groups, Frozen about sequences of requests. Config
--   has the rest of shardcfg.go and Config/Change its `Join` and `Leave`; Balance and Rebalance (what
--   the analysis and the loops do to the counts), Check and, below Change, Shared, Loops and Ends are
--   the proofs. Controller is lec-2025/src/shardkv1/shardctrler/shardctrler.go, over the services that
--   its clerks give it; Keys, Alone, Change and Recovery are about a controller that works alone;
--   World builds its services from the servers of the groups and their clerks: Kept, Calls, Moves
--   and Steps are about one shard's move, Shards and Loop about the loop over the shards, Data about
--   what a change leaves of the data, and Restart about a controller that starts after one that
--   stopped in a change. Clients is the clerk of a group, shardgrp/client.go, and that of the
--   service, lec-2025/src/shardkv1/client.go; Once is about requests of a group's clerk that are
--   sent again.
-- - Rsm: the layer of lec-2025/src/kvraft1/rsm/rsm.go between a service and the peer of Raft, over any
--   service; Logged and Answers are about what `Submit` returns, Restart about a start after a snapshot.
-- - Mr: the coordinator of MapReduce, src/mr/coordinator.go; Kept and Phases are about whole runs of its
--   loop, Assign about one heartbeat. Worker has the data of src/mr/worker.go, Shuffle and Reduce what
--   becomes of it, and Sequential the loop of src/main/mrsequential.go beside it.
--   System is a whole job: the coordinator, any number of workers and the directory of their files, with
--   each step of the loop `Worker` on them as one event; its modules follow the files (Files), the tasks
--   (Tasks) and what holds at all times (Sound, Steps, Moves, Reached); Outputs is about what a job
--   leaves, and Order, InOrder, Work, Finish and Completion about its end. WordCount is
--   src/mrapps/wc.go as such a job, with its counts in Lengths and Outputs.
-- - Kvsrv: the server of src/kvsrv/server.go with the types of src/kvsrv/common.go; Repeat is about
--   requests that are sent again. Clerk is src/kvsrv/client.go, and Once about an append of the clerk.
--   Model has the specification of src/models/kv.go and its refinement by the server.
-- - Labrpc: the simulated network of lec-2025/src/labrpc/labrpc.go. History and Once are about the
--   executions of a call, Deleted and Silent about a call whose server is deleted.
-- The witnesses stand in the Tests module of each part.
--
-- How the code is modelled
-- - A method is a function from the record of its receiver and its arguments to the new record and
--   the reply. Each runs under the receiver's mutex, so that one call is one step. Goroutines that
--   release the mutex around a remote call are two steps: what happens before the call (`broadcast_to`,
--   `start_election`) and the handler of its reply. The network and the timers are the choice of the
--   order of the steps, so that loss, delay, duplication and reordering are covered.
-- - Indices and terms are natural numbers; the value -1 of a Go variable is `none` of an Option, and
--   a difference that could be negative is written as a test first. Raft's integers do not wrap.
--   Versions are uint64, and wrap at 2 ^ 64.
-- - A map is an association list, in which an insertion replaces the old value.
-- - Loops over slices and maps are structural recursion. The clerk's loops run over the list of what
--   the network returns, and give `none` where the code would go on waiting. The last loop of
--   `Rebalance` has fuel, `enough` = 145: each round lowers the sum of the squared counts, which is at
--   most 12 * 12. The rounds of the service's clerk are fuel too, and `hang` when they are over.
-- - In World, a call to a group is the loop of its clerk over any attempts that fail, each of which may
--   have reached the group; a group is one server's state, by the name of its first server.
-- - In Labrpc, `processReq` is cut where other goroutines may run: up to the start of the handler, the
--   handler, its reply, each look at the server after 100 ms, and the answer, which a timer may delay.
-- - In Rsm, a call of `Submit` is three acts: up to its registration, the registration, and its
--   return by a result or by the timeout. A round of the reader is one act with the round of the
--   peer's applier that feeds it. A call that is started gets a number that no other call has.
-- - In a whole MapReduce job, an event is the next step of a worker: a heartbeat, the rename of one
--   file, reading all files of a reduce task, the clean-up, or a report. A worker may stop at any point,
--   any call may be lost, and a file may go before the rest of its clean-up. A step uses the number of
--   reduce tasks of the coordinator, which never changes.
-- - encoding/gob and encoding/json are not in the repository: the encodings are parameters (Gob,
--   MapGob, Json, Codec), and where a theorem needs it, a hypothesis says that what was encoded is
--   decoded again (IsFaithful, RoundTrips, KeepsNumbers).
-- - A panic of the code, such as an index out of range, is a value where the code can reach it.
--
-- Not modelled: labgob, the test harness and most of the applications; and the unfilled skeletons of the
-- course under src/raft, src/kvraft, src/shardkv and src/shardctrler. Log messages and sleeps are left out.
pub mod Base
pub mod Raft
pub mod Rpc
pub mod Kv
pub mod Shard
pub mod Mr
pub mod Labrpc
pub mod Kvsrv
pub mod Rsm
