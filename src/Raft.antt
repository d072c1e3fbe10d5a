-- ===== src/Raft.antt =====
-- One Raft peer, lec-2025/src/raft1/raft.go. The state and the operations are in the modules
-- named for the parts of the protocol; what is proved of them in the modules below these.
pub mod State
pub mod Election
pub mod Append
pub mod Snapshot
pub mod Leader
pub mod Applier
pub mod Event
pub mod Recovery
pub mod Examples
pub mod Log
pub mod Validity
pub mod Reconcile
pub mod Follower
pub mod Invariant
pub mod Votes
pub mod Majority
pub mod Replication
pub mod Backoff
pub mod Compaction
pub mod Tests
