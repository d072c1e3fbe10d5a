-- ===== src/Raft/Event.antt =====
-- One peer under the calls that reach it, in any order: the three RPC handlers, the replies to its
-- own calls, the service's `Start` and `Snapshot`, and the rounds of `ticker` and `leaderTicker`
-- (lec-2025/src/raft1/raft.go, lines 753 to 791 and 971 to 1002). The network and the timers choose
-- the events, so that loss, delay, duplication and reordering of messages are all covered.
use mit.Base.{ℕ, false, List, [], ◌∷◌, if◌then◌else◌}
use mit.Raft.State.{Raft, Gob, Bytes, kill, is_leader}
use mit.Raft.Election.{
  RequestVoteArgs, RequestVoteReply, Ballot, request_vote, start_election, handle_vote_reply,
}
use mit.Raft.Append.{AppendEntriesArgs, AppendEntriesReply, append_entries}
use mit.Raft.Snapshot.{InstallSnapshotArgs, InstallSnapshotReply, snapshot, install_snapshot}
use mit.Raft.Leader.{
  broadcast_to, start, handle_append_entries_reply, handle_install_snapshot_reply,
}
use mit.Raft.Applier.{applier_round}

pub data Event (C : Type 0) : Type 0 where
  vote_request : RequestVoteArgs → Event C
  vote_reply : Ballot → RequestVoteReply → Event C
  append_request : AppendEntriesArgs C → Event C
  append_reply : ℕ → AppendEntriesArgs C → AppendEntriesReply → Event C
  install_request : InstallSnapshotArgs → Event C
  install_reply : ℕ → InstallSnapshotArgs → InstallSnapshotReply → Event C
  command : C → Event C
  compact : ℕ → Bytes → Event C
  apply_round : Event C
  election_timeout : Event C
  heartbeat : Event C
  broadcast : ℕ → Event C
  take_start : Event C
  shutdown : Event C

module _ {C : Type 0} (gob : Gob C) where
  -- The timer of `ticker` fires: an election, unless this peer leads.
  unfoldable pub tick_timeout : Raft C → Raft C
  tick_timeout rf = if is_leader rf.state then rf else (start_election gob rf).0

  unfoldable pub step : Raft C → Event C → Raft C
  unfolding tick_timeout
  step rf (vote_request args) = (request_vote gob rf args).0
  step rf (vote_reply ballot reply) = (handle_vote_reply gob rf ballot reply).0
  step rf (append_request args) = (append_entries gob rf args).0
  step rf (append_reply server args reply) = handle_append_entries_reply gob rf server args reply
  step rf (install_request args) = (install_snapshot gob rf args).0
  step rf (install_reply server args reply) = handle_install_snapshot_reply gob rf server args reply
  step rf (command c) = (start gob rf c).0
  step rf (compact index bytes) = snapshot gob rf index bytes
  step rf apply_round = (applier_round rf).0
  step rf election_timeout = tick_timeout rf
  step rf heartbeat = record rf { heartbeat_ch = false }
  step rf (broadcast server) = (broadcast_to rf server).0
  step rf take_start = record rf { start_ch = false }
  step rf shutdown = kill rf

  unfoldable pub run : Raft C → List (Event C) → Raft C
  run rf [] = rf
  run rf (e ∷ es) = run (step rf e) es
