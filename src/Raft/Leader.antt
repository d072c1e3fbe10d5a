-- ===== src/Raft/Leader.antt =====
-- The leader: `Start`, `commit`, the replies of followers, and what `BroadcastAppendEntries` sends
-- (lec-2025/src/raft1/raft.go, lines 707 to 732 and 799 to 969).
use mit.Base.{
  ℕ, ◌+◌, ◌-◌, ◌/◌, Bool, true, false, ◌&&◌, not, Option, none, some, [], ◌∷◌, ◌++◌, length, get_or,
  set, take, drop, ltb, leb, ◌==◌, if◌then◌else◌,
}
use mit.Base.Sort.{sort}
use mit.Raft.State.{
  Raft, RaftState, Gob, persist, get_first_log_index, get_last_log_index, get_log_term, opt_eqb,
  is_leader, notify_applier,
}
use mit.Raft.Append.{AppendEntriesArgs, AppendEntriesReply}
use mit.Raft.Snapshot.{InstallSnapshotArgs, InstallSnapshotReply}

abbrev pub batch_size : ℕ
batch_size = 200

-- What one goroutine of `BroadcastAppendEntries` does: nothing, a call with these arguments, or the
-- panic of `make` at a negative capacity.
pub data Outgoing (C : Type 0) : Type 0 where
  silent : Outgoing C
  append : AppendEntriesArgs C → Outgoing C
  install : InstallSnapshotArgs → Outgoing C
  panic : Outgoing C

module _ {C : Type 0} where
  -- `newMatchIndex[targetIndex]`.
  unfoldable pub majority_index : Raft C → ℕ
  majority_index rf = get_or (sort rf.match_index) ((length rf.match_index - 1) / 2) 0

  unfoldable pub commit : Raft C → Raft C
  commit rf =
      if not (is_leader rf.state)
      then rf
      else if ltb rf.commit_index (majority_index rf)
          && opt_eqb (get_log_term rf (majority_index rf)) (some rf.current_term)
      then notify_applier (record rf { commit_index = majority_index rf })
      else rf

  abbrev next_of : Raft C → ℕ → ℕ
  next_of rf server = get_or rf.next_index server 0

  abbrev match_of : Raft C → ℕ → ℕ
  match_of rf server = get_or rf.match_index server 0

  -- `if rf.nextIndex[server] <= 0 { rf.nextIndex[server] = 1 }`.
  unfoldable pub reset_next : Raft C → ℕ → Raft C
  reset_next rf server =
      if leb (next_of rf server) 0
      then record rf { next_index = set rf.next_index server 1 }
      else rf

  -- The end of the batch.
  unfoldable pub end_index : Raft C → ℕ → ℕ
  end_index rf next =
      let last = get_last_log_index rf in
      if ltb (last + 1) (next + batch_size) then last + 1 else next + batch_size

  -- The arguments for one follower, at its next index.
  unfoldable pub outgoing : Raft C → ℕ → Outgoing C
  outgoing rf next =
      if ltb (get_first_log_index rf) next
      then if ltb (end_index rf next) next
        then panic
        else append (record {
          term = rf.current_term;
          leader_id = rf.me;
          prev_log_index = next - 1;
          prev_log_term = get_log_term rf (next - 1);
          leader_commit = rf.commit_index;
          entries = take (end_index rf next - next) (drop (next - rf.last_included_index) rf.logs);
        })
      else install (record {
        term = rf.current_term;
        leader_id = rf.me;
        last_included_index = rf.last_included_index;
        last_included_term = rf.last_included_term;
        bytes = rf.persister.snapshot;
      })

  unfoldable pub broadcast_to : Raft C → ℕ → Raft C × Outgoing C
  unfolding outgoing end_index reset_next
  broadcast_to rf server =
      if not (is_leader rf.state)
      then (rf, silent)
      else let rf' = reset_next rf server in (rf', outgoing rf' (next_of rf' server))

module _ {C : Type 0} (gob : Gob C) where
  abbrev pub step_down : Raft C → ℕ → Raft C
  step_down rf term =
      persist gob (record rf { current_term = term; state = RaftState.follower; voted_for = none })

  -- The index, the term, and whether this peer is the leader; `none` for the index -1.
  unfoldable pub start : Raft C → C → Raft C × Option ℕ × ℕ × Bool
  start rf command =
      if is_leader rf.state
      then (
        record (persist gob (record rf {
          logs = rf.logs ++ (record { term = rf.current_term; command = some command } ∷ []);
        })) { match_index = set rf.match_index rf.me (match_of rf rf.me + 1); start_ch = true },
        some (get_last_log_index rf + 1),
        rf.current_term,
        true,
      )
      else (rf, none, rf.current_term, false)

  -- A reply to `AppendEntries` moves the indices of the follower. The test against
  -- `nextIndex[server] - 1` is written without the subtraction.
  unfoldable pub handle_append_entries_reply :
      Raft C → ℕ → AppendEntriesArgs C → AppendEntriesReply → Raft C
  unfolding commit
  handle_append_entries_reply rf server args reply =
      if ltb rf.current_term reply.term
      then step_down rf reply.term
      else if not (args.prev_log_index + 1 == next_of rf server)
      then rf
      else if reply.success
      then commit (record rf {
        next_index = set rf.next_index server (args.prev_log_index + length args.entries + 1);
        match_index = set rf.match_index server (args.prev_log_index + length args.entries);
      })
      else if ltb 0 reply.conflict_log_index
      then if ltb reply.conflict_log_index (next_of rf server)
        then record rf { next_index = set rf.next_index server reply.conflict_log_index }
        else rf
      else record rf { next_index = set rf.next_index server 1 }

  unfoldable pub handle_install_snapshot_reply :
      Raft C → ℕ → InstallSnapshotArgs → InstallSnapshotReply → Raft C
  handle_install_snapshot_reply rf server args reply =
      if ltb rf.current_term reply.term
      then step_down rf reply.term
      else if ltb (match_of rf server) args.last_included_index
      then record rf {
        match_index = set rf.match_index server args.last_included_index;
        next_index = set rf.next_index server (args.last_included_index + 1);
      }
      else rf
