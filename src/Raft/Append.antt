-- ===== src/Raft/Append.antt =====
-- The handler `AppendEntries` (lec-2025/src/raft1/raft.go, lines 318 to 454).
use mit.Base.{
  ℕ, zero, suc, ◌+◌, ◌-◌, Bool, true, false, ◌&&◌, Option, none, some, List, [], ◌∷◌, ◌++◌, length,
  take, ltb, leb, ◌==◌, if◌then◌else◌,
}
use mit.Raft.State.{
  Raft, RaftState, Gob, Entry, persist, get_last_log_index, get_first_log_index, get_log_term,
  opt_ltb, opt_eqb, signal_heartbeat, notify_applier,
}

pub record AppendEntriesArgs (C : Type 0) : Type 0 where
  pub term : ℕ
  pub leader_id : ℕ
  pub prev_log_index : ℕ
  pub prev_log_term : Option ℕ
  pub leader_commit : ℕ
  pub entries : List (Entry C)

pub record AppendEntriesReply : Type 0 where
  pub term : ℕ
  pub success : Bool
  pub conflict_log_index : ℕ
  pub conflict_log_term : Option ℕ

abbrev pub min_commit : ℕ → ℕ → ℕ
min_commit leader_commit last_new = if ltb leader_commit last_new then leader_commit else last_new

-- The reply before the handler has filled it in.
abbrev pub blank_reply : ℕ → AppendEntriesReply
blank_reply term = record {
  term = term;
  success = false;
  conflict_log_index = 0;
  conflict_log_term = some 0;
}

module _ {C : Type 0} where
  -- The loop that looks for the first term below the conflicting one. Its argument is
  -- `tempIndex + 1`, since `tempIndex` starts at -1 for `PrevLogIndex` 0.
  unfoldable pub conflict_index : Raft C → Option ℕ → ℕ → ℕ
  conflict_index rf conflict_term zero = 0
  conflict_index rf conflict_term (suc temp) =
      let rest = conflict_index rf conflict_term temp in
      if ltb rf.last_included_index temp
      then if opt_ltb (get_log_term rf temp) conflict_term then suc temp else rest
      else suc temp

  -- `commitIndex` after a success, and the signal to the applier.
  abbrev pub advance_commit : Raft C → AppendEntriesArgs C → Raft C
  advance_commit rf args = notify_applier (record rf {
    commit_index = min_commit args.leader_commit (args.prev_log_index + length args.entries);
  })

module _ {C : Type 0} (gob : Gob C) where
  -- The loop over the entries that may already be in the log, from `insertIndex` on.
  unfoldable pub merge_entries : Raft C → ℕ → List (Entry C) → Raft C
  merge_entries rf insert_index [] = rf
  merge_entries rf insert_index (e ∷ es) =
      let rest = merge_entries rf (insert_index + 1) es in
      if ltb (get_last_log_index rf) insert_index
      then persist gob (record rf { logs = rf.logs ++ (e ∷ es) })
      else if opt_eqb (get_log_term rf insert_index) (some e.term)
      then rest
      else persist gob
          (record rf { logs = take (insert_index - get_first_log_index rf) rf.logs ++ (e ∷ es) })

  -- The four cases, in the order of the code.
  unfoldable pub append_log :
      Raft C → AppendEntriesArgs C → AppendEntriesReply → Raft C × AppendEntriesReply
  append_log rf args reply =
      let first = get_first_log_index rf in
      let last = get_last_log_index rf in
      let prev = args.prev_log_index in
      if prev == last && opt_eqb args.prev_log_term (get_log_term rf last)
      then (
        advance_commit (persist gob (record rf { logs = rf.logs ++ args.entries })) args,
        record reply { success = true },
      )
      else if leb prev last && leb first prev
      then if opt_eqb args.prev_log_term (get_log_term rf prev)
        then (
          advance_commit (merge_entries rf (prev + 1) args.entries) args,
          record reply { success = true },
        )
        else (
          rf,
          record reply {
            conflict_log_term = get_log_term rf prev;
            conflict_log_index = conflict_index rf (get_log_term rf prev) prev;
          },
        )
      else if ltb prev first
      then (
        rf,
        record reply { conflict_log_index = first; conflict_log_term = get_log_term rf first },
      )
      else if ltb last prev
      then (
        rf,
        record reply { conflict_log_index = last + 1; conflict_log_term = get_log_term rf last },
      )
      else (rf, reply)

  -- What the handler does first for a term that is not old.
  unfoldable pub follow : Raft C → ℕ → Raft C
  follow rf term = signal_heartbeat (
      persist gob (record rf { current_term = term; state = RaftState.follower; voted_for = none }))

  -- The reply carries the term from before the call.
  unfoldable pub append_entries : Raft C → AppendEntriesArgs C → Raft C × AppendEntriesReply
  unfolding append_log follow
  append_entries rf args =
      if ltb args.term rf.current_term
      then (rf, blank_reply rf.current_term)
      else append_log (follow rf args.term) args (blank_reply rf.current_term)
