-- ===== src/Raft/Snapshot.antt =====
-- Snapshots: `Snapshot`, `InstallSnapshot` and `matchLog`
-- (lec-2025/src/raft1/raft.go, lines 169 to 226 and 456 to 559).
use mit.Base.{
  ℕ, ◌-◌, Bool, false, ◌||◌, Option, none, some, List, [], ◌∷◌, length, drop, ltb, leb,
  if◌then◌else◌,
}
use mit.Raft.State.{
  Raft, RaftState, Gob, Entry, Bytes, save, persist, encode_state, get_first_log_index,
  get_last_log_index, get_log_term, term_at, opt_eqb,
}

pub record InstallSnapshotArgs : Type 0 where
  pub term : ℕ
  pub leader_id : ℕ
  pub last_included_index : ℕ
  pub last_included_term : ℕ
  pub bytes : Bytes

pub record InstallSnapshotReply : Type 0 where
  pub term : ℕ

-- The message of `InstallSnapshot` on `applyCh`, with `SnapshotValid` set.
pub record SnapshotMsg : Type 0 where
  pub snapshot : Bytes
  pub snapshot_term : ℕ
  pub snapshot_index : ℕ

abbrev max_of : ℕ → ℕ → ℕ
max_of index old = if ltb old index then index else old

abbrev pub or_zero : Option ℕ → ℕ
or_zero none = 0
or_zero (some n) = n

module _ {C : Type 0} where
  -- `logs[0].Term = term; logs[0].Command = nil`.
  abbrev pub dummy_head : ℕ → List (Entry C) → List (Entry C)
  dummy_head term [] = []
  dummy_head term (e ∷ es) = record { term = term; command = none } ∷ es

  -- `logs[0].Command = nil`.
  abbrev pub drop_command : List (Entry C) → List (Entry C)
  drop_command [] = []
  drop_command (e ∷ es) = record { term = e.term; command = none } ∷ es

  unfoldable pub match_log : Raft C → ℕ → ℕ → Bool
  match_log rf index term =
      if leb index (get_first_log_index rf) || ltb (get_last_log_index rf) index
      then false
      else opt_eqb (get_log_term rf index) (some term)

  -- The trimmed log and the term of its head.
  abbrev trim : Raft C → ℕ → Raft C
  trim rf index =
      let relative_index = index - rf.last_included_index in
      if ltb relative_index (length rf.logs)
      then record rf {
        last_included_term = or_zero (term_at rf.logs relative_index);
        logs = drop relative_index rf.logs;
      }
      else record rf { logs = record { term = rf.last_included_term; command = none } ∷ [] }

  abbrev settle : ℕ → Raft C → Raft C
  settle index rf = record rf {
    last_included_index = index;
    logs = dummy_head rf.last_included_term rf.logs;
    commit_index = max_of index rf.commit_index;
    last_applied = max_of index rf.last_applied;
  }

  -- In the first case `lastIncludedTerm` is set here too, and set again below.
  abbrev cut_log : Raft C → InstallSnapshotArgs → Raft C
  cut_log rf args =
      if match_log rf args.last_included_index args.last_included_term
      then record rf { logs = drop (args.last_included_index - rf.last_included_index) rf.logs }
      else record rf { logs = record { term = args.last_included_term; command = none } ∷ [] }

module _ {C : Type 0} (gob : Gob C) where
  abbrev save_snapshot : Bytes → Raft C → Raft C
  save_snapshot bytes rf = record rf { persister = save rf.persister (encode_state gob rf) bytes }

  unfoldable pub snapshot : Raft C → ℕ → Bytes → Raft C
  snapshot rf index bytes =
      if leb index rf.last_included_index
      then rf
      else save_snapshot bytes (settle index (trim rf index))

  -- The state after the log is cut, and the message for the service.
  abbrev adopt_snapshot : InstallSnapshotArgs → Raft C → Raft C × Option SnapshotMsg
  adopt_snapshot args rf = (
    save_snapshot args.bytes (record rf {
      logs = drop_command rf.logs;
      commit_index = args.last_included_index;
      last_applied = args.last_included_index;
      last_included_index = args.last_included_index;
      last_included_term = args.last_included_term;
    }),
    some (record {
      snapshot = args.bytes;
      snapshot_term = args.last_included_term;
      snapshot_index = args.last_included_index;
    }),
  )

  unfoldable pub newer_term : Raft C → ℕ → Raft C
  newer_term rf term =
      if ltb rf.current_term term
      then persist gob
          (record rf { current_term = term; state = RaftState.follower; voted_for = none })
      else rf

  unfoldable pub install_log : Raft C → InstallSnapshotArgs → Raft C × Option SnapshotMsg
  install_log rf args =
      if leb args.last_included_index rf.commit_index
      then (rf, none)
      else adopt_snapshot args (cut_log rf args)

  -- The reply is left as the caller made it: no path sets `reply.Term`.
  unfoldable pub install_snapshot :
      Raft C → InstallSnapshotArgs → Raft C × Option SnapshotMsg × InstallSnapshotReply
  unfolding newer_term install_log
  install_snapshot rf args =
      if ltb args.term rf.current_term
      then (rf, none, record { term = 0 })
      else let (rf', msg) = install_log (newer_term rf args.term) args in
        (rf', msg, record { term = 0 })
