-- ===== src/Raft/Applier.antt =====
-- The applier, one round of its loop (lec-2025/src/raft1/raft.go, lines 1004 to 1042).
use mit.Base.{ℕ, ◌+◌, ◌-◌, false, Option, none, some, ltb, get_elem?, if◌then◌else◌}
use mit.Raft.State.{Raft, Entry, get_log_term}

-- The message for a committed entry, with `CommandValid` set.
pub record ApplyMsg (C : Type 0) : Type 0 where
  pub command : Option C
  pub command_index : ℕ
  pub command_term : Option ℕ

-- A round delivers a message, waits for the signal, or panics at an index out of range.
pub data Round (C : Type 0) : Type 0 where
  deliver : ApplyMsg C → Round C
  wait : Round C
  panic : Round C

module _ {C : Type 0} where
  abbrev apply_entry : Raft C → Option (Entry C) → Round C
  apply_entry rf none = panic
  apply_entry rf (some entry) = deliver (record {
    command = entry.command;
    command_index = rf.last_applied;
    command_term = get_log_term rf rf.last_applied;
  })

  -- An index below the snapshot is negative in Go.
  abbrev entry_at : Raft C → ℕ → Option (Entry C)
  entry_at rf index =
      if ltb index rf.last_included_index
      then none
      else get_elem? rf.logs (index - rf.last_included_index)

  abbrev next_applied : Raft C → Raft C
  next_applied rf = record rf { last_applied = rf.last_applied + 1 }

  -- A waiting round has taken the signal when it ends.
  unfoldable pub applier_round : Raft C → Raft C × Round C
  applier_round rf =
      if ltb rf.last_applied rf.commit_index
      then (
        next_applied rf,
        apply_entry (next_applied rf) (entry_at (next_applied rf) (rf.last_applied + 1)),
      )
      else (record rf { apply_signal = false }, wait)
