-- ===== src/Raft/State.antt =====
-- The state of a peer (lec-2025/src/raft1/raft.go, lines 25 to 250), its persistence, and the
-- persister of lec-2025/src/tester1/persister.go.
-- A Go int that the code compares with -1 is an `Option`, `none` for -1: `votedFor`, the terms that
-- `getLogTerm` returns. A command `nil` is `none`. A buffered channel of capacity 1 whose messages
-- carry nothing is a `Bool`: it holds a signal or not. The mutex makes each function one step.
use mit.Base.{
  ℕ, zero, suc, ◌+◌, ◌-◌, Bool, true, false, ◌||◌, Option, none, some, List, [], ◌∷◌, length, leb,
  ltb, ◌==◌, if◌then◌else◌, replicate,
}

abbrev pub Bytes : Type 0
Bytes = List ℕ

pub record Entry (C : Type 0) : Type 0 where
  pub term : ℕ
  pub command : Option C

pub data RaftState : Type 0 where
  leader follower candidate : RaftState

-- The persister keeps the encoded state and the snapshot; `save` replaces both at once.
pub record Persister : Type 0 where
  pub raft_state : Bytes
  pub snapshot : Bytes

abbrev pub make_persister : Persister
make_persister = record { raft_state = []; snapshot = [] }

abbrev pub save : Persister → Bytes → Bytes → Persister
save p raft_state snapshot = record { raft_state = raft_state; snapshot = snapshot }

-- What `encodeState` writes and `readPersist` reads, in this order.
pub record Durable (C : Type 0) : Type 0 where
  pub current_term : ℕ
  pub voted_for : Option ℕ
  pub logs : List (Entry C)
  pub last_included_index : ℕ
  pub last_included_term : ℕ

-- labgob stands on encoding/gob, which is not in the repository: the encoding is a parameter.
-- `decode` is `none` when one of the five calls of Decode fails.
pub record Gob (C : Type 0) : Type 0 where
  pub encode : Durable C → Bytes
  pub decode : Bytes → Option (Durable C)

pub record Raft (C : Type 0) : Type 0 where
  pub me : ℕ
  pub peers : ℕ
  pub persister : Persister
  pub dead : Bool
  pub current_term : ℕ
  pub voted_for : Option ℕ
  pub logs : List (Entry C)
  pub state : RaftState
  pub heartbeat_ch : Bool
  pub commit_index : ℕ
  pub last_applied : ℕ
  pub apply_signal : Bool
  pub next_index : List ℕ
  pub match_index : List ℕ
  pub start_ch : Bool
  pub last_included_index : ℕ
  pub last_included_term : ℕ

abbrev pub is_leader : RaftState → Bool
is_leader RaftState.leader = true
is_leader _ = false

abbrev pub is_candidate : RaftState → Bool
is_candidate RaftState.candidate = true
is_candidate _ = false

-- The order of Go on values that may be -1.
abbrev pub opt_ltb : Option ℕ → Option ℕ → Bool
opt_ltb none none = false
opt_ltb none (some b) = true
opt_ltb (some a) none = false
opt_ltb (some a) (some b) = ltb a b

abbrev pub opt_eqb : Option ℕ → Option ℕ → Bool
opt_eqb none none = true
opt_eqb none (some b) = false
opt_eqb (some a) none = false
opt_eqb (some a) (some b) = a == b

module _ {C : Type 0} where
  pub get_state : Raft C → ℕ × Bool
  get_state rf = (rf.current_term, is_leader rf.state)

  abbrev pub durable : Raft C → Durable C
  durable rf = record {
    current_term = rf.current_term;
    voted_for = rf.voted_for;
    logs = rf.logs;
    last_included_index = rf.last_included_index;
    last_included_term = rf.last_included_term;
  }

  unfoldable pub encode_state : Gob C → Raft C → Bytes
  encode_state gob rf = gob.encode (durable rf)

  unfoldable pub persist : Gob C → Raft C → Raft C
  unfolding encode_state
  persist gob rf = record rf {
    persister = save rf.persister (encode_state gob rf) rf.persister.snapshot;
  }

  -- A failed decoding is reported and changes nothing.
  abbrev pub load : Raft C → Option (Durable C) → Raft C
  load rf none = rf
  load rf (some d) = record rf {
    current_term = d.current_term;
    voted_for = d.voted_for;
    logs = d.logs;
    last_included_index = d.last_included_index;
    last_included_term = d.last_included_term;
  }

  unfoldable pub read_persist : Gob C → Raft C → Bytes → Raft C
  read_persist gob rf [] = rf
  read_persist gob rf (b ∷ bytes) = load rf (gob.decode (b ∷ bytes))

  unfoldable pub persist_bytes : Raft C → ℕ
  persist_bytes rf = length rf.persister.raft_state

  abbrev pub get_first_log_index : Raft C → ℕ
  get_first_log_index rf = rf.last_included_index

  -- The log is never empty (`IsValid`), so the subtraction does not stop short.
  abbrev pub get_last_log_index : Raft C → ℕ
  get_last_log_index rf = rf.last_included_index + length rf.logs - 1

  -- `logs[i].Term`; `none` also where Go would panic, at `logs[0]` of an empty log.
  abbrev pub term_at : List (Entry C) → ℕ → Option ℕ
  term_at [] i = none
  term_at (e ∷ es) zero = some e.term
  term_at (e ∷ es) (suc i) = term_at es i

  unfoldable pub get_log_term : Raft C → ℕ → Option ℕ
  get_log_term rf i =
      let first = get_first_log_index rf in
      if i == first
      then term_at rf.logs 0
      else if ltb i first || leb (length rf.logs) (i - first)
      then none
      else term_at rf.logs (i - first)

  -- The non-blocking sends: a full buffer keeps its signal.
  abbrev pub signal_heartbeat : Raft C → Raft C
  signal_heartbeat rf = record rf { heartbeat_ch = true }

  abbrev pub notify_applier : Raft C → Raft C
  notify_applier rf = record rf { apply_signal = true }

  unfoldable pub kill : Raft C → Raft C
  kill rf = record rf { dead = true }

  -- The peer as `Make` sets it up before it reads the persister.
  abbrev pub fresh : ℕ → ℕ → Persister → Raft C
  fresh peers me persister = record {
    me = me;
    peers = peers;
    persister = persister;
    dead = false;
    current_term = 0;
    voted_for = none;
    logs = record { term = 0; command = none } ∷ [];
    state = RaftState.follower;
    heartbeat_ch = false;
    commit_index = 0;
    last_applied = 0;
    apply_signal = false;
    next_index = replicate peers 1;
    match_index = replicate peers 0;
    start_ch = false;
    last_included_index = 0;
    last_included_term = 0;
  }

  abbrev from_snapshot : Raft C → Raft C
  from_snapshot rf = record rf {
    commit_index = rf.last_included_index;
    last_applied = rf.last_included_index;
  }

  unfoldable pub make : Gob C → ℕ → ℕ → Persister → Raft C
  unfolding read_persist
  make gob peers me persister =
      from_snapshot (read_persist gob (fresh peers me persister) persister.raft_state)
