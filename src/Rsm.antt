-- ===== src/Rsm.antt =====
-- The layer between a service and Raft, lec-2025/src/kvraft1/rsm/rsm.go, on top of the peer of Raft.
-- What is proved is in the modules below.
pub mod Logged
pub mod Answers
pub mod Restart
pub mod Tests
use mit.Base.{
  ℕ, ◌+◌, ◌&&◌, ◌==◌, Bool, true, false, Option, none, some, List, [], ◌∷◌, ltb, if◌then◌else◌,
}
use mit.Base.Assoc.{Map, lookup, insert, delete, nat_eq}
use mit.Rpc.{Err}
use mit.Raft.State.{Raft, Gob, Bytes, Persister, make, persist_bytes, opt_eqb}
use mit.Raft.Snapshot.{SnapshotMsg, snapshot}
use mit.Raft.Leader.{start}
use mit.Raft.Applier.{ApplyMsg, Round, deliver, wait, panic, applier_round}
use mit.Raft.Event.{Event, step}

-- What a service implements, over its state.
pub record StateMachine (S Req Rep : Type 0) : Type 0 where
  pub do_op : S → Req → S × Rep
  pub snapshot : S → Bytes
  pub restore : S → Bytes → S

pub record Op (Req : Type 0) : Type 0 where
  pub me : ℕ
  pub id : ℕ
  pub req : Req

pub record Result (Rep : Type 0) : Type 0 where
  pub index : ℕ
  pub term : Option ℕ
  pub value : Option Rep

-- A channel of one place.
pub data Chan (Rep : Type 0) : Type 0 where
  empty : Chan Rep
  full : Result Rep → Chan Rep
  closed : Chan Rep

-- A call of `Submit`, by where it stands: before its channel is in `waitChs`, in the select, or back.
pub data Stage (Rep : Type 0) : Type 0 where
  started : Stage Rep
  waiting : Stage Rep
  returned : Err → Option Rep → Stage Rep

pub record Call (Rep : Type 0) : Type 0 where
  pub index : ℕ
  pub term : ℕ
  pub stage : Stage Rep

-- The peer of Raft, the service, and the calls by their numbers; each call makes one channel, which
-- has its number. `max_raft_state` is none for -1.
pub record Rsm (S Req Rep : Type 0) : Type 0 where
  pub me : ℕ
  pub max_raft_state : Option ℕ
  pub raft : Raft (Op Req)
  pub service : S
  pub wait_chs : Map ℕ ℕ
  pub chans : Map ℕ (Chan Rep)
  pub calls : Map ℕ (Call Rep)

-- A command that the reader has run: where it stands in the log, and what it answered.
pub record Applied (S Req Rep : Type 0) : Type 0 where
  pub index : ℕ
  pub term : Option ℕ
  pub op : Op Req
  pub before : S
  pub value : Rep

pub data Act (Req : Type 0) : Type 0 where
  submit : ℕ → Req → Act Req
  register : ℕ → Act Req
  receive : ℕ → Act Req
  give_up : ℕ → Act Req
  apply : Act Req
  restore_from : SnapshotMsg → Act Req
  stop : Act Req
  inside : Event (Op Req) → Act Req

abbrev pub chan_of : {S Req Rep : Type 0} → Rsm S Req Rep → ℕ → Chan Rep
chan_of r id = elim (lookup id r.chans) [ none ↦ Chan.empty | some ch ↦ ch ]

module _ {Rep : Type 0} where
  -- `case waitCh <- result: default:`
  abbrev pub offer : Chan Rep → Result Rep → Chan Rep
  offer Chan.empty res = full res
  offer (full old) res = full old
  offer closed res = closed

  -- The end of the reader: every channel that is registered is closed.
  unfoldable pub close_all : Map ℕ ℕ → Map ℕ (Chan Rep) → Map ℕ (Chan Rep)
  close_all [] chans = chans
  close_all ((index, id) ∷ m) chans = close_all m (insert id closed chans)

  abbrev pub judge : Call Rep → Result Rep → Err × Option Rep
  judge c res =
      if res.index == c.index && opt_eqb res.term (some c.term)
      then (Err.ok, res.value)
      else (Err.wrong_leader, none)

module _ {S Req Rep : Type 0} where
  unfoldable pub notify : Rsm S Req Rep → Result Rep → Rsm S Req Rep
  notify r res = elim (lookup res.index r.wait_chs) [
    | none ↦ r
    | some id ↦ record r { chans = insert id (offer (chan_of r id) res) r.chans }
  ]

  -- `Submit` up to its channel. Call numbers are never used twice.
  abbrev pub begin : Rsm S Req Rep → ℕ → Raft (Op Req) × Option ℕ × ℕ × Bool → Rsm S Req Rep
  begin r id (rf, index, term, false) = record r {
    raft = rf;
    calls =
        insert id (record { index = 0; term = term; stage = returned Err.wrong_leader none })
          r.calls;
  }
  begin r id (rf, none, term, true) = record r {
    raft = rf;
    calls =
        insert id (record { index = 0; term = term; stage = returned Err.wrong_leader none })
          r.calls;
  }
  begin r id (rf, some index, term, true) = record r {
    raft = rf;
    chans = insert id empty r.chans;
    calls = insert id (record { index = index; term = term; stage = started }) r.calls;
  }

  -- The return of a call, with its deferred delete of the entry at its index.
  abbrev pub finish : Rsm S Req Rep → ℕ → Call Rep → Err → Option Rep → Rsm S Req Rep
  finish r id c err value = record r {
    wait_chs = delete c.index r.wait_chs;
    calls = insert id (record c { stage = returned err value }) r.calls;
  }

  abbrev pub take_result : Rsm S Req Rep → ℕ → Call Rep → Chan Rep → Rsm S Req Rep
  take_result r id c Chan.empty = r
  take_result r id c (full res) =
      let (err, value) = judge c res in
      finish (record r { chans = insert id Chan.empty r.chans }) id c err value
  take_result r id c closed =
      let (err, value) = judge c (record { index = 0; term = some 0; value = none }) in
      finish r id c err value

  abbrev pub on_call :
      Rsm S Req Rep → Option (Call Rep) → (Call Rep → Stage Rep → Rsm S Req Rep) → Rsm S Req Rep
  on_call r none f = r
  on_call r (some c) f = f c c.stage

  abbrev pub register_at : Rsm S Req Rep → ℕ → Call Rep → Stage Rep → Rsm S Req Rep
  register_at r id c started = record r {
    wait_chs = insert c.index id r.wait_chs;
    calls = insert id (record c { stage = waiting }) r.calls;
  }
  register_at r id c waiting = r
  register_at r id c (returned err value) = r

  abbrev pub receive_at : Rsm S Req Rep → ℕ → Call Rep → Stage Rep → Rsm S Req Rep
  receive_at r id c started = r
  receive_at r id c waiting = take_result r id c (chan_of r id)
  receive_at r id c (returned err value) = r

  abbrev pub give_up_at : Rsm S Req Rep → ℕ → Call Rep → Stage Rep → Rsm S Req Rep
  give_up_at r id c started = r
  give_up_at r id c waiting = finish r id c Err.wrong_leader none
  give_up_at r id c (returned err value) = r

  abbrev pub noted :
      Option (Applied S Req Rep) → List (Applied S Req Rep) → List (Applied S Req Rep)
  noted none log = log
  noted (some a) log = a ∷ log

module _ {S Req Rep : Type 0} (sm : StateMachine S Req Rep) (gob : Gob (Op Req)) where
  unfoldable pub make_rsm : ℕ → ℕ → Option ℕ → Persister → S → Rsm S Req Rep
  make_rsm peers me max_raft_state persister service = record {
    me = me;
    max_raft_state = max_raft_state;
    raft = make gob peers me persister;
    service = elim persister.snapshot [ [] ↦ service | b ∷ bytes ↦ sm.restore service (b ∷ bytes) ];
    wait_chs = [];
    chans = [];
    calls = [];
  }

  unfoldable pub try_snapshot : Rsm S Req Rep → ℕ → Rsm S Req Rep
  try_snapshot r index = elim r.max_raft_state [
    | none ↦ r
    | some max ↦
        if ltb max (persist_bytes r.raft)
        then record r { raft = snapshot gob r.raft index (sm.snapshot r.service) }
        else r
  ]

  -- The branch of `reader` for a command: run it, try a snapshot, tell the one who waits.
  abbrev pub run_op : Rsm S Req Rep → ApplyMsg (Op Req) → Op Req → Rsm S Req Rep × Applied S Req Rep
  run_op r msg op =
      let (service', value) = sm.do_op r.service op.req in
      let r' = try_snapshot (record r { service = service' }) msg.command_index in
      (
        notify r'
            (record { index = msg.command_index; term = msg.command_term; value = some value }),
        record {
          index = msg.command_index;
          term = msg.command_term;
          op = op;
          before = r.service;
          value = value;
        },
      )

  abbrev pub run_command :
      Rsm S Req Rep
      → ApplyMsg (Op Req)
      → Option (Op Req)
      → Rsm S Req Rep × Option (Applied S Req Rep)
  run_command r msg none = (r, none)
  run_command r msg (some op) = let (r', a) = run_op r msg op in (r', some a)

  -- A round of the peer's applier, whose message the reader takes.
  abbrev pub read_round :
      Rsm S Req Rep → Raft (Op Req) × Round (Op Req) → Rsm S Req Rep × Option (Applied S Req Rep)
  read_round r (rf, deliver msg) = run_command (record r { raft = rf }) msg msg.command
  read_round r (rf, wait) = (record r { raft = rf }, none)
  read_round r (rf, panic) = (record r { raft = rf }, none)

  unfoldable pub read_command : Rsm S Req Rep → Rsm S Req Rep × Option (Applied S Req Rep)
  unfolding try_snapshot notify
  read_command r = read_round r (applier_round r.raft)

  unfoldable pub read_snapshot : Rsm S Req Rep → SnapshotMsg → Rsm S Req Rep
  read_snapshot r msg = record r { service = sm.restore r.service msg.snapshot }

  unfoldable pub submit_op : Rsm S Req Rep → ℕ → Req → Rsm S Req Rep
  submit_op r id req = elim (lookup id r.calls) [
    | some used ↦ r
    | none ↦ begin r id (start gob r.raft (record { me = r.me; id = 0; req = req }))
  ]

  unfoldable pub act : Rsm S Req Rep → Act Req → Rsm S Req Rep × Option (Applied S Req Rep)
  unfolding submit_op read_command read_snapshot close_all
  act r (submit id req) = (submit_op r id req, none)
  act r (register id) = (on_call r (lookup id r.calls) (register_at r id), none)
  act r (receive id) = (on_call r (lookup id r.calls) (receive_at r id), none)
  act r (give_up id) = (on_call r (lookup id r.calls) (give_up_at r id), none)
  act r apply = read_command r
  act r (restore_from msg) = (read_snapshot r msg, none)
  act r stop = (record r { chans = close_all r.wait_chs r.chans }, none)
  act r (inside e) = (record r { raft = step gob r.raft e }, none)

  -- The state after some acts, and the commands that were run, the last one first.
  unfoldable pub run :
      Rsm S Req Rep
      → List (Applied S Req Rep)
      → List (Act Req)
      → Rsm S Req Rep × List (Applied S Req Rep)
  run r log [] = (r, log)
  run r log (a ∷ rest) = run (act r a).0 (noted (act r a).1 log) rest
