-- ===== src/Rsm/Tests.antt =====
-- The theorems on the layer between a service and Raft (lec-2025/src/kvraft1/rsm/rsm.go) at concrete
-- peers and services.
use mit.Base.{
  ℕ, zero, suc, ◌+◌, ◌≡◌, refl, String, true, false, Option, none, some, List, [], ◌∷◌, arith,
}
use mit.Base.Assoc.{Map, lookup, insert, delete, nat_eq}
use mit.Rpc.{Err}
use mit.Raft.State.{Raft, Gob, Entry, Bytes, Persister, Durable, make, persist_bytes, read_persist}
use mit.Raft.Election.{Ballot, start_election, handle_vote_reply}
use mit.Raft.Leader.{start, handle_append_entries_reply, majority_index}
use mit.Raft.Event.{vote_reply, append_reply, election_timeout, step}
use mit.Raft.Applier.{applier_round}
use mit.Raft.State.{persist, get_log_term}
use mit.Base.Sort.{sort}
use mit.Kv as Kv
use mit.Shard.Group as Group
use mit.Rsm.{
  StateMachine, Op, Rsm, Call, returned, Act, submit, register, receive, apply, inside, make_rsm,
  try_snapshot, run, act, submit_op, read_command, notify,
}
use mit.Rsm.Answers.{submit_value}
use mit.Rsm.Logged.{Logged}
use mit.Rsm.Restart.{
  KeepsNumbers, Reborn, kv_machine, group_machine, reboot, kv_restart, group_restart,
}

abbrev vote : Option ℕ → ℕ
vote none = 0
vote (some v) = v + 1

abbrev voted : ℕ → Option ℕ
voted zero = none
voted (suc v) = some v

voted-vote : (v : Option ℕ) → voted (vote v) ≡ v
voted-vote none = refl
voted-vote (some v) = ground arith

-- An encoding that writes the numbers alone.
module _ {C : Type 0} where
  abbrev dummy : List (Entry C)
  dummy = record { term = 0; command = none } ∷ []

  abbrev decode : Bytes → Option (Durable C)
  decode (t ∷ v ∷ i ∷ s ∷ []) = some (record {
    current_term = t;
    voted_for = voted v;
    logs = dummy;
    last_included_index = i;
    last_included_term = s;
  })
  decode _ = none

  abbrev numbers : Gob C
  numbers = record {
    encode =
        λ d. d.current_term ∷ vote d.voted_for ∷ d.last_included_index ∷ d.last_included_term ∷ [];
    decode = decode;
  }

  numbers-Keeps : KeepsNumbers numbers
  numbers-Keeps = record {
    logs = λ d. dummy;
    round_trip = λ d. ground (arith, voted-vote d.voted_for);
    some_bytes = λ d. cc;
  }

  -- A peer that has saved its state, with two commands in its log.
  abbrev peer : C → C → Raft C
  peer x y = record (make numbers 3 0 (record { raft_state = []; snapshot = [] })) {
    current_term = 2;
    logs =
        record { term = 0; command = none }
        ∷ record { term = 1; command = some x }
        ∷ record { term = 2; command = some y }
        ∷ [];
    persister = record { raft_state = 2 ∷ 0 ∷ 0 ∷ 0 ∷ []; snapshot = [] };
  }

abbrev maps_decode : Bytes → Option (Map String Kv.ValueEntry)
maps_decode (_ ∷ []) = some []
maps_decode (n ∷ _ ∷ []) = some (("a", record { value = "x"; version = n }) ∷ [])
maps_decode _ = none

abbrev maps_encode : Map String Kv.ValueEntry → Bytes
maps_encode [] = 0 ∷ []
maps_encode ((k, e) ∷ m) = e.version ∷ 0 ∷ []

abbrev maps : Kv.MapGob
maps = record { encode = maps_encode; decode = maps_decode }

abbrev entry : Kv.ValueEntry
entry = record { value = "x"; version = 3 }

abbrev kv_op : Op Kv.Req
kv_op = record { me = 0; id = 0; req = Kv.get_value (record { key = "a" }) }

abbrev group_op : Op Group.Req
group_op = record {
  me = 0;
  id = 0;
  req = Group.pointer (Group.freeze (record { shard = 1; num = 2 }));
}

abbrev kv_rsm : Rsm Kv.KvServer Kv.Req Kv.Reply
kv_rsm =
    record (make_rsm (kv_machine maps) numbers 3 0 (some 2)
      (record { raft_state = []; snapshot = [] }) (Kv.start_kv_server 0)) {
        raft = peer kv_op kv_op;
        service = record (Kv.start_kv_server 0) { key_value = ("a", entry) ∷ [] };
      }

kv_restart_example :
    let saved = try_snapshot (kv_machine maps) numbers kv_rsm 2 in
    let r' = reboot (kv_machine maps) numbers saved (Kv.start_kv_server 0) in
    (r'.service.key_value ≡ ("a", entry) ∷ []) × Reborn r'.raft saved.raft 2
unfolding make_rsm make read_persist persist_bytes
kv_restart_example =
    kv_restart maps numbers numbers-Keeps kv_rsm 2 2 (Kv.start_kv_server 0) refl (λ none. cc) refl
      (omega arith) (omega arith)

abbrev json : Group.Json
json = record { marshal = λ m. none; unmarshal = λ bytes. none }

abbrev group_rsm : Rsm Group.KvServer Group.Req Group.Reply
group_rsm =
    record (make_rsm (group_machine json) numbers 3 0 (some 2)
      (record { raft_state = []; snapshot = [] }) (Group.start_server 100 0)) {
        raft = peer group_op group_op;
        service = record (Group.start_server 100 0) { key_value = ("a", entry) ∷ [] };
      }

group_restart_example :
    let saved = try_snapshot (group_machine json) numbers group_rsm 2 in
    let r' = reboot (group_machine json) numbers saved (Group.start_server 100 0) in
    (r'.service ≡ Group.start_server 100 0) × Reborn r'.raft saved.raft 2
unfolding make_rsm make read_persist persist_bytes
group_restart_example =
    group_restart json numbers numbers-Keeps group_rsm 2 2 (Group.start_server 100 0) refl
      (omega arith) (omega arith)

-- A service that adds up its requests, and answers with the sum so far.
abbrev adder : StateMachine ℕ ℕ ℕ
adder = record {
  do_op = λ sum n. (sum + n, sum);
  snapshot = λ sum. sum ∷ [];
  restore = λ sum bytes. sum;
}

abbrev ballot : Ballot
ballot = record {
  args = record { term = 1; candidate_id = 0; last_log_index = 0; last_log_term = some 0 };
  votes = 1;
  elected_flag = false;
}

abbrev sum_op : Op ℕ
sum_op = record { me = 0; id = 0; req = 5 }

-- The peer is elected; a call waits, its command reaches a second peer and is applied.
abbrev acts : List (Act ℕ)
acts =
    inside election_timeout
    ∷ inside (vote_reply ballot (record { term = 1; vote_granted = true }))
    ∷ submit 0 5
    ∷ register 0
    ∷ inside (
        append_reply 1
          (record {
            term = 1;
            leader_id = 0;
            prev_log_index = 0;
            prev_log_term = some 0;
            leader_commit = 0;
            entries = record { term = 1; command = some sum_op } ∷ [];
          })
          (record { term = 1; success = true; conflict_log_index = 0; conflict_log_term = some 0 }))
    ∷ apply
    ∷ receive 0
    ∷ []

abbrev blank : Persister
blank = record { raft_state = []; snapshot = [] }

abbrev answered : Call ℕ
answered = record { index = 1; term = 1; stage = returned Err.ok (some 7) }

called :
    lookup 0 (run adder numbers (make_rsm adder numbers 3 0 none blank 7) [] acts).0.calls
    ≡ some answered
unfolding run act make_rsm submit_op read_command try_snapshot notify step make applier_round
    handle_append_entries_reply start handle_vote_reply start_election persist majority_index sort
    get_log_term lookup insert delete
called = refl

submit_value_example :
    (◌≡◌ {A = Err} Err.ok Err.ok)
    × Logged adder
        (run adder numbers (make_rsm adder numbers 3 0 none blank 7) [] acts).1
        1
        (some 1)
        7
submit_value_example =
    submit_value adder numbers 3 0 none blank 7 acts 0 answered Err.ok 7 called refl
