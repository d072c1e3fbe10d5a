-- ===== src/Raft/Tests.antt =====
-- The theorems on a peer (lec-2025/src/raft1/raft.go) at concrete peers, calls and logs.
use mit.Base.{
  ℕ, ◌↔◌, ◌+◌, ◌*◌, ◌≤◌, ◌<◌, ◌≡◌, ◌≢◌, refl, inr, true, false, none, some, List, [], ◌∷◌, length,
  ltb, if◌then◌else◌, get_or, arith,
}
use mit.Base.Sort.{sort}
use mit.Raft.State.{
  Raft, RaftState, make, make_persister, get_last_log_index, get_log_term, persist,
}
use mit.Raft.Election.{RequestVoteArgs, Ballot, request_vote, handle_vote_reply, start_election}
use mit.Raft.Append.{AppendEntriesArgs, min_commit, append_entries}
use mit.Raft.Snapshot.{snapshot}
use mit.Raft.Leader.{
  append, broadcast_to, commit, handle_append_entries_reply, start, majority_index,
}
use mit.Raft.Applier.{applier_round}
use mit.Raft.Event.{
  Event, vote_request, vote_reply, append_reply, command, compact, apply_round, election_timeout,
  run, step,
}
use mit.Raft.Examples.{plain, plain-IsFaithful, blank_disk, entry, booted}
use mit.Raft.Recovery.{IsDurable, run-IsDurable}
use mit.Raft.Validity.{IsValid}
use mit.Raft.Invariant.{Delivers, lives, lives-IsValid, applier_round-Delivers}
use mit.Raft.Follower.{Matches, merged, append_entries-success}
use mit.Raft.Replication.{accepted-agrees}
use mit.Raft.Majority.{reached, commit-majority}
use mit.Raft.Votes.{Free, UpToDate, request_vote-grants, step-keeps_vote, second_vote}
use mit.Raft.Backoff.{refusal_stuck}
use mit.Raft.Compaction.{snapshot_effect}

abbrev ballot : Ballot
ballot = record {
  args = record { term = 1; candidate_id = 0; last_log_index = 0; last_log_term = some 0 };
  votes = 1;
  elected_flag = false;
}

-- One peer is elected, takes two commands, gets one of them to a second peer, applies it, and
-- compacts its log; after a crash it stands for election again.
abbrev reign : List (Event ℕ)
reign =
    election_timeout
    ∷ vote_reply ballot (record { term = 1; vote_granted = true })
    ∷ command 7
    ∷ command 8
    ∷ append_reply 1
        (record {
          term = 1;
          leader_id = 0;
          prev_log_index = 0;
          prev_log_term = some 0;
          leader_commit = 0;
          entries = entry 1 7 ∷ [];
        })
        (record { term = 1; success = true; conflict_log_index = 0; conflict_log_term = some 0 })
    ∷ apply_round
    ∷ compact 1 (5 ∷ [])
    ∷ []

abbrev calls : List (List (Event ℕ))
calls = reign ∷ (election_timeout ∷ apply_round ∷ []) ∷ []

lives-IsValid_example : IsValid (lives plain (make plain 3 0 make_persister) calls)
lives-IsValid_example = lives-IsValid plain plain-IsFaithful 3 0 calls

applier_round-Delivers_example :
    let rf = lives plain (make plain 3 0 make_persister) calls in Delivers rf (applier_round rf)
applier_round-Delivers_example = applier_round-Delivers plain plain-IsFaithful 3 0 calls

run-IsDurable_example : IsDurable plain (run plain (make plain 3 0 blank_disk) reign)
run-IsDurable_example = run-IsDurable plain plain-IsFaithful 3 0 blank_disk reign

-- The reign ends with the first command applied and compacted away.
reign_commit : (run plain booted reign).last_applied ≡ 1
unfolding run step make snapshot applier_round handle_append_entries_reply start handle_vote_reply
    start_election persist majority_index sort get_log_term
reign_commit = refl

-- A follower with one entry of term 1, and the leader of term 2 with two entries.
abbrev follower : Raft ℕ
follower = record booted { current_term = 2; logs = entry 0 0 ∷ entry 1 7 ∷ [] }

abbrev leader : Raft ℕ
leader = record booted {
  state = RaftState.leader;
  current_term = 2;
  logs = entry 0 0 ∷ entry 1 7 ∷ entry 2 8 ∷ [];
  next_index = 3 ∷ 2 ∷ 2 ∷ [];
  match_index = 2 ∷ 2 ∷ 0 ∷ [];
}

abbrev second_entry : AppendEntriesArgs ℕ
second_entry = record {
  term = 2;
  leader_id = 0;
  prev_log_index = 1;
  prev_log_term = some 1;
  leader_commit = 0;
  entries = entry 2 8 ∷ [];
}

follower-IsValid : IsValid follower
unfolding make
follower-IsValid = record {
  nonempty = omega arith;
  head = refl;
  applied = omega arith;
  committed = omega arith;
}

append_entries-success_example :
    let (rf', reply) = append_entries plain follower second_entry in
    ((reply.success ≡ true) ↔ Matches follower second_entry)
    × (rf'.logs ≡ (if reply.success then merged follower second_entry else follower.logs))
    × (rf'.commit_index ≡ (if reply.success then min_commit 0 (1 + 1) else follower.commit_index))
append_entries-success_example = append_entries-success plain follower second_entry follower-IsValid

second_entry_sent : (broadcast_to leader 1).1 ≡ append second_entry
unfolding broadcast_to make get_log_term
second_entry_sent = refl

second_entry_accepted : (append_entries plain follower second_entry).1.success ≡ true
unfolding append_entries make persist get_log_term
second_entry_accepted = refl

accepted-agrees_example :
    get_log_term (append_entries plain follower second_entry).0 2
    ≡ (if ltb 2 1 then get_log_term follower 2 else get_log_term leader 2)
accepted-agrees_example =
    accepted-agrees plain leader follower 1 second_entry second_entry_sent follower-IsValid
      second_entry_accepted 2 (omega arith)

commit_moves : (commit leader).commit_index ≢ leader.commit_index
unfolding commit make majority_index sort get_log_term
commit_moves = λ h. omega (arith, h)

commit-majority_example :
    let n = (commit leader).commit_index in
    (leader.state ≡ RaftState.leader)
    × (leader.commit_index < n)
    × (get_log_term leader n ≡ some leader.current_term)
    × (length leader.match_index < 2 * reached n leader.match_index)
commit-majority_example = commit-majority leader (omega arith) commit_moves

abbrev candidate : RequestVoteArgs
candidate = record { term = 2; candidate_id = 1; last_log_index = 2; last_log_term = some 2 }

request_vote-grants_example :
    let (rf', reply) = request_vote plain follower candidate in
    ((reply.vote_granted ≡ true) ↔ (Free plain follower candidate × UpToDate follower candidate))
    × (rf'.voted_for ≡ (if reply.vote_granted then some 1 else if ltb 2 2 then none else none))
    × (rf'.current_term ≡ 2)
    × (reply.term ≡ rf'.current_term)
unfolding make
request_vote-grants_example = request_vote-grants plain follower candidate

abbrev voter : Raft ℕ
voter = record follower { voted_for = some 2 }

voter_term : (step plain voter (vote_request candidate)).current_term ≡ voter.current_term
unfolding step make request_vote
voter_term = refl

step-keeps_vote_example : (step plain voter (vote_request candidate)).voted_for ≡ some 2
step-keeps_vote_example =
    step-keeps_vote plain voter (vote_request candidate) 2 refl refl voter_term

up_to_date : UpToDate (append_entries plain voter second_entry).0 candidate
unfolding append_entries make persist get_log_term
up_to_date = let last : 2 ≤ 2 = omega arith in inr (refl, last)

second_vote_example :
    (request_vote plain (append_entries plain voter second_entry).0 candidate).1.vote_granted ≡ true
unfolding make
second_vote_example = second_vote plain voter second_entry candidate refl refl up_to_date

abbrev far_leader : Raft ℕ
far_leader = record leader { next_index = 3 ∷ 2 ∷ 3 ∷ [] }

abbrev third_entry : AppendEntriesArgs ℕ
third_entry = record second_entry { prev_log_index = 2; prev_log_term = some 2; entries = [] }

third_entry_refused : (append_entries plain follower third_entry).1.success ≡ false
unfolding append_entries make persist get_log_term
third_entry_refused = refl

-- A follower that has compacted four entries, and a leader that still sends it the third.
abbrev compacted : Raft ℕ
compacted = record follower {
  logs = entry 2 0 ∷ [];
  last_included_index = 4;
  last_included_term = 2;
  last_applied = 4;
  commit_index = 4;
}

low_entry_refused : (append_entries plain compacted third_entry).1.success ≡ false
unfolding append_entries make persist get_log_term
low_entry_refused = refl

refusal_stuck_example :
    let reply = (append_entries plain compacted third_entry).1 in
    get_or (handle_append_entries_reply plain far_leader 2 third_entry reply).next_index 2 0
    ≡ get_or far_leader.next_index 2 0
unfolding make
refusal_stuck_example =
    refusal_stuck plain far_leader compacted 2 third_entry (omega arith) (omega arith) refl
      (omega arith) (omega arith) low_entry_refused

snapshot_effect_example :
    let rf' = snapshot plain leader 1 (5 ∷ []) in
    (get_last_log_index rf' ≡ get_last_log_index leader)
    × ((j : ℕ) → get_log_term rf' j ≡ (if ltb j 1 then none else get_log_term leader j))
    × (rf'.commit_index ≡ (if ltb leader.commit_index 1 then 1 else leader.commit_index))
    × (rf'.last_applied ≡ (if ltb leader.last_applied 1 then 1 else leader.last_applied))
    × (rf'.persister.snapshot ≡ 5 ∷ [])
unfolding make
snapshot_effect_example = snapshot_effect plain leader 1 (5 ∷ []) (omega arith) (omega arith)
