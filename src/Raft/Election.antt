-- ===== src/Raft/Election.antt =====
-- Leader election: `RequestVote`, `StartElection` and its goroutines
-- (lec-2025/src/raft1/raft.go, lines 253 to 316 and 604 to 693).
use mit.Base.{
  ℕ, ◌+◌, ◌/◌, Bool, true, false, ◌||◌, ◌&&◌, not, Option, none, some, ltb, leb, ◌==◌,
  if◌then◌else◌, replicate, set,
}
use mit.Raft.State.{
  Raft, RaftState, Gob, persist, get_last_log_index, get_log_term, opt_ltb, opt_eqb, is_candidate,
  signal_heartbeat,
}

pub record RequestVoteArgs : Type 0 where
  pub term : ℕ
  pub candidate_id : ℕ
  pub last_log_index : ℕ
  pub last_log_term : Option ℕ

pub record RequestVoteReply : Type 0 where
  pub term : ℕ
  pub vote_granted : Bool

-- The variables that the goroutines of one election share.
pub record Ballot : Type 0 where
  pub args : RequestVoteArgs
  pub votes : ℕ
  pub elected_flag : Bool

abbrev pub may_vote : Option ℕ → ℕ → Bool
may_vote none candidate_id = true
may_vote (some c) candidate_id = c == candidate_id

module _ {C : Type 0} where
  unfoldable pub vote_flag : Raft C → RequestVoteArgs → Bool
  vote_flag rf args =
      let last_log_index = get_last_log_index rf in
      let last_log_term = get_log_term rf last_log_index in
      opt_ltb last_log_term args.last_log_term
      || (opt_eqb last_log_term args.last_log_term && leb last_log_index args.last_log_index)

  abbrev vote_reply : Raft C → Bool → Raft C × RequestVoteReply
  vote_reply rf granted = (rf, record { term = rf.current_term; vote_granted = granted })

  -- Both slices have a place for each peer.
  unfoldable pub become_leader : Raft C → Raft C
  become_leader rf =
      let last = get_last_log_index rf in
      record rf {
        state = RaftState.leader;
        next_index = replicate rf.peers (last + 1);
        match_index = set (replicate rf.peers 0) rf.me last;
      }

  -- The count of one granted vote. The last part says whether `BroadcastAppendEntries` follows.
  unfoldable pub count_vote : Raft C → Ballot → Raft C × Ballot × Bool
  count_vote rf b =
      let counted = record b { votes = b.votes + 1 } in
      if ltb (rf.peers / 2) (b.votes + 1)
      then if b.elected_flag
        then (rf, counted, false)
        else (become_leader rf, record counted { elected_flag = true }, true)
      else (rf, counted, false)

module _ {C : Type 0} (gob : Gob C) where
  -- The first test of `RequestVote`, for a term that is not old.
  unfoldable pub adopt_term : Raft C → ℕ → Raft C
  adopt_term rf term =
      if ltb rf.current_term term
      then persist gob
          (record rf { voted_for = none; current_term = term; state = RaftState.follower })
      else rf

  unfoldable pub cast_vote : Raft C → RequestVoteArgs → Raft C × RequestVoteReply
  cast_vote rf args =
      if may_vote rf.voted_for args.candidate_id && vote_flag rf args
      then vote_reply
          (signal_heartbeat (
            persist gob (record rf {
              voted_for = some args.candidate_id;
              current_term = args.term;
              state = RaftState.follower;
            })))
          true
      else vote_reply rf false

  unfoldable pub request_vote : Raft C → RequestVoteArgs → Raft C × RequestVoteReply
  unfolding cast_vote adopt_term
  request_vote rf args =
      if ltb args.term rf.current_term
      then vote_reply rf false
      else cast_vote (adopt_term rf args.term) args

  -- `StartElection` up to its unlock; the requests go to every other peer.
  unfoldable pub start_election : Raft C → Raft C × Ballot
  start_election rf =
      let rf' = persist gob (record rf {
        state = RaftState.candidate;
        current_term = rf.current_term + 1;
        voted_for = some rf.me;
      }) in
      (
        rf',
        record {
          args = record {
            term = rf.current_term + 1;
            candidate_id = rf.me;
            last_log_index = get_last_log_index rf';
            last_log_term = get_log_term rf' (get_last_log_index rf');
          };
          votes = 1;
          elected_flag = false;
        },
      )

  -- The body of a goroutine of `StartElection` after its call has returned with a reply.
  unfoldable pub handle_vote_reply : Raft C → Ballot → RequestVoteReply → Raft C × Ballot × Bool
  unfolding count_vote become_leader
  handle_vote_reply rf b reply =
      if not (is_candidate rf.state) || not (rf.current_term == b.args.term)
      then (rf, b, false)
      else if ltb rf.current_term reply.term
      then (
        persist gob
            (record rf { current_term = reply.term; state = RaftState.follower; voted_for = none }),
        b,
        false,
      )
      else if reply.vote_granted
      then count_vote rf b
      else (rf, b, false)
