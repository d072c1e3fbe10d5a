-- ===== src/Raft/Votes.antt =====
-- Terms and votes of one peer, over all its calls.
use mit.Base.{
  ltb, if◌then◌else◌, ℕ, ◌+◌, ◌≤◌, ◌<◌, ◌≡◌, ◌↔◌, ◌⊎◌, inl, inr, refl, Option, some, none, List, [],
  ◌∷◌, Bool, true, false, arith, leb, ◌||◌, ◌&&◌,
}
use mit.Raft.State.{
  Raft, Entry, Gob, persist, get_log_term, get_last_log_index, kill, Bytes, opt_ltb, opt_eqb,
}
use mit.Raft.Election.{
  RequestVoteArgs, RequestVoteReply, Ballot, request_vote, start_election, handle_vote_reply,
  vote_flag, adopt_term,
}
use mit.Raft.Append.{
  AppendEntriesArgs, AppendEntriesReply, merge_entries, append_log, append_entries, follow,
  blank_reply,
}
use mit.Raft.Snapshot.{InstallSnapshotArgs, InstallSnapshotReply, snapshot, install_snapshot}
use mit.Raft.Leader.{
  broadcast_to, start, handle_append_entries_reply, handle_install_snapshot_reply,
}
use mit.Raft.Applier.{applier_round}
use mit.Raft.Event.{
  Event, vote_request, vote_reply, append_request, append_reply, install_request, install_reply,
  compact, heartbeat, take_start, shutdown, step, run,
}

-- The order of terms where -1 is below all.
abbrev pub Below : Option ℕ → Option ℕ → Type 0
Below none none = ⊥
Below none (some b) = Unit
Below (some a) none = ⊥
Below (some a) (some b) = a < b

compare_logs :
    (a b : Option ℕ) (i j : ℕ)
    → ((opt_ltb a b || (opt_eqb a b && leb i j)) ≡ true) ↔ (Below a b ⊎ ((a ≡ b) × (i ≤ j)))
compare_logs none none i j = (λ h. inr (refl, ground arith), λ h. ground arith)
compare_logs none (some b) i j = (λ h. inl tt, λ h. refl)
compare_logs (some a) none i j = (λ h. cc, λ h. ground arith)
compare_logs (some a) (some b) i j = (λ h. grind arith, λ h. ground arith)

module _ {C : Type 0} where
  -- The candidate's log is at least as up to date as the peer's.
  abbrev pub UpToDate : Raft C → RequestVoteArgs → Type 0
  UpToDate rf args =
      let last = get_last_log_index rf in
      Below (get_log_term rf last) args.last_log_term
      ⊎ ((get_log_term rf last ≡ args.last_log_term) × (last ≤ args.last_log_index))

  vote_flag_iff :
      (rf : Raft C) (args : RequestVoteArgs) → (vote_flag rf args ≡ true) ↔ UpToDate rf args
  unfolding vote_flag
  vote_flag_iff rf args =
      compare_logs (get_log_term rf (get_last_log_index rf)) args.last_log_term
        (get_last_log_index rf) args.last_log_index

module _ {C : Type 0} (gob : Gob C) where
  vote_flag-adopt_term :
      (rf : Raft C) (term : ℕ) (args : RequestVoteArgs)
      → vote_flag (adopt_term gob rf term) args ≡ vote_flag rf args
  unfolding vote_flag adopt_term persist get_log_term
  vote_flag-adopt_term rf term args = ground arith

  -- The peer is free to vote for the candidate: in a later term, or with no vote in this term, or
  -- with one for the same candidate.
  abbrev pub Free : Raft C → RequestVoteArgs → Type 0
  Free rf args =
      (rf.current_term < args.term)
      ⊎ ((rf.current_term ≡ args.term)
          × ((rf.voted_for ≡ none) ⊎ (rf.voted_for ≡ some args.candidate_id)))

  granted_iff :
      (rf : Raft C) (args : RequestVoteArgs)
      → ((request_vote gob rf args).1.vote_granted ≡ true)
        ↔ (Free rf args × (vote_flag rf args ≡ true))
  unfolding request_vote persist
  granted_iff rf args = (
    λ h. (
      ground (arith, vote_flag-adopt_term rf args.term args),
      ground (arith, vote_flag-adopt_term rf args.term args),
    ),
    λ (free, up). ground (arith, free, up, vote_flag-adopt_term rf args.term args),
  )

  -- A vote is granted exactly if the peer is free to vote for the candidate and the candidate's log
  -- is at least as up to date as the peer's. A granted vote is recorded; one that is not granted
  -- drops a vote of an earlier term only. The term becomes the candidate's if that is later, and the
  -- reply carries it.
  pub request_vote-grants :
      (rf : Raft C) (args : RequestVoteArgs)
      → let (rf', reply) = request_vote gob rf args in
        ((reply.vote_granted ≡ true) ↔ (Free rf args × UpToDate rf args))
        × (rf'.voted_for ≡ (
            if reply.vote_granted
            then some args.candidate_id
            else if ltb rf.current_term args.term
            then none
            else rf.voted_for))
        × (rf'.current_term
            ≡ (if ltb rf.current_term args.term then args.term else rf.current_term))
        × (reply.term ≡ rf'.current_term)
  unfolding request_vote persist
  request_vote-grants rf args = (
    (
      λ h. let (free, up) = (granted_iff rf args).0 h in (free, (vote_flag_iff rf args).0 up),
      λ (free, up). (granted_iff rf args).1 (free, (vote_flag_iff rf args).1 up),
    ),
    ground arith,
    ground arith,
    ground arith,
  )

  -- Terms do not fall, and while the term stays a vote stays.
  abbrev Keeps : Raft C → Raft C → Type 0
  Keeps rf rf' =
      (rf.current_term ≤ rf'.current_term)
      × ((c : ℕ)
          → rf.voted_for ≡ some c
          → rf'.current_term ≡ rf.current_term
          → rf'.voted_for ≡ some c)

  request_vote-Keeps :
      (rf : Raft C) (args : RequestVoteArgs) → Keeps rf (request_vote gob rf args).0
  unfolding request_vote persist
  request_vote-Keeps rf args = (ground arith, λ c h k. ground arith)

  vote_reply-Keeps :
      (rf : Raft C) (b : Ballot) (reply : RequestVoteReply)
      → Keeps rf (handle_vote_reply gob rf b reply).0
  unfolding handle_vote_reply persist
  vote_reply-Keeps rf b reply = (ground arith, λ c h k. ground arith)

  append_reply-Keeps :
      (rf : Raft C) (server : ℕ) (args : AppendEntriesArgs C) (reply : AppendEntriesReply)
      → Keeps rf (handle_append_entries_reply gob rf server args reply)
  unfolding handle_append_entries_reply persist
  append_reply-Keeps rf server args reply = (ground arith, λ c h k. ground arith)

  install_snapshot-Keeps :
      (rf : Raft C) (args : InstallSnapshotArgs) → Keeps rf (install_snapshot gob rf args).0
  unfolding install_snapshot persist
  install_snapshot-Keeps rf args = (ground arith, λ c h k. ground arith)

  install_reply-Keeps :
      (rf : Raft C) (server : ℕ) (args : InstallSnapshotArgs) (reply : InstallSnapshotReply)
      → Keeps rf (handle_install_snapshot_reply gob rf server args reply)
  unfolding handle_install_snapshot_reply persist
  install_reply-Keeps rf server args reply = (ground arith, λ c h k. ground arith)

  snapshot-Keeps :
      (rf : Raft C) (index : ℕ) (bytes : Bytes) → Keeps rf (snapshot gob rf index bytes)
  unfolding snapshot
  snapshot-Keeps rf index bytes = (ground arith, λ c h k. ground arith)

  merge_entries-vote :
      (rf : Raft C) (i : ℕ) (es : List (Entry C))
      → let rf' = merge_entries gob rf i es in
        (rf'.current_term ≡ rf.current_term) × (rf'.voted_for ≡ rf.voted_for)
  unfolding merge_entries persist
  merge_entries-vote rf i [] = (refl, refl)
  merge_entries-vote rf i (e ∷ es) = ground (arith, merge_entries-vote rf (i + 1) es)

  -- `AppendEntries` at a term that is not old takes the term over and drops the vote.
  append_log-vote :
      (rf : Raft C) (args : AppendEntriesArgs C) (reply : AppendEntriesReply)
      → let rf' = (append_log gob rf args reply).0 in
        (rf'.current_term ≡ rf.current_term) × (rf'.voted_for ≡ rf.voted_for)
  unfolding append_log persist
  append_log-vote rf args reply =
      ground (arith, merge_entries-vote rf (args.prev_log_index + 1) args.entries)

  append_entries-vote :
      (rf : Raft C) (args : AppendEntriesArgs C)
      → let rf' = (append_entries gob rf args).0 in
        ((args.term < rf.current_term)
          × (rf'.current_term ≡ rf.current_term)
          × (rf'.voted_for ≡ rf.voted_for))
        ⊎ ((rf.current_term ≤ args.term) × (rf'.current_term ≡ args.term) × (rf'.voted_for ≡ none))
  unfolding append_entries follow persist
  append_entries-vote rf args =
      ground (arith, append_log-vote (follow gob rf args.term) args (blank_reply rf.current_term))

  append_entries-le_term :
      (rf : Raft C) (args : AppendEntriesArgs C)
      → rf.current_term ≤ (append_entries gob rf args).0.current_term
  append_entries-le_term rf args = ground (arith, append_entries-vote rf args)

  abbrev pub is_append : Event C → Bool
  is_append (append_request args) = true
  is_append _ = false

  step-le_term_keeps :
      (rf : Raft C) (e : Event C)
      → (rf.current_term ≤ (step gob rf e).current_term)
        × (is_append e ≡ false
            → (c : ℕ) → rf.voted_for ≡ some c
            → (step gob rf e).current_term ≡ rf.current_term
            → (step gob rf e).voted_for ≡ some c)
  unfolding step applier_round start_election kill persist start broadcast_to
  step-le_term_keeps rf (append_request args) = (append_entries-le_term rf args, λ h. cc)
  step-le_term_keeps rf (vote_request args) = let k = request_vote-Keeps rf args in (k.0, λ _. k.1)
  step-le_term_keeps rf (vote_reply b reply) =
      let k = vote_reply-Keeps rf b reply in (k.0, λ _. k.1)
  step-le_term_keeps rf (append_reply server args reply) =
      let k = append_reply-Keeps rf server args reply in (k.0, λ _. k.1)
  step-le_term_keeps rf (install_request args) =
      let k = install_snapshot-Keeps rf args in (k.0, λ _. k.1)
  step-le_term_keeps rf (install_reply server args reply) =
      let k = install_reply-Keeps rf server args reply in (k.0, λ _. k.1)
  step-le_term_keeps rf (compact index bytes) =
      let k = snapshot-Keeps rf index bytes in (k.0, λ _. k.1)
  step-le_term_keeps rf heartbeat = (ground arith, λ _ c h k. h)
  step-le_term_keeps rf take_start = (ground arith, λ _ c h k. h)
  step-le_term_keeps rf shutdown = (ground arith, λ _ c h k. h)
  step-le_term_keeps rf _ = (ground arith, λ _ c h k. ground arith)

  -- No sequence of calls lowers the term of a peer.
  pub run-le_term :
      (rf : Raft C) (es : List (Event C)) → rf.current_term ≤ (run gob rf es).current_term
  unfolding run
  run-le_term rf [] = omega arith
  run-le_term rf (e ∷ es) =
      omega (arith, (step-le_term_keeps rf e).0, run-le_term (step gob rf e) es)

  -- While the term stays, no call but `AppendEntries` changes the vote of the term once it is given.
  pub step-keeps_vote :
      (rf : Raft C) (e : Event C) (c : ℕ)
      → is_append e ≡ false
      → rf.voted_for ≡ some c
      → (step gob rf e).current_term ≡ rf.current_term
      → (step gob rf e).voted_for ≡ some c
  step-keeps_vote rf e c other h same = (step-le_term_keeps rf e).1 other c h same

  -- A call of `AppendEntries` from the leader of the current term makes the peer forget its vote:
  -- it then grants a second candidate of the same term its vote, if that one's log is up to date.
  pub second_vote :
      (rf : Raft C) (args : AppendEntriesArgs C) (vote : RequestVoteArgs)
      → args.term ≡ rf.current_term
      → vote.term ≡ rf.current_term
      → UpToDate (append_entries gob rf args).0 vote
      → (request_vote gob (append_entries gob rf args).0 vote).1.vote_granted ≡ true
  second_vote rf args vote same again up =
      let rf' = (append_entries gob rf args).0 in
      (request_vote-grants rf' vote).0.1 (ground (arith, append_entries-vote rf args), up)
