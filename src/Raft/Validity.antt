-- ===== src/Raft/Validity.antt =====
-- The invariant of a peer's log, snapshot and commit index, and the operations that keep it.
use mit.Base.{
  ℕ, ◌-◌, ◌≤◌, ◌<◌, ◌≡◌, refl, some, List, [], ◌∷◌, arith, length, length-append, length-drop, drop,
}
use mit.Raft.State.{Raft, Entry, Gob, Bytes, term_at, persist, get_last_log_index}
use mit.Raft.Election.{RequestVoteArgs, RequestVoteReply, Ballot, request_vote, handle_vote_reply}
use mit.Raft.Snapshot.{
  InstallSnapshotArgs, InstallSnapshotReply, snapshot, install_log, newer_term, match_log,
  dummy_head, drop_command, or_zero,
}
use mit.Raft.Leader.{broadcast_to, start, commit, majority_index, handle_install_snapshot_reply}
use mit.Raft.Log.{term_at-drop, term_at-append, get_log_term-some}

-- The log has a head that stands for the snapshot, and both what is committed and what is applied
-- fit the log.
pub record IsValid {C : Type 0} (rf : Raft C) : Type 0 where
  pub nonempty : 0 < length rf.logs
  pub head : term_at rf.logs 0 ≡ some rf.last_included_term
  pub applied : rf.last_included_index ≤ rf.last_applied
  pub committed : rf.commit_index ≤ get_last_log_index rf

module _ {C : Type 0} where
  length-dummy_head : (t : ℕ) (es : List (Entry C)) → length (dummy_head t es) ≡ length es
  length-dummy_head t [] = refl
  length-dummy_head t (e ∷ es) = refl

  term_at-dummy_head :
      (t : ℕ) (es : List (Entry C)) → 0 < length es → term_at (dummy_head t es) 0 ≡ some t
  term_at-dummy_head t [] h = elim h [ ]
  term_at-dummy_head t (e ∷ es) h = refl

  length-drop_command : (es : List (Entry C)) → length (drop_command es) ≡ length es
  length-drop_command [] = refl
  length-drop_command (e ∷ es) = refl

  term_at-drop_command : (es : List (Entry C)) → term_at (drop_command es) 0 ≡ term_at es 0
  term_at-drop_command [] = refl
  term_at-drop_command (e ∷ es) = refl

module _ {C : Type 0} (gob : Gob C) (rf : Raft C) where
  pub request_vote-IsValid :
      (args : RequestVoteArgs) → IsValid rf → IsValid (request_vote gob rf args).0
  unfolding request_vote persist
  request_vote-IsValid args v = ground arith

  pub vote_reply-IsValid :
      (b : Ballot) (reply : RequestVoteReply)
      → IsValid rf
      → IsValid (handle_vote_reply gob rf b reply).0
  unfolding handle_vote_reply persist
  vote_reply-IsValid b reply v = ground arith

  pub start-IsValid : (c : C) → IsValid rf → IsValid (start gob rf c).0
  unfolding start persist
  start-IsValid c v = ground (
    arith,
    length-append rf.logs (record { term = rf.current_term; command = some c } ∷ []),
    term_at-append rf.logs (record { term = rf.current_term; command = some c } ∷ []) 0,
  )

  pub broadcast_to-IsValid : (server : ℕ) → IsValid rf → IsValid (broadcast_to rf server).0
  unfolding broadcast_to
  broadcast_to-IsValid server v = ground arith

  pub install_reply-IsValid :
      (server : ℕ) (args : InstallSnapshotArgs) (reply : InstallSnapshotReply)
      → IsValid rf
      → IsValid (handle_install_snapshot_reply gob rf server args reply)
  unfolding handle_install_snapshot_reply persist
  install_reply-IsValid server args reply v = ground arith

  -- The trimmed log starts at the index of the snapshot.
  pub snapshot-IsValid :
      (index : ℕ) (bytes : Bytes) → IsValid rf → IsValid (snapshot gob rf index bytes)
  unfolding snapshot
  snapshot-IsValid index bytes v =
      let rest = drop (index - rf.last_included_index) rf.logs in
      let t = or_zero (term_at rf.logs (index - rf.last_included_index)) in
      ground (
        arith,
        length-drop (index - rf.last_included_index) rf.logs,
        length-dummy_head t rest,
        term_at-dummy_head t rest,
      )

  pub install_log-IsValid :
      (args : InstallSnapshotArgs) → IsValid rf → IsValid (install_log gob rf args).0
  unfolding install_log match_log
  install_log-IsValid args v =
      let n = args.last_included_index - rf.last_included_index in
      ground (
        arith,
        length-drop n rf.logs,
        length-drop_command (drop n rf.logs),
        term_at-drop_command (drop n rf.logs),
        term_at-drop n rf.logs 0,
        get_log_term-some rf args.last_included_index {t = args.last_included_term},
      )

  pub newer_term-IsValid : (term : ℕ) → IsValid rf → IsValid (newer_term gob rf term)
  unfolding newer_term persist
  newer_term-IsValid term v = ground arith

  -- A new commit index stands in the log, since its term was found there.
  pub commit-IsValid : IsValid rf → IsValid (commit rf)
  unfolding commit
  commit-IsValid v = ground (arith, get_log_term-some rf (majority_index rf) {t = rf.current_term})
