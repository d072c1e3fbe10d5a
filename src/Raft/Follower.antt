-- ===== src/Raft/Follower.antt =====
-- What `AppendEntries` does to the log of a follower, on every branch.
use mit.Base.{
  Bool-cases, inl, inr, if◌then◌else◌, ℕ, zero, suc, ◌+◌, ◌-◌, ◌≤◌, ◌<◌, ◌≡◌, ◌↔◌, refl, sym, ap,
  Option, some, none, List, [], ◌∷◌, ◌++◌, arith, true, false, length, length-take, take, drop,
  take-append-drop,
}
use mit.Raft.State.{Raft, Entry, Gob, persist, get_log_term, get_last_log_index, opt_eqb}
use mit.Raft.Append.{
  AppendEntriesArgs, AppendEntriesReply, merge_entries, append_log, append_entries, follow,
  blank_reply, min_commit,
}
use mit.Raft.Reconcile.{overlay, logs-merge_entries}
use mit.Raft.Validity.{IsValid}

opt_eqb_iff : (a b : Option ℕ) → (opt_eqb a b ≡ true) ↔ (a ≡ b)
opt_eqb_iff none none = (λ h. refl, λ h. refl)
opt_eqb_iff none (some b) = (λ h. cc, λ h. cc)
opt_eqb_iff (some a) none = (λ h. cc, λ h. cc)
opt_eqb_iff (some a) (some b) = (λ h. ground arith, λ h. ground arith)

module _ {C : Type 0} where
  -- Where the entries of a call go in the log of a peer.
  abbrev pub place : Raft C → AppendEntriesArgs C → ℕ
  place rf args = args.prev_log_index + 1 - rf.last_included_index

  -- The log after the entries of a call are merged into it.
  abbrev pub merged : Raft C → AppendEntriesArgs C → List (Entry C)
  merged rf args =
      take (place rf args) rf.logs ++ overlay (drop (place rf args) rf.logs) args.entries

  -- The consistency check of the protocol.
  pub record Matches (rf : Raft C) (args : AppendEntriesArgs C) : Type 0 where
    pub recent : rf.current_term ≤ args.term
    pub above : rf.last_included_index ≤ args.prev_log_index
    pub below : args.prev_log_index ≤ get_last_log_index rf
    pub same_term : get_log_term rf args.prev_log_index ≡ args.prev_log_term

module _ {C : Type 0} (gob : Gob C) where
  -- The loop, at the index after `PrevLogIndex`.
  logs-merge_at_place :
      (rf : Raft C) (args : AppendEntriesArgs C)
      → rf.last_included_index ≤ args.prev_log_index
      → args.prev_log_index ≤ get_last_log_index rf
      → 0 < length rf.logs
      → (merge_entries gob rf (args.prev_log_index + 1) args.entries).logs ≡ merged rf args
  logs-merge_at_place rf args h k n =
      logs-merge_entries gob rf (args.prev_log_index + 1) (take (place rf args) rf.logs)
        (drop (place rf args) rf.logs) args.entries (sym (take-append-drop (place rf args) rf.logs))
        (omega (arith, length-take (place rf args) rf.logs))
        (omega (arith, length-take (place rf args) rf.logs))

  drop_all : (n : ℕ) (es : List (Entry C)) → length es ≤ n → drop n es ≡ []
  drop_all zero [] h = refl
  drop_all zero (e ∷ es) h = absurd (omega arith)
  drop_all (suc n) [] h = refl
  drop_all (suc n) (e ∷ es) h = drop_all n es (omega arith)

  take_all : (n : ℕ) (es : List (Entry C)) → length es ≤ n → take n es ≡ es
  take_all zero [] h = refl
  take_all zero (e ∷ es) h = absurd (omega arith)
  take_all (suc n) [] h = refl
  take_all (suc n) (e ∷ es) h = ap (◌∷◌ e) (take_all n es (omega arith))

  overlay_nil : (es : List (Entry C)) → overlay [] es ≡ es
  unfolding overlay
  overlay_nil [] = refl
  overlay_nil (e ∷ es) = refl

  logs-append_log :
      (rf : Raft C) (args : AppendEntriesArgs C) (reply : AppendEntriesReply)
      → 0 < length rf.logs
      → reply.success ≡ false
      → (append_log gob rf args reply).1.success ≡ true
      → (append_log gob rf args reply).0.logs ≡ merged rf args
  unfolding append_log persist
  logs-append_log rf args reply n f h = ground (
    arith,
    logs-merge_at_place rf args,
    drop_all (place rf args) rf.logs,
    take_all (place rf args) rf.logs,
    overlay_nil args.entries,
  )

  refused-append_log :
      (rf : Raft C) (args : AppendEntriesArgs C) (reply : AppendEntriesReply)
      → (append_log gob rf args reply).1.success ≡ false
      → (append_log gob rf args reply).0 ≡ rf
  unfolding append_log
  refused-append_log rf args reply h = ground arith

  success-append_log :
      (rf : Raft C) (args : AppendEntriesArgs C) (reply : AppendEntriesReply)
      → 0 < length rf.logs
      → reply.success ≡ false
      → ((append_log gob rf args reply).1.success ≡ true) ↔ (
          (rf.last_included_index ≤ args.prev_log_index)
          × (args.prev_log_index ≤ get_last_log_index rf)
          × (get_log_term rf args.prev_log_index ≡ args.prev_log_term))
  unfolding append_log
  success-append_log rf args reply n f = (
    λ h. ground (arith, opt_eqb_iff args.prev_log_term (get_log_term rf args.prev_log_index)),
    λ h. ground (arith, opt_eqb_iff args.prev_log_term (get_log_term rf args.prev_log_index)),
  )

  get_log_term-follow :
      (rf : Raft C) (term i : ℕ) → get_log_term (follow gob rf term) i ≡ get_log_term rf i
  unfolding get_log_term follow persist
  get_log_term-follow rf term i = refl

module _ {C : Type 0} (gob : Gob C) (rf : Raft C) (args : AppendEntriesArgs C)
    (v : IsValid rf) where
  followed_success :
      ((append_log gob (follow gob rf args.term) args (blank_reply rf.current_term)).1.success
        ≡ true)
      ↔ ((rf.last_included_index ≤ args.prev_log_index)
          × (args.prev_log_index ≤ get_last_log_index rf)
          × (get_log_term rf args.prev_log_index ≡ args.prev_log_term))
  unfolding follow persist
  followed_success = rw (← get_log_term-follow gob rf args.term args.prev_log_index) (
      success-append_log gob (follow gob rf args.term) args (blank_reply rf.current_term) v.nonempty
        refl)

  pub success_iff : ((append_entries gob rf args).1.success ≡ true) ↔ Matches rf args
  unfolding append_entries
  success_iff = (
    λ h. ground (arith, followed_success.0),
    λ m. ground (arith, followed_success.1 (m.above, m.below, m.same_term)),
  )

  pub success_logs :
      (append_entries gob rf args).1.success ≡ true
      → (append_entries gob rf args).0.logs ≡ merged rf args
  unfolding append_entries follow persist
  success_logs h = ground (
    arith,
    logs-append_log gob (follow gob rf args.term) args (blank_reply rf.current_term) v.nonempty
        refl,
  )

  refused :
      (append_entries gob rf args).1.success ≡ false
      → ((append_entries gob rf args).0.logs ≡ rf.logs)
        × ((append_entries gob rf args).0.commit_index ≡ rf.commit_index)
  unfolding append_entries follow persist
  refused h =
      ground
        (arith, refused-append_log gob (follow gob rf args.term) args (blank_reply rf.current_term))

  success_commit :
      (append_entries gob rf args).1.success ≡ true
      → (append_entries gob rf args).0.commit_index
        ≡ min_commit args.leader_commit (args.prev_log_index + length args.entries)
  unfolding append_entries append_log follow persist
  success_commit h = ground arith

  -- A call succeeds exactly if its term is not old and the log of the peer has the term PrevLogTerm
  -- at PrevLogIndex, an index between the snapshot and the last entry. Then the entries are laid over
  -- the log from the next index on, and the commit index is the smaller of the leader's and the
  -- index of the last new entry; otherwise the log and the commit index stay as they were. The peer
  -- is to be valid.
  pub append_entries-success :
      let (rf', reply) = append_entries gob rf args in
      ((reply.success ≡ true) ↔ Matches rf args)
      × (rf'.logs ≡ (if reply.success then merged rf args else rf.logs))
      × (rf'.commit_index ≡ (
          if reply.success
          then min_commit args.leader_commit (args.prev_log_index + length args.entries)
          else rf.commit_index))
  append_entries-success = (
    success_iff,
    elim (Bool-cases (append_entries gob rf args).1.success) [
      | inl y ↦ rw y (success_logs y)
      | inr n ↦ rw n (refused n).0
    ],
    elim (Bool-cases (append_entries gob rf args).1.success) [
      | inl y ↦ rw y (success_commit y)
      | inr n ↦ rw n (refused n).1
    ],
  )
