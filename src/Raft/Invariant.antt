-- ===== src/Raft/Invariant.antt =====
-- The invariant over every sequence of calls, and what follows for the applier.
use mit.Base.{
  ℕ, zero, suc, ◌+◌, ◌-◌, ◌≤◌, ◌<◌, ◌≡◌, refl, some, List, [], ◌∷◌, arith, true, false, length,
  length-append, length-take, take, drop, get_elem?, set, ltb, Bool-cases, ◌⊎◌, inl, inr,
}
use mit.Raft.State.{
  Raft, Entry, Gob, Persister, make_persister, persist, term_at, make, read_persist, kill,
}
use mit.Raft.Election.{start_election}
use mit.Raft.Append.{
  AppendEntriesArgs, AppendEntriesReply, merge_entries, append_log, append_entries, follow,
  blank_reply,
}
use mit.Raft.Snapshot.{InstallSnapshotArgs, install_snapshot, newer_term}
use mit.Raft.Leader.{handle_append_entries_reply}
use mit.Raft.Applier.{applier_round, Round, deliver, wait}
use mit.Raft.Event.{
  Event, vote_request, vote_reply, append_request, append_reply, install_request, install_reply,
  command, compact, broadcast, step, run,
}
use mit.Raft.Log.{get_log_term_lem, term_at-append, term_at-take}
use mit.Raft.Reconcile.{overlay, length-overlay}
use mit.Raft.Recovery.{IsFaithful, IsDurable, make-IsDurable, steps-IsDurable}
use mit.Raft.Follower.{place, merged, Matches, append_entries-success}
use mit.Raft.Validity.{
  IsValid, request_vote-IsValid, vote_reply-IsValid, start-IsValid, broadcast_to-IsValid,
  install_reply-IsValid, snapshot-IsValid, install_log-IsValid, newer_term-IsValid, commit-IsValid,
}

module _ {C : Type 0} (gob : Gob C) (rf : Raft C) where
  -- The fields that `AppendEntries` leaves alone, and its commit index.
  merge_fields :
      (i : ℕ) (es : List (Entry C))
      → let rf' = merge_entries gob rf i es in
        (rf'.last_included_index ≡ rf.last_included_index)
        × (rf'.last_included_term ≡ rf.last_included_term)
        × (rf'.last_applied ≡ rf.last_applied)
        × (rf'.commit_index ≡ rf.commit_index)
  unfolding merge_entries persist
  merge_fields i [] = (refl, refl, refl, refl)
  merge_fields i (e ∷ es) = ground (arith, merge_fields (i + 1) es)

  append_log_fields :
      (args : AppendEntriesArgs C) (reply : AppendEntriesReply)
      → let (rf', reply') = append_log gob rf args reply in
        (rf'.last_included_index ≡ rf.last_included_index)
        × (rf'.last_included_term ≡ rf.last_included_term)
        × (rf'.last_applied ≡ rf.last_applied)
        × (reply.success ≡ false
            → reply'.success ≡ true
            → rf'.commit_index ≤ args.prev_log_index + length args.entries)
  unfolding append_log persist
  append_log_fields args reply = ground (arith, merge_fields (args.prev_log_index + 1) args.entries)

module _ {C : Type 0} (gob : Gob C) (rf : Raft C) where
  pub append_entries_fields :
      (args : AppendEntriesArgs C)
      → let (rf', reply') = append_entries gob rf args in
        (rf'.last_included_index ≡ rf.last_included_index)
        × (rf'.last_included_term ≡ rf.last_included_term)
        × (rf'.last_applied ≡ rf.last_applied)
        × (reply'.success ≡ true → rf'.commit_index ≤ args.prev_log_index + length args.entries)
  unfolding append_entries follow persist
  append_entries_fields args =
      ground
        (arith, append_log_fields gob (follow gob rf args.term) args (blank_reply rf.current_term))

  -- The merged log keeps its head, and reaches as far as the new entries.
  merged_bounds :
      (args : AppendEntriesArgs C)
      → IsValid rf
      → Matches rf args
      → (0 < length (merged rf args))
        × (term_at (merged rf args) 0 ≡ some rf.last_included_term)
        × (args.prev_log_index + length args.entries
            ≤ rf.last_included_index + length (merged rf args) - 1)
  merged_bounds args v m =
      let n = place rf args in
      let rest = overlay (drop n rf.logs) args.entries in
      ground (
        arith,
        length-append (take n rf.logs) rest,
        length-take n rf.logs,
        length-overlay (drop n rf.logs) args.entries,
        term_at-append (take n rf.logs) rest 0,
        term_at-take n rf.logs 0,
      )

  append_entries-IsValid :
      (args : AppendEntriesArgs C) → IsValid rf → IsValid (append_entries gob rf args).0
  append_entries-IsValid args v =
      let (iff, logs, commit) = append_entries-success gob rf args v in
      ground (arith, iff, logs, commit, append_entries_fields args, merged_bounds args v)

  install_snapshot-IsValid :
      (args : InstallSnapshotArgs) → IsValid rf → IsValid (install_snapshot gob rf args).0
  unfolding install_snapshot
  install_snapshot-IsValid args v = ground (
    arith,
    install_log-IsValid gob (newer_term gob rf args.term) args
        (newer_term-IsValid gob rf args.term v),
  )

  append_reply-IsValid :
      (server : ℕ) (args : AppendEntriesArgs C) (reply : AppendEntriesReply)
      → IsValid rf
      → IsValid (handle_append_entries_reply gob rf server args reply)
  unfolding handle_append_entries_reply persist
  append_reply-IsValid server args reply v =
      let last = args.prev_log_index + length args.entries in
      ground (
        arith,
        commit-IsValid gob (record rf {
          next_index = set rf.next_index server (last + 1);
          match_index = set rf.match_index server last;
        }),
      )

  step-IsValid : (e : Event C) → IsValid rf → IsValid (step gob rf e)
  unfolding step applier_round start_election kill persist
  step-IsValid (vote_request args) v = request_vote-IsValid gob rf args v
  step-IsValid (vote_reply b reply) v = vote_reply-IsValid gob rf b reply v
  step-IsValid (append_request args) v = append_entries-IsValid args v
  step-IsValid (append_reply server args reply) v = append_reply-IsValid server args reply v
  step-IsValid (install_request args) v = install_snapshot-IsValid args v
  step-IsValid (install_reply server args reply) v =
      install_reply-IsValid gob rf server args reply v
  step-IsValid (command c) v = start-IsValid gob rf c v
  step-IsValid (compact index bytes) v = snapshot-IsValid gob rf index bytes v
  step-IsValid (broadcast server) v = broadcast_to-IsValid gob rf server v
  step-IsValid _ v = ground arith

module _ {C : Type 0} (gob : Gob C) where
  run-IsValid : (rf : Raft C) (es : List (Event C)) → IsValid rf → IsValid (run gob rf es)
  unfolding run
  run-IsValid rf [] v = v
  run-IsValid rf (e ∷ es) v = run-IsValid (step gob rf e) es (step-IsValid gob rf e v)

  -- A crash, and the restart on what was saved.
  abbrev pub restart : Raft C → Raft C
  restart rf = make gob rf.peers rf.me rf.persister

  -- The calls of one life after the other, with a crash and a restart after each.
  unfoldable pub lives : Raft C → List (List (Event C)) → Raft C
  lives rf [] = rf
  lives rf (es ∷ rest) = lives (restart (run gob rf es)) rest

  -- Nothing is committed or applied at first but what the snapshot holds.
  reset :
      (peers me : ℕ) (persister : Persister)
      → let rf = make gob peers me persister in
        (rf.commit_index ≡ rf.last_included_index) × (rf.last_applied ≡ rf.last_included_index)
  unfolding make
  reset peers me persister = (refl, refl)

  restart-IsValid : (rf : Raft C) → IsDurable gob rf → IsValid rf → IsValid (restart rf)
  restart-IsValid rf d v = ground (arith, d.restart, reset rf.peers rf.me rf.persister)

  blank-IsValid : (peers me : ℕ) → IsValid (make gob peers me make_persister)
  unfolding make read_persist
  blank-IsValid peers me = ground arith

-- What a round of the applier may do: wait if nothing new is committed, or deliver the entry after
-- the last applied one, with its index and its term.
abbrev pub Delivers : {C : Type 0} → Raft C → Raft C × Round C → Type 0
Delivers {C} rf r =
    ((rf.commit_index ≤ rf.last_applied) × (r ≡ (record rf { apply_signal = false }, wait)))
    ⊎ ((e : Entry C) × (rf.last_applied < rf.commit_index)
        × (get_elem? rf.logs (rf.last_applied + 1 - rf.last_included_index) ≡ some e)
        × (r ≡ (
          record rf { last_applied = rf.last_applied + 1 },
          deliver (record {
            command = e.command;
            command_index = rf.last_applied + 1;
            command_term = some e.term;
          }),
        )))

module _ {C : Type 0} where
  get_elem?-some :
      (es : List (Entry C)) (i : ℕ)
      → i < length es
      → (e : Entry C) × (get_elem? es i ≡ some e) × (term_at es i ≡ some e.term)
  get_elem?-some [] i h = elim h [ ]
  get_elem?-some (e ∷ es) zero h = (e, refl, refl)
  get_elem?-some (e ∷ es) (suc i) h = get_elem?-some es i (omega arith)

  valid_round : (rf : Raft C) → IsValid rf → Delivers rf (applier_round rf)
  unfolding applier_round
  valid_round rf v = elim (Bool-cases (ltb rf.last_applied rf.commit_index)) [
    | inl more ↦
        let (e, found, term) =
          get_elem?-some rf.logs (rf.last_applied + 1 - rf.last_included_index)
            (ground (arith, more)) in
        inr (
          e,
          ground (arith, more),
          found,
          ground (
            arith,
            more,
            found,
            term,
            get_log_term_lem (record rf { last_applied = rf.last_applied + 1 })
                (rf.last_applied + 1),
          ),
        )
    | inr done ↦ inl (ground (arith, done), ground (arith, done))
  ]

module _ {C : Type 0} (gob : Gob C) (faithful : IsFaithful gob) where
  lives-IsValid_from :
      (rf : Raft C) (calls : List (List (Event C)))
      → IsDurable gob rf
      → IsValid rf
      → IsValid (lives gob rf calls)
  unfolding lives
  lives-IsValid_from rf [] d v = v
  lives-IsValid_from rf (es ∷ rest) d v =
      let last = run gob rf es in
      lives-IsValid_from (restart gob last) rest
        (make-IsDurable gob faithful last.peers last.me last.persister)
        (restart-IsValid gob last (steps-IsDurable gob faithful rf es d) (run-IsValid gob rf es v))

  -- A peer that boots on an empty persister keeps the invariant through any calls in any order and
  -- any crashes: its log starts with the term of its snapshot, and neither the applied index falls
  -- below the snapshot nor the commit index passes the end of the log. The hypothesis is that the
  -- encoding of the durable state is faithful.
  pub lives-IsValid :
      (peers me : ℕ) (calls : List (List (Event C)))
      → IsValid (lives gob (make gob peers me make_persister) calls)
  lives-IsValid peers me calls =
      lives-IsValid_from (make gob peers me make_persister) calls
        (make-IsDurable gob faithful peers me make_persister) (blank-IsValid gob peers me)

  -- After any calls and crashes since a boot on an empty persister, a round of the applier waits if
  -- nothing new is committed, and otherwise delivers the entry after the last applied one, with its
  -- index and its term: there is never an access out of range. The encoding is to be faithful.
  pub applier_round-Delivers :
      (peers me : ℕ) (calls : List (List (Event C)))
      → let rf = lives gob (make gob peers me make_persister) calls in
        Delivers rf (applier_round rf)
  applier_round-Delivers peers me calls = valid_round _ (lives-IsValid peers me calls)
