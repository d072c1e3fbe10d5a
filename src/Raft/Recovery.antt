-- ===== src/Raft/Recovery.antt =====
-- What a crash loses of a peer: its durable state, as the handlers save it.
use mit.Base.{ℕ, ◌+◌, ◌≡◌, ◌≢◌, refl, sym, ap, ◌∙◌, List, [], ◌∷◌, some, arith, ◌⊎◌, inl, inr}
use mit.Raft.State.{
  Raft, Entry, Durable, Gob, Bytes, Persister, durable, make, persist, encode_state, read_persist,
  fresh, kill,
}
use mit.Raft.Election.{
  RequestVoteArgs, RequestVoteReply, Ballot, request_vote, start_election, handle_vote_reply,
}
use mit.Raft.Append.{
  AppendEntriesArgs, AppendEntriesReply, append_entries, append_log, merge_entries, follow,
  blank_reply,
}
use mit.Raft.Snapshot.{
  InstallSnapshotArgs, InstallSnapshotReply, snapshot, install_snapshot, install_log, newer_term,
}
use mit.Raft.Leader.{
  broadcast_to, start, handle_append_entries_reply, handle_install_snapshot_reply,
}
use mit.Raft.Applier.{applier_round}
use mit.Raft.Event.{
  Event, vote_request, vote_reply, append_request, append_reply, install_request, install_reply,
  command, compact, apply_round, election_timeout, broadcast, step, run,
}

-- What the code relies on in labgob: what was encoded is decoded, and takes at least a byte.
pub record IsFaithful {C : Type 0} (gob : Gob C) : Type 0 where
  pub round_trip : (d : Durable C) → gob.decode (gob.encode d) ≡ some d
  pub some_bytes : (d : Durable C) → gob.encode d ≢ []

-- A restart on the persister has the term, the vote, the log and the snapshot's place of the peer.
pub record IsDurable {C : Type 0} (gob : Gob C) (rf : Raft C) : Type 0 where
  pub restart : durable (make gob rf.peers rf.me rf.persister) ≡ durable rf

-- A handler has saved the durable state, or has changed neither it nor what is saved.
abbrev Saves : {C : Type 0} → Gob C → Raft C → Raft C → Type 0
Saves gob rf rf' =
    (rf'.persister.raft_state ≡ gob.encode (durable rf'))
    ⊎ ((rf'.persister ≡ rf.persister) × (durable rf' ≡ durable rf))

module _ {C : Type 0} (gob : Gob C) (rf : Raft C) where
  request_vote-Saves : (args : RequestVoteArgs) → Saves gob rf (request_vote gob rf args).0
  unfolding request_vote persist
  request_vote-Saves args = ground arith

  vote_reply-Saves :
      (b : Ballot) (reply : RequestVoteReply) → Saves gob rf (handle_vote_reply gob rf b reply).0
  unfolding handle_vote_reply persist
  vote_reply-Saves b reply = ground arith

  merge_entries-Saves : (i : ℕ) (es : List (Entry C)) → Saves gob rf (merge_entries gob rf i es)
  unfolding merge_entries persist
  merge_entries-Saves i [] = inr (refl, refl)
  merge_entries-Saves i (e ∷ es) = ground (arith, merge_entries-Saves (i + 1) es)

  append_log-Saves :
      (args : AppendEntriesArgs C) (reply : AppendEntriesReply)
      → Saves gob rf (append_log gob rf args reply).0
  unfolding append_log persist
  append_log-Saves args reply =
      ground (arith, merge_entries-Saves (args.prev_log_index + 1) args.entries)

  snapshot-Saves : (index : ℕ) (bytes : Bytes) → Saves gob rf (snapshot gob rf index bytes)
  unfolding snapshot encode_state
  snapshot-Saves index bytes = ground arith

  newer_term-Saves : (term : ℕ) → Saves gob rf (newer_term gob rf term)
  unfolding newer_term persist
  newer_term-Saves term = ground arith

  install_log-Saves : (args : InstallSnapshotArgs) → Saves gob rf (install_log gob rf args).0
  unfolding install_log encode_state
  install_log-Saves args = ground arith

  broadcast_to-Saves : (server : ℕ) → Saves gob rf (broadcast_to rf server).0
  unfolding broadcast_to
  broadcast_to-Saves server = ground arith

  start-Saves : (c : C) → Saves gob rf (start gob rf c).0
  unfolding start persist
  start-Saves c = ground arith

  append_reply-Saves :
      (server : ℕ) (args : AppendEntriesArgs C) (reply : AppendEntriesReply)
      → Saves gob rf (handle_append_entries_reply gob rf server args reply)
  unfolding handle_append_entries_reply persist
  append_reply-Saves server args reply = ground arith

  install_reply-Saves :
      (server : ℕ) (args : InstallSnapshotArgs) (reply : InstallSnapshotReply)
      → Saves gob rf (handle_install_snapshot_reply gob rf server args reply)
  unfolding handle_install_snapshot_reply persist
  install_reply-Saves server args reply = ground arith

module _ {C : Type 0} (gob : Gob C) (rf : Raft C) where
  append_entries-Saves : (args : AppendEntriesArgs C) → Saves gob rf (append_entries gob rf args).0
  unfolding append_entries persist
  append_entries-Saves args =
      ground
        (arith, append_log-Saves gob (follow gob rf args.term) args (blank_reply rf.current_term))

  install_snapshot-Saves :
      (args : InstallSnapshotArgs) → Saves gob rf (install_snapshot gob rf args).0
  unfolding install_snapshot
  install_snapshot-Saves args = ground (
    arith,
    newer_term-Saves gob rf args.term,
    install_log-Saves gob (newer_term gob rf args.term) args,
  )

  step-Saves : (e : Event C) → Saves gob rf (step gob rf e)
  unfolding step applier_round start_election kill persist
  step-Saves (vote_request args) = request_vote-Saves gob rf args
  step-Saves (vote_reply b reply) = vote_reply-Saves gob rf b reply
  step-Saves (append_request args) = append_entries-Saves args
  step-Saves (append_reply server args reply) = append_reply-Saves gob rf server args reply
  step-Saves (install_request args) = install_snapshot-Saves args
  step-Saves (install_reply server args reply) = install_reply-Saves gob rf server args reply
  step-Saves (command c) = start-Saves gob rf c
  step-Saves (compact index bytes) = snapshot-Saves gob rf index bytes
  step-Saves (broadcast server) = broadcast_to-Saves gob rf server
  step-Saves election_timeout = ground arith
  step-Saves apply_round = ground arith
  step-Saves _ = inr (refl, refl)

module _ {C : Type 0} (gob : Gob C) (faithful : IsFaithful gob) where
  read_back :
      (rf : Raft C) (d : Durable C) (bytes : Bytes)
      → bytes ≢ []
      → gob.decode bytes ≡ some d
      → durable (read_persist gob rf bytes) ≡ d
  unfolding read_persist
  read_back rf d [] h e = absurd (h refl)
  read_back rf d (b ∷ bytes) h e = ground (arith, e)

  read_keeps : (rf : Raft C) (bytes : Bytes) → (read_persist gob rf bytes).persister ≡ rf.persister
  unfolding read_persist
  read_keeps rf [] = refl
  read_keeps rf (b ∷ bytes) = ground arith

  same_durable :
      (r s : Raft C) (bytes : Bytes)
      → durable r ≡ durable s
      → durable (read_persist gob r bytes) ≡ durable (read_persist gob s bytes)
  unfolding read_persist
  same_durable r s [] h = h
  same_durable r s (b ∷ bytes) h = ground (arith, h)

  saved : (rf : Raft C) → rf.persister.raft_state ≡ gob.encode (durable rf) → IsDurable gob rf
  unfolding make
  saved rf e = record {
    restart =
        read_back (fresh rf.peers rf.me rf.persister) (durable rf) rf.persister.raft_state
          (λ z. faithful.some_bytes (durable rf) (sym e ∙ z))
          (ap gob.decode e ∙ faithful.round_trip (durable rf));
  }

  make_keeps :
      (peers me : ℕ) (persister : Persister) → (make gob peers me persister).persister ≡ persister
  unfolding make
  make_keeps peers me persister = read_keeps (fresh peers me persister) persister.raft_state

  -- The place of a peer does not matter for what it restores.
  durable-make :
      (peers me peers' me' : ℕ) (persister : Persister)
      → durable (make gob peers me persister) ≡ durable (make gob peers' me' persister)
  unfolding make
  durable-make peers me peers' me' persister =
      same_durable (fresh peers me persister) (fresh peers' me' persister) persister.raft_state refl

  keep :
      {rf rf' : Raft C}
      → rf'.persister ≡ rf.persister
      → durable rf' ≡ durable rf
      → IsDurable gob rf
      → IsDurable gob rf'
  keep {rf} {rf'} p d h = record {
    restart =
        durable-make rf'.peers rf'.me rf.peers rf.me rf'.persister
        ∙ ap (λ (q : Persister). durable (make gob rf.peers rf.me q)) p
        ∙ h.restart
        ∙ sym d;
  }

  step-IsDurable : (rf : Raft C) (e : Event C) → IsDurable gob rf → IsDurable gob (step gob rf e)
  step-IsDurable rf e h = elim (step-Saves gob rf e) [ inl s ↦ saved _ s | inr (p, d) ↦ keep p d h ]

  pub steps-IsDurable :
      (rf : Raft C) (es : List (Event C)) → IsDurable gob rf → IsDurable gob (run gob rf es)
  unfolding run
  steps-IsDurable rf [] h = h
  steps-IsDurable rf (e ∷ es) h = steps-IsDurable (step gob rf e) es (step-IsDurable rf e h)

  pub make-IsDurable :
      (peers me : ℕ) (persister : Persister) → IsDurable gob (make gob peers me persister)
  make-IsDurable peers me persister = record {
    restart = rw make_keeps (durable-make _ _ _ _ persister);
  }

  -- A peer booted on any persister loses nothing of its term, its vote, its log and the place of its
  -- snapshot in a crash, whatever calls it handled before: a restart on its persister has them all.
  -- The hypothesis is that the encoding of the state is faithful.
  pub run-IsDurable :
      (peers me : ℕ) (persister : Persister) (es : List (Event C))
      → IsDurable gob (run gob (make gob peers me persister) es)
  run-IsDurable peers me persister es = steps-IsDurable _ es (make-IsDurable peers me persister)
