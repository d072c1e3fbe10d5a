-- ===== src/Raft/Replication.antt =====
-- From the leader's log to the follower's: what `BroadcastAppendEntries` sends, and what the
-- follower's log holds when it has accepted the call.
use mit.Base.{
  ℕ, ◌+◌, ◌-◌, ◌≤◌, ◌<◌, ◌≡◌, ◌≢◌, none, true, arith, if◌then◌else◌, ltb, get_or, length,
  length-take, take, drop,
}
use mit.Raft.State.{Raft, Gob, get_log_term, get_last_log_index, term_at}
use mit.Raft.Append.{AppendEntriesArgs, append_entries}
use mit.Raft.Leader.{append, panic, outgoing, end_index, broadcast_to, reset_next, batch_size}
use mit.Raft.Log.{
  get_log_term_lem, term_at-append, term_at-append_right, term_at-take, term_at-drop,
}
use mit.Raft.Reconcile.{overlay, term_at-overlay}
use mit.Raft.Follower.{place, merged, Matches, append_entries-success, success_logs}
use mit.Raft.Validity.{IsValid}
use mit.Raft.Invariant.{append_entries_fields}

module _ {C : Type 0} (gob : Gob C) (rf : Raft C) (args : AppendEntriesArgs C) (v : IsValid rf)
    (accepted : (append_entries gob rf args).1.success ≡ true) where
  matches : Matches rf args
  matches = (append_entries-success gob rf args v).0.0 accepted

  accepted_term :
      (j : ℕ)
      → get_log_term (append_entries gob rf args).0 j ≡ (
          if ltb j rf.last_included_index
          then none
          else term_at (merged rf args) (j - rf.last_included_index))
  accepted_term j = ground (
    arith,
    get_log_term_lem (append_entries gob rf args).0 j,
    append_entries_fields gob rf args,
    success_logs gob rf args v accepted,
  )

  before :
      (j : ℕ)
      → j ≤ args.prev_log_index
      → get_log_term (append_entries gob rf args).0 j ≡ get_log_term rf j
  before j h =
      let n = place rf args in
      ground (
        arith,
        matches,
        accepted_term j,
        get_log_term_lem rf j,
        length-take n rf.logs,
        term_at-append (take n rf.logs) (overlay (drop n rf.logs) args.entries)
            (j - rf.last_included_index),
        term_at-take n rf.logs (j - rf.last_included_index),
      )

  after :
      (i : ℕ)
      → i < length args.entries
      → get_log_term (append_entries gob rf args).0 (args.prev_log_index + 1 + i)
        ≡ term_at args.entries i
  after i h =
      let n = place rf args in
      let rest = overlay (drop n rf.logs) args.entries in
      ground (
        arith,
        matches,
        accepted_term (args.prev_log_index + 1 + i),
        length-take n rf.logs,
        term_at-append_right (take n rf.logs) rest i,
        term_at-overlay (drop n rf.logs) args.entries i,
      )

module _ {C : Type 0} (ld : Raft C) where
  -- The entries of a batch, read back from the leader's log.
  batch_terms :
      (next k i : ℕ)
      → ld.last_included_index < next
      → i < k
      → term_at (take k (drop (next - ld.last_included_index) ld.logs)) i
        ≡ get_log_term ld (next + i)
  batch_terms next k i h lt =
      let m = next - ld.last_included_index in
      ground (
        arith,
        term_at-take k (drop m ld.logs) i,
        term_at-drop m ld.logs i,
        get_log_term_lem ld (next + i),
      )

  -- The arguments agree with the leader's log, and a batch has at most 200 entries.
  pub record Agrees (args : AppendEntriesArgs C) : Type 0 where
    pub own_term : args.term ≡ ld.current_term
    pub prev : args.prev_log_term ≡ get_log_term ld args.prev_log_index
    pub few : length args.entries ≤ batch_size
    pub inside : args.prev_log_index + length args.entries ≤ get_last_log_index ld
    pub terms :
        (i : ℕ)
        → i < length args.entries
        → term_at args.entries i ≡ get_log_term ld (args.prev_log_index + 1 + i)

  end_index_bounds :
      (next : ℕ)
      → (end_index ld next ≤ get_last_log_index ld + 1) × (end_index ld next ≤ next + batch_size)
  unfolding end_index
  end_index_bounds next = ground arith

  outgoing-Agrees :
      (next : ℕ) (args : AppendEntriesArgs C) → outgoing ld next ≡ append args → Agrees args
  unfolding outgoing
  outgoing-Agrees next args e =
      let k = end_index ld next - next in
      let rest = drop (next - ld.last_included_index) ld.logs in
      record {
        own_term = ground (arith, e);
        prev = ground (arith, e);
        few = ground (arith, e, length-take k rest, end_index_bounds next);
        inside = ground (arith, e, length-take k rest, end_index_bounds next);
        terms = λ i h. ground (arith, e, length-take k rest, batch_terms next k i);
      }

  -- A leader whose next index is not past the end of its log does not panic.
  outgoing-ne-panic : (next : ℕ) → next ≤ get_last_log_index ld + 1 → outgoing ld next ≢ panic
  unfolding outgoing end_index
  outgoing-ne-panic next h = ground arith

module _ {C : Type 0} (gob : Gob C) where
  broadcast-outgoing :
      (ld : Raft C) (server : ℕ) {args : AppendEntriesArgs C}
      → (broadcast_to ld server).1 ≡ append args
      → outgoing ld (get_or (reset_next ld server).next_index server 0) ≡ append args
  unfolding broadcast_to get_log_term
  broadcast-outgoing ld server e = ground (arith, e)

  agreement :
      (ld rf : Raft C) (args : AppendEntriesArgs C)
      → Agrees ld args
      → IsValid rf
      → (append_entries gob rf args).1.success ≡ true
      → (j : ℕ) → args.prev_log_index ≤ j
      → j ≤ args.prev_log_index + length args.entries
      → get_log_term (append_entries gob rf args).0 j ≡ get_log_term ld j
  agreement ld rf args a v accepted j lo hi =
      let i = j - args.prev_log_index - 1 in
      ground (
        arith,
        a.prev,
        a.terms i,
        (matches gob rf args v accepted).same_term,
        before gob rf args v accepted j,
        after gob rf args v accepted i,
      )

  -- When a peer accepts what a leader sends it by `BroadcastAppendEntries`, up to the last entry of
  -- the batch its log has the leader's term at every index from PrevLogIndex on, and below
  -- PrevLogIndex the term from before. The peer is to be valid; the arguments are those that the
  -- leader computes in its state.
  pub accepted-agrees :
      (ld rf : Raft C) (server : ℕ) (args : AppendEntriesArgs C)
      → (broadcast_to ld server).1 ≡ append args
      → IsValid rf
      → (append_entries gob rf args).1.success ≡ true
      → (j : ℕ) → j ≤ args.prev_log_index + length args.entries
      → get_log_term (append_entries gob rf args).0 j
        ≡ (if ltb j args.prev_log_index then get_log_term rf j else get_log_term ld j)
  accepted-agrees ld rf server args sent v accepted j hi = ground (
    arith,
    before gob rf args v accepted j,
    agreement ld rf args (outgoing-Agrees ld _ args (broadcast-outgoing ld server sent)) v accepted
        j,
  )
