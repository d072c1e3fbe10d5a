-- ===== src/Raft/Backoff.antt =====
-- How a refused `AppendEntries` moves the leader's next index: the conflict indices of the follower
-- and `handleAppendEntriesReply` together.
use mit.Base.{
  ℕ, zero, suc, ◌+◌, ◌≤◌, ◌<◌, ◌≡◌, refl, Option, false, List, [], ◌∷◌, arith, length, get_or, set,
  ltb, if◌then◌else◌,
}
use mit.Raft.State.{Raft, Gob, persist, get_log_term}
use mit.Raft.Append.{
  AppendEntriesArgs, AppendEntriesReply, append_entries, append_log, conflict_index, follow,
  blank_reply,
}
use mit.Raft.Leader.{handle_append_entries_reply}

module _ {C : Type 0} where
  conflict_index-le : (rf : Raft C) (t : Option ℕ) (n : ℕ) → conflict_index rf t n ≤ n
  unfolding conflict_index
  conflict_index-le rf t zero = omega arith
  conflict_index-le rf t (suc n) = ground (arith, conflict_index-le rf t n)

  conflict_index-pos : (rf : Raft C) (t : Option ℕ) (n : ℕ) → 0 < n → 0 < conflict_index rf t n
  unfolding conflict_index
  conflict_index-pos rf t zero h = elim h [ ]
  conflict_index-pos rf t (suc n) h = ground (arith, conflict_index-pos rf t n)

get_or-set_self : (xs : List ℕ) (i v : ℕ) → i < length xs → get_or (set xs i v) i 0 ≡ v
get_or-set_self [] i v h = elim h [ ]
get_or-set_self (x ∷ xs) zero v h = refl
get_or-set_self (x ∷ xs) (suc i) v h = get_or-set_self xs i v (omega arith)

module _ {C : Type 0} (gob : Gob C) where
  refused_index :
      (rf : Raft C) (args : AppendEntriesArgs C) (reply : AppendEntriesReply)
      → let reply' = (append_log gob rf args reply).1 in
        reply'.success ≡ false
        → reply.conflict_log_index ≡ 0
        → (reply'.term ≡ reply.term)
          × (0 < args.prev_log_index
              → rf.last_included_index ≤ args.prev_log_index
              → (0 < reply'.conflict_log_index) × (reply'.conflict_log_index ≤ args.prev_log_index))
          × (args.prev_log_index < rf.last_included_index
              → reply'.conflict_log_index ≡ rf.last_included_index)
  unfolding append_log
  refused_index rf args reply refused blank =
      let t = get_log_term rf args.prev_log_index in
      ground (
        arith,
        conflict_index-le rf t args.prev_log_index,
        conflict_index-pos rf t args.prev_log_index,
      )

  index_follow :
      (rf : Raft C) (term : ℕ) → (follow gob rf term).last_included_index ≡ rf.last_included_index
  unfolding follow persist
  index_follow rf term = refl

  -- What a refusal at a term that is not old answers.
  refusal :
      (rf : Raft C) (args : AppendEntriesArgs C)
      → rf.current_term ≤ args.term
      → let reply = (append_entries gob rf args).1 in
        reply.success ≡ false
        → (reply.term ≡ rf.current_term)
          × (0 < args.prev_log_index
              → rf.last_included_index ≤ args.prev_log_index
              → (0 < reply.conflict_log_index) × (reply.conflict_log_index ≤ args.prev_log_index))
          × (args.prev_log_index < rf.last_included_index
              → reply.conflict_log_index ≡ rf.last_included_index)
  unfolding append_entries
  refusal rf args recent refused = ground (
    arith,
    index_follow rf args.term,
    refused_index (follow gob rf args.term) args (blank_reply rf.current_term),
  )

  next_after :
      (ld : Raft C) (server : ℕ) (args : AppendEntriesArgs C) (reply : AppendEntriesReply)
      → reply.term ≤ ld.current_term
      → args.prev_log_index + 1 ≡ get_or ld.next_index server 0
      → reply.success ≡ false
      → server < length ld.next_index
      → 0 < reply.conflict_log_index
      → get_or (handle_append_entries_reply gob ld server args reply).next_index server 0 ≡ (
          if ltb reply.conflict_log_index (args.prev_log_index + 1)
          then reply.conflict_log_index
          else args.prev_log_index + 1)
  unfolding handle_append_entries_reply
  next_after ld server args reply t e f lt pos =
      ground (arith, get_or-set_self ld.next_index server reply.conflict_log_index)

  -- A refusal that the leader handles at the next index that it was sent for moves that index back,
  -- to 1 at the least. The hypotheses are that the terms of the
  -- peer, the call and the leader do not fall in this order, that PrevLogIndex is positive, and that
  -- it is not below the peer's snapshot.
  pub refusal-lt :
      (ld rf : Raft C) (server : ℕ) (args : AppendEntriesArgs C)
      → rf.current_term ≤ args.term
      → args.term ≤ ld.current_term
      → args.prev_log_index + 1 ≡ get_or ld.next_index server 0
      → server < length ld.next_index
      → 0 < args.prev_log_index
      → rf.last_included_index ≤ args.prev_log_index
      → (append_entries gob rf args).1.success ≡ false
      → let reply = (append_entries gob rf args).1 in
        let next' =
          get_or (handle_append_entries_reply gob ld server args reply).next_index server 0 in
        (0 < next') × (next' < get_or ld.next_index server 0)
  refusal-lt ld rf server args a b e lt pos low refused =
      ground
        (arith, refusal rf args a refused, next_after ld server args (append_entries gob rf args).1)

  -- Below the peer's snapshot a refusal does not move the leader's next index at all: the leader
  -- goes on with the same call. The hypotheses are that the terms of the peer, the call and the
  -- leader do not fall in this order, and that PrevLogIndex is below the peer's snapshot.
  pub refusal_stuck :
      (ld rf : Raft C) (server : ℕ) (args : AppendEntriesArgs C)
      → rf.current_term ≤ args.term
      → args.term ≤ ld.current_term
      → args.prev_log_index + 1 ≡ get_or ld.next_index server 0
      → server < length ld.next_index
      → args.prev_log_index < rf.last_included_index
      → (append_entries gob rf args).1.success ≡ false
      → let reply = (append_entries gob rf args).1 in
        get_or (handle_append_entries_reply gob ld server args reply).next_index server 0
        ≡ get_or ld.next_index server 0
  refusal_stuck ld rf server args a b e lt low refused =
      ground
        (arith, refusal rf args a refused, next_after ld server args (append_entries gob rf args).1)
