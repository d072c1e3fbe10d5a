-- ===== src/Raft/Compaction.antt =====
-- What `Snapshot` keeps of the log.
use mit.Base.{
  ℕ, zero, suc, ◌-◌, ◌≤◌, ◌<◌, ◌≡◌, refl, none, List, [], ◌∷◌, arith, length, length-drop, drop,
  ltb, if◌then◌else◌,
}
use mit.Raft.State.{Raft, Gob, Entry, Bytes, get_log_term, get_last_log_index, term_at}
use mit.Raft.Snapshot.{snapshot, dummy_head, or_zero}
use mit.Raft.Log.{get_log_term_lem, term_at-drop}

module _ {C : Type 0} where
  length-head : (t : ℕ) (es : List (Entry C)) → length (dummy_head t es) ≡ length es
  length-head t [] = refl
  length-head t (e ∷ es) = refl

  term_at-head :
      (es : List (Entry C)) (i : ℕ)
      → term_at (dummy_head (or_zero (term_at es 0)) es) i ≡ term_at es i
  term_at-head [] i = refl
  term_at-head (e ∷ es) zero = refl
  term_at-head (e ∷ es) (suc i) = refl

module _ {C : Type 0} (gob : Gob C) where
  terms :
      (rf : Raft C) (index : ℕ) (bytes : Bytes)
      → rf.last_included_index < index
      → index ≤ get_last_log_index rf
      → (j : ℕ)
      → get_log_term (snapshot gob rf index bytes) j
        ≡ (if ltb j index then none else get_log_term rf j)
  unfolding snapshot
  terms rf index bytes h k j =
      let n = index - rf.last_included_index in
      let rest = drop n rf.logs in
      ground (
        arith,
        get_log_term_lem (snapshot gob rf index bytes) j,
        get_log_term_lem rf j,
        term_at-drop n rf.logs 0,
        term_at-head rest (j - index),
        term_at-drop n rf.logs (j - index),
      )

  -- A snapshot at an index inside the log keeps the last index, keeps the term at that index and at
  -- every later one, and forgets those before. The commit and applied indices become the
  -- index where they were below it and stay as they were otherwise, and the bytes of the service
  -- are saved.
  pub snapshot_effect :
      (rf : Raft C) (index : ℕ) (bytes : Bytes)
      → rf.last_included_index < index
      → index ≤ get_last_log_index rf
      → let rf' = snapshot gob rf index bytes in
        (get_last_log_index rf' ≡ get_last_log_index rf)
        × ((j : ℕ) → get_log_term rf' j ≡ (if ltb j index then none else get_log_term rf j))
        × (rf'.commit_index ≡ (if ltb rf.commit_index index then index else rf.commit_index))
        × (rf'.last_applied ≡ (if ltb rf.last_applied index then index else rf.last_applied))
        × (rf'.persister.snapshot ≡ bytes)
  unfolding snapshot
  snapshot_effect rf index bytes h k =
      let n = index - rf.last_included_index in
      let rest = drop n rf.logs in
      let t = or_zero (term_at rf.logs n) in
      (
        ground (arith, length-drop n rf.logs, length-head t rest),
        λ j. terms rf index bytes h k j,
        ground arith,
        ground arith,
        ground arith,
      )
