-- ===== src/Raft/Majority.antt =====
-- The commit rule of the leader: the middle of the sorted match indices is reached by a majority of them.
use mit.Base.{
  ℕ, zero, suc, ◌+◌, ◌-◌, ◌*◌, ◌/◌, ◌≤◌, ◌<◌, ◌≡◌, ◌≢◌, refl, some, List, [], ◌∷◌, arith, length,
  get_or, leb, if◌then◌else◌,
}
use mit.Raft.State.{Raft, RaftState, get_log_term}
use mit.Base.Sort.{sort, insert_sorted}
use mit.Raft.Leader.{majority_index, commit}

-- The peers whose match index has reached `n`.
unfoldable pub reached : ℕ → List ℕ → ℕ
reached n [] = 0
reached n (x ∷ xs) = if leb n x then reached n xs + 1 else reached n xs

abbrev Sorted : List ℕ → Type 0
Sorted [] = Unit
Sorted (x ∷ xs) = (x ≤ get_or xs 0 x) × Sorted xs

reached-insert_sorted :
    (n x : ℕ) (xs : List ℕ) → reached n (insert_sorted x xs) ≡ reached n (x ∷ xs)
unfolding reached insert_sorted
reached-insert_sorted n x [] = refl
reached-insert_sorted n x (y ∷ ys) = ground (arith, reached-insert_sorted n x ys)

reached-sort : (n : ℕ) (xs : List ℕ) → reached n (sort xs) ≡ reached n xs
unfolding reached sort
reached-sort n [] = refl
reached-sort n (x ∷ xs) = ground (arith, reached-sort n xs, reached-insert_sorted n x (sort xs))

length-insert_sorted : (x : ℕ) (xs : List ℕ) → length (insert_sorted x xs) ≡ suc (length xs)
unfolding insert_sorted
length-insert_sorted x [] = refl
length-insert_sorted x (y ∷ ys) = ground (arith, length-insert_sorted x ys)

length-sort : (xs : List ℕ) → length (sort xs) ≡ length xs
unfolding sort
length-sort [] = refl
length-sort (x ∷ xs) = ground (arith, length-sort xs, length-insert_sorted x (sort xs))

-- The first of the list after an insertion is the new element or the first from before.
first-insert_sorted :
    (x d : ℕ) (xs : List ℕ) → d ≤ x → d ≤ get_or xs 0 d → d ≤ get_or (insert_sorted x xs) 0 d
unfolding insert_sorted
first-insert_sorted x d [] h k = h
first-insert_sorted x d (y ∷ ys) h k = ground arith

insert_sorted-Sorted : (x : ℕ) (xs : List ℕ) → Sorted xs → Sorted (insert_sorted x xs)
unfolding insert_sorted
insert_sorted-Sorted x [] s = (omega arith, tt)
insert_sorted-Sorted x (y ∷ ys) s =
    ground (arith, insert_sorted-Sorted x ys s.1, first-insert_sorted x y ys)

sort-Sorted : (xs : List ℕ) → Sorted (sort xs)
unfolding sort
sort-Sorted [] = tt
sort-Sorted (x ∷ xs) = insert_sorted-Sorted x (sort xs) (sort-Sorted xs)

-- In a sorted list all elements reach the first.
reached_first : (n : ℕ) (xs : List ℕ) → Sorted xs → n ≤ get_or xs 0 n → reached n xs ≡ length xs
unfolding reached
reached_first n [] s h = refl
reached_first n (x ∷ []) s h = ground arith
reached_first n (x ∷ y ∷ ys) s h = ground (arith, reached_first n (y ∷ ys) s.1)

reached_index :
    (k : ℕ) (xs : List ℕ) → Sorted xs → k < length xs → length xs ≤ k + reached (get_or xs k 0) xs
unfolding reached
reached_index k [] s h = elim h [ ]
reached_index zero (x ∷ xs) s h = omega (arith, reached_first x (x ∷ xs) s (omega arith))
reached_index (suc k) (x ∷ xs) s h = ground (arith, reached_index k xs s.1 (omega arith))

-- The chosen index is reached by more than half of the peers.
majority :
    {C : Type 0} (rf : Raft C)
    → 0 < length rf.match_index
    → length rf.match_index < 2 * reached (majority_index rf) rf.match_index
unfolding majority_index
majority rf h =
    let n = length rf.match_index in
    let k = (n - 1) / 2 in
    omega (
      arith,
      reached_index k (sort rf.match_index) (sort-Sorted rf.match_index)
          (omega (arith, length-sort rf.match_index)),
      length-sort rf.match_index,
      reached-sort (get_or (sort rf.match_index) k 0) rf.match_index,
    )

-- When `commit` moves the commit index, it moves it forward, on a leader, to an entry of the
-- leader's current term whose index the leader's match indices of more than half of the peers have
-- reached.
pub commit-majority :
    {C : Type 0} (rf : Raft C)
    → 0 < length rf.match_index
    → (commit rf).commit_index ≢ rf.commit_index
    → let n = (commit rf).commit_index in
      (rf.state ≡ RaftState.leader)
      × (rf.commit_index < n)
      × (get_log_term rf n ≡ some rf.current_term)
      × (length rf.match_index < 2 * reached n rf.match_index)
unfolding commit
commit-majority rf h moved = ground (arith, majority rf h)
