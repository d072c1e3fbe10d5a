-- ===== src/Mr/System/Finish.antt =====
-- A worker can finish a job alone, src/mr/coordinator.go and src/mr/worker.go.
use mit.Base.{
  ℕ, zero, suc, ◌+◌, ◌<◌, ◌≤◌, ◌≡◌, inl, inr, Bool-cases, Option-cases, true, false, some, List, [],
  ◌∷◌, length, if◌then◌else◌, arith,
}
use mit.Mr.{Task, is_available, is_finished, task_at, find_task, all_finished}
use mit.Mr.Assign.{find_task-some, find_task-none}
use mit.Mr.System.Work.{Ahead}

-- How many tasks are not finished.
abbrev pub pending : List Task → ℕ
pending [] = 0
pending (t ∷ ts) = (if is_finished t then 0 else 1) + pending ts

pending-le : (ts ts' : List Task) → length ts ≡ length ts' → Ahead ts ts' → pending ts' ≤ pending ts
pending-le [] [] e ahead = omega arith
pending-le [] (t' ∷ ts') e ahead = absurd (omega (arith, e))
pending-le (t ∷ ts) [] e ahead = absurd (omega (arith, e))
pending-le (t ∷ ts) (t' ∷ ts') e ahead =
    let first = ahead 0 in
    let rest = pending-le ts ts' (omega (arith, e)) (λ j h. ahead (suc j) h) in
    ground (arith, first, rest)

pub pending-lt :
    (ts ts' : List Task) (i : ℕ)
    → length ts ≡ length ts'
    → Ahead ts ts'
    → i < length ts
    → task_at ts is_finished i ≡ false
    → task_at ts' is_finished i ≡ true
    → pending ts' < pending ts
pending-lt [] ts' i e ahead below before after = absurd (omega (arith, below))
pending-lt (t ∷ ts) [] i e ahead below before after = absurd (omega (arith, e))
pending-lt (t ∷ ts) (t' ∷ ts') zero e ahead below before after =
    let rest = pending-le ts ts' (omega (arith, e)) (λ j h. ahead (suc j) h) in
    ground (arith, before, after, rest)
pending-lt (t ∷ ts) (t' ∷ ts') (suc i) e ahead below before after =
    let first = ahead 0 in
    let rest =
      pending-lt ts ts' i (omega (arith, e)) (λ j h. ahead (suc j) h) (omega (arith, below)) before
        after in
    ground (arith, first, rest)

-- A time at which each task that is not finished can be handed out.
abbrev pub late : List Task → ℕ
late [] = 0
late (t ∷ ts) = t.start_time + 11 + late ts

late-available :
    (ts : List Task) (i now : ℕ)
    → late ts ≤ now
    → i < length ts
    → task_at ts is_finished i ≡ false
    → task_at ts (is_available now) i ≡ true
late-available [] i now h below left = absurd (omega (arith, below))
late-available (t ∷ ts) zero now h below left = ground (arith, h, left)
late-available (t ∷ ts) (suc i) now h below left =
    late-available ts i now (omega (arith, h)) (omega (arith, below)) left

all_finished-not :
    (ts : List Task) (i n : ℕ)
    → all_finished ts i n ≡ false
    → (j : ℕ) × (i ≤ j) × (j < i + n) × (task_at ts is_finished j ≡ false)
unfolding all_finished
all_finished-not ts i zero h = cc
all_finished-not ts i (suc n) h = elim (Bool-cases (task_at ts is_finished i)) [
  | inl yes_so ↦
      let (j, lo, hi, left) = all_finished-not ts (i + 1) n (ground (arith, h, yes_so)) in
      (j, omega (arith, lo), omega (arith, hi), left)
  | inr not_so ↦ (i, omega arith, omega arith, not_so)
]

-- A phase that is not over has a task to hand out.
pub handed :
    (ts : List Task) (i n : ℕ)
    → i + n ≤ length ts
    → all_finished ts i n ≡ false
    → (j : ℕ) × (find_task (late ts) ts i n ≡ some j)
      × (i ≤ j)
      × (j < i + n)
      × (task_at ts is_finished j ≡ false)
handed ts i n fits left = elim (Option-cases (find_task (late ts) ts i n)) [
  | inl nothing ↦
      let (j, lo, hi, unfinished) = all_finished-not ts i n left in
      let busy = find_task-none (late ts) ts i n nothing j lo hi in
      let free = late-available ts j (late ts) (omega arith) (omega (arith, hi, fits)) unfinished in
      absurd (ground (arith, busy, free))
  | inr (j, found) ↦
      let (lo, hi, free) = find_task-some (late ts) ts i n j found in
      (j, found, lo, hi, ground (arith, free))
]
