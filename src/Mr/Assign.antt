-- ===== src/Mr/Assign.antt =====
-- What a heartbeat hands out: the first case of the loop in `schedule`, src/mr/coordinator.go.
use mit.Base.{
  ℕ, zero, suc, ◌+◌, ◌-◌, ◌≤◌, ◌<◌, ◌≡◌, ◌==◌, ==_iff, refl, ap, ◌∙◌, inl, inr, ◌⊎◌, Bool-cases,
  true, false, Option, none, some, List, [], ◌∷◌, get_elem?, set, Option-cases, if◌then◌else◌,
  arith,
}
use mit.Mr.{
  TaskStatus, taken, SchedulePhase, map_phase, reduce_phase, done_phase, JobType, Task, Coordinator,
  HeartbeatResponse, is_available, task_at, take_at, find_task, heartbeat, heartbeat_in, hand_out,
}

pub find_task-some :
    (now : ℕ) (ts : List Task) (i n j : ℕ)
    → find_task now ts i n ≡ some j
    → (i ≤ j) × (j < i + n) × (task_at ts (is_available now) j ≡ true)
unfolding find_task
find_task-some now ts i zero j h = cc
find_task-some now ts i (suc n) j h = ground (arith, h, find_task-some now ts (i + 1) n j)

pub find_task-none :
    (now : ℕ) (ts : List Task) (i n : ℕ)
    → find_task now ts i n ≡ none
    → (j : ℕ) → i ≤ j
    → j < i + n
    → task_at ts (is_available now) j ≡ false
unfolding find_task
find_task-none now ts i zero h j lo hi = ground (arith, lo, hi)
find_task-none now ts i (suc n) h j lo hi =
    let busy : task_at ts (is_available now) i ≡ false = ground (arith, h) in
    let rest : find_task now ts (i + 1) n ≡ none = ground (arith, h) in
    elim (Bool-cases (i == j)) [
      | inl same ↦ rw (← (==_iff i j).0 same) busy
      | inr apart ↦
          find_task-none now ts (i + 1) n rest j (ground (arith, lo, apart)) (omega (arith, hi))
    ]

-- No task before the first one that is available is.
find_task-first :
    (now : ℕ) (ts : List Task) (i n j : ℕ)
    → find_task now ts i n ≡ some j
    → (k : ℕ) → i ≤ k
    → k < j
    → task_at ts (is_available now) k ≡ false
unfolding find_task
find_task-first now ts i zero j h k lo hi = cc
find_task-first now ts i (suc n) j h k lo hi = elim (Bool-cases (i == k)) [
  | inl same ↦
      let e : i ≡ k = (==_iff i k).0 same in
      elim (Bool-cases (task_at ts (is_available now) i)) [
        | inl free ↦ absurd (ground (arith, h, free, e, hi))
        | inr busy ↦ rw (← e) busy
      ]
  | inr apart ↦ elim (Bool-cases (task_at ts (is_available now) i)) [
    | inl free ↦ absurd (ground (arith, h, free, lo, hi))
    | inr busy ↦
        find_task-first now ts (i + 1) n j (ground (arith, h, busy)) k (ground (arith, lo, apart))
          hi
  ]
]

-- A task that may be handed out: it is idle or paused, or it runs since more than ten seconds.
abbrev pub IsFree : ℕ → Task → Type 0
IsFree now t =
    (t.status ≡ TaskStatus.idle)
    ⊎ ((t.status ≡ TaskStatus.paused)
        ⊎ ((t.status ≡ TaskStatus.running) × (t.start_time + 10 < now)))

abbrev pub FreeAt : ℕ → List Task → ℕ → Type 0
FreeAt now ts i = (t : Task) × (get_elem? ts i ≡ some t) × IsFree now t

is_available-IsFree : (now : ℕ) (t : Task) → is_available now t ≡ true → IsFree now t
is_available-IsFree now t h = ground (arith, h)

is_busy : (now : ℕ) (t : Task) → is_available now t ≡ false → IsFree now t → ⊥
is_busy now t h free = ground (arith, h, free)

free_at :
    (now : ℕ) (ts : List Task) (i : ℕ) → task_at ts (is_available now) i ≡ true → FreeAt now ts i
free_at now ts i h = elim (Option-cases (get_elem? ts i)) [
  | inl missing ↦ absurd (ground (arith, h, missing))
  | inr (t, found) ↦ (t, found, is_available-IsFree now t (ground (arith, h, found)))
]

busy_at :
    (now : ℕ) (ts : List Task) (i : ℕ)
    → task_at ts (is_available now) i ≡ false
    → ¬ (FreeAt now ts i)
busy_at now ts i h (t, found, free) = is_busy now t (ground (arith, h, found)) free

get_elem?-set_if :
    (ts : List Task) (i j : ℕ) (v t : Task)
    → get_elem? ts i ≡ some t
    → get_elem? (set ts i v) j ≡ (if j == i then some v else get_elem? ts j)
get_elem?-set_if [] i j v t found = cc
get_elem?-set_if (x ∷ ts) zero zero v t found = refl
get_elem?-set_if (x ∷ ts) zero (suc j) v t found = ground (arith, ==_iff (suc j) 0)
get_elem?-set_if (x ∷ ts) (suc i) zero v t found = ground (arith, ==_iff 0 (suc i))
get_elem?-set_if (x ∷ ts) (suc i) (suc j) v t found =
    ground
      (arith, get_elem?-set_if ts i j v t found, ==_iff i j, ==_iff j i, ==_iff (suc j) (suc i))

get_elem?-take_at :
    (now : ℕ) (ts : List Task) (i j : ℕ) (t : Task)
    → get_elem? ts i ≡ some t
    → get_elem? (take_at now ts i) j ≡ (if j == i then some (taken now t) else get_elem? ts j)
get_elem?-take_at now ts i j t found =
    ap (λ o. get_elem? (elim o [ none ↦ ts | some t ↦ set ts i (taken now t) ]) j) found
    ∙ get_elem?-set_if ts i j (taken now t) t found

-- What a heartbeat may answer in a phase with `count` tasks from `first` on. It hands out the first of
-- them that is free, which runs from now on, and changes nothing else; or none of them is free.
abbrev Hands : Coordinator → ℕ → JobType → ℕ → ℕ → Coordinator × HeartbeatResponse → Type 0
Hands c now job first count (c', r) =
    ((i : ℕ) × (t : Task) × (first ≤ i)
      × (i < first + count)
      × (get_elem? c.tasks i ≡ some t)
      × IsFree now t
      × ((j : ℕ) → ¬ ((first ≤ j) × (j < i) × FreeAt now c.tasks j))
      × ((j : ℕ)
          → get_elem? c'.tasks j ≡ (
              if j == i
              then some (record {
                file_name = t.file_name;
                id = t.id;
                start_time = now;
                status = TaskStatus.running;
              })
              else get_elem? c.tasks j))
      × (c' ≡ record c { tasks = c'.tasks })
      × (r ≡ record {
        job_type = job;
        task_id = i - first;
        task_ptr = some i;
        n_reduce = c.n_reduce;
      }))
    ⊎ ((c' ≡ c)
        × (r ≡ record {
          job_type = JobType.wait_job;
          task_id = 0;
          task_ptr = none;
          n_reduce = c.n_reduce;
        })
        × ((j : ℕ) → ¬ ((first ≤ j) × (j < first + count) × FreeAt now c.tasks j)))

abbrev pub Answers : Coordinator → ℕ → SchedulePhase → Coordinator × HeartbeatResponse → Type 0
Answers c now map_phase a = Hands c now JobType.map_job 0 c.n_map a
Answers c now reduce_phase a = Hands c now JobType.reduce_job c.n_map c.n_reduce a
Answers c now done_phase (c', r) =
    (c' ≡ c)
    × (r ≡ record {
      job_type = JobType.complete_job;
      task_id = 0;
      task_ptr = none;
      n_reduce = c.n_reduce;
    })

hand_out-Hands :
    (c : Coordinator) (now : ℕ) (job : JobType) (first count : ℕ) (o : Option ℕ)
    → find_task now c.tasks first count ≡ o
    → Hands c now job first count (hand_out c now job first o)
hand_out-Hands c now job first count none h = inr (
  refl,
  refl,
  λ j (lo, hi, free). busy_at now c.tasks j (find_task-none now c.tasks first count h j lo hi) free,
)
hand_out-Hands c now job first count (some i) h =
    let (lo, hi, there) = find_task-some now c.tasks first count i h in
    let (t, found, free) = free_at now c.tasks i there in
    inl (
      i,
      t,
      lo,
      hi,
      found,
      free,
      λ j (below, above, other).
          busy_at now c.tasks j (find_task-first now c.tasks first count i h j below above) other,
      λ j. get_elem?-take_at now c.tasks i j t found,
      refl,
      refl,
    )

heartbeat_in-Answers :
    (c : Coordinator) (now : ℕ) (phase : SchedulePhase)
    → Answers c now phase (heartbeat_in c now phase)
heartbeat_in-Answers c now map_phase =
    hand_out-Hands c now JobType.map_job 0 c.n_map (find_task now c.tasks 0 c.n_map) refl
heartbeat_in-Answers c now reduce_phase =
    hand_out-Hands c now JobType.reduce_job c.n_map c.n_reduce
      (find_task now c.tasks c.n_map c.n_reduce) refl
heartbeat_in-Answers c now done_phase = (refl, refl)

-- A heartbeat hands out the first task of the current phase that is idle, paused, or running for more
-- than ten seconds: that task is running from now on, with its file and number, the other tasks and
-- the rest of the coordinator are unchanged, and the answer names the task by its number among those
-- of the phase. If the phase has no such task the worker is told to wait, and once the job is done
-- that it is complete; both change nothing.
pub heartbeat-Answers : (c : Coordinator) (now : ℕ) → Answers c now c.phase (heartbeat c now)
unfolding heartbeat
heartbeat-Answers c now = heartbeat_in-Answers c now c.phase
