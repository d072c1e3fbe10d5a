-- ===== src/Mr/System/Tasks.antt =====
-- What the coordinator hands out and what its answers rest on, src/mr/coordinator.go.
use mit.Base.{
  ℕ, zero, suc, ◌≤◌, ◌<◌, ◌≡◌, refl, ap, inl, inr, ◌⊎◌, Option-cases, true, false, Option, none,
  some, List, [], ◌∷◌, length, get_elem?, set, arith,
}
use mit.Mr.{
  TaskStatus, SchedulePhase, map_phase, reduce_phase, done_phase, Task, Coordinator, JobType,
  map_job, reduce_job, wait_job, complete_job, HeartbeatResponse, is_finished, taken, task_at,
  take_at, find_task, heartbeat, heartbeat_in, hand_out, close_phase, finish_at, report, reported,
  ReportRequest,
}
use mit.Mr.Kept.{owed, IsSound}
use mit.Mr.Phases.{all_finished-each}
use mit.Mr.Assign.{Answers, heartbeat-Answers}

-- Writing a task that is not finished finishes none; writing one finishes only that one.
pub task_at-set_other :
    (ts : List Task) (i j : ℕ) (v : Task)
    → task_at (set ts i v) is_finished j ≡ true
    → (j ≡ i) ⊎ (task_at ts is_finished j ≡ true)
task_at-set_other [] i j v h = inr h
task_at-set_other (x ∷ ts) zero zero v h = inl refl
task_at-set_other (x ∷ ts) zero (suc j) v h = inr h
task_at-set_other (x ∷ ts) (suc i) zero v h = inr h
task_at-set_other (x ∷ ts) (suc i) (suc j) v h = elim (task_at-set_other ts i j v h) [
  | inl same ↦ inl (ap suc same)
  | inr before ↦ inr before
]

task_at-set_running :
    (ts : List Task) (i j : ℕ) (v : Task)
    → is_finished v ≡ false
    → task_at (set ts i v) is_finished j ≡ true
    → task_at ts is_finished j ≡ true
task_at-set_running [] i j v busy h = h
task_at-set_running (x ∷ ts) zero zero v busy h = ground (arith, busy, h)
task_at-set_running (x ∷ ts) zero (suc j) v busy h = h
task_at-set_running (x ∷ ts) (suc i) zero v busy h = h
task_at-set_running (x ∷ ts) (suc i) (suc j) v busy h = task_at-set_running ts i j v busy h

take_at-finished :
    (now : ℕ) (ts : List Task) (i j : ℕ)
    → task_at (take_at now ts i) is_finished j ≡ true
    → task_at ts is_finished j ≡ true
take_at-finished now ts i j h = elim (Option-cases (get_elem? ts i)) [
  | inl missing ↦ ground (arith, missing, h)
  | inr (t, found) ↦ task_at-set_running ts i j (taken now t) refl (ground (arith, found, h))
]

hand_out-finished :
    (c : Coordinator) (now : ℕ) (job : JobType) (first j : ℕ) (o : Option ℕ)
    → task_at (hand_out c now job first o).0.tasks is_finished j ≡ true
    → task_at c.tasks is_finished j ≡ true
hand_out-finished c now job first j none h = h
hand_out-finished c now job first j (some i) h = take_at-finished now c.tasks i j h

heartbeat_in-finished :
    (c : Coordinator) (now j : ℕ) (phase : SchedulePhase)
    → task_at (heartbeat_in c now phase).0.tasks is_finished j ≡ true
    → task_at c.tasks is_finished j ≡ true
heartbeat_in-finished c now j map_phase h =
    hand_out-finished c now JobType.map_job 0 j (find_task now c.tasks 0 c.n_map) h
heartbeat_in-finished c now j reduce_phase h =
    hand_out-finished c now JobType.reduce_job c.n_map j (find_task now c.tasks c.n_map c.n_reduce)
      h
heartbeat_in-finished c now j done_phase h = h

-- A heartbeat finishes no task.
pub heartbeat-finished :
    (c : Coordinator) (now j : ℕ)
    → task_at (heartbeat c now).0.tasks is_finished j ≡ true
    → task_at c.tasks is_finished j ≡ true
unfolding heartbeat
heartbeat-finished c now j h = heartbeat_in-finished c now j c.phase h

-- Whether the map tasks are finished.
abbrev pub Mapped : Coordinator → Type 0
Mapped c = (m : ℕ) → m < c.n_map → task_at c.tasks is_finished m ≡ true

-- What a worker may take from a response.
abbrev pub Fits : Coordinator → JobType → ℕ → Type 0
Fits c map_job id = id < c.n_map
Fits c reduce_job id = (id < c.n_reduce) × Mapped c
Fits c wait_job id = Unit
Fits c complete_job id = Unit

Answers-Fits :
    (c : Coordinator) (now : ℕ) (phase : SchedulePhase) (a : Coordinator × HeartbeatResponse)
    → owed c phase ≡ true
    → Answers c now phase a
    → Fits c a.1.job_type a.1.task_id
Answers-Fits c now map_phase (c', r) o (inl (i, t, lo, hi, found, free, least, write, e, answer)) =
    rw answer (omega (arith, hi))
Answers-Fits c now map_phase (c', r) o (inr (e, answer, none_free)) = rw answer tt
Answers-Fits c now reduce_phase (c', r) o
      (inl (i, t, lo, hi, found, free, least, write, e, answer)) =
    rw answer (
      omega (arith, lo, hi),
      λ m below. all_finished-each c.tasks 0 c.n_map m o (omega arith) (omega (arith, below)),
    )
Answers-Fits c now reduce_phase (c', r) o (inr (e, answer, none_free)) = rw answer tt
Answers-Fits c now done_phase (c', r) o (e, answer) = rw answer tt

pub heartbeat-Fits :
    (c : Coordinator) (now : ℕ)
    → IsSound c
    → Fits c (heartbeat c now).1.job_type (heartbeat c now).1.task_id
heartbeat-Fits c now v =
    Answers-Fits c now c.phase (heartbeat c now) v.true_phase (heartbeat-Answers c now)

-- What a report does: it finishes only its task, and that there is one keeps the coordinator going.
abbrev pub Finishes : Coordinator → ℕ → Option Coordinator → Type 0
Finishes c i none = length c.tasks ≤ i
Finishes c i (some c') =
    (c'.n_map ≡ c.n_map)
    × (c'.n_reduce ≡ c.n_reduce)
    × ((j : ℕ)
        → task_at c'.tasks is_finished j ≡ true
        → (j ≡ i) ⊎ (task_at c.tasks is_finished j ≡ true))

get_elem?-none : (ts : List Task) (i : ℕ) → get_elem? ts i ≡ none → length ts ≤ i
get_elem?-none [] i h = omega arith
get_elem?-none (t ∷ ts) zero h = cc
get_elem?-none (t ∷ ts) (suc i) h = omega (arith, get_elem?-none ts i h)

finish_at-Finishes :
    (c : Coordinator) (i : ℕ) (o : Option Task)
    → get_elem? c.tasks i ≡ o
    → Finishes c i (finish_at c i o)
unfolding close_phase
finish_at-Finishes c i none h = get_elem?-none c.tasks i h
finish_at-Finishes c i (some t) h =
    (refl, refl, λ j f. task_at-set_other c.tasks i j (record t { status = TaskStatus.finished }) f)

pub report-Finishes :
    (c : Coordinator) (request : ReportRequest) → Finishes c (reported c request) (report c request)
unfolding report
report-Finishes c request =
    finish_at-Finishes c (reported c request) (get_elem? c.tasks (reported c request)) refl
