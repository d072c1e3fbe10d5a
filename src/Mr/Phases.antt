-- ===== src/Mr/Phases.antt =====
-- The phases of the coordinator, src/mr/coordinator.go: a phase ends only when its tasks are finished.
use mit.Base.{
  ℕ, zero, suc, ◌+◌, ◌≡◌, ◌≤◌, ◌<◌, ◌==◌, ==_iff, ltb, Bool-cases, refl, inl, inr, String, true,
  false, List, [], ◌∷◌, map, length, if◌then◌else◌, arith,
}
use mit.Mr.{
  SchedulePhase, map_phase, reduce_phase, done_phase, Task, Coordinator, is_available, is_finished,
  task_at, find_task, heartbeat, is_done, waiting, all_finished, make_coordinator, Event, beat,
  step, run,
}
use mit.Mr.Kept.{owed, IsSound, run-Follows, make-IsSound}

pub run-IsSound :
    (now : ℕ) (files : List String) (n_reduce : ℕ) (es : List Event)
    → IsSound (run (make_coordinator now files n_reduce) es)
run-IsSound now files n_reduce es =
    (run-Follows (make_coordinator now files n_reduce) es (make-IsSound now files n_reduce)).0

-- The loop finds out whether each task of a range is finished.
pub all_finished-each :
    (ts : List Task) (i n j : ℕ)
    → all_finished ts i n ≡ true
    → i ≤ j
    → j < i + n
    → task_at ts is_finished j ≡ true
unfolding all_finished
all_finished-each ts i zero j h lo hi = ground (arith, lo, hi)
all_finished-each ts i (suc n) j h lo hi =
    let first : task_at ts is_finished i ≡ true = ground (arith, h) in
    let rest : all_finished ts (i + 1) n ≡ true = ground (arith, h) in
    elim (Bool-cases (i == j)) [
      | inl same ↦ rw (← (==_iff i j).0 same) first
      | inr apart ↦
          all_finished-each ts (i + 1) n j rest (ground (arith, lo, apart)) (omega (arith, hi))
    ]

-- Whether the tasks below `n` are finished.
abbrev Finished : Coordinator → ℕ → Type 0
Finished c n = (i : ℕ) → (if ltb i n then task_at c.tasks is_finished i else true) ≡ true

-- What has to be finished in a phase.
abbrev pub Completed : Coordinator → SchedulePhase → Type 0
Completed c map_phase = Finished c 0
Completed c reduce_phase = Finished c c.n_map
Completed c done_phase = Finished c (c.n_map + c.n_reduce)

owed-Completed : (c : Coordinator) (phase : SchedulePhase) → owed c phase ≡ true → Completed c phase
owed-Completed c map_phase h = λ i. ground arith
owed-Completed c reduce_phase h = λ i. ground (arith, all_finished-each c.tasks 0 c.n_map i h)
owed-Completed c done_phase h = λ i.
    let a : all_finished c.tasks 0 c.n_map ≡ true = ground (arith, h) in
    let b : all_finished c.tasks c.n_map c.n_reduce ≡ true = ground (arith, h) in
    ground (
      arith,
      all_finished-each c.tasks 0 c.n_map i a,
      all_finished-each c.tasks c.n_map c.n_reduce i b,
    )

-- From a new coordinator on, whatever heartbeats and reports arrive in whatever order, even reports
-- of tasks that were never handed out: there is a place for each task, each map task is finished in
-- the reduce phase, and each task of both kinds when the job is done.
pub run-Completed :
    (now : ℕ) (files : List String) (n_reduce : ℕ) (es : List Event)
    → let c = run (make_coordinator now files n_reduce) es in
      (length c.tasks ≡ c.n_map + c.n_reduce) × Completed c c.phase
run-Completed now files n_reduce es =
    let c = run (make_coordinator now files n_reduce) es in
    let v = run-IsSound now files n_reduce es in (v.sized, owed-Completed c c.phase v.true_phase)

-- In a coordinator with a place for each task and a true phase, a finished task stays finished over
-- any heartbeats and reports, and is at no time one that a heartbeat could hand out.
pub run-keeps_finished :
    (c : Coordinator) (es : List Event) (i : ℕ)
    → IsSound c
    → task_at c.tasks is_finished i ≡ true
    → (task_at (run c es).tasks is_finished i ≡ true)
      × ((now : ℕ) → task_at (run c es).tasks (is_available now) i ≡ false)
run-keeps_finished c es i v h =
    let stays = (run-Follows c es v).1.2 i h in (stays, λ now. ground (arith, stays))

-- A job without input files never ends: whenever workers ask, they are told to wait, and the job is
-- not done.
pub empty_job-waits :
    (now n_reduce : ℕ) (times : List ℕ) (t : ℕ)
    → let c = run (make_coordinator now [] n_reduce) (map beat times) in
      (is_done c ≡ false) × ((heartbeat c t).1 ≡ waiting c)
unfolding make_coordinator run step heartbeat find_task
empty_job-waits now n_reduce [] t = (refl, refl)
empty_job-waits now n_reduce (s ∷ times) t = empty_job-waits now n_reduce times t
