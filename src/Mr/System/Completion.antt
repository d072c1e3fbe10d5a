-- ===== src/Mr/System/Completion.antt =====
-- From any point on, a job can be finished: src/mr/coordinator.go and src/mr/worker.go.
use mathlib.Core.Path.{subst}
use mit.Base.{
  ℕ, zero, suc, ◌+◌, ◌-◌, ◌<◌, ◌≡◌, refl, ◌∙◌, ap, sym, true, false, Option, none, some, List, [],
  ◌∷◌, map, String, length, arith,
}
use mit.Mr.{
  SchedulePhase, map_phase, reduce_phase, done_phase, JobType, is_finished, task_at, is_done,
  heartbeat, heartbeat_in, hand_out, all_finished, make_coordinator, beat, step as coordinator_step,
}
use mit.Mr.Kept.{step-Follows}
use mit.Mr.System.{
  resting, mapping, reporting_map, reading, reporting_reduce, System, Event, go, with_worker,
  assigned, Job, advance, step, run, start,
}
use mit.Mr.System.Files.{IsFair}
use mit.Mr.System.Order.{Ordered, InOrder}
use mit.Mr.System.Outputs.{tasks-idle, start-Sound}
use mit.Mr.System.Work.{
  Ahead, Healthy, CanFinish, go-CanFinish, worker_at, step-Healthy, map_work, reduce_work,
  report_work,
}
use mit.Mr.System.Finish.{pending, pending-lt, late, handed}

module _ (job : Job) (n_map n : ℕ) (some_reduce : 0 < n) (fair : IsFair job n_map) where
  -- What is needed to go on from a system with less to do.
  abbrev Less : System → ℕ → Type 0
  Less s w =
      (s' : System)
      → Healthy job n_map n some_reduce fair s'
      → s'.workers w ≡ resting
      → pending s'.coordinator.tasks < pending s.coordinator.tasks
      → CanFinish job n_map n some_reduce fair s' w

  size :
      (s : System) → Healthy job n_map n some_reduce fair s → length s.coordinator.tasks ≡ n_map + n
  size s healthy =
      let right = healthy.0.0 in omega (arith, right.sound.sized, right.maps, right.reduces)

  -- The system after a worker is told its next task.
  abbrev told : System → ℕ → System
  told s w =
      let now = late s.coordinator.tasks in
      with_worker (record s { coordinator = (heartbeat s.coordinator now).0 }) w
        (assigned (heartbeat s.coordinator now).1)

  told-Ahead :
      (s : System) (w : ℕ)
      → Healthy job n_map n some_reduce fair s
      → Ahead s.coordinator.tasks (told s w).coordinator.tasks
  unfolding coordinator_step
  told-Ahead s w healthy =
      (step-Follows s.coordinator (beat (late s.coordinator.tasks)) healthy.0.0.sound).1.2

  -- Less is left after the task of the worker is reported.
  module _ (s : System) (w i : ℕ) (healthy : Healthy job n_map n some_reduce fair s)
      (below : i < length s.coordinator.tasks)
      (left : task_at s.coordinator.tasks is_finished i ≡ false) (rest : Less s w) where
    reported-CanFinish :
        (s2 s3 : System)
        → s2.coordinator ≡ (told s w).coordinator
        → Healthy job n_map n some_reduce fair s3
        → Ahead s2.coordinator.tasks s3.coordinator.tasks
        → task_at s3.coordinator.tasks is_finished i ≡ true
        → s3.workers w ≡ resting
        → CanFinish job n_map n some_reduce fair s3 w
    reported-CanFinish s2 s3 same healthy3 ahead over at =
        let before = told-Ahead s w healthy in
        rest s3 healthy3 at (
          pending-lt s.coordinator.tasks s3.coordinator.tasks i
            (size s healthy ∙ sym (size s3 healthy3))
            (λ j h. ahead j (ap (λ c. task_at c.tasks is_finished j) same ∙ before j h)) below left
            over)

  map_turn :
      (s : System) (w : ℕ)
      → Healthy job n_map n some_reduce fair s
      → s.workers w ≡ resting
      → s.coordinator.phase ≡ SchedulePhase.map_phase
      → Less s w
      → CanFinish job n_map n some_reduce fair s w
  unfolding advance heartbeat
  map_turn s w healthy at phase rest =
      let c = s.coordinator in
      let right = healthy.0.0 in
      let o = subst (Ordered c) phase healthy.1.0 in
      let now = late c.tasks in
      let (j, found, lo, hi, left) =
        handed c.tasks 0 c.n_map (omega (arith, right.sound.sized)) o.0 in
      let hb : heartbeat c now ≡ hand_out c now JobType.map_job 0 (some j) =
        ap (heartbeat_in c now) phase ∙ ap (hand_out c now JobType.map_job 0) found in
      let task : assigned (heartbeat c now).1 ≡ mapping j 0 =
        ap (λ p. assigned p.1) hb ∙ ap (λ k. mapping k 0) (omega arith) in
      let s1 = told s w in
      go-CanFinish job n_map n some_reduce fair s s1 w now resting at refl healthy (λ h1.
        map_work job n_map n some_reduce fair n s1 w j 0 (omega arith)
          (worker_at job n_map n some_reduce fair (record s { coordinator = (heartbeat c now).0 }) w
              (assigned (heartbeat c now).1)
            ∙ task)
          h1
          (λ s2 h2 same at2.
            report_work job n_map n some_reduce fair s2 w (reporting_map j) JobType.map_job j at2
              refl h2
              (λ s3 h3 ahead over at3.
                reported-CanFinish s w j healthy (omega (arith, hi, right.sound.sized)) left rest s2
                  s3 same h3 ahead over at3)))

  reduce_turn :
      (s : System) (w : ℕ)
      → Healthy job n_map n some_reduce fair s
      → s.workers w ≡ resting
      → s.coordinator.phase ≡ SchedulePhase.reduce_phase
      → Less s w
      → CanFinish job n_map n some_reduce fair s w
  unfolding advance heartbeat
  reduce_turn s w healthy at phase rest =
      let c = s.coordinator in
      let right = healthy.0.0 in
      let o = subst (Ordered c) phase healthy.1.0 in
      let now = late c.tasks in
      let (j, found, lo, hi, left) =
        handed c.tasks c.n_map c.n_reduce (omega (arith, right.sound.sized)) o in
      let hb : heartbeat c now ≡ hand_out c now JobType.reduce_job c.n_map (some j) =
        ap (heartbeat_in c now) phase ∙ ap (hand_out c now JobType.reduce_job c.n_map) found in
      let r = j - c.n_map in
      let task : assigned (heartbeat c now).1 ≡ reading r = ap (λ p. assigned p.1) hb in
      let s1 = told s w in
      go-CanFinish job n_map n some_reduce fair s s1 w now resting at refl healthy (λ h1.
        reduce_work job n_map n some_reduce fair s1 w r
          (worker_at job n_map n some_reduce fair (record s { coordinator = (heartbeat c now).0 }) w
              (assigned (heartbeat c now).1)
            ∙ task)
          h1
          (λ s2 h2 same at2.
            report_work job n_map n some_reduce fair s2 w (reporting_reduce r) JobType.reduce_job r
              at2 refl h2
              (λ s3 h3 ahead over at3.
                let place : r + s2.coordinator.n_map ≡ j =
                  omega (arith, lo, h2.0.0.maps, right.maps) in
                reported-CanFinish s w j healthy (omega (arith, hi, right.sound.sized)) left rest s2
                  s3 same h3 ahead
                  (ap (task_at s3.coordinator.tasks is_finished) (sym place) ∙ over) at3)))

  -- One turn of a worker that asks for a task.
  turn :
      (s : System) (w : ℕ) (phase : SchedulePhase)
      → Healthy job n_map n some_reduce fair s
      → s.workers w ≡ resting
      → s.coordinator.phase ≡ phase
      → Less s w
      → CanFinish job n_map n some_reduce fair s w
  unfolding run
  turn s w map_phase healthy at e rest = map_turn s w healthy at e rest
  turn s w reduce_phase healthy at e rest = reduce_turn s w healthy at e rest
  turn s w done_phase healthy at e rest =
      ([], ap (λ p. is_done (record s.coordinator { phase = p })) e)

  pub finish :
      (k : ℕ) (s : System) (w : ℕ)
      → pending s.coordinator.tasks < k
      → Healthy job n_map n some_reduce fair s
      → s.workers w ≡ resting
      → CanFinish job n_map n some_reduce fair s w
  finish zero s w less healthy at = absurd (omega (arith, less))
  finish (suc k) s w less healthy at =
      turn s w s.coordinator.phase healthy at refl
        (λ s' h' at' fewer. finish k s' w (omega (arith, less, fewer)) h' at')

  goes_on-Healthy :
      (s : System) (es : List Event) (o : Option System)
      → Healthy job n_map n some_reduce fair s
      → ((s' : System) → o ≡ some s' → Healthy job n_map n some_reduce fair (run job s' es))
      → Healthy job n_map n some_reduce fair (elim o [ none ↦ s | some s' ↦ run job s' es ])
  goes_on-Healthy s es none healthy rest = healthy
  goes_on-Healthy s es (some s') healthy rest = rest s' refl

  pub run-Healthy :
      (s : System) (es : List Event)
      → Healthy job n_map n some_reduce fair s
      → Healthy job n_map n some_reduce fair (run job s es)
  unfolding run
  run-Healthy s [] healthy = healthy
  run-Healthy s (e ∷ es) healthy =
      goes_on-Healthy s es (step job s e) healthy (λ s' same.
        run-Healthy s' es (step-Healthy job n_map n some_reduce fair s s' e healthy same))

-- A job with some input file and some reduce task, whatever has happened to it so far, with any other
-- workers crashed or busy: some further steps of one worker that asks for a task, at some times, and
-- of that worker alone, bring the coordinator to say that the job is done. The hypotheses on the job
-- are those of `IsFair`.
pub can_finish :
    (job : Job) (now : ℕ) (file : String) (files : List String) (n : ℕ) (es : List Event) (w : ℕ)
    → IsFair job (length (file ∷ files))
    → 0 < n
    → (run job (start now (file ∷ files) n) es).workers w ≡ resting
    → (times : List ℕ) × (is_done
          (run job (run job (start now (file ∷ files) n) es) (map (go w) times)).coordinator
        ≡ true)
unfolding start make_coordinator all_finished
can_finish job now file files n es w fair some_reduce at =
    let n_map = length (file ∷ files) in
    let s0 = start now (file ∷ files) n in
    let ordered : InOrder s0 =
      ((refl, λ r below. tasks-idle now 0 n_map n (r + n_map) (file ∷ files)), λ v. tt) in
    let healthy =
      run-Healthy job n_map n some_reduce fair s0 es
        (start-Sound job now (file ∷ files) n, ordered) in
    let s = run job s0 es in
    finish job n_map n some_reduce fair (pending s.coordinator.tasks + 1) s w (omega arith) healthy
      at
