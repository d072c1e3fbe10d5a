-- ===== src/Mr/System/Work.antt =====
-- The steps that a worker takes for one task, src/mr/worker.go, to its report.
use mathlib.Core.Path.{subst}
use mit.Base.{
  ℕ, zero, suc, ◌+◌, ◌<◌, ◌≡◌, ◌==◌, ==_iff, ltb, refl, ◌∙◌, ap, inl, inr, Option-cases, true,
  false, Option, none, some, List, [], ◌∷◌, map, get_elem?, set, if◌then◌else◌, arith,
}
use mit.Mr.{
  Coordinator, Task, TaskStatus, JobType, is_finished, task_at, is_done, finish_at, close_phase,
  report, reported, ReportRequest, step as coordinator_step, report_of,
}
use mit.Mr.Kept.{Follows, step-Follows}
use mit.Mr.Worker.{map_file, reduce_file}
use mit.Mr.System.{
  Worker, resting, mapping, reporting_map, reading, renaming, cleaning, reporting_reduce, System,
  Event, go, with_worker, with_inter, with_out, kept_or, report_task, Job, advance, step, run,
  files_of,
}
use mit.Mr.System.Files.{IsFair}
use mit.Mr.System.Sound.{Sound}
use mit.Mr.System.Steps.{Goes}
use mit.Mr.System.Reached.{step-Goes}
use mit.Mr.System.Order.{InOrder}
use mit.Mr.System.InOrder.{IfInOrder, step-InOrder}

-- Every task that is finished in the first list is in the second one.
abbrev pub Ahead : List Task → List Task → Type 0
Ahead ts ts' = (j : ℕ) → task_at ts is_finished j ≡ true → task_at ts' is_finished j ≡ true

task_at-set_here :
    (ts : List Task) (i : ℕ) (t v : Task)
    → get_elem? ts i ≡ some t
    → task_at (set ts i v) is_finished i ≡ is_finished v
task_at-set_here [] i t v h = cc
task_at-set_here (x ∷ ts) zero t v h = refl
task_at-set_here (x ∷ ts) (suc i) t v h = task_at-set_here ts i t v h

-- The task of a report is finished.
abbrev Ends : Coordinator → ℕ → Option Coordinator → Type 0
Ends c i none = Unit
Ends c i (some c') = task_at c'.tasks is_finished i ≡ true

finish_at-Ends :
    (c : Coordinator) (i : ℕ) (o : Option Task)
    → get_elem? c.tasks i ≡ o
    → Ends c i (finish_at c i o)
unfolding close_phase
finish_at-Ends c i none h = tt
finish_at-Ends c i (some t) h =
    task_at-set_here c.tasks i t (record t { status = TaskStatus.finished }) h

report-Ends :
    (c : Coordinator) (request : ReportRequest) → Ends c (reported c request) (report c request)
unfolding report
report-Ends c request =
    finish_at-Ends c (reported c request) (get_elem? c.tasks (reported c request)) refl

module _ (job : Job) (n_map n : ℕ) (some_reduce : 0 < n) (fair : IsFair job n_map) where
  abbrev pub Healthy : System → Type 0
  Healthy s = Sound job n_map n s × InOrder s

  -- Some steps of the worker end the job.
  abbrev pub CanFinish : System → ℕ → Type 0
  CanFinish s w = (times : List ℕ) × (is_done (run job s (map (go w) times)).coordinator ≡ true)

  pub step-Healthy : (s s' : System) (e : Event) → Healthy s → step job s e ≡ some s' → Healthy s'
  step-Healthy s s' e (sound, ordered) same = (
    subst (Goes job n_map n) same (step-Goes job n_map n s e fair sound),
    subst IfInOrder same (step-InOrder job n_map n some_reduce s e sound ordered),
  )

  abbrev goes_on : System → List Event → Option System → System
  goes_on s es none = s
  goes_on s es (some s') = run job s' es

  step-CanFinish :
      (s s' : System) (w now : ℕ) → step job s (go w now) ≡ some s' → CanFinish s' w → CanFinish s w
  unfolding run
  step-CanFinish s s' w now same (times, done) =
      (now ∷ times, ap (λ o. is_done (goes_on s (map (go w) times) o).coordinator) same ∙ done)

  -- The next step of a worker, and what follows it.
  pub go-CanFinish :
      (s s' : System) (w now : ℕ) (k : Worker)
      → s.workers w ≡ k
      → advance job s w now k ≡ some s'
      → Healthy s
      → (Healthy s' → CanFinish s' w)
      → CanFinish s w
  unfolding step
  go-CanFinish s s' w now k at next healthy rest =
      let same : step job s (go w now) ≡ some s' = ap (advance job s w now) at ∙ next in
      step-CanFinish s s' w now same (rest (step-Healthy s s' (go w now) healthy same))

  pub worker_at : (s : System) (w : ℕ) (k : Worker) → (with_worker s w k).workers w ≡ k
  worker_at s w k = ground (arith, ==_iff w w)

  -- A worker that stands somewhere, while the coordinator is as it was.
  abbrev pub Arrives : System → ℕ → Worker → Type 0
  Arrives s w k =
      (s' : System)
      → Healthy s'
      → s'.coordinator ≡ s.coordinator
      → s'.workers w ≡ k
      → CanFinish s' w

  -- A map task, up to its report.
  pub map_work :
      (k : ℕ) (s : System) (w m i : ℕ)
      → i + k ≡ n
      → s.workers w ≡ mapping m i
      → Healthy s
      → Arrives s w (reporting_map m)
      → CanFinish s w
  unfolding advance
  map_work zero s w m i left at healthy rest =
      let over : ltb i s.coordinator.n_reduce ≡ false = ground (arith, left, healthy.0.0.reduces) in
      go-CanFinish s (with_worker s w (reporting_map m)) w 0 (mapping m i) at (ground (arith, over))
        healthy
        (λ healthy'.
          rest (with_worker s w (reporting_map m)) healthy' refl (worker_at s w (reporting_map m)))
  map_work (suc k) s w m i left at healthy rest =
      let more : ltb i s.coordinator.n_reduce ≡ true = ground (arith, left, healthy.0.0.reduces) in
      let s1 =
        with_inter s m i
          (kept_or (s.inter m i) (map_file job.sort s.coordinator.n_reduce i (job.pairs m))) in
      let next = mapping m (i + 1) in
      go-CanFinish s (with_worker s1 w next) w 0 (mapping m i) at (ground (arith, more)) healthy
        (λ healthy'.
          map_work k (with_worker s1 w next) w m (i + 1) (omega (arith, left)) (worker_at s1 w next)
            healthy' rest)

  -- A reduce task, up to its report.
  pub reduce_work :
      (s : System) (w r : ℕ)
      → s.workers w ≡ reading r
      → Healthy s
      → Arrives s w (reporting_reduce r)
      → CanFinish s w
  unfolding advance
  reduce_work s w r at healthy rest =
      let lines =
        reduce_file job.sort_strings job.reducef
          (job.listing (files_of s.inter r s.coordinator.n_map)) in
      let s1 = with_worker s w (renaming r lines) in
      let s2' = with_out s1 r (kept_or (s1.outs r) lines) in
      let s2 = with_worker s2' w (cleaning r) in
      let s3' : System = record s2 { inter = λ m r'. if r == r' then none else s2.inter m r' } in
      let s3 = with_worker s3' w (reporting_reduce r) in
      go-CanFinish s s1 w 0 (reading r) at refl healthy (λ h1.
        go-CanFinish s1 s2 w 0 (renaming r lines) (worker_at s w (renaming r lines)) refl h1 (λ h2.
          go-CanFinish s2 s3 w 0 (cleaning r) (worker_at s2' w (cleaning r)) refl h2
            (λ h3. rest s3 h3 refl (worker_at s3' w (reporting_reduce r)))))

  -- A report: its task is finished, no other is unfinished, and the worker asks for a task again.
  pub report_work :
      (s : System) (w : ℕ) (k : Worker) (j : JobType) (id : ℕ)
      → s.workers w ≡ k
      → advance job s w 0 k ≡ report_task s w j id
      → Healthy s
      → ((s' : System)
          → Healthy s'
          → Ahead s.coordinator.tasks s'.coordinator.tasks
          → task_at s'.coordinator.tasks is_finished (
              reported s.coordinator
                (record { job_type = j; task_id = id; status = TaskStatus.finished }))
            ≡ true
          → s'.workers w ≡ resting
          → CanFinish s' w)
      → CanFinish s w
  unfolding coordinator_step step
  report_work s w k j id at next healthy rest =
      let c = s.coordinator in
      let request : ReportRequest = record {
        job_type = j;
        task_id = id;
        status = TaskStatus.finished;
      } in
      let follows = step-Follows c (report_of request) healthy.0.0.sound in
      elim (Option-cases (report c request)) [
        | inl panics ↦
            let stuck : step job s (go w 0) ≡ none =
              ap (advance job s w 0) at ∙ next ∙ answered none panics in
            absurd
              (subst (Goes job n_map n) stuck (step-Goes job n_map n s (go w 0) fair healthy.0))
        | inr (c', answer) ↦
            let s' = with_worker (record s { coordinator = c' }) w resting in
            go-CanFinish s s' w 0 k at (next ∙ answered (some c') answer) healthy (λ healthy'.
              rest s' healthy' (subst (Follows c) answer follows).1.2
                (subst (Ends c (reported c request)) answer (report-Ends c request))
                (worker_at (record s { coordinator = c' }) w resting))
      ]
    where
      answered :
          (o : Option Coordinator)
          → report s.coordinator
              (record { job_type = j; task_id = id; status = TaskStatus.finished })
            ≡ o
          → report_task s w j id ≡ (elim o [
            | none ↦ none
            | some c ↦ some (with_worker (record s { coordinator = c }) w resting)
          ])
      answered o e = rw (e, report_task) refl
