-- ===== src/Mr/System/InOrder.antt =====
-- Every event of a whole job keeps the order of the phases, src/mr/coordinator.go and src/mr/worker.go.
use mathlib.Core.Path.{subst}
use mit.Base.{
  ℕ, ◌+◌, ◌<◌, ◌≡◌, ◌==◌, ltb, refl, ◌∙◌, ap, sym, inl, inr, Bool-cases, Bool, true, false, Option,
  none, some, if◌then◌else◌, arith,
}
use mit.Mr.{
  Coordinator, SchedulePhase, map_phase, reduce_phase, done_phase, TaskStatus, JobType, heartbeat,
  report, reported, ReportRequest,
}
use mit.Mr.Worker.{map_file}
use mit.Mr.System.{
  Worker, resting, mapping, reporting_map, reading, renaming, cleaning, reporting_reduce, gone,
  System, with_inter, with_out, kept_or, Event, go, lose, die, remove, with_worker, assigned,
  report_task, Job, advance, step, after_loss, removed,
}
use mit.Mr.System.Sound.{Good, Sound}
use mit.Mr.System.Order.{
  Ordered, Early, Allows, InOrder, Named, Orders, beat-Ordered, report-Orders,
}

Early-Allows : (phase : SchedulePhase) (k : Worker) → Early k → Allows phase k
Early-Allows map_phase k h = h
Early-Allows reduce_phase k h = tt
Early-Allows done_phase k h = tt

late-Allows :
    (phase : SchedulePhase) (k k' : Worker)
    → (Early k → Early k')
    → Allows phase k
    → Allows phase k'
late-Allows map_phase k k' f h = f h
late-Allows reduce_phase k k' f h = tt
late-Allows done_phase k k' f h = tt

-- One worker has gone on.
moved-InOrder :
    (s s' : System) (w : ℕ) (k : Worker)
    → InOrder s
    → s'.workers ≡ s.workers
    → Ordered s'.coordinator s'.coordinator.phase
    → ((j : Worker) → Allows s.coordinator.phase j → Allows s'.coordinator.phase j)
    → Allows s'.coordinator.phase k
    → InOrder (with_worker s' w k)
moved-InOrder s s' w k (o, allowed) same o' keeps mine = (
  o',
  λ v. elim (Bool-cases (w == v)) [
    | inl this ↦
        subst (Allows s'.coordinator.phase) (sym (ap (λ b. if b then k else s'.workers v) this))
          mine
    | inr other ↦
        subst (Allows s'.coordinator.phase)
          (sym (ap (λ b. if b then k else s'.workers v) other ∙ ap (λ ws. ws v) same))
          (keeps (s.workers v) (allowed v))
  ],
)

-- A system of an option is in order.
abbrev pub IfInOrder : Option System → Type 0
IfInOrder none = Unit
IfInOrder (some s) = InOrder s

module _ (job : Job) (n_map n : ℕ) (some_reduce : 0 < n) where
  -- A step that leaves the coordinator alone.
  alone-InOrder :
      (s s' : System) (w : ℕ) (k k' : Worker)
      → InOrder s
      → s'.workers ≡ s.workers
      → s'.coordinator ≡ s.coordinator
      → (Early k → Early k')
      → Allows s.coordinator.phase k
      → InOrder (with_worker s' w k')
  alone-InOrder s s' w k k' (o, allowed) same same_c f mine =
      moved-InOrder s s' w k' (o, allowed) same (subst (λ c. Ordered c c.phase) (sym same_c) o)
        (λ j h. subst (λ c. Allows c.phase j) (sym same_c) h)
        (subst (λ c. Allows c.phase k') (sym same_c) (late-Allows s.coordinator.phase k k' f mine))

  report_task-InOrder :
      (s : System) (w : ℕ) (j : JobType) (id : ℕ)
      → InOrder s
      → 0 < s.coordinator.n_reduce
      → Named s.coordinator s.coordinator.phase (
          reported s.coordinator
            (record { job_type = j; task_id = id; status = TaskStatus.finished }))
      → IfInOrder (report_task s w j id)
  report_task-InOrder s w j id (o, allowed) more named =
      let request : ReportRequest = record {
        job_type = j;
        task_id = id;
        status = TaskStatus.finished;
      } in
      after_report (report s.coordinator request) (report-Orders s.coordinator request more named o)
    where
      after_report :
          (r : Option Coordinator)
          → Orders s.coordinator r
          → IfInOrder (elim r [
            | none ↦ none
            | some c ↦ some (with_worker (record s { coordinator = c }) w resting)
          ])
      after_report none h = tt
      after_report (some c) (o', keeps) =
          moved-InOrder s (record s { coordinator = c }) w resting (o, allowed) refl o' keeps
            (Early-Allows c.phase resting tt)

  if-InOrder :
      (b : Bool) (x y : System) → InOrder x → InOrder y → IfInOrder (if b then some x else some y)
  if-InOrder true x y hx hy = hx
  if-InOrder false x y hx hy = hy

  Named-map : (c : Coordinator) (phase : SchedulePhase) (i : ℕ) → i < c.n_map → Named c phase i
  Named-map c map_phase i h = h
  Named-map c reduce_phase i h = tt
  Named-map c done_phase i h = tt

  Named-reduce :
      (c : Coordinator) (phase : SchedulePhase) (r i : ℕ)
      → Allows phase (reporting_reduce r)
      → Named c phase i
  Named-reduce c map_phase r i h = absurd h
  Named-reduce c reduce_phase r i h = tt
  Named-reduce c done_phase r i h = tt

  advance-InOrder :
      (s : System) (w now : ℕ) (k : Worker)
      → Sound job n_map n s
      → Good job n_map n s k
      → InOrder s
      → Allows s.coordinator.phase k
      → IfInOrder (advance job s w now k)
  unfolding advance
  advance-InOrder s w now resting sound good (o, allowed) mine =
      let c' = (heartbeat s.coordinator now).0 in
      let resp = (heartbeat s.coordinator now).1 in
      let (o', p, fits) = beat-Ordered s.coordinator now o in
      moved-InOrder s (record s { coordinator = c' }) w (assigned resp) (o, allowed) refl o'
        (λ j h. subst (λ x. Allows x j) (sym p) h)
        (subst (λ x. Allows x (assigned resp)) (sym p) fits)
  advance-InOrder s w now (mapping m i) sound good ordered mine =
      if-InOrder (ltb i s.coordinator.n_reduce) _ _
        (alone-InOrder s
          (with_inter s m i
            (kept_or (s.inter m i) (map_file job.sort s.coordinator.n_reduce i (job.pairs m))))
          w (mapping m i) (mapping m (i + 1)) ordered refl refl (λ h. tt) mine)
        (alone-InOrder s s w (mapping m i) (reporting_map m) ordered refl refl (λ h. tt) mine)
  advance-InOrder s w now (reporting_map m) sound good ordered mine =
      report_task-InOrder s w JobType.map_job m ordered
        (omega (arith, some_reduce, sound.0.reduces))
        (Named-map s.coordinator s.coordinator.phase m (omega (arith, good.0, sound.0.maps)))
  advance-InOrder s w now (reading r) sound good ordered mine =
      alone-InOrder s s w (reading r) _ ordered refl refl (λ h. absurd h) mine
  advance-InOrder s w now (renaming r lines) sound good ordered mine =
      alone-InOrder s (with_out s r (kept_or (s.outs r) lines)) w (renaming r lines) (cleaning r)
        ordered refl refl (λ h. absurd h) mine
  advance-InOrder s w now (cleaning r) sound good ordered mine =
      alone-InOrder s (record s { inter = λ m r'. if r == r' then none else s.inter m r' }) w
        (cleaning r) (reporting_reduce r) ordered refl refl (λ h. absurd h) mine
  advance-InOrder s w now (reporting_reduce r) sound good ordered mine =
      report_task-InOrder s w JobType.reduce_job r ordered
        (omega (arith, some_reduce, sound.0.reduces))
        (Named-reduce s.coordinator s.coordinator.phase r (r + s.coordinator.n_map) mine)
  advance-InOrder s w now gone sound good ordered mine = ordered

  after_loss-Allows :
      (phase : SchedulePhase) (k : Worker) → Allows phase k → Allows phase (after_loss job k)
  after_loss-Allows phase resting h = Early-Allows phase gone tt
  after_loss-Allows phase (mapping m i) h = h
  after_loss-Allows phase (reporting_map m) h = Early-Allows phase resting tt
  after_loss-Allows phase (reading r) h = h
  after_loss-Allows phase (renaming r lines) h = h
  after_loss-Allows phase (cleaning r) h = h
  after_loss-Allows phase (reporting_reduce r) h = Early-Allows phase resting tt
  after_loss-Allows phase gone h = h

  removed-InOrder : (s : System) (m : ℕ) (k : Worker) → InOrder s → InOrder (removed job s m k)
  removed-InOrder s m resting h = h
  removed-InOrder s m (mapping i j) h = h
  removed-InOrder s m (reporting_map i) h = h
  removed-InOrder s m (reading r) h = h
  removed-InOrder s m (renaming r lines) h = h
  removed-InOrder s m (cleaning r) h = h
  removed-InOrder s m (reporting_reduce r) h = h
  removed-InOrder s m gone h = h

  pub step-InOrder :
      (s : System) (e : Event) → Sound job n_map n s → InOrder s → IfInOrder (step job s e)
  unfolding step
  step-InOrder s (go w now) sound h =
      advance-InOrder s w now (s.workers w) sound (sound.1 w) h (h.1 w)
  step-InOrder s (lose w) sound h =
      moved-InOrder s s w (after_loss job (s.workers w)) h refl h.0 (λ j a. a)
        (after_loss-Allows s.coordinator.phase (s.workers w) (h.1 w))
  step-InOrder s (die w) sound h =
      moved-InOrder s s w gone h refl h.0 (λ j a. a) (Early-Allows s.coordinator.phase gone tt)
  step-InOrder s (remove w m) sound h = removed-InOrder s m (s.workers w) h
