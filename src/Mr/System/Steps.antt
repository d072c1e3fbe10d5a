-- ===== src/Mr/System/Steps.antt =====
-- What each event of a whole job keeps, src/mr/coordinator.go and src/mr/worker.go.
use mathlib.Core.Path.{subst}
use mit.Base.{ℕ, ◌+◌, ◌<◌, ◌≡◌, refl, ◌∙◌, sym, inl, inr, true, Option, none, some, arith}
use mit.Mr.{
  Coordinator, TaskStatus, JobType, map_job, reduce_job, wait_job, complete_job, HeartbeatResponse,
  is_finished, task_at, heartbeat, report, ReportRequest, step as coordinator_step, beat, report_of,
}
use mit.Mr.Kept.{IsSound, Follows, step-Follows, same_in}
use mit.Mr.System.{
  resting, reporting_map, reporting_reduce, System, with_worker, assigned, report_task, Job,
}
use mit.Mr.System.Tasks.{Fits, heartbeat-Fits, heartbeat-finished, Finishes, report-Finishes}
use mit.Mr.System.Sound.{Kept, Written, IsRight, Good, IsLater, Sound, moved-Sound, later-Good}

module _ (job : Job) (n_map n : ℕ) where
  assigned-Good :
      (s : System) (resp : HeartbeatResponse) (j : JobType)
      → s.coordinator.n_map ≡ n_map
      → s.coordinator.n_reduce ≡ n
      → resp.job_type ≡ j
      → Fits s.coordinator j resp.task_id
      → Good job n_map n s (assigned resp)
  assigned-Good s resp map_job em er ej fit =
      rw ej (subst (λ k. resp.task_id < k) em fit, λ r below. absurd (omega (arith, below)))
  assigned-Good s resp reduce_job em er ej (fit, mapped) = rw ej (
    subst (λ k. resp.task_id < k) er fit,
    λ m below. mapped m (subst (λ k. m < k) (sym em) below),
  )
  assigned-Good s resp wait_job em er ej fit = rw ej tt
  assigned-Good s resp complete_job em er ej fit = rw ej tt

  -- The coordinator has gone on, and each task that is finished now has its files.
  with_coordinator-IsRight :
      (s : System) (c : Coordinator)
      → IsRight job n_map n s
      → IsSound c
      → c.n_map ≡ s.coordinator.n_map
      → c.n_reduce ≡ s.coordinator.n_reduce
      → ((m : ℕ) → m < n_map → task_at c.tasks is_finished m ≡ true → (r : ℕ) → r < n → Kept s m r)
      → ((r : ℕ) → r < n → task_at c.tasks is_finished (r + n_map) ≡ true → Written s r)
      → IsRight job n_map n (record s { coordinator = c })
  with_coordinator-IsRight s c right v em er mapped reduced = record {
    sound = v;
    maps = em ∙ right.maps;
    reduces = er ∙ right.reduces;
    inter_right = right.inter_right;
    outs_right = right.outs_right;
    mapped = mapped;
    reduced = reduced;
  }

  with_coordinator-IsLater :
      (s : System) (c : Coordinator)
      → ((j : ℕ)
          → task_at s.coordinator.tasks is_finished j ≡ true
          → task_at c.tasks is_finished j ≡ true)
      → IsLater s (record s { coordinator = c })
  with_coordinator-IsLater s c finished = record {
    kept = λ m r h. h;
    written = λ r h. h;
    finished = finished;
  }

  pub beat-Sound :
      (s : System) (w now : ℕ)
      → Sound job n_map n s
      → let (c, resp) = heartbeat s.coordinator now in
        Sound job n_map n (with_worker (record s { coordinator = c }) w (assigned resp))
  unfolding coordinator_step heartbeat
  beat-Sound s w now (right, good) =
      let c = s.coordinator in
      let c' = (heartbeat c now).0 in
      let resp = (heartbeat c now).1 in
      let (v, k) = step-Follows c (beat now) right.sound in
      let (p, em, er) = same_in c now c.phase in
      let s' = record s { coordinator = c' } in
      let before : (j : ℕ)
          → task_at c'.tasks is_finished j ≡ true
          → task_at c.tasks is_finished j ≡ true =
        λ j f. heartbeat-finished c now j f in
      let right' =
        with_coordinator-IsRight s c' right v em er (λ m below f. right.mapped m below (before m f))
          (λ r below f. right.reduced r below (before (r + n_map) f)) in
      let mine =
        assigned-Good s resp resp.job_type right.maps right.reduces refl
          (heartbeat-Fits c now right.sound) in
      let later = with_coordinator-IsLater s c' (k.2) in
      moved-Sound job n_map n s s' w (assigned resp) (right, good) refl later right'
        (later-Good job n_map n s s' (assigned resp) later mine)

  -- A step goes on, without a panic, to a sound system.
  abbrev pub Goes : Option System → Type 0
  Goes none = ⊥
  Goes (some s) = Sound job n_map n s

  module _ (s : System) (w id : ℕ) (sound : Sound job n_map n s) where
    -- A report whose task has its files.
    reported-Goes :
        (j : JobType) (i : ℕ) (o : Option Coordinator)
        → i < n_map + n
        → ((m : ℕ) → m < n_map → m ≡ i → (r : ℕ) → r < n → Kept s m r)
        → ((r : ℕ) → r < n → r + n_map ≡ i → Written s r)
        → Follows s.coordinator o
        → Finishes s.coordinator i o
        → Goes (elim o [
          | none ↦ none
          | some c ↦ some (with_worker (record s { coordinator = c }) w resting)
        ])
    reported-Goes j i none below mapped reduced follows short =
        let right = sound.0 in
        let size = right.sound.sized in
        absurd (omega (arith, below, short, size, right.maps, right.reduces))
    reported-Goes j i (some c) below mapped reduced (v, k) (em, er, only) =
        let right = sound.0 in
        let s' = record s { coordinator = c } in
        let right' =
          with_coordinator-IsRight s c right v em er
            (λ m lt f. elim (only m f) [
              | inl this ↦ mapped m lt this
              | inr before ↦ right.mapped m lt before
            ])
            (λ r lt f. elim (only (r + n_map) f) [
              | inl this ↦ reduced r lt this
              | inr before ↦ right.reduced r lt before
            ]) in
        moved-Sound job n_map n s s' w resting sound refl (with_coordinator-IsLater s c (k.2))
          right' tt

    pub report_map-Goes :
        Good job n_map n s (reporting_map id) → Goes (report_task s w JobType.map_job id)
    unfolding coordinator_step
    report_map-Goes (lt, kept) =
        let request : ReportRequest = record {
          job_type = JobType.map_job;
          task_id = id;
          status = TaskStatus.finished;
        } in
        reported-Goes JobType.map_job id (report s.coordinator request) (omega (arith, lt))
          (λ m below e. subst (λ i. (r : ℕ) → r < n → Kept s i r) (sym e) kept)
          (λ r below e. absurd (omega (arith, lt, e)))
          (step-Follows s.coordinator (report_of request) sound.0.sound)
          (report-Finishes s.coordinator request)

    pub report_reduce-Goes :
        Good job n_map n s (reporting_reduce id) → Goes (report_task s w JobType.reduce_job id)
    unfolding coordinator_step
    report_reduce-Goes (lt, written) =
        let request : ReportRequest = record {
          job_type = JobType.reduce_job;
          task_id = id;
          status = TaskStatus.finished;
        } in
        let right = sound.0 in
        reported-Goes JobType.reduce_job (id + s.coordinator.n_map) (report s.coordinator request)
          (omega (arith, lt, right.maps))
          (λ m below e. absurd (omega (arith, below, e, right.maps)))
          (λ r below e. subst (Written s) (sym (omega (arith, e, right.maps))) written)
          (step-Follows s.coordinator (report_of request) right.sound)
          (report-Finishes s.coordinator request)
