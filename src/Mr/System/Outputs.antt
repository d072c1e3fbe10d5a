-- ===== src/Mr/System/Outputs.antt =====
-- The output of a whole job, src/mr/coordinator.go and src/mr/worker.go.
use mathlib.Core.Path.{subst}
use mit.Base.{
  ℕ, zero, suc, ◌+◌, ◌<◌, ◌≡◌, refl, ◌∙◌, ap, sym, inl, inr, Option-cases, String, true, false,
  Option, none, some, List, [], ◌∷◌, ◌++◌, length, arith,
}
use mit.Mr.{
  Coordinator, SchedulePhase, map_phase, reduce_phase, done_phase, is_done, all_finished,
  is_finished, task_at, make_coordinator, map_tasks, reduce_tasks,
}
use mit.Mr.Kept.{owed, make-IsSound}
use mit.Mr.Phases.{all_finished-each}
use mit.Mr.Worker.{KeyValue}
use mit.Mr.System.{System, Event, has, Job, step, run, start}
use mit.Mr.System.Files.{IsFair, Right}
use mit.Mr.System.Sound.{Sound}
use mit.Mr.System.Steps.{Goes}
use mit.Mr.System.Reached.{run-Sound, step-Goes}

reduce_tasks-idle : (now i n j : ℕ) → task_at (reduce_tasks now i n) is_finished j ≡ false
reduce_tasks-idle now i zero j = refl
reduce_tasks-idle now i (suc n) zero = refl
reduce_tasks-idle now i (suc n) (suc j) = reduce_tasks-idle now (i + 1) n j

pub tasks-idle :
    (now i k n j : ℕ) (files : List String)
    → task_at (map_tasks now i files ++ reduce_tasks now k n) is_finished j ≡ false
tasks-idle now i k n j [] = reduce_tasks-idle now k n j
tasks-idle now i k n zero (f ∷ files) = refl
tasks-idle now i k n (suc j) (f ∷ files) = tasks-idle now (i + 1) k n j files

module _ (job : Job) (now : ℕ) (files : List String) (n : ℕ) where
  pub start-Sound : Sound job (length files) n (start now files n)
  unfolding start make_coordinator
  start-Sound =
      let idle : (j : ℕ) → task_at (start now files n).coordinator.tasks is_finished j ≡ false =
        λ j. tasks-idle now 0 (length files) n j files in
      (
        record {
          sound = make-IsSound now files n;
          maps = refl;
          reduces = refl;
          inter_right = λ m r f e. absurd (ground (arith, e));
          outs_right = λ r f e. absurd (ground (arith, e));
          mapped = λ m below f. absurd (ground (arith, f, idle m));
          reduced = λ r below f. absurd (ground (arith, f, idle (r + length files)));
        },
        λ w. tt,
      )

  reached-Sound :
      (es : List Event)
      → IsFair job (length files)
      → Sound job (length files) n (run job (start now files n) es)
  reached-Sound es fair = run-Sound job (length files) n (start now files n) es fair start-Sound

-- The output file of a reduce task is there, and is right.
abbrev pub HasOutput : Job → ℕ → ℕ → ℕ → Option (List KeyValue) → Type 0
HasOutput job n_map n r none = ⊥
HasOutput job n_map n r (some lines) = Right job n_map n r lines

finished_at :
    (c : Coordinator) (phase : SchedulePhase)
    → owed c phase ≡ true
    → (elim phase [ map_phase ↦ false | reduce_phase ↦ false | done_phase ↦ true ]) ≡ true
    → (r : ℕ) → r < c.n_reduce
    → task_at c.tasks is_finished (r + c.n_map) ≡ true
finished_at c map_phase o d r below = cc
finished_at c reduce_phase o d r below = cc
finished_at c done_phase o d r below =
    let b : all_finished c.tasks c.n_map c.n_reduce ≡ true = ground (arith, o) in
    all_finished-each c.tasks c.n_map c.n_reduce (r + c.n_map) b (omega arith)
      (omega (arith, below))

HasOutput-found :
    (job : Job) (n_map n r : ℕ) (o : Option (List KeyValue))
    → has o ≡ true
    → ((f : List KeyValue) → o ≡ some f → Right job n_map n r f)
    → HasOutput job n_map n r o
HasOutput-found job n_map n r none h right = cc
HasOutput-found job n_map n r (some f) h right = right f refl

-- A whole job, with any number of workers, in whatever order they go on, ask the coordinator again
-- after ten seconds, lose calls and stop at any point: once the coordinator says that the job is done,
-- each reduce task has its output file. For each key, the file of its own reduce task
-- `ihash key % n` has the line of the sequential program for the key, and every other file has none.
-- The hypotheses on the job are those of `IsFair`; the directory has no intermediate and no output
-- files at the start.
pub done-HasOutput :
    (job : Job) (now : ℕ) (files : List String) (n : ℕ) (es : List Event) (r : ℕ)
    → IsFair job (length files)
    → is_done (run job (start now files n) es).coordinator ≡ true
    → r < n
    → HasOutput job (length files) n r ((run job (start now files n) es).outs r)
done-HasOutput job now files n es r fair done below =
    let s = run job (start now files n) es in
    let right = (reached-Sound job now files n es fair).0 in
    let finished =
      finished_at s.coordinator s.coordinator.phase right.sound.true_phase done r
        (omega (arith, below, right.reduces)) in
    HasOutput-found job (length files) n r (s.outs r)
      (right.reduced r below
        (ap (λ k. task_at s.coordinator.tasks is_finished (r + k)) (sym right.maps) ∙ finished))
      (right.outs_right r)

-- Whatever has happened in a job so far, the next event, of any worker, makes the coordinator not
-- panic on an index out of range, under the hypotheses on the job of `IsFair`.
pub step-goes_on :
    (job : Job) (now : ℕ) (files : List String) (n : ℕ) (es : List Event) (e : Event)
    → IsFair job (length files)
    → (s : System) × (step job (run job (start now files n) es) e ≡ some s)
step-goes_on job now files n es e fair =
    let s = run job (start now files n) es in
    let goes = step-Goes job (length files) n s e fair (reached-Sound job now files n es fair) in
    elim (Option-cases (step job s e)) [
      | inl stuck ↦ absurd (subst (Goes job (length files) n) stuck goes)
      | inr going ↦ going
    ]
