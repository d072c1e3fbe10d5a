-- ===== src/Mr/System/Order.antt =====
-- The order of the phases in a whole job, src/mr/coordinator.go: a phase is over as soon as its tasks
-- are finished.
use mathlib.Core.Path.{subst}
use mit.Base.{
  ℕ, zero, suc, ◌+◌, ◌<◌, ◌≡◌, refl, ◌∙◌, ap, sym, inl, inr, true, false, Bool, Option, none, some,
  List, get_elem?, set, if◌then◌else◌, arith,
}
use mit.Mr.{
  Coordinator, SchedulePhase, map_phase, reduce_phase, done_phase, Task, TaskStatus, JobType,
  is_finished, task_at, find_task, heartbeat, heartbeat_in, hand_out, all_finished, next_phase,
  close_phase, finish_at, report, reported, ReportRequest,
}
use mit.Mr.Kept.{same_in}
use mit.Mr.Phases.{all_finished-each}
use mit.Mr.System.{
  Worker, resting, mapping, reporting_map, reading, renaming, cleaning, reporting_reduce, gone,
  System, assigned,
}
use mit.Mr.System.Tasks.{heartbeat-finished, task_at-set_other}

-- In a phase some task of it is not finished, and in the map phase no reduce task is.
abbrev pub Ordered : Coordinator → SchedulePhase → Type 0
Ordered c map_phase =
    (all_finished c.tasks 0 c.n_map ≡ false)
    × ((r : ℕ) → r < c.n_reduce → task_at c.tasks is_finished (r + c.n_map) ≡ false)
Ordered c reduce_phase = all_finished c.tasks c.n_map c.n_reduce ≡ false
Ordered c done_phase = Unit

-- What a worker may do in the map phase.
abbrev pub Early : Worker → Type 0
Early resting = Unit
Early (mapping m i) = Unit
Early (reporting_map m) = Unit
Early (reading r) = ⊥
Early (renaming r lines) = ⊥
Early (cleaning r) = ⊥
Early (reporting_reduce r) = ⊥
Early gone = Unit

abbrev pub Allows : SchedulePhase → Worker → Type 0
Allows map_phase k = Early k
Allows reduce_phase k = Unit
Allows done_phase k = Unit

abbrev pub InOrder : System → Type 0
InOrder s =
    Ordered s.coordinator s.coordinator.phase × ((w : ℕ) → Allows s.coordinator.phase (s.workers w))

all_finished-fewer :
    (ts ts' : List Task) (i n : ℕ)
    → ((j : ℕ) → task_at ts' is_finished j ≡ true → task_at ts is_finished j ≡ true)
    → all_finished ts' i n ≡ true
    → all_finished ts i n ≡ true
unfolding all_finished
all_finished-fewer ts ts' i zero fewer h = refl
all_finished-fewer ts ts' i (suc n) fewer h =
    ground (arith, h, fewer i, all_finished-fewer ts ts' (i + 1) n fewer)

not_true : (b : Bool) → (b ≡ true → ⊥) → b ≡ false
not_true true h = absurd (h refl)
not_true false h = refl

-- A heartbeat finishes nothing.
Ordered-fewer :
    (c c' : Coordinator) (phase : SchedulePhase)
    → c'.n_map ≡ c.n_map
    → c'.n_reduce ≡ c.n_reduce
    → ((j : ℕ) → task_at c'.tasks is_finished j ≡ true → task_at c.tasks is_finished j ≡ true)
    → Ordered c phase
    → Ordered c' phase
Ordered-fewer c c' map_phase em er fewer (some_left, no_reduce) = (
  not_true (all_finished c'.tasks 0 c'.n_map) (λ h.
      let all = all_finished-fewer c.tasks c'.tasks 0 c'.n_map fewer h in
      let all' : all_finished c.tasks 0 c.n_map ≡ true =
        ap (all_finished c.tasks 0) (sym em) ∙ all in
      ground (arith, all', some_left)),
  λ r below. not_true (task_at c'.tasks is_finished (r + c'.n_map)) (λ h.
      let before : task_at c.tasks is_finished (r + c.n_map) ≡ true =
        ap (λ k. task_at c.tasks is_finished (r + k)) (sym em) ∙ fewer (r + c'.n_map) h in
      let never = no_reduce r (omega (arith, below, er)) in ground (arith, before, never)),
)
Ordered-fewer c c' reduce_phase em er fewer some_left =
    not_true (all_finished c'.tasks c'.n_map c'.n_reduce) (λ h.
      let all = all_finished-fewer c.tasks c'.tasks c'.n_map c'.n_reduce fewer h in
      let all' : all_finished c.tasks c.n_map c.n_reduce ≡ true =
        ap (λ k. all_finished c.tasks k c.n_reduce) (sym em)
        ∙ ap (all_finished c.tasks c'.n_map) (sym er)
        ∙ all in
      ground (arith, all', some_left))
Ordered-fewer c c' done_phase em er fewer h = tt

assigned-Allows :
    (c : Coordinator) (now : ℕ) (phase : SchedulePhase)
    → Allows phase (assigned (heartbeat_in c now phase).1)
assigned-Allows c now map_phase = go_on (find_task now c.tasks 0 c.n_map)
  where
    go_on : (o : Option ℕ) → Early (assigned (hand_out c now JobType.map_job 0 o).1)
    go_on none = tt
    go_on (some i) = tt
assigned-Allows c now reduce_phase = tt
assigned-Allows c now done_phase = tt

pub beat-Ordered :
    (c : Coordinator) (now : ℕ)
    → Ordered c c.phase
    → Ordered (heartbeat c now).0 (heartbeat c now).0.phase
      × ((heartbeat c now).0.phase ≡ c.phase)
      × Allows c.phase (assigned (heartbeat c now).1)
unfolding heartbeat
beat-Ordered c now o =
    let (p, em, er) = same_in c now c.phase in
    let c' = (heartbeat_in c now c.phase).0 in
    (
      subst (Ordered c') (sym p)
          (Ordered-fewer c c' c.phase em er (λ j f. heartbeat-finished c now j f) o),
      p,
      assigned-Allows c now c.phase,
    )

-- The tasks that a report may name in a phase.
abbrev pub Named : Coordinator → SchedulePhase → ℕ → Type 0
Named c map_phase i = i < c.n_map
Named c reduce_phase i = Unit
Named c done_phase i = Unit

Ordered-if :
    (c : Coordinator) (b : Bool) (p q : SchedulePhase)
    → (b ≡ true → Ordered c p)
    → (b ≡ false → Ordered c q)
    → Ordered c (if b then p else q)
Ordered-if c true p q yes_so no_so = yes_so refl
Ordered-if c false p q yes_so no_so = no_so refl

next-Ordered :
    (c : Coordinator) (i : ℕ) (v : Task) (phase : SchedulePhase)
    → 0 < c.n_reduce
    → Named c phase i
    → Ordered c phase
    → let c' = record c { tasks = set c.tasks i v } in Ordered c' (next_phase c' phase)
unfolding all_finished
next-Ordered c i v map_phase some_reduce below (some_left, no_reduce) =
    let ts = set c.tasks i v in
    let still : (r : ℕ) → r < c.n_reduce → task_at ts is_finished (r + c.n_map) ≡ false = λ r lt.
      not_true (task_at ts is_finished (r + c.n_map)) (λ h.
        elim (task_at-set_other c.tasks i (r + c.n_map) v h) [
          | inl this ↦ omega (arith, this, below)
          | inr before ↦ let never = no_reduce r lt in ground (arith, before, never)
        ]) in
    Ordered-if (record c { tasks = ts }) (all_finished ts 0 c.n_map) SchedulePhase.reduce_phase
      SchedulePhase.map_phase
      (λ all. not_true (all_finished ts c.n_map c.n_reduce) (λ h.
        let first : task_at ts is_finished c.n_map ≡ true =
          all_finished-each ts c.n_map c.n_reduce c.n_map h (omega arith)
            (omega (arith, some_reduce)) in
        let never : task_at ts is_finished c.n_map ≡ false =
          ap (task_at ts is_finished) (omega arith) ∙ still 0 some_reduce in
        ground (arith, first, never)))
      (λ left. (left, still))
next-Ordered c i v reduce_phase some_reduce below some_left =
    let ts = set c.tasks i v in
    Ordered-if (record c { tasks = ts }) (all_finished ts c.n_map c.n_reduce)
      SchedulePhase.done_phase SchedulePhase.reduce_phase (λ all. tt) (λ left. left)
next-Ordered c i v done_phase some_reduce below h = tt

next-Allows :
    (c : Coordinator) (phase : SchedulePhase) (k : Worker)
    → Allows phase k
    → Allows (next_phase c phase) k
next-Allows c map_phase k h = allow (all_finished c.tasks 0 c.n_map)
  where
    allow :
        (b : Bool) → Allows (if b then SchedulePhase.reduce_phase else SchedulePhase.map_phase) k
    allow true = tt
    allow false = h
next-Allows c reduce_phase k h = allow (all_finished c.tasks c.n_map c.n_reduce)
  where
    allow :
        (b : Bool) → Allows (if b then SchedulePhase.done_phase else SchedulePhase.reduce_phase) k
    allow true = tt
    allow false = tt
next-Allows c done_phase k h = h

-- What a report keeps.
abbrev pub Orders : Coordinator → Option Coordinator → Type 0
Orders c none = Unit
Orders c (some c') = Ordered c' c'.phase × ((k : Worker) → Allows c.phase k → Allows c'.phase k)

finish_at-Orders :
    (c : Coordinator) (i : ℕ) (o : Option Task)
    → 0 < c.n_reduce
    → Named c c.phase i
    → Ordered c c.phase
    → Orders c (finish_at c i o)
unfolding close_phase
finish_at-Orders c i none some_reduce named o = tt
finish_at-Orders c i (some t) some_reduce named o =
    let done = record t { status = TaskStatus.finished } in
    let c' = record c { tasks = set c.tasks i done } in
    (next-Ordered c i done c.phase some_reduce named o, λ k h. next-Allows c' c.phase k h)

pub report-Orders :
    (c : Coordinator) (request : ReportRequest)
    → 0 < c.n_reduce
    → Named c c.phase (reported c request)
    → Ordered c c.phase
    → Orders c (report c request)
unfolding report
report-Orders c request some_reduce named o =
    finish_at-Orders c (reported c request) (get_elem? c.tasks (reported c request)) some_reduce
      named o
