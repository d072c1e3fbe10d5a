-- ===== src/Mr/Kept.antt =====
-- What every turn of the coordinator's loop keeps, src/mr/coordinator.go: no task is unfinished, and
-- the phase stays a true one.
use mit.Base.{
  ℕ, zero, suc, ◌+◌, ◌≡◌, refl, ap, ◌∙◌, inl, inr, Option-cases, String, Bool, true, false, Option,
  none, some, List, [], ◌∷◌, length, length-append, length-set, get_elem?, set, if◌then◌else◌,
  arith,
}
use mit.Mr.Assign.{find_task-some}
use mit.Mr.{
  TaskStatus, SchedulePhase, map_phase, reduce_phase, done_phase, Task, Coordinator, is_available,
  is_finished, taken, task_at, take_at, find_task, heartbeat, heartbeat_in, hand_out, JobType,
  next_phase, finish_at, map_tasks, reduce_tasks, all_finished, close_phase, reported, report,
  make_coordinator, Event, beat, report_of, step, run,
}

-- What a phase owes: in the reduce phase all map tasks are finished, and at the end all tasks are.
abbrev pub owed : Coordinator → SchedulePhase → Bool
owed c map_phase = true
owed c reduce_phase = all_finished c.tasks 0 c.n_map
owed c done_phase =
    if all_finished c.tasks 0 c.n_map then all_finished c.tasks c.n_map c.n_reduce else false

-- There is a place for each task, and the phase is what it says.
pub record IsSound (c : Coordinator) : Type 0 where
  pub sized : length c.tasks ≡ c.n_map + c.n_reduce
  pub true_phase : owed c c.phase ≡ true

-- A write that unfinishes no task.
task_at-set :
    (ts : List Task) (i j : ℕ) (t v : Task)
    → get_elem? ts i ≡ some t
    → (is_finished t ≡ true → is_finished v ≡ true)
    → task_at ts is_finished j ≡ true
    → task_at (set ts i v) is_finished j ≡ true
task_at-set [] i j t v found keeps h = h
task_at-set (x ∷ ts) zero zero t v found keeps h = ground (arith, found, keeps, h)
task_at-set (x ∷ ts) zero (suc j) t v found keeps h = h
task_at-set (x ∷ ts) (suc i) zero t v found keeps h = h
task_at-set (x ∷ ts) (suc i) (suc j) t v found keeps h = task_at-set ts i j t v found keeps h

all_finished-set :
    (ts : List Task) (i : ℕ) (t v : Task) (j n : ℕ)
    → get_elem? ts i ≡ some t
    → (is_finished t ≡ true → is_finished v ≡ true)
    → all_finished ts j n ≡ true
    → all_finished (set ts i v) j n ≡ true
unfolding all_finished
all_finished-set ts i t v j zero found keeps h = refl
all_finished-set ts i t v j (suc n) found keeps h =
    ground (
      arith,
      h,
      task_at-set ts i j t v found keeps,
      all_finished-set ts i t v (j + 1) n found keeps,
    )

-- Whether every task that is finished stays so.
abbrev pub Keeps : List Task → List Task → Type 0
Keeps ts ts' =
    (length ts' ≡ length ts)
    × ((j n : ℕ) → all_finished ts j n ≡ true → all_finished ts' j n ≡ true)
    × ((j : ℕ) → task_at ts is_finished j ≡ true → task_at ts' is_finished j ≡ true)

Keeps-set :
    (ts : List Task) (i : ℕ) (t v : Task)
    → get_elem? ts i ≡ some t
    → (is_finished t ≡ true → is_finished v ≡ true)
    → Keeps ts (set ts i v)
Keeps-set ts i t v found keeps = (
  length-set ts i v,
  λ j n h. all_finished-set ts i t v j n found keeps h,
  λ j h. task_at-set ts i j t v found keeps h,
)

Keeps-take_at :
    (now : ℕ) (ts : List Task) (i : ℕ)
    → task_at ts (is_available now) i ≡ true
    → Keeps ts (take_at now ts i)
Keeps-take_at now ts i h = elim (Option-cases (get_elem? ts i)) [
  | inl missing ↦ ground (arith, missing, h)
  | inr (t, found) ↦
      let busy : is_finished t ≡ false = ground (arith, found, h) in
      rw (found, take_at) (Keeps-set ts i t (taken now t) found (λ f. ground (arith, f, busy)))
]

kept_hand_out :
    (c : Coordinator) (now : ℕ) (job : JobType) (first count : ℕ) (o : Option ℕ)
    → find_task now c.tasks first count ≡ o
    → Keeps c.tasks (hand_out c now job first o).0.tasks
kept_hand_out c now job first count none h = (refl, λ j n f. f, λ j f. f)
kept_hand_out c now job first count (some i) h =
    Keeps-take_at now c.tasks i (find_task-some now c.tasks first count i h).2

pub kept_in :
    (c : Coordinator) (now : ℕ) (phase : SchedulePhase)
    → Keeps c.tasks (heartbeat_in c now phase).0.tasks
kept_in c now map_phase =
    kept_hand_out c now JobType.map_job 0 c.n_map (find_task now c.tasks 0 c.n_map) refl
kept_in c now reduce_phase =
    kept_hand_out c now JobType.reduce_job c.n_map c.n_reduce
      (find_task now c.tasks c.n_map c.n_reduce) refl
kept_in c now done_phase = (refl, λ j n f. f, λ j f. f)

pub same_in :
    (c : Coordinator) (now : ℕ) (phase : SchedulePhase)
    → let c' = (heartbeat_in c now phase).0 in
      (c'.phase ≡ c.phase) × (c'.n_map ≡ c.n_map) × (c'.n_reduce ≡ c.n_reduce)
same_in c now map_phase = ground arith
same_in c now reduce_phase = ground arith
same_in c now done_phase = (refl, refl, refl)

-- What is owed stays so while no task is unfinished.
owed-Keeps :
    (c c' : Coordinator) (phase : SchedulePhase)
    → Keeps c.tasks c'.tasks
    → c'.n_map ≡ c.n_map
    → c'.n_reduce ≡ c.n_reduce
    → owed c phase ≡ true
    → owed c' phase ≡ true
owed-Keeps c c' map_phase k m r h = refl
owed-Keeps c c' reduce_phase k m r h = rw m (k.1 0 c.n_map h)
owed-Keeps c c' done_phase k m r h =
    let a : all_finished c.tasks 0 c.n_map ≡ true = ground (arith, h) in
    let b : all_finished c.tasks c.n_map c.n_reduce ≡ true = ground (arith, h) in
    rw (m, r, k.1 0 c.n_map a, k.1 c.n_map c.n_reduce b) refl

heartbeat-IsSound : (c : Coordinator) (now : ℕ) → IsSound c → IsSound (heartbeat c now).0
unfolding heartbeat
heartbeat-IsSound c now v =
    let k = kept_in c now c.phase in
    let (p, m, r) = same_in c now c.phase in
    record {
      sized = ground (arith, k.0, m, r, v.sized);
      true_phase = rw p (owed-Keeps c (heartbeat_in c now c.phase).0 c.phase k m r v.true_phase);
    }

close_owed :
    (c : Coordinator) (phase : SchedulePhase)
    → owed c phase ≡ true
    → owed c (next_phase c phase) ≡ true
close_owed c map_phase h = ground (arith, h)
close_owed c reduce_phase h = ground (arith, h)
close_owed c done_phase h = h

close_phase-IsSound : (c : Coordinator) → IsSound c → IsSound (close_phase c)
unfolding close_phase
close_phase-IsSound c v = record {
  sized = v.sized;
  true_phase =
      owed-Keeps c (close_phase c) (next_phase c c.phase) (refl, λ j n f. f, λ j f. f) refl refl
        (close_owed c c.phase v.true_phase);
}

-- What a step does to the tasks and the counts, if the coordinator goes on.
abbrev pub Follows : Coordinator → Option Coordinator → Type 0
Follows c none = Unit
Follows c (some c') = (IsSound c') × Keeps c.tasks c'.tasks

finish_at-Follows :
    (c : Coordinator) (i : ℕ) (o : Option Task)
    → IsSound c
    → get_elem? c.tasks i ≡ o
    → Follows c (finish_at c i o)
unfolding close_phase
finish_at-Follows c i none v h = tt
finish_at-Follows c i (some t) v h =
    let done = record t { status = TaskStatus.finished } in
    let k = Keeps-set c.tasks i t done h (λ f. refl) in
    let c' = record c { tasks = set c.tasks i done } in
    (
      close_phase-IsSound c' (record {
        sized = k.0 ∙ v.sized;
        true_phase = owed-Keeps c c' c.phase k refl refl v.true_phase;
      }),
      k,
    )

pub step-Follows : (c : Coordinator) (e : Event) → IsSound c → Follows c (step c e)
unfolding step report heartbeat
step-Follows c (beat now) v = (heartbeat-IsSound c now v, kept_in c now c.phase)
step-Follows c (report_of request) v =
    finish_at-Follows c (reported c request) (get_elem? c.tasks (reported c request)) v refl

go_on-Follows :
    (c : Coordinator) (o : Option Coordinator) (es : List Event)
    → IsSound c
    → Follows c o
    → ((c' : Coordinator) → IsSound c' → Follows c' (some (run c' es)))
    → Follows c (some (elim o [ none ↦ c | some c' ↦ run c' es ]))
go_on-Follows c none es v f rest = (v, (refl, λ j n h. h, λ j h. h))
go_on-Follows c (some c') es v (v', k) rest =
    let (v'', l) = rest c' v' in
    (v'', (l.0 ∙ k.0, λ j n h. l.1 j n (k.1 j n h), λ j h. l.2 j (k.2 j h)))

pub run-Follows : (c : Coordinator) (es : List Event) → IsSound c → Follows c (some (run c es))
unfolding run
run-Follows c [] v = (v, (refl, λ j n h. h, λ j h. h))
run-Follows c (e ∷ es) v =
    go_on-Follows c (step c e) es v (step-Follows c e v) (λ c' v'. run-Follows c' es v')

length-map_tasks : (now i : ℕ) (fs : List String) → length (map_tasks now i fs) ≡ length fs
length-map_tasks now i [] = refl
length-map_tasks now i (f ∷ fs) = ap suc (length-map_tasks now (i + 1) fs)

length-reduce_tasks : (now i n : ℕ) → length (reduce_tasks now i n) ≡ n
length-reduce_tasks now i zero = refl
length-reduce_tasks now i (suc n) = ap suc (length-reduce_tasks now (i + 1) n)

pub make-IsSound :
    (now : ℕ) (files : List String) (n_reduce : ℕ) → IsSound (make_coordinator now files n_reduce)
unfolding make_coordinator
make-IsSound now files n_reduce = record {
  sized = ground (
    arith,
    length-append (map_tasks now 0 files) (reduce_tasks now (length files) n_reduce),
    length-map_tasks now 0 files,
    length-reduce_tasks now (length files) n_reduce,
  );
  true_phase = refl;
}
