-- ===== src/Mr.antt =====
-- The coordinator of MapReduce, src/mr/coordinator.go: each turn of the loop in `schedule` is one
-- step, a heartbeat or a report. What is proved is in the modules below.
pub mod Kept
pub mod Worker
pub mod Shuffle
pub mod Reduce
pub mod Sequential
pub mod Phases
pub mod Assign
pub mod System
pub mod WordCount
pub mod Tests
use mit.Base.{
  ℕ, zero, suc, ◌+◌, ◌-◌, String, Bool, true, false, Option, none, some, List, [], ◌∷◌, ◌++◌,
  length, get_elem?, set, replicate, ltb, if◌then◌else◌,
}

pub data TaskStatus : Type 0 where
  idle paused running finished : TaskStatus

pub data SchedulePhase : Type 0 where
  map_phase reduce_phase done_phase : SchedulePhase

pub data JobType : Type 0 where
  map_job reduce_job wait_job complete_job : JobType

-- The start time is in seconds, as `Unix` gives it.
pub record Task : Type 0 where
  pub file_name : String
  pub id : ℕ
  pub start_time : ℕ
  pub status : TaskStatus

pub record Coordinator : Type 0 where
  pub files : List String
  pub n_reduce : ℕ
  pub n_map : ℕ
  pub phase : SchedulePhase
  pub tasks : List Task

-- The pointer into `tasks` is its index, `none` for nil.
pub record HeartbeatResponse : Type 0 where
  pub job_type : JobType
  pub task_id : ℕ
  pub task_ptr : Option ℕ
  pub n_reduce : ℕ

pub record ReportRequest : Type 0 where
  pub job_type : JobType
  pub task_id : ℕ
  pub status : TaskStatus

-- Idle or paused, or running for more than ten seconds.
abbrev pub is_available : ℕ → Task → Bool
is_available now t = elim t.status [
  | idle ↦ true
  | paused ↦ true
  | running ↦ ltb (t.start_time + 10) now
  | finished ↦ false
]

abbrev pub is_finished : Task → Bool
is_finished t = elim t.status [ idle ↦ false | paused ↦ false | running ↦ false | finished ↦ true ]

-- What both branches of the loop do to a task that is handed out.
abbrev pub taken : ℕ → Task → Task
taken now t = record t { status = TaskStatus.running; start_time = now }

abbrev pub task_at : List Task → (Task → Bool) → ℕ → Bool
task_at ts p i = elim (get_elem? ts i) [ none ↦ false | some t ↦ p t ]

abbrev pub take_at : ℕ → List Task → ℕ → List Task
take_at now ts i = elim (get_elem? ts i) [ none ↦ ts | some t ↦ set ts i (taken now t) ]

-- The loop of a heartbeat over the tasks from `i` on; `tasks` has a place for each of them.
unfoldable pub find_task : ℕ → List Task → ℕ → ℕ → Option ℕ
find_task now ts i zero = none
find_task now ts i (suc n) =
    let rest = find_task now ts (i + 1) n in
    if task_at ts (is_available now) i then some i else rest

abbrev pub waiting : Coordinator → HeartbeatResponse
waiting c = record {
  job_type = JobType.wait_job;
  task_id = 0;
  task_ptr = none;
  n_reduce = c.n_reduce;
}

-- The task at index `i` is handed out, as the task `i - first` of its kind.
abbrev pub hand_out : Coordinator → ℕ → JobType → ℕ → Option ℕ → Coordinator × HeartbeatResponse
hand_out c now job first none = (c, waiting c)
hand_out c now job first (some i) = (
  record c { tasks = take_at now c.tasks i },
  record { job_type = job; task_id = i - first; task_ptr = some i; n_reduce = c.n_reduce },
)

abbrev pub heartbeat_in : Coordinator → ℕ → SchedulePhase → Coordinator × HeartbeatResponse
heartbeat_in c now done_phase = (
  c,
  record { job_type = JobType.complete_job; task_id = 0; task_ptr = none; n_reduce = c.n_reduce },
)
heartbeat_in c now map_phase = hand_out c now JobType.map_job 0 (find_task now c.tasks 0 c.n_map)
heartbeat_in c now reduce_phase =
    hand_out c now JobType.reduce_job c.n_map (find_task now c.tasks c.n_map c.n_reduce)

unfoldable pub heartbeat : Coordinator → ℕ → Coordinator × HeartbeatResponse
unfolding find_task
heartbeat c now = heartbeat_in c now c.phase

-- The loops that set `flag2Change`.
unfoldable pub all_finished : List Task → ℕ → ℕ → Bool
all_finished ts i zero = true
all_finished ts i (suc n) =
    let rest = all_finished ts (i + 1) n in if task_at ts is_finished i then rest else false

abbrev pub next_phase : Coordinator → SchedulePhase → SchedulePhase
next_phase c reduce_phase =
    if all_finished c.tasks c.n_map c.n_reduce
    then SchedulePhase.done_phase
    else SchedulePhase.reduce_phase
next_phase c map_phase =
    if all_finished c.tasks 0 c.n_map then SchedulePhase.reduce_phase else SchedulePhase.map_phase
next_phase c done_phase = SchedulePhase.done_phase

-- The two tests after a report; the phase that the first one sets is never that of the second.
unfoldable pub close_phase : Coordinator → Coordinator
unfolding all_finished
close_phase c = record c { phase = next_phase c c.phase }

abbrev pub finish_at : Coordinator → ℕ → Option Task → Option Coordinator
finish_at c i none = none
finish_at c i (some t) =
    some
      (close_phase (record c { tasks = set c.tasks i (record t { status = TaskStatus.finished }) }))

abbrev pub reported : Coordinator → ReportRequest → ℕ
reported c request = elim request.job_type [
  | map_job ↦ request.task_id
  | reduce_job ↦ request.task_id + c.n_map
  | wait_job ↦ request.task_id
  | complete_job ↦ request.task_id
]

-- `none` for the panic on an index out of range.
unfoldable pub report : Coordinator → ReportRequest → Option Coordinator
unfolding close_phase
report c request = finish_at c (reported c request) (get_elem? c.tasks (reported c request))

abbrev pub map_tasks : ℕ → ℕ → List String → List Task
map_tasks now i [] = []
map_tasks now i (f ∷ fs) =
    record { file_name = f; id = i; start_time = now; status = TaskStatus.idle }
    ∷ map_tasks now (i + 1) fs

abbrev pub reduce_tasks : ℕ → ℕ → ℕ → List Task
reduce_tasks now i zero = []
reduce_tasks now i (suc n) =
    record { file_name = ""; id = i; start_time = now; status = TaskStatus.idle }
    ∷ reduce_tasks now (i + 1) n

unfoldable pub make_coordinator : ℕ → List String → ℕ → Coordinator
make_coordinator now files n_reduce = record {
  files = files;
  n_reduce = n_reduce;
  n_map = length files;
  phase = SchedulePhase.map_phase;
  tasks = map_tasks now 0 files ++ reduce_tasks now (length files) n_reduce;
}

-- `Done`.
abbrev pub is_done : Coordinator → Bool
is_done c = elim c.phase [ map_phase ↦ false | reduce_phase ↦ false | done_phase ↦ true ]

-- What reaches the loop: a heartbeat at a time, or a report.
pub data Event : Type 0 where
  beat : ℕ → Event
  report_of : ReportRequest → Event

unfoldable pub step : Coordinator → Event → Option Coordinator
step c (beat now) = some (heartbeat c now).0
step c (report_of request) = report c request

-- The last state, of the events or before a panic.
unfoldable pub run : Coordinator → List Event → Coordinator
run c [] = c
run c (e ∷ es) = elim (step c e) [ none ↦ c | some c' ↦ run c' es ]
