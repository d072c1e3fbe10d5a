-- ===== src/Mr/System.antt =====
-- A whole job: the coordinator (src/mr/coordinator.go), the workers that run `Worker` of
-- src/mr/worker.go, and the directory of their files. What is proved is in the modules below.
pub mod Files
pub mod Tasks
pub mod Sound
pub mod Steps
pub mod Moves
pub mod Reached
pub mod Outputs
pub mod Order
pub mod InOrder
pub mod Work
pub mod Finish
pub mod Completion
pub mod Tests
use mit.Base.{
  ℕ, zero, suc, ◌+◌, ◌==◌, ltb, String, Bool, true, false, ◌||◌, ◌&&◌, Option, none, some, List, [],
  ◌∷◌, ◌++◌, if◌then◌else◌,
}
use mit.Mr.{
  Coordinator, JobType, map_job, reduce_job, wait_job, complete_job, TaskStatus, HeartbeatResponse,
  heartbeat, report, make_coordinator,
}
use mit.Mr.Worker.{KeyValue, map_file, reduce_file}

-- Where a worker stands: `mapping m i` has renamed the temporary files of map task `m` below `i`;
-- `renaming r lines` has read the files of reduce task `r` and written `lines` to a temporary file.
-- A worker that has returned, exited or crashed is `gone`.
pub data Worker : Type 0 where
  resting : Worker
  mapping : ℕ → ℕ → Worker
  reporting_map : ℕ → Worker
  reading : ℕ → Worker
  renaming : ℕ → List KeyValue → Worker
  cleaning : ℕ → Worker
  reporting_reduce : ℕ → Worker
  gone : Worker

-- `inter m r` is the file mr-out-m-r, `outs r` the file mr-out-r; `none` where there is no file.
pub record System : Type 0 where
  pub coordinator : Coordinator
  pub inter : ℕ → ℕ → Option (List KeyValue)
  pub outs : ℕ → Option (List KeyValue)
  pub workers : ℕ → Worker

pub data Event : Type 0 where
  go : ℕ → ℕ → Event
  lose : ℕ → Event
  die : ℕ → Event
  remove : ℕ → ℕ → Event

abbrev pub has : Option (List KeyValue) → Bool
has none = false
has (some f) = true

abbrev pub with_worker : System → ℕ → Worker → System
with_worker s w k = record s { workers = λ v. if w == v then k else s.workers v }

-- The rename to a name that exists already is left out.
abbrev pub kept_or : Option (List KeyValue) → List KeyValue → Option (List KeyValue)
kept_or none f = some f
kept_or (some old) f = some old

abbrev pub with_inter : System → ℕ → ℕ → Option (List KeyValue) → System
with_inter s m r f = record s { inter = λ m' r'. if m == m' && r == r' then f else s.inter m' r' }

abbrev pub with_out : System → ℕ → Option (List KeyValue) → System
with_out s r f = record s { outs = λ r'. if r == r' then f else s.outs r' }

-- The files of a reduce task from the map tasks below a number.
abbrev pub present : Option (List KeyValue) → List (List KeyValue)
present none = []
present (some f) = f ∷ []

abbrev pub files_of : (ℕ → ℕ → Option (List KeyValue)) → ℕ → ℕ → List (List KeyValue)
files_of inter r zero = []
files_of inter r (suc m) = files_of inter r m ++ present (inter m r)

abbrev pub assigned : HeartbeatResponse → Worker
assigned resp = elim resp.job_type [
  | map_job ↦ mapping resp.task_id 0
  | reduce_job ↦ reading resp.task_id
  | wait_job ↦ resting
  | complete_job ↦ gone
]

abbrev pub report_task : System → ℕ → JobType → ℕ → Option System
report_task s w job id =
    elim (report s.coordinator
      (record { job_type = job; task_id = id; status = TaskStatus.finished })) [
        | none ↦ none
        | some c ↦ some (with_worker (record s { coordinator = c }) w resting)
      ]

-- What `mapf` gives for the file of each map task, sort.Sort, the order of the names of a directory,
-- sort.Strings, and `reducef`.
pub record Job : Type 0 where
  pub pairs : ℕ → List KeyValue
  pub sort : List KeyValue → List KeyValue
  pub listing : List (List KeyValue) → List (List KeyValue)
  pub sort_strings : List String → List String
  pub reducef : String → List String → String

module _ (job : Job) where
  -- The next step of a worker; `none` for a panic of the coordinator.
  unfoldable pub advance : System → ℕ → ℕ → Worker → Option System
  advance s w now resting =
      let (c, resp) = heartbeat s.coordinator now in
      some (with_worker (record s { coordinator = c }) w (assigned resp))
  advance s w now (mapping m i) =
      let n = s.coordinator.n_reduce in
      if ltb i n
      then some (
          with_worker
            (with_inter s m i (kept_or (s.inter m i) (map_file job.sort n i (job.pairs m)))) w
            (mapping m (i + 1)))
      else some (with_worker s w (reporting_map m))
  advance s w now (reporting_map m) = report_task s w JobType.map_job m
  advance s w now (reading r) = some (
      with_worker s w (
        renaming r (
          reduce_file job.sort_strings job.reducef
            (job.listing (files_of s.inter r s.coordinator.n_map)))))
  advance s w now (renaming r lines) =
      some (with_worker (with_out s r (kept_or (s.outs r) lines)) w (cleaning r))
  advance s w now (cleaning r) = some (
      with_worker (record s { inter = λ m r'. if r == r' then none else s.inter m r' }) w
        (reporting_reduce r))
  advance s w now (reporting_reduce r) = report_task s w JobType.reduce_job r
  advance s w now gone = some s

  -- A call of the worker fails: a heartbeat leaves it a map task with no task, which it reads.
  abbrev pub after_loss : Worker → Worker
  after_loss resting = gone
  after_loss (reporting_map m) = resting
  after_loss (reporting_reduce r) = resting
  after_loss k = k

  -- A file goes while a worker cleans up, before the rest.
  abbrev pub removed : System → ℕ → Worker → System
  removed s m (cleaning r) = with_inter s m r none
  removed s m k = s

  unfoldable pub step : System → Event → Option System
  unfolding advance
  step s (go w now) = advance s w now (s.workers w)
  step s (lose w) = some (with_worker s w (after_loss (s.workers w)))
  step s (die w) = some (with_worker s w gone)
  step s (remove w m) = some (removed s m (s.workers w))

  -- The last system, of the events or before a panic.
  unfoldable pub run : System → List Event → System
  run s [] = s
  run s (e ∷ es) = elim (step s e) [ none ↦ s | some s' ↦ run s' es ]

unfoldable pub start : ℕ → List String → ℕ → System
unfolding make_coordinator
start now files n_reduce = record {
  coordinator = make_coordinator now files n_reduce;
  inter = λ m r. none;
  outs = λ r. none;
  workers = λ w. resting;
}
