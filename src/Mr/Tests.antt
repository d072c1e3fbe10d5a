-- ===== src/Mr/Tests.antt =====
-- The theorems on the coordinator (src/mr/coordinator.go) at a job of two files and one reduce task.
use mit.Base.{
  arith, ◌∙◌, ℕ, ◌+◌, ◌%◌, ◌==◌, if◌then◌else◌, ◌≡◌, length, refl, String, true, false, List, [],
  ◌∷◌, map,
}
use mit.Mr.{
  Coordinator, TaskStatus, Event, beat, report_of, JobType, make_coordinator, run, step, heartbeat,
  report, close_phase, all_finished, find_task, is_done, is_finished, is_available, task_at,
  waiting,
}
use mit.Mr.Kept.{IsSound}
use mit.Mr.Worker.{KeyValue, ihash, reduce_file}
use mit.Mr.Shuffle.{values_of, files as shuffled}
use mit.Mr.Reduce.{occurrences}
use mit.Mr.Sequential.{
  SameValues, sequential, concat, gathered, gathered_from, reduce_file-sequential,
}
use Prim.Native.String.{compare}
use text.Mathlib.Text.{is_le}
use mit.Mr.Phases.{Completed, run-Completed, run-IsSound, run-keeps_finished, empty_job-waits}
use mit.Mr.Assign.{Answers, heartbeat-Answers}

abbrev pub files : List String
files = "a.txt" ∷ "b.txt" ∷ []

abbrev done_map : ℕ → Event
done_map i =
    report_of (record { job_type = JobType.map_job; task_id = i; status = TaskStatus.finished })

-- The second task is given up by a worker and handed out again after eleven seconds.
abbrev events : List Event
events =
    beat 1
    ∷ beat 2
    ∷ beat 3
    ∷ done_map 0
    ∷ beat 14
    ∷ done_map 1
    ∷ beat 15
    ∷ report_of
        (record { job_type = JobType.reduce_job; task_id = 0; status = TaskStatus.finished })
    ∷ []

run-Completed_example :
    let c = run (make_coordinator 0 files 1) events in
    (length c.tasks ≡ c.n_map + c.n_reduce) × Completed c c.phase
run-Completed_example = run-Completed 0 files 1 events

-- The job of the example is done at the end.
events_done : is_done (run (make_coordinator 0 files 1) events) ≡ true
unfolding run step heartbeat report close_phase all_finished find_task make_coordinator
events_done = refl

abbrev begun : Coordinator
begun = run (make_coordinator 0 files 1) (beat 1 ∷ done_map 0 ∷ [])

begun-IsSound : IsSound begun
begun-IsSound = run-IsSound 0 files 1 (beat 1 ∷ done_map 0 ∷ [])

first_finished : task_at begun.tasks is_finished 0 ≡ true
unfolding run step heartbeat report close_phase all_finished find_task make_coordinator
first_finished = refl

run-keeps_finished_example :
    (task_at (run begun events).tasks is_finished 0 ≡ true)
    × ((now : ℕ) → task_at (run begun events).tasks (is_available now) 0 ≡ false)
run-keeps_finished_example = run-keeps_finished begun events 0 begun-IsSound first_finished

heartbeat-Answers_example : Answers begun 5 begun.phase (heartbeat begun 5)
heartbeat-Answers_example = heartbeat-Answers begun 5

empty_job-waits_example :
    let c = run (make_coordinator 0 [] 3) (map beat (1 ∷ 9 ∷ [])) in
    (is_done c ≡ false) × ((heartbeat c 20).1 ≡ waiting c)
empty_job-waits_example = empty_job-waits 0 3 (1 ∷ 9 ∷ []) 20

abbrev pub pair : String → String → KeyValue
pair key value = record { key = key; value = value }

-- The output of two map tasks, each in the order of its keys.
abbrev emitted : List (List KeyValue)
emitted =
    (pair "a" "1" ∷ pair "a" "2" ∷ pair "b" "3" ∷ []) ∷ (pair "a" "4" ∷ pair "c" "5" ∷ []) ∷ []

-- Sorting by the keys, by insertion.
unfoldable pub insert_pair : KeyValue → List KeyValue → List KeyValue
insert_pair kv [] = kv ∷ []
insert_pair kv (x ∷ xs) =
    let rest = insert_pair kv xs in if is_le (compare kv.key x.key) then kv ∷ x ∷ xs else x ∷ rest

unfoldable pub sort_pairs : List KeyValue → List KeyValue
unfolding insert_pair
sort_pairs [] = []
sort_pairs (kv ∷ kvs) = insert_pair kv (sort_pairs kvs)

insert_pair-Same :
    (key v : String) (kv : KeyValue) (kvs : List KeyValue)
    → occurrences v (values_of key (insert_pair kv kvs)) ≡ occurrences v (values_of key (kv ∷ kvs))
unfolding insert_pair values_of occurrences
insert_pair-Same key v kv [] = refl
insert_pair-Same key v kv (x ∷ xs) = ground (arith, insert_pair-Same key v kv xs)

pub sort_pairs-Same :
    (key : String) (kvs : List KeyValue)
    → SameValues (values_of key (sort_pairs kvs)) (values_of key kvs)
unfolding sort_pairs values_of occurrences
sort_pairs-Same key [] v = refl
sort_pairs-Same key (kv ∷ kvs) v =
    insert_pair-Same key v kv (sort_pairs kvs) ∙ ground (arith, sort_pairs-Same key kvs v)

in_order : gathered (sort_pairs (concat emitted)) ≡ true
unfolding gathered gathered_from sort_pairs insert_pair values_of
in_order = refl

reduce_file-sequential_example :
    values_of "a" (reduce_file (λ ks. ks) (λ key vs. key) (shuffled 3 2 "a" sort_pairs emitted)) ≡ (
      if ihash "a" % 3 == 2
      then values_of "a" (sequential (λ key vs. key) (sort_pairs (concat emitted)))
      else [])
reduce_file-sequential_example =
    reduce_file-sequential sort_pairs (λ ks. ks) (λ key vs. key) 3 2 emitted "a"
      (λ vs ws same. refl) (sort_pairs-Same "a") in_order (λ ks. refl)
