-- ===== src/Mr/System/Tests.antt =====
-- The theorems on a whole job (src/mr/coordinator.go, src/mr/worker.go) at two files, one reduce task,
-- a worker that crashes in its map task and one that does all the work.
use mit.Base.{ℕ, zero, suc, ◌≡◌, refl, true, List, [], ◌∷◌, map, arith}
use mit.Mr.{is_done, make_coordinator, heartbeat, report, close_phase, all_finished, find_task}
use mit.Mr.Worker.{KeyValue}
use mit.Mr.Sequential.{concat, gathered, gathered_from}
use mit.Mr.Shuffle.{values_of}
use mit.Mr.System.Completion.{can_finish}
use mit.Mr.System.{resting, Event, go, die, Job, advance, step, run, start}
use mit.Mr.System.Files.{IsFair, inputs}
use mit.Mr.System.Outputs.{HasOutput, done-HasOutput}
use mit.Mr.Tests.{pair, files, insert_pair, sort_pairs, sort_pairs-Same}

abbrev pairs : ℕ → List KeyValue
pairs zero = pair "b" "3" ∷ pair "a" "1" ∷ pair "a" "2" ∷ []
pairs (suc m) = pair "a" "4" ∷ pair "c" "5" ∷ []

abbrev job : Job
job = record {
  pairs = pairs;
  sort = sort_pairs;
  listing = λ fs. fs;
  sort_strings = λ ks. ks;
  reducef = λ key vs. key;
}

in_order : gathered (sort_pairs (concat (inputs job.pairs 2))) ≡ true
unfolding gathered gathered_from sort_pairs insert_pair values_of
in_order = refl

job-IsFair : IsFair job 2
job-IsFair = record {
  blind = λ key vs ws same. refl;
  permutes = λ key kvs. sort_pairs-Same key kvs;
  gathers = in_order;
  lists = λ key fs v. refl;
  keeps = λ key ks. refl;
}

-- Worker 1 crashes in map task 0, which worker 0 does again after eleven seconds.
abbrev pub events : List Event
events =
    go 1 1
    ∷ go 1 2
    ∷ die 1
    ∷ go 0 3
    ∷ go 0 3
    ∷ go 0 3
    ∷ go 0 4
    ∷ go 0 5
    ∷ go 0 20
    ∷ go 0 20
    ∷ go 0 21
    ∷ go 0 21
    ∷ go 0 22
    ∷ go 0 22
    ∷ go 0 23
    ∷ go 0 24
    ∷ go 0 25
    ∷ []

job_done : is_done (run job (start 0 files 1) events).coordinator ≡ true
unfolding run step advance start heartbeat report close_phase all_finished find_task
    make_coordinator
job_done = refl

done-HasOutput_example : HasOutput job 2 1 0 ((run job (start 0 files 1) events).outs 0)
done-HasOutput_example = done-HasOutput job 0 files 1 events 0 job-IsFair job_done (omega arith)

abbrev crash : List Event
crash = go 1 1 ∷ go 1 2 ∷ die 1 ∷ []

still_resting : (run job (start 0 files 1) crash).workers 0 ≡ resting
unfolding run step advance start heartbeat find_task make_coordinator
still_resting = refl

can_finish_example :
    (times : List ℕ) × (is_done
        (run job (run job (start 0 files 1) crash) (map (go 0) times)).coordinator
      ≡ true)
can_finish_example =
    can_finish job 0 "a.txt" ("b.txt" ∷ []) 1 crash 0 job-IsFair (omega arith) still_resting
