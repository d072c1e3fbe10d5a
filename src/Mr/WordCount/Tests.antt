-- ===== src/Mr/WordCount/Tests.antt =====
-- The word count (src/mrapps/wc.go) at two files and one reduce task.
use text.Mathlib.Text.{◌==◌ as str_eq}
use Prim.Native.String.{◌++◌}
use mit.Base.{ℕ, zero, suc, ◌≡◌, refl, String, true, List, [], ◌∷◌, if◌then◌else◌, arith}
use mit.Mr.{is_done, make_coordinator, heartbeat, report, close_phase, all_finished, find_task}
use mit.Mr.Sequential.{concat, gathered, gathered_from}
use mit.Mr.Shuffle.{values_of}
use mit.Mr.System.{advance, step, run, start}
use mit.Mr.System.Files.{inputs}
use mit.Mr.System.Tests.{events}
use mit.Mr.Tests.{files, insert_pair, sort_pairs, sort_pairs-Same}
use mit.Mr.WordCount.{wc_map, wc_job, HasCounts}
use mit.Mr.WordCount.Outputs.{done-HasCounts}

abbrev contents : String → String
contents f = if str_eq f "a.txt" then "it is as it was" else "as you were"

-- The words of the two texts.
abbrev words : String → List String
words s =
    if str_eq s "as you were"
    then "as" ∷ "you" ∷ "were" ∷ []
    else "it" ∷ "is" ∷ "as" ∷ "it" ∷ "was" ∷ []

abbrev strokes : ℕ → String
strokes zero = ""
strokes (suc k) = "I" ++ strokes k

in_order :
    gathered (
      sort_pairs (
        concat
          (inputs (wc_job words strokes contents files sort_pairs (λ fs. fs) (λ ks. ks)).pairs 2)))
    ≡ true
unfolding gathered gathered_from sort_pairs insert_pair values_of wc_map
in_order = refl

job_done :
    is_done
      (run
        (wc_job words strokes contents files sort_pairs (λ fs. fs) (λ ks. ks))
        (start 0 files 1)
        events).coordinator
    ≡ true
unfolding run step advance start heartbeat report close_phase all_finished find_task
    make_coordinator
job_done = refl

done-HasCounts_example : HasCounts words strokes contents files 1 0 (
    (run
        (wc_job words strokes contents files sort_pairs (λ fs. fs) (λ ks. ks))
        (start 0 files 1)
        events).outs
      0)
done-HasCounts_example =
    done-HasCounts words strokes contents sort_pairs (λ fs. fs) (λ ks. ks) 0 files 1 events 0
      sort_pairs-Same in_order (λ key fs v. refl) (λ key ks. refl) job_done (omega arith)
