-- ===== src/Mr/WordCount/Outputs.antt =====
-- The output of a word count, src/mrapps/wc.go.
use mit.Base.{
  ℕ, ◌%◌, ◌<◌, ◌==◌, ◌≡◌, ◌∙◌, ap, String, true, Option, none, some, List, [], length,
  if◌then◌else◌,
}
use mit.Base.Assoc.{string_eq}
use mit.Mr.{is_done}
use mit.Mr.Worker.{KeyValue, ihash}
use mit.Mr.Shuffle.{values_of, all_values}
use mit.Mr.Reduce.{occurrences}
use mit.Mr.Sequential.{SameValues, concat, gathered, sequential, values_of-sequential}
use mit.Mr.System.{Event, run, start}
use mit.Mr.System.Files.{IsFair, inputs}
use mit.Mr.System.Outputs.{HasOutput, done-HasOutput}
use mit.Mr.WordCount.{wc_map, wc_reduce, total, counted, words_of, wc_job, HasCounts}
use mit.Mr.WordCount.Lengths.{SameValues-length, length-inputs, line-counted}

module _ (words : String → List String) (itoa : ℕ → String) (contents : String → String)
    (files : List String) where
  module _ (sort : List KeyValue → List KeyValue)
      (listing : List (List KeyValue) → List (List KeyValue))
      (sort_strings : List String → List String)
      (fair : IsFair
        (wc_job words itoa contents files sort listing sort_strings)
        (length files)) where
    sequential-counted :
        (word : String)
        → values_of word (
            sequential (wc_reduce itoa) (
              sort (
                concat (
                  inputs
                    (wc_job words itoa contents files sort listing sort_strings).pairs
                    (length files)))))
          ≡ counted itoa (total (words_of words contents files) word (length files))
    unfolding wc_map
    sequential-counted word =
        let all = concat (
          inputs (wc_job words itoa contents files sort listing sort_strings).pairs
            (length files)) in
        values_of-sequential (wc_reduce itoa) word (sort all) fair.gathers
        ∙ line-counted itoa word (values_of word (sort all))
        ∙ ap (counted itoa) (
            SameValues-length (values_of word (sort all)) (values_of word all)
              (fair.permutes word all)
            ∙ length-inputs word (words_of words contents files) (length files))

    Right-HasCounts :
        (n r : ℕ) (o : Option (List KeyValue))
        → HasOutput
            (wc_job words itoa contents files sort listing sort_strings)
            (length files)
            n
            r
            o
        → HasCounts words itoa contents files n r o
    Right-HasCounts n r none h = h
    Right-HasCounts n r (some lines) right = λ word.
        right word ∙ ap (λ vs. if ihash word % n == r then vs else []) (sequential-counted word)

-- Whatever the values, the number does not depend on their order.
wc_reduce-blind :
    (itoa : ℕ → String) (key : String) (vs ws : List String)
    → SameValues vs ws
    → wc_reduce itoa key vs ≡ wc_reduce itoa key ws
unfolding wc_reduce
wc_reduce-blind itoa key vs ws same = ap itoa (SameValues-length vs ws same)

-- A word count over any files, with any workers, lost calls and crashes: once the coordinator says that
-- the job is done, the output file of each reduce task is there, and has for each of its words that the
-- files have exactly one line, with the number of times that the word stands in all the files
-- together, and no line for any other word. The hypotheses are that sort.Sort permutes the values of
-- each key and brings equal keys of the whole input together, that a listing of the directory has the
-- same files in some order, and that sort.Strings keeps the number of occurrences of each key.
pub done-HasCounts :
    (words : String → List String) (itoa : ℕ → String) (contents : String → String)
    (sort : List KeyValue → List KeyValue) (listing : List (List KeyValue) → List (List KeyValue))
    (sort_strings : List String → List String) (now : ℕ) (files : List String) (n : ℕ)
    (es : List Event) (r : ℕ)
    → let job = wc_job words itoa contents files sort listing sort_strings in
      ((key : String) (kvs : List KeyValue)
        → SameValues (values_of key (sort kvs)) (values_of key kvs))
      → gathered (sort (concat (inputs job.pairs (length files)))) ≡ true
      → ((key : String) (fs : List (List KeyValue))
          → SameValues (all_values key (listing fs)) (all_values key fs))
      → ((key : String) (ks : List String) → occurrences key (sort_strings ks) ≡ occurrences key ks)
      → is_done (run job (start now files n) es).coordinator ≡ true
      → r < n
      → HasCounts words itoa contents files n r ((run job (start now files n) es).outs r)
done-HasCounts words itoa contents sort listing sort_strings now files n es r permutes gathers lists
      keeps done below =
    let job = wc_job words itoa contents files sort listing sort_strings in
    let fair : IsFair job (length files) = record {
      blind = wc_reduce-blind itoa;
      permutes = permutes;
      gathers = gathers;
      lists = lists;
      keeps = keeps;
    } in
    Right-HasCounts words itoa contents files sort listing sort_strings fair n r
      ((run job (start now files n) es).outs r)
      (done-HasOutput job now files n es r fair done below)
