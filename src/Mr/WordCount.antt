-- ===== src/Mr/WordCount.antt =====
-- The word count, src/mrapps/wc.go, as the job of src/mr/worker.go. strings.FieldsFunc with
-- unicode.IsLetter, which splits a text into its words, and strconv.Itoa are parameters. What is proved
-- is in the modules below.
pub mod Lengths
pub mod Outputs
pub mod Tests
use mit.Base.{
  ℕ, zero, suc, ◌+◌, ◌%◌, ◌<◌, ◌==◌, ◌≡◌, refl, ◌∙◌, ap, sym, inl, inr, Bool-cases, String, Bool,
  true, false, Option, none, some, List, [], ◌∷◌, ◌++◌, map, length, length-append, get_or,
  if◌then◌else◌, arith,
}
use mit.Base.Assoc.{string_eq, beq_refl}
use mit.Mr.{is_done}
use mit.Mr.Worker.{KeyValue, ihash}
use mit.Mr.Shuffle.{values_of, values_of-append, all_values}
use mit.Mr.Reduce.{occurrences, line}
use mit.Mr.Sequential.{SameValues, concat, gathered, sequential, values_of-sequential}
use mit.Mr.System.{System, Event, Job, run, start}
use mit.Mr.System.Files.{IsFair, inputs, Right}
use mit.Mr.System.Outputs.{HasOutput, done-HasOutput}

-- `Map`, from the words of a file.
abbrev pub pairs_of : List String → List KeyValue
pairs_of [] = []
pairs_of (w ∷ words) = record { key = w; value = "1" } ∷ pairs_of words

unfoldable pub wc_map : (String → List String) → String → String → List KeyValue
wc_map words file_name contents = pairs_of (words contents)

unfoldable pub wc_reduce : (ℕ → String) → String → List String → String
wc_reduce itoa key values = itoa (length values)

-- How often a word stands in the files of a job.
abbrev pub total : (ℕ → List String) → String → ℕ → ℕ
total texts word zero = 0
total texts word (suc m) = total texts word m + occurrences word (texts m)

-- The lines for a word with this number.
abbrev pub counted : (ℕ → String) → ℕ → List String
counted itoa k = if k == 0 then [] else itoa k ∷ []

-- The words of the file of a map task.
abbrev pub words_of : (String → List String) → (String → String) → List String → ℕ → List String
words_of words contents files m = words (contents (get_or files m ""))

module _ (words : String → List String) (itoa : ℕ → String) (contents : String → String)
    (files : List String) where
  abbrev pub wc_job :
      (List KeyValue → List KeyValue)
      → (List (List KeyValue) → List (List KeyValue))
      → (List String → List String)
      → Job
  wc_job sort listing sort_strings = record {
    pairs = λ m. wc_map words (get_or files m "") (contents (get_or files m ""));
    sort = sort;
    listing = listing;
    sort_strings = sort_strings;
    reducef = wc_reduce itoa;
  }

  -- The output file of a reduce task is there, with one line for each word that the files have and
  -- that is of the task.
  abbrev pub HasCounts : ℕ → ℕ → Option (List KeyValue) → Type 0
  HasCounts n r none = ⊥
  HasCounts n r (some lines) =
      (word : String)
      → values_of word lines ≡ (
          if ihash word % n == r
          then counted itoa (total (words_of words contents files) word (length files))
          else [])
