-- ===== src/Mr/System/Files.antt =====
-- What a reduce task makes of the directory, src/mr/worker.go, beside the sequential program.
use mit.Base.{
  ℕ, zero, suc, ◌<◌, ◌≡◌, ◌%◌, ◌==◌, refl, ◌∙◌, ap, sym, String, true, Option, some, List, [], ◌∷◌,
  ◌++◌, map, if◌then◌else◌, arith,
}
use mit.Mr.System.{Job, files_of, present}
use mit.Mr.Worker.{KeyValue, ihash, map_file, reduce_file}
use mit.Mr.Shuffle.{values_of, all_values, all_values-files}
use mit.Mr.Reduce.{occurrences, values_of-lines}
use mit.Mr.Sequential.{
  SameValues, sequential, concat, gathered, line-SameValues, values_of-sequential,
  all_values-SameValues,
}

-- The pairs of the map tasks below a number.
abbrev pub inputs : (ℕ → List KeyValue) → ℕ → List (List KeyValue)
inputs pairs zero = []
inputs pairs (suc m) = inputs pairs m ++ (pairs m ∷ [])

-- What the job relies on: `reducef` does not look at the order of the values, sort.Sort permutes the
-- values of each key and brings equal keys of the whole input together, a listing of the directory has
-- the same files in some order, and sort.Strings keeps the number of occurrences of each key.
pub record IsFair (job : Job) (n_map : ℕ) : Type 0 where
  pub blind :
      (key : String) (vs ws : List String)
      → SameValues vs ws
      → job.reducef key vs ≡ job.reducef key ws
  pub permutes :
      (key : String) (kvs : List KeyValue)
      → SameValues (values_of key (job.sort kvs)) (values_of key kvs)
  pub gathers : gathered (job.sort (concat (inputs job.pairs n_map))) ≡ true
  pub lists :
      (key : String) (fs : List (List KeyValue))
      → SameValues (all_values key (job.listing fs)) (all_values key fs)
  pub keeps :
      (key : String) (ks : List String) → occurrences key (job.sort_strings ks) ≡ occurrences key ks

-- The lines of reduce task `r`, for each key.
abbrev pub Right : Job → ℕ → ℕ → ℕ → List KeyValue → Type 0
Right job n_map n r lines =
    (key : String)
    → values_of key lines ≡ (
        if ihash key % n == r
        then values_of key (sequential job.reducef (job.sort (concat (inputs job.pairs n_map))))
        else [])

map-snoc :
    (f : List KeyValue → List KeyValue) (xs : List (List KeyValue)) (x : List KeyValue)
    → map f (xs ++ (x ∷ [])) ≡ map f xs ++ (f x ∷ [])
map-snoc f [] x = refl
map-snoc f (y ∷ ys) x = ap (λ r. f y ∷ r) (map-snoc f ys x)

files_of-inputs :
    (job : Job) (inter : ℕ → ℕ → Option (List KeyValue)) (n r n_map : ℕ)
    → ((m : ℕ) → m < n_map → inter m r ≡ some (map_file job.sort n r (job.pairs m)))
    → files_of inter r n_map ≡ map (map_file job.sort n r) (inputs job.pairs n_map)
files_of-inputs job inter n r zero there = refl
files_of-inputs job inter n r (suc m) there =
    let before = files_of-inputs job inter n r m (λ i below. there i (omega (arith, below))) in
    ap (λ fs. fs ++ present (inter m r)) before
    ∙ ap (λ o. map (map_file job.sort n r) (inputs job.pairs m) ++ present o)
        (there m (omega arith))
    ∙ sym (map-snoc (map_file job.sort n r) (inputs job.pairs m) (job.pairs m))

-- The lines that a reduce task writes while all its files are there.
pub reduce_file-Right :
    (job : Job) (inter : ℕ → ℕ → Option (List KeyValue)) (n r n_map : ℕ)
    → IsFair job n_map
    → ((m : ℕ) → m < n_map → inter m r ≡ some (map_file job.sort n r (job.pairs m)))
    → Right job n_map n r
        (reduce_file job.sort_strings job.reducef (job.listing (files_of inter r n_map)))
reduce_file-Right job inter n r n_map fair there key =
    let fs = files_of inter r n_map in
    let kvas = inputs job.pairs n_map in
    let mine = values_of-lines job.sort_strings job.reducef (job.listing fs) key (fair.keeps key) in
    let listed =
      line-SameValues job.reducef key (all_values key (job.listing fs)) (all_values key fs)
        (fair.blind key) (fair.lists key fs) in
    let all : all_values key fs
        ≡ (if ihash key % n == r then all_values key (map job.sort kvas) else []) =
      ap (all_values key) (files_of-inputs job inter n r n_map there)
      ∙ all_values-files n r key job.sort kvas in
    let theirs = values_of-sequential job.reducef key (job.sort (concat kvas)) fair.gathers in
    let same =
      line-SameValues job.reducef key (all_values key (map job.sort kvas))
        (values_of key (job.sort (concat kvas))) (fair.blind key)
        (λ v.
          all_values-SameValues job.sort key (fair.permutes key) kvas v
          ∙ sym (fair.permutes key (concat kvas) v)) in
    ground (arith, mine, listed, all, theirs, same)
