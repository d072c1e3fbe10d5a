-- ===== src/Mr/Worker.antt =====
-- The data of a worker of MapReduce, src/mr/worker.go: the files of `doMapTask` and what
-- `doReduceTask` makes of them. A file is the list of the pairs that json writes to it. sort.Sort is
-- not stable, so that it is a parameter.
use mit.Base.{ℕ, ◌%◌, ◌^◌, ◌==◌, String, none, some, List, [], ◌∷◌, ◌++◌, if◌then◌else◌}
use mit.Base.Assoc.{Map, lookup, insert, string_eq}
use mit.Shard.Key.{sum32, bytes_of}

pub record KeyValue : Type 0 where
  pub key : String
  pub value : String

-- FNV-1a without its highest bit.
unfoldable pub ihash : String → ℕ
ihash key = sum32 2166136261 (bytes_of key) % 2 ^ 31

-- m[key], nil for a missing key.
abbrev pub values_at : Map String (List String) → String → List String
values_at m key = elim (lookup key m) [ none ↦ [] | some values ↦ values ]

-- m[kv.Key] = append(m[kv.Key], kv.Value), for each pair.
unfoldable pub group : Map String (List String) → List KeyValue → Map String (List String)
group m [] = m
group m (kv ∷ kvs) = group (insert kv.key (values_at m kv.key ++ (kv.value ∷ [])) m) kvs

abbrev pub written : String → List String → List KeyValue
written key [] = []
written key (value ∷ values) = record { key = key; value = value } ∷ written key values

-- What the loop over the groups writes to the file of one reduce task.
unfoldable pub partition : ℕ → ℕ → Map String (List String) → List KeyValue
partition n_reduce reduce_id [] = []
partition n_reduce reduce_id ((key, values) ∷ m) =
    let rest = partition n_reduce reduce_id m in
    if ihash key % n_reduce == reduce_id then written key values ++ rest else rest

module _ (sort : List KeyValue → List KeyValue) where
  unfoldable pub map_file : ℕ → ℕ → List KeyValue → List KeyValue
  unfolding group partition
  map_file n_reduce reduce_id kva = partition n_reduce reduce_id (group [] (sort kva))

-- The loops over the files.
unfoldable pub collect : Map String (List String) → List (List KeyValue) → Map String (List String)
unfolding group
collect m [] = m
collect m (file ∷ files) = collect (group m file) files

abbrev pub keys : Map String (List String) → List String
keys [] = []
keys ((key, values) ∷ m) = key ∷ keys m

abbrev pub outputs :
    (String → List String → String) → Map String (List String) → List String → List KeyValue
outputs reducef m [] = []
outputs reducef m (key ∷ rest) =
    record { key = key; value = reducef key (values_at m key) } ∷ outputs reducef m rest

-- The lines of the output file, with sort.Strings as a parameter.
unfoldable pub reduce_file :
    (List String → List String)
    → (String → List String → String)
    → List (List KeyValue)
    → List KeyValue
unfolding collect
reduce_file sort_strings reducef files =
    let m = collect [] files in outputs reducef m (sort_strings (keys m))
