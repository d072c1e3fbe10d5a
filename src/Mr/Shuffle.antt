-- ===== src/Mr/Shuffle.antt =====
-- How the pairs go from the map tasks to the reduce tasks, src/mr/worker.go.
use mathlib.Core.Path.{subst}
use mit.Base.{
  ℕ, ◌%◌, ◌==◌, ◌≡◌, refl, ◌∙◌, ap, sym, inl, inr, Bool-cases, String, Option, none, some, List, [],
  ◌∷◌, ◌++◌, map, if◌then◌else◌, arith,
}
use mit.Base.Assoc.{Map, lookup, insert, lookup-insert, string_eq}
use mit.Mr.Worker.{KeyValue, ihash, values_at, group, written, partition, map_file, collect}

-- The values of a key in a list of pairs, in their order.
unfoldable pub values_of : String → List KeyValue → List String
values_of key [] = []
values_of key (kv ∷ kvs) =
    let rest = values_of key kvs in if string_eq.beq kv.key key then kv.value ∷ rest else rest

unfoldable pub all_values : String → List (List KeyValue) → List String
unfolding values_of
all_values key [] = []
all_values key (kvs ∷ rest) = values_of key kvs ++ all_values key rest

-- An entry of a map of groups: none without values.
abbrev pub entry : List String → Option (List String)
entry [] = none
entry (v ∷ vs) = some (v ∷ vs)

pub append_assoc : (xs ys zs : List String) → (xs ++ ys) ++ zs ≡ xs ++ (ys ++ zs)
append_assoc [] ys zs = refl
append_assoc (x ∷ xs) ys zs = ap (λ r. x ∷ r) (append_assoc xs ys zs)

pub append-nil : (xs : List String) → xs ++ [] ≡ xs
append-nil [] = refl
append-nil (x ∷ xs) = ap (λ r. x ∷ r) (append-nil xs)

entry-append : (xs : List String) (v : String) → entry (xs ++ (v ∷ [])) ≡ some (xs ++ (v ∷ []))
entry-append [] v = refl
entry-append (x ∷ xs) v = refl

module _ (key : String) where
  values_at-insert :
      (m : Map String (List String)) (k : String) (vs : List String)
      → values_at (insert k vs m) key ≡ (if string_eq.beq k key then vs else values_at m key)
  values_at-insert m k vs = ground (arith, lookup-insert k key vs m)

  -- What a map of groups holds after more pairs.
  values_at-group :
      (m : Map String (List String)) (kvs : List KeyValue)
      → values_at (group m kvs) key ≡ values_at m key ++ values_of key kvs
  unfolding group values_of
  values_at-group m [] = sym (append-nil (values_at m key))
  values_at-group m (kv ∷ kvs) =
      let vs = values_at m kv.key ++ (kv.value ∷ []) in
      let more =
        values_at-group (insert kv.key vs m) kvs
        ∙ ap (λ xs. xs ++ values_of key kvs) (values_at-insert m kv.key vs) in
      elim (Bool-cases (string_eq.beq kv.key key)) [
        | inl same ↦
            let e = (string_eq.beq_iff kv.key key).0 same in
            more
            ∙ ap (λ b. (if b then vs else values_at m key) ++ values_of key kvs) same
            ∙ ap (λ k. (values_at m k ++ (kv.value ∷ [])) ++ values_of key kvs) e
            ∙ append_assoc (values_at m key) (kv.value ∷ []) (values_of key kvs)
            ∙ ap
                (λ b.
                  values_at m key
                  ++ (if b then kv.value ∷ values_of key kvs else values_of key kvs))
                (sym same)
        | inr apart ↦
            more
            ∙ ap (λ b. (if b then vs else values_at m key) ++ values_of key kvs) apart
            ∙ ap
                (λ b.
                  values_at m key
                  ++ (if b then kv.value ∷ values_of key kvs else values_of key kvs))
                (sym apart)
      ]

  lookup-group :
      (m : Map String (List String)) (kvs : List KeyValue)
      → lookup key m ≡ entry (values_at m key)
      → lookup key (group m kvs) ≡ entry (values_at (group m kvs) key)
  unfolding group
  lookup-group m [] h = h
  lookup-group m (kv ∷ kvs) h =
      let vs = values_at m kv.key ++ (kv.value ∷ []) in
      lookup-group (insert kv.key vs m) kvs (
        ground
          (arith, h, lookup-insert kv.key key vs m, entry-append (values_at m kv.key) kv.value))

  pub values_of-append :
      (xs ys : List KeyValue) → values_of key (xs ++ ys) ≡ values_of key xs ++ values_of key ys
  unfolding values_of
  values_of-append [] ys = refl
  values_of-append (x ∷ xs) ys = ground (arith, values_of-append xs ys)

  values_of-written :
      (k : String) (vs : List String)
      → values_of key (written k vs) ≡ (if string_eq.beq k key then vs else [])
  unfolding values_of
  values_of-written k [] = ground arith
  values_of-written k (v ∷ vs) = ground (arith, values_of-written k vs)

-- Each key has one group.
abbrev pub Distinct : Map String (List String) → Type 0
Distinct [] = Unit
Distinct ((k, vs) ∷ m) = (lookup k m ≡ none) × Distinct m

insert-Distinct :
    (k : String) (vs : List String) (m : Map String (List String))
    → Distinct m
    → Distinct (insert k vs m)
unfolding insert lookup
insert-Distinct k vs [] d = (refl, tt)
insert-Distinct k vs ((j, w) ∷ m) (absent, d) = elim (Bool-cases (string_eq.beq j k)) [
  | inl same ↦
      let e = (string_eq.beq_iff j k).0 same in
      subst Distinct (sym (ap (λ b. if b then (k, vs) ∷ m else (j, w) ∷ insert k vs m) same))
        (ap (λ i. lookup i m) (sym e) ∙ absent, d)
  | inr apart ↦
      subst Distinct (sym (ap (λ b. if b then (k, vs) ∷ m else (j, w) ∷ insert k vs m) apart)) (
        lookup-insert k j vs m
            ∙ ground (arith, apart, absent, string_eq.beq_iff k j, string_eq.beq_iff j k),
        insert-Distinct k vs m d,
      )
]

pub group-Distinct :
    (m : Map String (List String)) (kvs : List KeyValue) → Distinct m → Distinct (group m kvs)
unfolding group
group-Distinct m [] d = d
group-Distinct m (kv ∷ kvs) d =
    let vs = values_at m kv.key ++ (kv.value ∷ []) in
    group-Distinct (insert kv.key vs m) kvs (insert-Distinct kv.key vs m d)

module _ (n r : ℕ) (key : String) where
  -- The values of a key that the file of task `r` has: all or none.
  abbrev pub here : List String → List String
  here values = if ihash key % n == r then values else []

  values_of-partition :
      (m : Map String (List String))
      → Distinct m
      → values_of key (partition n r m) ≡ here (values_at m key)
  unfolding partition values_of lookup
  values_of-partition [] d = ground arith
  values_of-partition ((k, vs) ∷ m) (absent, d) =
      let rest = values_of-partition m d in
      let both = values_of-append key (written k vs) (partition n r m) in
      let mine = values_of-written key k vs in
      elim (Bool-cases (string_eq.beq k key)) [
        | inl same ↦
            let e = (string_eq.beq_iff k key).0 same in
            let absent' : lookup key m ≡ none = ap (λ i. lookup i m) (sym e) ∙ absent in
            let hash : ihash k ≡ ihash key = ap ihash e in
            ground (arith, same, absent', hash, rest, both, mine, append-nil vs)
        | inr apart ↦ ground (arith, apart, rest, both, mine)
      ]

  here-append : (xs ys : List String) → here xs ++ here ys ≡ here (xs ++ ys)
  here-append xs ys = ground arith

  module _ (sort : List KeyValue → List KeyValue) where
    values_of-map_file :
        (kva : List KeyValue)
        → values_of key (map_file sort n r kva) ≡ here (values_of key (sort kva))
    unfolding map_file lookup
    values_of-map_file kva =
        values_of-partition (group [] (sort kva)) (group-Distinct [] (sort kva) tt)
        ∙ ap here (values_at-group key [] (sort kva))

    abbrev pub files : List (List KeyValue) → List (List KeyValue)
    files kvas = map (map_file sort n r) kvas

    pub all_values-files :
        (kvas : List (List KeyValue))
        → all_values key (files kvas) ≡ here (all_values key (map sort kvas))
    unfolding all_values
    all_values-files [] = ground arith
    all_values-files (kva ∷ kvas) =
        ap (λ xs. xs ++ all_values key (files kvas)) (values_of-map_file kva)
        ∙ ap (λ xs. here (values_of key (sort kva)) ++ xs) (all_values-files kvas)
        ∙ here-append (values_of key (sort kva)) (all_values key (map sort kvas))

module _ (key : String) where
  pub values_at-collect :
      (m : Map String (List String)) (fs : List (List KeyValue))
      → values_at (collect m fs) key ≡ values_at m key ++ all_values key fs
  unfolding collect all_values
  values_at-collect m [] = sym (append-nil (values_at m key))
  values_at-collect m (f ∷ fs) =
      values_at-collect (group m f) fs
      ∙ ap (λ xs. xs ++ all_values key fs) (values_at-group key m f)
      ∙ append_assoc (values_at m key) (values_of key f) (all_values key fs)

  pub lookup-collect :
      (m : Map String (List String)) (fs : List (List KeyValue))
      → lookup key m ≡ entry (values_at m key)
      → lookup key (collect m fs) ≡ entry (values_at (collect m fs) key)
  unfolding collect
  lookup-collect m [] h = h
  lookup-collect m (f ∷ fs) h = lookup-collect (group m f) fs (lookup-group key m f h)

-- Of the pairs that the map tasks have sorted, reduce task `r` collects exactly the keys with
-- `ihash key % n` equal to `r`, each with all its values, in the order of the tasks and of the pairs
-- in them, and no key without a value. The file of each map task has been written once.
pub lookup-collect_files :
    (sort : List KeyValue → List KeyValue) (n r : ℕ) (kvas : List (List KeyValue)) (key : String)
    → lookup key (collect [] (files n r key sort kvas))
      ≡ entry (if ihash key % n == r then all_values key (map sort kvas) else [])
unfolding lookup
lookup-collect_files sort n r kvas key =
    lookup-collect key [] (files n r key sort kvas) refl
    ∙ ap entry
        (values_at-collect key [] (files n r key sort kvas) ∙ all_values-files n r key sort kvas)
