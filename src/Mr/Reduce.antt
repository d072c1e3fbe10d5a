-- ===== src/Mr/Reduce.antt =====
-- What the reduce tasks write, src/mr/worker.go.
use mit.Base.{
  ℕ, zero, suc, ◌%◌, ◌==◌, ◌≡◌, refl, ◌∙◌, ap, sym, inl, inr, Bool-cases, String, Option, none,
  some, List, [], ◌∷◌, map, if◌then◌else◌, arith,
}
use mit.Base.Assoc.{Map, lookup, string_eq}
use mit.Mr.Worker.{KeyValue, ihash, values_at, group, collect, keys, outputs, reduce_file}
use mit.Mr.Shuffle.{
  values_of, all_values, entry, Distinct, group-Distinct, files, lookup-collect, values_at-collect,
  all_values-files,
}

unfoldable pub occurrences : String → List String → ℕ
occurrences key [] = 0
occurrences key (k ∷ ks) =
    let rest = occurrences key ks in if string_eq.beq k key then suc rest else rest

abbrev repeat : ℕ → String → List String
repeat zero s = []
repeat (suc n) s = s ∷ repeat n s

-- The line for a key, if it has a value.
abbrev pub line : (String → List String → String) → String → List String → List String
line reducef key [] = []
line reducef key (v ∷ vs) = reducef key (v ∷ vs) ∷ []

collect-Distinct :
    (m : Map String (List String)) (fs : List (List KeyValue))
    → Distinct m
    → Distinct (collect m fs)
unfolding collect
collect-Distinct m [] d = d
collect-Distinct m (f ∷ fs) d = collect-Distinct (group m f) fs (group-Distinct m f d)

module _ (key : String) where
  values_of-outputs :
      (reducef : String → List String → String) (m : Map String (List String)) (ks : List String)
      → values_of key (outputs reducef m ks)
        ≡ repeat (occurrences key ks) (reducef key (values_at m key))
  unfolding values_of occurrences
  values_of-outputs reducef m [] = refl
  values_of-outputs reducef m (k ∷ ks) =
      let rest = values_of-outputs reducef m ks in
      elim (Bool-cases (string_eq.beq k key)) [
        | inl same ↦
            let e = (string_eq.beq_iff k key).0 same in
            let mine = ap (λ i. reducef i (values_at m i)) e in ground (arith, same, rest, mine)
        | inr apart ↦ ground (arith, apart, rest)
      ]

  -- A key stands once among the keys of the groups, or not at all.
  abbrev present : Option (List String) → ℕ
  present none = 0
  present (some vs) = 1

  occurrences-keys :
      (m : Map String (List String))
      → Distinct m
      → occurrences key (keys m) ≡ present (lookup key m)
  unfolding occurrences lookup
  occurrences-keys [] d = refl
  occurrences-keys ((k, vs) ∷ m) (absent, d) =
      let rest = occurrences-keys m d in
      elim (Bool-cases (string_eq.beq k key)) [
        | inl same ↦
            let e = (string_eq.beq_iff k key).0 same in
            let absent' : lookup key m ≡ none = ap (λ i. lookup i m) (sym e) ∙ absent in
            ground (arith, same, absent', rest)
        | inr apart ↦ ground (arith, apart, rest)
      ]

  line-entry :
      (reducef : String → List String → String) (m : Map String (List String)) (vs : List String)
      → lookup key m ≡ entry vs
      → repeat (present (lookup key m)) (reducef key (values_at m key)) ≡ line reducef key vs
  line-entry reducef m [] h = ground (arith, h)
  line-entry reducef m (v ∷ vs) h = ground (arith, h)

-- What a reduce task writes for a key, from any files.
pub values_of-lines :
    (sort_strings : List String → List String) (reducef : String → List String → String)
    (fs : List (List KeyValue)) (key : String)
    → ((ks : List String) → occurrences key (sort_strings ks) ≡ occurrences key ks)
    → values_of key (reduce_file sort_strings reducef fs) ≡ line reducef key (all_values key fs)
unfolding reduce_file lookup
values_of-lines sort_strings reducef fs key keeps =
    let m = collect [] fs in
    values_of-outputs key reducef m (sort_strings (keys m))
    ∙ ap (λ k. repeat k (reducef key (values_at m key)))
        (keeps (keys m) ∙ occurrences-keys key m (collect-Distinct [] fs tt))
    ∙ line-entry key reducef m (all_values key fs)
        (lookup-collect key [] fs refl ∙ ap entry (values_at-collect key [] fs))

-- The map tasks give their pairs to `n` reduce tasks. For each key, reduce task `ihash key % n`
-- writes exactly one line if some pair has the key, and it is what `reducef` answers to the key with
-- all its values, in the order of the tasks and of the sorted pairs in them; every other reduce task
-- writes no line for the key. sort.Strings has to keep the number of occurrences of the key; the
-- file of each map task has been written once.
pub values_of-reduce_file :
    (sort : List KeyValue → List KeyValue) (sort_strings : List String → List String)
    (reducef : String → List String → String) (n r : ℕ) (kvas : List (List KeyValue)) (key : String)
    → ((ks : List String) → occurrences key (sort_strings ks) ≡ occurrences key ks)
    → values_of key (reduce_file sort_strings reducef (files n r key sort kvas))
      ≡ line reducef key (if ihash key % n == r then all_values key (map sort kvas) else [])
values_of-reduce_file sort sort_strings reducef n r kvas key keeps =
    values_of-lines sort_strings reducef (files n r key sort kvas) key keeps
    ∙ ap (line reducef key) (all_values-files n r key sort kvas)
