-- ===== src/Mr/Sequential.antt =====
-- The sequential program, src/main/mrsequential.go, and its output beside that of the reduce tasks of
-- src/mr/worker.go.
use mit.Base.{
  ℕ, suc, ◌+◌, ◌%◌, ◌==◌, ◌≡◌, refl, ◌∙◌, ap, sym, inl, inr, Bool-cases, String, Bool, true, false,
  ◌&&◌, List, [], ◌∷◌, ◌++◌, map, if◌then◌else◌, arith,
}
use mit.Base.Assoc.{string_eq, beq_refl}
use mit.Mr.Worker.{KeyValue, ihash, reduce_file}
use mit.Mr.Shuffle.{values_of, all_values, files, append_assoc, append-nil, values_of-append}
use mit.Mr.Reduce.{occurrences, line, values_of-reduce_file}

-- The loop from the pairs of one key on, whose values so far are `values`.
unfoldable pub sequential_from :
    (String → List String → String) → String → List String → List KeyValue → List KeyValue
sequential_from reducef key values [] = record { key = key; value = reducef key values } ∷ []
sequential_from reducef key values (kv ∷ kvs) =
    let more = sequential_from reducef key (values ++ (kv.value ∷ [])) kvs in
    let next = sequential_from reducef kv.key (kv.value ∷ []) kvs in
    if string_eq.beq kv.key key
    then more
    else record { key = key; value = reducef key values } ∷ next

-- The output file, from the sorted intermediate pairs.
unfoldable pub sequential : (String → List String → String) → List KeyValue → List KeyValue
unfolding sequential_from
sequential reducef [] = []
sequential reducef (kv ∷ kvs) = sequential_from reducef kv.key (kv.value ∷ []) kvs

abbrev pub concat : List (List KeyValue) → List KeyValue
concat [] = []
concat (kvs ∷ rest) = kvs ++ concat rest

abbrev is_empty : List String → Bool
is_empty [] = true
is_empty (v ∷ vs) = false

-- Pairs of one key stand together, as they do after sort.Sort by the keys.
unfoldable pub gathered_from : String → List KeyValue → Bool
gathered_from key [] = true
gathered_from key (kv ∷ kvs) =
    let more = gathered_from key kvs in
    let next = gathered_from kv.key kvs in
    if string_eq.beq kv.key key then more else is_empty (values_of key kvs) && next

unfoldable pub gathered : List KeyValue → Bool
unfolding gathered_from
gathered [] = true
gathered (kv ∷ kvs) = gathered_from kv.key kvs

is_empty-nil : (vs : List String) → is_empty vs ≡ true → vs ≡ []
is_empty-nil [] h = refl
is_empty-nil (v ∷ vs) h = ground (arith, h)

module _ (reducef : String → List String → String) (key : String) where
  values_of-sequential_from :
      (k : String) (vs : List String) (kvs : List KeyValue)
      → gathered_from k kvs ≡ true
      → values_of key (sequential_from reducef k vs kvs) ≡ (
          if string_eq.beq k key
          then reducef key (vs ++ values_of key kvs) ∷ []
          else line reducef key (values_of key kvs))
  unfolding sequential_from gathered_from values_of
  values_of-sequential_from k vs [] h = elim (Bool-cases (string_eq.beq k key)) [
    | inl same ↦
        let e = (string_eq.beq_iff k key).0 same in
        ground (arith, same, ap (λ i. reducef i vs) e, append-nil vs)
    | inr apart ↦ ground (arith, apart)
  ]
  values_of-sequential_from k vs (kv ∷ kvs) h = elim (Bool-cases (string_eq.beq kv.key k)) [
    | inl same ↦
        let e = (string_eq.beq_iff kv.key k).0 same in
        let twin : string_eq.beq kv.key key ≡ string_eq.beq k key =
          ap (λ i. string_eq.beq i key) e in
        let more =
          values_of-sequential_from k (vs ++ (kv.value ∷ [])) kvs (ground (arith, h, same)) in
        ground (arith, same, twin, more, append_assoc vs (kv.value ∷ []) (values_of key kvs))
    | inr other ↦
        let next =
          values_of-sequential_from kv.key (kv.value ∷ []) kvs (ground (arith, h, other)) in
        let over : values_of k kvs ≡ [] =
          is_empty-nil (values_of k kvs) (ground (arith, h, other)) in
        elim (Bool-cases (string_eq.beq k key)) [
          | inl same ↦
              let e = (string_eq.beq_iff k key).0 same in
              let apart : string_eq.beq kv.key key ≡ false =
                ap (λ i. string_eq.beq kv.key i) (sym e) ∙ other in
              let over' : values_of key kvs ≡ [] = ap (λ i. values_of i kvs) (sym e) ∙ over in
              ground
                (arith, other, same, apart, over', next, ap (λ i. reducef i vs) e, append-nil vs)
          | inr apart ↦ ground (arith, other, apart, next)
        ]
  ]

  -- One line for a key that there is, with all its values.
  pub values_of-sequential :
      (kvs : List KeyValue)
      → gathered kvs ≡ true
      → values_of key (sequential reducef kvs) ≡ line reducef key (values_of key kvs)
  unfolding sequential gathered values_of
  values_of-sequential [] h = refl
  values_of-sequential (kv ∷ kvs) h =
      let all = values_of-sequential_from kv.key (kv.value ∷ []) kvs h in ground (arith, all)

-- The same values, in any order.
abbrev pub SameValues : List String → List String → Type 0
SameValues vs ws = (v : String) → occurrences v vs ≡ occurrences v ws

occurrences-append :
    (v : String) (xs ys : List String)
    → occurrences v (xs ++ ys) ≡ occurrences v xs + occurrences v ys
unfolding occurrences
occurrences-append v [] ys = omega arith
occurrences-append v (x ∷ xs) ys = ground (arith, occurrences-append v xs ys)

some_occurrence : (v : String) (vs : List String) → occurrences v (v ∷ vs) ≡ suc (occurrences v vs)
unfolding occurrences
some_occurrence v vs = ground (arith, beq_refl {K = String} v)

pub line-SameValues :
    (reducef : String → List String → String) (key : String) (vs ws : List String)
    → ((vs ws : List String) → SameValues vs ws → reducef key vs ≡ reducef key ws)
    → SameValues vs ws
    → line reducef key vs ≡ line reducef key ws
unfolding occurrences
line-SameValues reducef key [] [] blind same = refl
line-SameValues reducef key [] (w ∷ ws) blind same =
    let e : 0 ≡ occurrences w (w ∷ ws) = same w in absurd (omega (arith, e, some_occurrence w ws))
line-SameValues reducef key (v ∷ vs) [] blind same =
    let e : occurrences v (v ∷ vs) ≡ 0 = same v in absurd (omega (arith, e, some_occurrence v vs))
line-SameValues reducef key (v ∷ vs) (w ∷ ws) blind same =
    ap (λ s. s ∷ []) (blind (v ∷ vs) (w ∷ ws) same)

module _ (sort : List KeyValue → List KeyValue) (key : String)
    (permutes : (kvs : List KeyValue)
      → SameValues (values_of key (sort kvs)) (values_of key kvs)) where
  pub all_values-SameValues :
      (kvas : List (List KeyValue))
      → SameValues (all_values key (map sort kvas)) (values_of key (concat kvas))
  unfolding all_values values_of
  all_values-SameValues [] v = refl
  all_values-SameValues (kva ∷ kvas) v =
      let xs = values_of key (sort kva) in
      let ys = all_values key (map sort kvas) in
      let rest = all_values-SameValues kvas v in
      let this = permutes kva v in
      occurrences-append v xs ys
      ∙ (omega (arith, rest, this)
          ∙ sym (occurrences-append v (values_of key kva) (values_of key (concat kvas))))
      ∙ ap (occurrences v) (sym (values_of-append key kva (concat kvas)))

-- The reduce tasks and the sequential program on the same pairs: for each key, the lines of its own
-- reduce task `ihash key % n` are those of the sequential program, and every other task has none. The
-- hypotheses are that `reducef` does not look at the order of the values, that sort.Sort permutes
-- the values of the key and brings equal keys of these pairs together, and that sort.Strings keeps the number of
-- occurrences of the key; the file of each map task has been written once.
pub reduce_file-sequential :
    (sort : List KeyValue → List KeyValue) (sort_strings : List String → List String)
    (reducef : String → List String → String) (n r : ℕ) (kvas : List (List KeyValue)) (key : String)
    → ((vs ws : List String) → SameValues vs ws → reducef key vs ≡ reducef key ws)
    → ((kvs : List KeyValue) → SameValues (values_of key (sort kvs)) (values_of key kvs))
    → gathered (sort (concat kvas)) ≡ true
    → ((ks : List String) → occurrences key (sort_strings ks) ≡ occurrences key ks)
    → values_of key (reduce_file sort_strings reducef (files n r key sort kvas))
      ≡ (if ihash key % n == r then values_of key (sequential reducef (sort (concat kvas))) else [])
reduce_file-sequential sort sort_strings reducef n r kvas key blind permutes gathers keeps =
    let here = values_of-reduce_file sort sort_strings reducef n r kvas key keeps in
    let there = values_of-sequential reducef key (sort (concat kvas)) gathers in
    let same =
      line-SameValues reducef key (all_values key (map sort kvas))
        (values_of key (sort (concat kvas))) blind
        (λ v. all_values-SameValues sort key permutes kvas v ∙ sym (permutes (concat kvas) v)) in
    ground (arith, here, there, same)
