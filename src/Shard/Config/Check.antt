-- ===== src/Shard/Config/Check.antt =====
-- `CheckConfig` of lec-2025/src/shardkv1/shardcfg/shardcfg.go accepts what `Rebalance` makes, and
-- `Rebalance` leaves what it accepts.
use mit.Base.{
  ℕ, zero, suc, ◌+◌, ==_iff, ◌≤◌, ◌<◌, ◌≡◌, refl, ap, ◌∙◌, inl, inr, ◌⊎◌, String, true, false, some,
  List, [], ◌∷◌, ltb, if◌then◌else◌, length, get_or, arith, replicate,
}
use mit.Base.Assoc.{Map, lookup, nat_eq}
use mit.Base.Sort.{contains}
use mit.Shard.Key.{n_shards}
use mit.Shard.Config.{
  ShardConfig, keys, count, analyze, has_group, assign, is_even, spread, enough, rebalance,
  all_present, max_count, min_count, spread_wide, check_config,
}
use mit.Shard.Config.Balance.{count-le-length, analyze_bounds, analyze-Found, contains-keys}
use mit.Shard.Config.Rebalance.{
  energy-le, assigned, assign_lem, assign_known, spread_lem, spread_even,
}

all_present-each :
    (c : ShardConfig) (gs : List ℕ) (i : ℕ)
    → all_present c gs ≡ true
    → i < length gs
    → has_group c (get_or gs i 0) ≡ true
unfolding all_present
all_present-each c [] i h k = elim k [ ]
all_present-each c (g ∷ gs) zero h k = ground (arith, h)
all_present-each c (g ∷ gs) (suc i) h k = all_present-each c gs i (ground (arith, h)) (omega arith)

all_present_of :
    (c : ShardConfig) (gs : List ℕ)
    → ((i : ℕ) → i < length gs → has_group c (get_or gs i 0) ≡ true)
    → all_present c gs ≡ true
unfolding all_present
all_present_of c [] h = refl
all_present_of c (g ∷ gs) h =
    ground (arith, h 0 (omega arith), all_present_of c gs (λ i k. h (suc i) (omega arith)))

-- Whether each of the groups satisfies something.
contains_get : (gs : List ℕ) (i : ℕ) → i < length gs → contains (get_or gs i 0) gs ≡ true
unfolding contains
contains_get [] i k = elim k [ ]
contains_get (g ∷ gs) zero k = ground (arith, ==_iff g g)
contains_get (g ∷ gs) (suc i) k = ground (arith, contains_get gs i (omega arith))

keys_present : (c : ShardConfig) → all_present c (keys c.groups) ≡ true
keys_present c = all_present_of c (keys c.groups) (λ i k.
    ground (
      arith,
      contains_get (keys c.groups) i k,
      contains-keys (get_or (keys c.groups) i 0) c.groups,
    ))

length-keys : (m : Map ℕ (List String)) → length (keys m) ≡ length m
unfolding keys
length-keys [] = refl
length-keys ((g, srvs) ∷ m) = ap suc (length-keys m)

module _ (shards : List ℕ) where
  max_count-le :
      (acc m : ℕ) (gs : List ℕ)
      → acc ≤ m
      → ((g : ℕ) → contains g gs ≡ true → count g shards ≤ m)
      → max_count shards acc gs ≤ m
  unfolding max_count contains
  max_count-le acc m [] h all = h
  max_count-le acc m (g ∷ gs) h all =
      max_count-le (if ltb acc (count g shards) then count g shards else acc) m gs
        (ground (arith, h, all g (ground (arith, ==_iff g g)))) (λ j k. all j (ground (arith, k)))

  le-min_count :
      (acc m : ℕ) (gs : List ℕ)
      → m ≤ acc
      → ((g : ℕ) → contains g gs ≡ true → m ≤ count g shards)
      → m ≤ min_count shards acc gs
  unfolding min_count contains
  le-min_count acc m [] h all = h
  le-min_count acc m (g ∷ gs) h all =
      le-min_count (if ltb (count g shards) acc then count g shards else acc) m gs
        (ground (arith, h, all g (ground (arith, ==_iff g g)))) (λ j k. all j (ground (arith, k)))

  le-max_count_start : (acc : ℕ) (gs : List ℕ) → acc ≤ max_count shards acc gs
  unfolding max_count
  le-max_count_start acc [] = omega arith
  le-max_count_start acc (g ∷ gs) =
      ground
        (arith, le-max_count_start (if ltb acc (count g shards) then count g shards else acc) gs)

  min_count_start-le : (acc : ℕ) (gs : List ℕ) → min_count shards acc gs ≤ acc
  unfolding min_count
  min_count_start-le acc [] = omega arith
  min_count_start-le acc (g ∷ gs) =
      ground
        (arith, min_count_start-le (if ltb (count g shards) acc then count g shards else acc) gs)

  le-max_count :
      (acc : ℕ) (gs : List ℕ) (g : ℕ)
      → contains g gs ≡ true
      → count g shards ≤ max_count shards acc gs
  unfolding max_count contains
  le-max_count acc [] g h = cc
  le-max_count acc (x ∷ gs) g h =
      let acc' = if ltb acc (count x shards) then count x shards else acc in
      ground (arith, ==_iff x g, le-max_count_start acc' gs, le-max_count acc' gs g)

  min_count-le :
      (acc : ℕ) (gs : List ℕ) (g : ℕ)
      → contains g gs ≡ true
      → min_count shards acc gs ≤ count g shards
  unfolding min_count contains
  min_count-le acc [] g h = cc
  min_count-le acc (x ∷ gs) g h =
      let acc' = if ltb (count x shards) acc then count x shards else acc in
      ground (arith, ==_iff x g, min_count_start-le acc' gs, min_count-le acc' gs g)

-- With a group: the counts are even exactly if the check finds them so.
module _ (c : ShardConfig) (g : ℕ) (few : length c.shards < 257)
    (member : has_group c g ≡ true) where
  narrow_of_even : is_even (analyze c) ≡ true → spread_wide c ≡ false
  narrow_of_even even =
      let f = analyze-Found c g few member in
      let present = λ (h : ℕ) (k : contains h (keys c.groups) ≡ true).
        let there : has_group c h ≡ true = ground (arith, k, contains-keys h c.groups) in
        analyze_bounds c h there in
      let top =
        max_count-le c.shards 0 (count f.mg c.shards) (keys c.groups) (omega arith)
          (λ h k. ground (arith, present h k, f.most_n)) in
      let bottom =
        le-min_count c.shards 257 (count f.lg c.shards) (keys c.groups)
          (omega (arith, few, count-le-length f.lg c.shards))
          (λ h k. ground (arith, present h k, f.least_n)) in
      ground (arith, top, bottom, even, f.most_n, f.least_n)

  even_of_narrow : spread_wide c ≡ false → is_even (analyze c) ≡ true
  even_of_narrow narrow =
      let f = analyze-Found c g few member in
      let there : contains f.mg (keys c.groups) ≡ true =
        ground (arith, f.most_member, contains-keys f.mg c.groups) in
      let there' : contains f.lg (keys c.groups) ≡ true =
        ground (arith, f.least_member, contains-keys f.lg c.groups) in
      ground (
        arith,
        narrow,
        f.most_n,
        f.least_n,
        le-max_count c.shards 0 (keys c.groups) f.mg there,
        min_count-le c.shards 257 (keys c.groups) f.lg there',
      )

first_group :
    (c : ShardConfig) (g : ℕ) (srvs : List String) (m : Map ℕ (List String))
    → c.groups ≡ (g, srvs) ∷ m
    → has_group c g ≡ true
unfolding lookup
first_group c g srvs m e = rw (e, has_group) (ground (arith, ==_iff g g))

rebalance_grouped :
    (c c1 c2 : ShardConfig) (g : ℕ) (srvs : List String) (m : Map ℕ (List String))
    → c.groups ≡ (g, srvs) ∷ m
    → assign n_shards 0 c ≡ some c1
    → spread enough c1 ≡ some c2
    → rebalance c ≡ some c2
unfolding rebalance
rebalance_grouped c c1 c2 g srvs m e a b = ground (arith, e, a, b)

Groups-cases :
    (m : Map ℕ (List String))
    → (m ≡ [])
      ⊎ ((g : ℕ) × (srvs : List String) × (rest : Map ℕ (List String)) × (m ≡ (g, srvs) ∷ rest))
Groups-cases [] = inl refl
Groups-cases ((g, srvs) ∷ rest) = inr (g, srvs, rest, refl)

-- What a configuration is to its groups after `Rebalance`.
abbrev pub Rebalanced : ShardConfig → ShardConfig → Type 0
Rebalanced c c' =
    (rebalance c ≡ some c')
    × (c'.num ≡ c.num)
    × (c'.groups ≡ c.groups)
    × (length c'.shards ≡ n_shards)
    × (check_config c' (keys c.groups) ≡ true)

check_of :
    (c : ShardConfig)
    → ((i : ℕ) → i < length c.shards → assigned c i ≡ true)
    → spread_wide c ≡ false
    → check_config c (keys c.groups) ≡ true
unfolding check_config
check_of c all narrow =
    ground (arith, narrow, length-keys c.groups, keys_present c, all_present_of c c.shards all)

rebalance_some :
    (c : ShardConfig) (g : ℕ) (srvs : List String) (m : Map ℕ (List String))
    → c.groups ≡ (g, srvs) ∷ m
    → length c.shards ≡ n_shards
    → (c' : ShardConfig) × Rebalanced c c'
rebalance_some c g srvs m e places =
    let member = first_group c g srvs m e in
    let (c1, a, k, all) =
      assign_lem n_shards 0 c g member (omega (arith, places)) (omega (arith, places))
        (λ i h. absurd (omega (arith, h))) in
    let member1 : has_group c1 g ≡ true = ground (arith, member, k.groups) in
    let places1 : length c1.shards ≡ n_shards = k.places ∙ places in
    let (c2, s, l, all2, even) =
      spread_lem enough c1 g member1 (omega (arith, places1))
        (grind (arith, places1, energy-le c1.shards)) (λ i h. all i (omega (arith, h, places1))) in
    let member2 : has_group c2 g ≡ true = ground (arith, member1, l.groups) in
    let places2 : length c2.shards ≡ n_shards = l.places ∙ places1 in
    let narrow = narrow_of_even c2 g (omega (arith, places2)) member2 even in
    let same : c2.groups ≡ c.groups = l.groups ∙ k.groups in
    let ok = check_of c2 (λ i h. all2 i (omega (arith, h, places1, places2))) narrow in
    (c2, (rebalance_grouped c c1 c2 g srvs m e a s, l.num ∙ k.num, same, places2, rw same at ok))

rebalance_none :
    (c : ShardConfig) → c.groups ≡ [] → Rebalanced c (record c { shards = replicate n_shards 0 })
unfolding rebalance check_config keys
rebalance_none c e = (ground (arith, e), refl, refl, refl, rw (e, check_config, keys) refl)

-- `Rebalance` ends, for any configuration with a place for each shard, and what it makes has the
-- number and the groups from before and passes `CheckConfig` for these groups: each shard is served
-- by a group that there is, if there is one, and no group has two shards more than another.
pub rebalance-check_config :
    (c : ShardConfig) → length c.shards ≡ n_shards → (c' : ShardConfig) × Rebalanced c c'
rebalance-check_config c places = elim (Groups-cases c.groups) [
  | inl empty ↦ (record c { shards = replicate n_shards 0 }, rebalance_none c empty)
  | inr (g, srvs, m, e) ↦ rebalance_some c g srvs m e places
]

assign_all :
    (n s : ℕ) (c : ShardConfig)
    → ((i : ℕ) → i < s + n → assigned c i ≡ true)
    → assign n s c ≡ some c
unfolding assign
assign_all zero s c all = refl
assign_all (suc n) s c all =
    assign_known n s c (all s (omega arith))
    ∙ assign_all n (s + 1) c (λ i h. all i (omega (arith, h)))

-- `Rebalance` moves no shard of a configuration that already passes `CheckConfig` for its groups, if
-- it has a group.
pub rebalance_idle :
    (c : ShardConfig)
    → length c.shards ≡ n_shards
    → 0 < length c.groups
    → check_config c (keys c.groups) ≡ true
    → rebalance c ≡ some c
unfolding check_config
rebalance_idle c places some_group ok = elim (Groups-cases c.groups) [
  | inl empty ↦ absurd (ground (arith, empty, some_group))
  | inr (g, srvs, m, e) ↦
      let member = first_group c g srvs m e in
      let all : all_present c c.shards ≡ true = ground (arith, ok, e, length-keys c.groups) in
      let narrow : spread_wide c ≡ false = ground (arith, ok) in
      let even = even_of_narrow c g (omega (arith, places)) member narrow in
      rebalance_grouped c c c g srvs m e
        (assign_all n_shards 0 c
          (λ i h. all_present-each c c.shards i all (omega (arith, h, places))))
        (spread_even _ c even)
]
