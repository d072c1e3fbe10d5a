-- ===== src/Shard/Config/Rebalance.antt =====
-- `Rebalance` of lec-2025/src/shardkv1/shardcfg/shardcfg.go: it ends, and what it leaves.
use mit.Base.{
  ℕ, zero, suc, ◌+◌, ◌*◌, ◌==◌, ==_iff, ◌≤◌, ◌<◌, ◌≡◌, ◌≢◌, refl, ap, ◌∙◌, inl, inr, ◌⊎◌,
  Bool-cases, Bool, true, false, some, List, [], ◌∷◌, if◌then◌else◌, length, get_or, set,
  length-set, arith,
}
use mit.Base.Assoc.{nat_eq}
use mit.Shard.Config.{
  ShardConfig, count, analyze, has_group, least, assign, move_one, is_even, spread,
}
use mit.Shard.Config.Balance.{count-le-length, Found, analyze-Found}

-- The sum of the squares of the groups' counts.
unfoldable pub energy : List ℕ → ℕ
energy [] = 0
energy (x ∷ xs) = energy xs + 2 * count x xs + 1

pub energy-le : (xs : List ℕ) → energy xs ≤ length xs * length xs
unfolding energy
energy-le [] = omega arith
energy-le (x ∷ xs) = grind (arith, energy-le xs, count-le-length x xs)

length-move_one : (a b : ℕ) (xs : List ℕ) → length (move_one a b xs) ≡ length xs
unfolding move_one
length-move_one a b [] = refl
length-move_one a b (x ∷ xs) = ground (arith, length-move_one a b xs)

count-move_one :
    (a b g : ℕ) (xs : List ℕ)
    → a ≢ b
    → 0 < count a xs
    → count g (move_one a b xs) + (if a == g then 1 else 0) ≡ count g xs + (if b == g then 1 else 0)
unfolding count move_one
count-move_one a b g [] ne h = elim h [ ]
count-move_one a b g (x ∷ xs) ne h =
    ground (arith, ==_iff x a, ==_iff x g, ==_iff b g, ==_iff a g, count-move_one a b g xs ne)

-- A move from a larger group to a smaller one lowers the energy.
energy-move_one :
    (a b : ℕ) (xs : List ℕ)
    → a ≢ b
    → 0 < count a xs
    → energy (move_one a b xs) + 2 * count a xs ≡ energy xs + 2 * count b xs + 2
unfolding energy count move_one
energy-move_one a b [] ne h = elim h [ ]
energy-move_one a b (x ∷ xs) ne h = ground (
  arith,
  ==_iff x a,
  ==_iff x b,
  ==_iff b x,
  ==_iff a x,
  count-move_one a b x xs ne,
  energy-move_one a b xs ne,
)

move_one-get :
    (a b : ℕ) (xs : List ℕ) (i : ℕ)
    → (get_or (move_one a b xs) i 0 ≡ get_or xs i 0) ⊎ (get_or (move_one a b xs) i 0 ≡ b)
unfolding move_one
move_one-get a b [] i = inl refl
move_one-get a b (x ∷ xs) zero = ground arith
move_one-get a b (x ∷ xs) (suc i) = ground (arith, move_one-get a b xs i)

get_or-set :
    (xs : List ℕ) (s v i : ℕ)
    → s < length xs
    → get_or (set xs s v) i 0 ≡ (if s == i then v else get_or xs i 0)
get_or-set [] s v i h = elim h [ ]
get_or-set (x ∷ xs) zero v zero h = refl
get_or-set (x ∷ xs) zero v (suc i) h = ground arith
get_or-set (x ∷ xs) (suc s) v zero h = ground arith
get_or-set (x ∷ xs) (suc s) v (suc i) h = ground (arith, get_or-set xs s v i (omega arith))

abbrev pub assigned : ShardConfig → ℕ → Bool
assigned c i = has_group c (get_or c.shards i 0)

-- The configuration keeps its number, its groups and the places of its shards.
pub record Keeps (c c' : ShardConfig) : Type 0 where
  pub num : c'.num ≡ c.num
  pub groups : c'.groups ≡ c.groups
  pub places : length c'.shards ≡ length c.shards

-- One more place is known to be assigned.
extend :
    (p : ℕ → Bool) (s i : ℕ) → ((j : ℕ) → j < s → p j ≡ true) → p s ≡ true → i < s + 1 → p i ≡ true
extend p s i before here h = elim (Bool-cases (i == s)) [
  | inl same ↦ rw ((==_iff i s).0 same) here
  | inr apart ↦ before i (ground (arith, apart))
]

-- The shards below `s` stay assigned when the one at `s` gets a group.
set-assigned :
    (c : ShardConfig) (s lg i : ℕ)
    → s < length c.shards
    → has_group c lg ≡ true
    → ((j : ℕ) → j < s → assigned c j ≡ true)
    → i < s + 1
    → assigned (record c { shards = set c.shards s lg }) i ≡ true
set-assigned c s lg i inside member before h =
    extend (assigned (record c { shards = set c.shards s lg })) s i
      (λ j k.
        let e : get_or (set c.shards s lg) j 0 ≡ get_or c.shards j 0 =
          ground (arith, get_or-set c.shards s lg j inside) in
        rw e (before j k))
      (let e : get_or (set c.shards s lg) s 0 ≡ lg =
          ground (arith, get_or-set c.shards s lg s inside) in
        rw e member)
      h

pub assign_known :
    (n s : ℕ) (c : ShardConfig) → assigned c s ≡ true → assign (suc n) s c ≡ assign n (s + 1) c
unfolding assign
assign_known n s c h = ground (arith, h)

assign_missing :
    (n s : ℕ) (c : ShardConfig) (lg : ℕ)
    → assigned c s ≡ false
    → least c ≡ some lg
    → assign (suc n) s c ≡ assign n (s + 1) (record c { shards = set c.shards s lg })
unfolding assign
assign_missing n s c lg h l = ground (arith, h, l)

pub assign_lem :
    (n s : ℕ) (c : ShardConfig) (g : ℕ)
    → has_group c g ≡ true
    → length c.shards < 257
    → s + n ≡ length c.shards
    → ((i : ℕ) → i < s → assigned c i ≡ true)
    → (c' : ShardConfig) × (assign n s c ≡ some c')
      × Keeps c c'
      × ((i : ℕ) → i < s + n → assigned c' i ≡ true)
unfolding assign
assign_lem zero s c g member few all before =
    (c, refl, record { num = refl; groups = refl; places = refl }, λ i h. before i (omega arith))
assign_lem (suc n) s c g member few all before =
    elim (Bool-cases (has_group c (get_or c.shards s 0))) [
      | inl here ↦
          let (c', e, k, after) =
            assign_lem n (s + 1) c g member few (omega arith)
              (λ i h. extend (assigned c) s i before here h) in
          (c', assign_known n s c here ∙ e, k, λ i h. after i (omega (arith, h)))
      | inr missing ↦
          let f = analyze-Found c g few member in
          let c1 = record c { shards = set c.shards s f.lg } in
          let l = length-set c.shards s f.lg in
          let (c', e, k, after) =
            assign_lem n (s + 1) c1 g member (omega (arith, l)) (omega (arith, l))
              (λ i h. set-assigned c s f.lg i (omega arith) f.least_member before h) in
          (
            c',
            assign_missing n s c f.lg missing (unfold least in f.least) ∙ e,
            record { num = k.num; groups = k.groups; places = k.places ∙ l },
            λ i h. after i (omega (arith, h)),
          )
    ]

pub spread_even :
    (fuel : ℕ) (c : ShardConfig) → is_even (analyze c) ≡ true → spread (suc fuel) c ≡ some c
unfolding spread
spread_even fuel c h = ground (arith, h)

spread_uneven :
    (fuel : ℕ) (c : ShardConfig) (mg lg : ℕ)
    → is_even (analyze c) ≡ false
    → (analyze c).most ≡ some mg
    → (analyze c).least ≡ some lg
    → spread (suc fuel) c ≡ spread fuel (record c { shards = move_one mg lg c.shards })
unfolding spread
spread_uneven fuel c mg lg h m l = ground (arith, h, m, l)

-- What one round of the loop does: the energy falls, and the moved shard is assigned.
spread_round :
    (c : ShardConfig) (f : Found c.shards (has_group c) (analyze c))
    → is_even (analyze c) ≡ false
    → energy (move_one f.mg f.lg c.shards) < energy c.shards
spread_round c f uneven =
    let far : count f.lg c.shards + 2 ≤ count f.mg c.shards =
      ground (arith, uneven, f.most_n, f.least_n) in
    let ne : f.mg ≢ f.lg = λ e. let e' = ap (λ g. count g c.shards) e in omega (arith, far, e') in
    omega (arith, far, energy-move_one f.mg f.lg c.shards ne (omega (arith, far)))

move_assigned :
    (c : ShardConfig) (mg lg i : ℕ)
    → has_group c lg ≡ true
    → assigned c i ≡ true
    → assigned (record c { shards = move_one mg lg c.shards }) i ≡ true
move_assigned c mg lg i member h = elim (move_one-get mg lg c.shards i) [
  | inl same ↦ rw same h
  | inr moved ↦ rw moved member
]

pub spread_lem :
    (fuel : ℕ) (c : ShardConfig) (g : ℕ)
    → has_group c g ≡ true
    → length c.shards < 257
    → energy c.shards < fuel
    → ((i : ℕ) → i < length c.shards → assigned c i ≡ true)
    → (c' : ShardConfig) × (spread fuel c ≡ some c')
      × Keeps c c'
      × ((i : ℕ) → i < length c.shards → assigned c' i ≡ true)
      × (is_even (analyze c') ≡ true)
spread_lem zero c g member few enough_fuel all = elim enough_fuel [ ]
spread_lem (suc fuel) c g member few enough_fuel all = elim (Bool-cases (is_even (analyze c))) [
  | inl even ↦
      (c, spread_even fuel c even, record { num = refl; groups = refl; places = refl }, all, even)
  | inr uneven ↦
      let f = analyze-Found c g few member in
      let c1 = record c { shards = move_one f.mg f.lg c.shards } in
      let l = length-move_one f.mg f.lg c.shards in
      let (c', e, k, after, even) =
        spread_lem fuel c1 g member (omega (arith, l)) (omega (arith, spread_round c f uneven))
          (λ i h. move_assigned c f.mg f.lg i f.least_member (all i (omega (arith, l)))) in
      (
        c',
        spread_uneven fuel c f.mg f.lg uneven f.most f.least ∙ e,
        record { num = k.num; groups = k.groups; places = k.places ∙ l },
        λ i h. after i (omega (arith, l)),
        even,
      )
]
