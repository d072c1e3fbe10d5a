-- ===== src/Shard/Config/Balance.antt =====
-- What `analyze` of lec-2025/src/shardkv1/shardcfg/shardcfg.go finds: a group with most shards and one
-- with fewest.
use mit.Base.{
  ℕ, ==_iff, ◌≤◌, ◌<◌, ◌≡◌, refl, inl, inr, Bool-cases, String, Bool, true, false, none, some, List,
  [], ◌∷◌, ltb, length, arith,
}
use mit.Base.Assoc.{Map, lookup, nat_eq}
use mit.Base.Sort.{sort, contains, contains-sort}
use mit.Shard.Config.{
  ShardConfig, Analysis, keys, count, exceeds, fewer, more, look, analyze, has_group,
}

pub count-le-length : (g : ℕ) (xs : List ℕ) → count g xs ≤ length xs
unfolding count
count-le-length g [] = omega arith
count-le-length g (x ∷ xs) = ground (arith, count-le-length g xs)

-- The keys of the groups are the groups that there are.
pub contains-keys :
    (g : ℕ) (m : Map ℕ (List String))
    → contains g (keys m) ≡ (elim (lookup g m) [ none ↦ false | some srvs ↦ true ])
unfolding contains keys lookup
contains-keys g [] = refl
contains-keys g ((h, srvs) ∷ m) = ground (arith, contains-keys g m)

-- Each of the two groups found is one of those looked at, and its count is the one found.
pub record Found (shards : List ℕ) (member : ℕ → Bool) (a : Analysis) : Type 0 where
  pub mg : ℕ
  pub lg : ℕ
  pub most : a.most ≡ some mg
  pub most_n : a.most_n ≡ some (count mg shards)
  pub least : a.least ≡ some lg
  pub least_n : a.least_n ≡ count lg shards
  pub most_member : member mg ≡ true
  pub least_member : member lg ≡ true

module _ (shards : List ℕ) where
  look-least_n : (a : Analysis) (gs : List ℕ) → (look shards a gs).least_n ≤ a.least_n
  unfolding look
  look-least_n a [] = omega arith
  look-least_n a (g ∷ gs) =
      ground (arith, look-least_n (more (fewer a g (count g shards)) g (count g shards)) gs)

  look-most_n :
      (a : Analysis) (gs : List ℕ) (n : ℕ)
      → exceeds n a.most_n ≡ false
      → exceeds n (look shards a gs).most_n ≡ false
  unfolding look
  look-most_n a [] n h = h
  look-most_n a (g ∷ gs) n h =
      ground (arith, look-most_n (more (fewer a g (count g shards)) g (count g shards)) gs n)

  look_bounds :
      (a : Analysis) (gs : List ℕ) (g : ℕ)
      → contains g gs ≡ true
      → ((look shards a gs).least_n ≤ count g shards)
        × (exceeds (count g shards) (look shards a gs).most_n ≡ false)
  unfolding look contains
  look_bounds a [] g h = cc
  look_bounds a (x ∷ gs) g h =
      let a' = more (fewer a x (count x shards)) x (count x shards) in
      ground (
        arith,
        ==_iff x g,
        look-least_n a' gs,
        look-most_n a' gs (count x shards),
        look_bounds a' gs g,
      )

module _ (shards : List ℕ) (member : ℕ → Bool) where
  step-Found :
      (a : Analysis) (g : ℕ)
      → Found shards member a
      → member g ≡ true
      → Found shards member (more (fewer a g (count g shards)) g (count g shards))
  step-Found a g f m = elim (Bool-cases (ltb (count g shards) a.least_n)) [
    | inl low ↦ elim (Bool-cases (exceeds (count g shards) a.most_n)) [
      | inl high ↦ record {
        mg = g;
        lg = g;
        most = ground (arith, high, low);
        most_n = ground (arith, high, low);
        least = ground (arith, high, low);
        least_n = ground (arith, high, low);
        most_member = m;
        least_member = m;
      }
      | inr calm ↦ record {
        mg = f.mg;
        lg = g;
        most = ground (arith, calm, low, f.most);
        most_n = ground (arith, calm, low, f.most_n);
        least = ground (arith, calm, low);
        least_n = ground (arith, calm, low);
        most_member = f.most_member;
        least_member = m;
      }
    ]
    | inr even ↦ elim (Bool-cases (exceeds (count g shards) a.most_n)) [
      | inl high ↦ record {
        mg = g;
        lg = f.lg;
        most = ground (arith, high, even);
        most_n = ground (arith, high, even);
        least = ground (arith, high, even, f.least);
        least_n = ground (arith, high, even, f.least_n);
        most_member = m;
        least_member = f.least_member;
      }
      | inr calm ↦ record {
        mg = f.mg;
        lg = f.lg;
        most = ground (arith, calm, even, f.most);
        most_n = ground (arith, calm, even, f.most_n);
        least = ground (arith, calm, even, f.least);
        least_n = ground (arith, calm, even, f.least_n);
        most_member = f.most_member;
        least_member = f.least_member;
      }
    ]
  ]

  look-Found :
      (a : Analysis) (gs : List ℕ)
      → Found shards member a
      → ((g : ℕ) → contains g gs ≡ true → member g ≡ true)
      → Found shards member (look shards a gs)
  unfolding look contains
  look-Found a [] f all = f
  look-Found a (g ∷ gs) f all =
      look-Found (more (fewer a g (count g shards)) g (count g shards)) gs
        (step-Found a g f (all g (ground (arith, ==_iff g g)))) (λ h k. all h (ground (arith, k)))

  look-Found_first :
      (g : ℕ) (gs : List ℕ)
      → length shards < 257
      → ((h : ℕ) → contains h (g ∷ gs) ≡ true → member h ≡ true)
      → Found shards member (
          look shards (record { most = none; most_n = none; least = none; least_n = 257 }) (g ∷ gs))
  unfolding look contains
  look-Found_first g gs few all =
      let m = all g (ground (arith, ==_iff g g)) in
      let n = count g shards in
      let first : Found shards member (
          more (fewer (record { most = none; most_n = none; least = none; least_n = 257 }) g n) g
            n) =
        record {
          mg = g;
          lg = g;
          most = ground (arith, count-le-length g shards);
          most_n = ground (arith, count-le-length g shards);
          least = ground (arith, count-le-length g shards);
          least_n = ground (arith, count-le-length g shards);
          most_member = m;
          least_member = m;
        } in
      look-Found _ gs first (λ h k. all h (ground (arith, k)))

-- Among the groups of a configuration.
module _ (c : ShardConfig) (g : ℕ) (found : has_group c g ≡ true) where
  pub contains-sorted : contains g (sort (keys c.groups)) ≡ true
  contains-sorted = ground (arith, found, contains-sort g (keys c.groups), contains-keys g c.groups)

  pub analyze_bounds :
      ((analyze c).least_n ≤ count g c.shards)
      × (exceeds (count g c.shards) (analyze c).most_n ≡ false)
  unfolding analyze
  analyze_bounds = look_bounds c.shards _ (sort (keys c.groups)) g contains-sorted

-- With a group there are a group with most shards and one with fewest.
sorted-Found :
    (c : ShardConfig) (g : ℕ) (gs : List ℕ)
    → length c.shards < 257
    → has_group c g ≡ true
    → contains g gs ≡ true
    → ((h : ℕ) → contains h gs ≡ true → has_group c h ≡ true)
    → Found c.shards
        (has_group c)
        (look c.shards (record { most = none; most_n = none; least = none; least_n = 257 }) gs)
unfolding contains
sorted-Found c g [] few member there all = cc
sorted-Found c g (x ∷ gs) few member there all =
    look-Found_first c.shards (has_group c) x gs few all

pub analyze-Found :
    (c : ShardConfig) (g : ℕ)
    → length c.shards < 257
    → has_group c g ≡ true
    → Found c.shards (has_group c) (analyze c)
unfolding analyze
analyze-Found c g few member =
    sorted-Found c g (sort (keys c.groups)) few member (contains-sorted c g member)
      (λ h k. ground (arith, k, contains-sort h (keys c.groups), contains-keys h c.groups))
