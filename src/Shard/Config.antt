-- ===== src/Shard/Config.antt =====
-- Configurations, lec-2025/src/shardkv1/shardcfg/shardcfg.go: which group serves which shard. What is
-- proved is in the modules below.
pub mod Balance
pub mod Rebalance
pub mod Check
pub mod Change
use mit.Base.{
  ℕ, zero, suc, ◌+◌, ◌*◌, ◌==◌, String, Bool, true, false, ◌&&◌, not, Option, none, some, List, [],
  ◌∷◌, ltb, if◌then◌else◌, get_or, set, length, replicate,
}
use mit.Base.Assoc.{Map, lookup, insert, delete, nat_eq}
use mit.Base.Sort.{sort, contains}
use mit.Shard.Key.{n_shards}

-- `Shards` has a place for each shard; a group of number 0 stands for none.
pub record ShardConfig : Type 0 where
  pub num : ℕ
  pub shards : List ℕ
  pub groups : Map ℕ (List String)

unfoldable pub make_shard_config : ShardConfig
make_shard_config = record { num = 0; shards = replicate n_shards 0; groups = [] }

abbrev pub has_group : ShardConfig → ℕ → Bool
has_group c gid = elim (lookup gid c.groups) [ none ↦ false | some srvs ↦ true ]

unfoldable pub keys : Map ℕ (List String) → List ℕ
keys [] = []
keys ((g, srvs) ∷ m) = g ∷ keys m

-- counts[g]
unfoldable pub count : ℕ → List ℕ → ℕ
count g [] = 0
count g (x ∷ xs) = let rest = count g xs in if x == g then suc rest else rest

-- The group with most shards and the one with fewest, and their counts; `none` for -1.
pub record Analysis : Type 0 where
  pub most : Option ℕ
  pub most_n : Option ℕ
  pub least : Option ℕ
  pub least_n : ℕ

-- The two tests on one group.
abbrev pub fewer : Analysis → ℕ → ℕ → Analysis
fewer a g n = if ltb n a.least_n then record a { least = some g; least_n = n } else a

abbrev pub exceeds : ℕ → Option ℕ → Bool
exceeds n none = true
exceeds n (some m) = ltb m n

abbrev pub more : Analysis → ℕ → ℕ → Analysis
more a g n = if exceeds n a.most_n then record a { most = some g; most_n = some n } else a

unfoldable pub look : List ℕ → Analysis → List ℕ → Analysis
look shards a [] = a
look shards a (g ∷ gs) = look shards (more (fewer a g (count g shards)) g (count g shards)) gs

unfoldable pub analyze : ShardConfig → Analysis
unfolding look
analyze c =
    look c.shards (record { most = none; most_n = none; least = none; least_n = 257 })
      (sort (keys c.groups))

unfoldable pub least : ShardConfig → Option ℕ
unfolding analyze
least c = (analyze c).least

-- The loop that gives the shards of unknown groups away, over the `n` shards from `s` on. `none`
-- stands for a shard that would be given to the group -1.
unfoldable pub assign : ℕ → ℕ → ShardConfig → Option ShardConfig
unfolding least
assign zero s c = some c
assign (suc n) s c = elim (has_group c (get_or c.shards s 0)) [
  | true ↦ assign n (s + 1) c
  | false ↦ elim (least c) [
    | none ↦ none
    | some lg ↦ assign n (s + 1) (record c { shards = set c.shards s lg })
  ]
]

-- The first shard of group `mg` goes to group `lg`.
unfoldable pub move_one : ℕ → ℕ → List ℕ → List ℕ
move_one mg lg [] = []
move_one mg lg (x ∷ xs) = if x == mg then lg ∷ xs else x ∷ move_one mg lg xs

-- `mn < ln + 2`
abbrev pub is_even : Analysis → Bool
is_even a = elim a.most_n [ none ↦ true | some mn ↦ ltb mn (a.least_n + 2) ]

abbrev pub move_between : ShardConfig → Option ℕ → Option ℕ → Option ShardConfig
move_between c (some mg) (some lg) = some (record c { shards = move_one mg lg c.shards })
move_between c _ _ = none

-- The loop that moves shards, with fuel; `none` when that is out, or for a move from or to -1.
unfoldable pub spread : ℕ → ShardConfig → Option ShardConfig
unfolding analyze move_one
spread zero c = none
spread (suc fuel) c = elim (is_even (analyze c)) [
  | true ↦ some c
  | false ↦ elim (move_between c (analyze c).most (analyze c).least) [
    | none ↦ none
    | some c' ↦ spread fuel c'
  ]
]

abbrev pub enough : ℕ
enough = n_shards * n_shards + 1

unfoldable pub rebalance : ShardConfig → Option ShardConfig
unfolding assign spread
rebalance c = elim c.groups [
  | [] ↦ some (record c { shards = replicate n_shards 0 })
  | _ ∷ _ ↦ elim (assign n_shards 0 c) [ none ↦ none | some c' ↦ spread enough c' ]
]

-- `GidServers` and `IsMember`.
unfoldable pub gid_servers : ShardConfig → ℕ → ℕ × Option (List String)
gid_servers c sh = (get_or c.shards sh 0, lookup (get_or c.shards sh 0) c.groups)

unfoldable pub is_member : ShardConfig → ℕ → Bool
unfolding contains
is_member c gid = contains gid c.shards

-- The loops of `CheckConfig`, and the test: `false` where it calls fatalf.
unfoldable pub all_present : ShardConfig → List ℕ → Bool
all_present c [] = true
all_present c (g ∷ gs) = let rest = all_present c gs in if has_group c g then rest else false

unfoldable pub max_count : List ℕ → ℕ → List ℕ → ℕ
max_count shards acc [] = acc
max_count shards acc (g ∷ gs) =
    max_count shards (if ltb acc (count g shards) then count g shards else acc) gs

unfoldable pub min_count : List ℕ → ℕ → List ℕ → ℕ
min_count shards acc [] = acc
min_count shards acc (g ∷ gs) =
    min_count shards (if ltb (count g shards) acc then count g shards else acc) gs

abbrev pub spread_wide : ShardConfig → Bool
spread_wide c =
    ltb (min_count c.shards 257 (keys c.groups) + 1) (max_count c.shards 0 (keys c.groups))

unfoldable pub check_config : ShardConfig → List ℕ → Bool
unfolding all_present max_count min_count
check_config c groups =
    if not (length c.groups == length groups)
    then false
    else if not (all_present c groups)
    then false
    else if ltb 0 (length groups) && not (all_present c c.shards)
    then false
    else not (spread_wide c)
