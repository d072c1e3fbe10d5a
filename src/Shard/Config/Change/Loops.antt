-- ===== src/Shard/Config/Change/Loops.antt =====
-- How the loops of `Join` and `Leave` end, lec-2025/src/shardkv1/shardcfg/shardcfg.go.
use mit.Base.{
  ◌≢◌, ◌⊎◌, inl, inr, ◌++◌, ℕ, ◌+◌, ◌≡◌, refl, ap, String, Bool, true, false, ◌||◌, ◌&&◌, not, List,
  [], ◌∷◌, if◌then◌else◌, arith,
}
use mit.Base.Assoc.{Map, insert, delete, nat_eq, lookup-insert, lookup-delete}
use mit.Base.Sort.{contains}
use mit.Shard.Config.Change.Shared.{Shared, taken-Shared, taken-apart}
use mit.Shard.Config.{ShardConfig, keys, has_group}
use mit.Shard.Config.Change.{Change, fatal, returned, diverged, join_loop, leave_loop, taken}

-- The groups of the result, for each of them whether it is there.
abbrev pub Groups : ShardConfig → (ℕ → Bool) → Type 0
Groups c present = (g : ℕ) → has_group c g ≡ present g

abbrev pub joined : ShardConfig → Map ℕ (List String) → ℕ → Bool
joined c servers g = has_group c g || contains g (keys servers)

abbrev pub left : ShardConfig → List ℕ → ℕ → Bool
left c gids g = has_group c g && not (contains g gids)

-- The groups can join one after the other, each of them new and without a server of one that is there,
-- which makes the second configuration of the first.
abbrev pub Joins : ShardConfig → Map ℕ (List String) → ShardConfig → Type 0
Joins c [] c' = c' ≡ c
Joins c ((gid, srvs) ∷ rest) c' =
    (has_group c gid ≡ false)
    × (¬ (Shared srvs c.groups))
    × Joins (record c { groups = insert gid srvs c.groups }) rest c'

-- The groups can leave one after the other, each of them there.
abbrev pub Leaves : ShardConfig → List ℕ → ShardConfig → Type 0
Leaves c [] c' = c' ≡ c
Leaves c (gid ∷ rest) c' =
    (has_group c gid ≡ true) × Leaves (record c { groups = delete gid c.groups }) rest c'

-- All of the groups, and there are some.
abbrev pub JoinsAll : ShardConfig → Map ℕ (List String) → ShardConfig → Type 0
JoinsAll c servers c' = (servers ≢ []) × Joins c servers c' × Groups c' (joined c servers)

abbrev pub LeavesAll : ShardConfig → List ℕ → ShardConfig → Type 0
LeavesAll c gids c' = (gids ≢ []) × Leaves c gids c' × Groups c' (left c gids)

-- The groups up to one that is there already.
abbrev pub JoinsUpTo : ShardConfig → Map ℕ (List String) → ShardConfig → Type 0
JoinsUpTo c servers c' =
    (before : Map ℕ (List String)) × (gid : ℕ) × (srvs : List String) × (rest : Map ℕ (List String))
    × (servers ≡ before ++ (gid, srvs) ∷ rest)
    × Joins c before c'
    × (has_group c' gid ≡ true)

-- The groups up to one that is not there.
abbrev pub LeavesUpTo : ShardConfig → List ℕ → ShardConfig → Type 0
LeavesUpTo c gids c' =
    (before : List ℕ) × (gid : ℕ) × (rest : List ℕ) × (gids ≡ before ++ gid ∷ rest)
    × Leaves c before c'
    × (has_group c' gid ≡ false)

-- A new group has a server of one that is there when its turn comes.
abbrev pub Clash : ShardConfig → Map ℕ (List String) → Type 0
Clash c servers =
    (before : Map ℕ (List String)) × (gid : ℕ) × (srvs : List String) × (rest : Map ℕ (List String))
    × (c' : ShardConfig) × (servers ≡ before ++ (gid, srvs) ∷ rest)
    × Joins c before c'
    × (has_group c' gid ≡ false)
    × Shared srvs c'.groups

pub Joins-kept :
    (c c' : ShardConfig) (servers : Map ℕ (List String))
    → Joins c servers c'
    → (c'.num ≡ c.num) × (c'.shards ≡ c.shards)
Joins-kept c c' [] h = (ap (λ d. d.num) h, ap (λ d. d.shards) h)
Joins-kept c c' ((gid, srvs) ∷ rest) (new, apart, h) =
    Joins-kept (record c { groups = insert gid srvs c.groups }) c' rest h

pub Joins-Groups :
    (c c' : ShardConfig) (servers : Map ℕ (List String))
    → Joins c servers c'
    → Groups c' (joined c servers)
unfolding keys contains
Joins-Groups c c' [] h g = ground (arith, ap (λ d. has_group d g) h)
Joins-Groups c c' ((gid, srvs) ∷ rest) (new, apart, h) g = ground (
  arith,
  lookup-insert gid g srvs c.groups,
  Joins-Groups (record c { groups = insert gid srvs c.groups }) c' rest h g,
)

pub Leaves-kept :
    (c c' : ShardConfig) (gids : List ℕ)
    → Leaves c gids c'
    → (c'.num ≡ c.num) × (c'.shards ≡ c.shards)
Leaves-kept c c' [] h = (ap (λ d. d.num) h, ap (λ d. d.shards) h)
Leaves-kept c c' (gid ∷ rest) (old, h) =
    Leaves-kept (record c { groups = delete gid c.groups }) c' rest h

pub Leaves-Groups :
    (c c' : ShardConfig) (gids : List ℕ) → Leaves c gids c' → Groups c' (left c gids)
unfolding contains
Leaves-Groups c c' [] h g = ground (arith, ap (λ d. has_group d g) h)
Leaves-Groups c c' (gid ∷ rest) (old, h) g = ground (
  arith,
  lookup-delete gid g c.groups,
  Leaves-Groups (record c { groups = delete gid c.groups }) c' rest h g,
)

-- How a change ends before the shards are balanced: with the exit, refused with a configuration, or
-- with the next number for another one.
abbrev Changed : Type 0 → (ShardConfig → Type 0) → (ShardConfig → Type 0) → Change → Type 0
Changed exits refuses accepts fatal = exits
Changed exits refuses accepts diverged = ⊥
Changed exits refuses accepts (returned c' false) = refuses c'
Changed exits refuses accepts (returned c' true) =
    (c1 : ShardConfig) × accepts c1 × (c' ≡ record c1 { num = c1.num + 1 })

abbrev pub JoinLoop : ShardConfig → Bool → Map ℕ (List String) → Change → Type 0
JoinLoop c changed servers =
    Changed (((changed ≡ false) × (servers ≡ [])) ⊎ Clash c servers) (JoinsUpTo c servers)
      (λ c1. Joins c servers c1 × ((changed ≡ true) ⊎ (servers ≢ [])))

-- One more group has joined before.
join_one :
    (c : ShardConfig) (changed : Bool) (gid : ℕ) (srvs : List String) (rest : Map ℕ (List String))
    (r : Change)
    → has_group c gid ≡ false
    → ¬ (Shared srvs c.groups)
    → JoinLoop (record c { groups = insert gid srvs c.groups }) true rest r
    → JoinLoop c changed ((gid, srvs) ∷ rest) r
join_one c changed gid srvs rest fatal new apart (inl (e, empty)) = cc
join_one c changed gid srvs rest fatal new apart (inr (before, g, s, after, c2, e, j, n, sh)) =
    inr ((gid, srvs) ∷ before, g, s, after, c2, ap (λ m. (gid, srvs) ∷ m) e, (new, apart, j), n, sh)
join_one c changed gid srvs rest diverged new apart h = h
join_one c changed gid srvs rest (returned c' false) new apart (before, g, s, after, e, j, there) =
    ((gid, srvs) ∷ before, g, s, after, ap (λ m. (gid, srvs) ∷ m) e, (new, apart, j), there)
join_one c changed gid srvs rest (returned c' true) new apart (c1, (j, some_new), e) =
    (c1, ((new, apart, j), inr (λ z. cc)), e)

join_case :
    (c : ShardConfig) (changed : Bool) (gid : ℕ) (srvs : List String) (rest : Map ℕ (List String))
    (r : Change) (old clash : Bool)
    → has_group c gid ≡ old
    → taken srvs c.groups ≡ clash
    → JoinLoop (record c { groups = insert gid srvs c.groups }) true rest r
    → JoinLoop c changed
        ((gid, srvs) ∷ rest)
        (if old then returned c false else if clash then fatal else r)
join_case c changed gid srvs rest r true clash old_e clash_e h =
    ([], gid, srvs, rest, refl, refl, old_e)
join_case c changed gid srvs rest r false true old_e clash_e h =
    inr ([], gid, srvs, rest, c, refl, refl, old_e, taken-Shared srvs c.groups clash_e)
join_case c changed gid srvs rest r false false old_e clash_e h =
    join_one c changed gid srvs rest r old_e (taken-apart srvs c.groups clash_e) h

pub join_loop-JoinLoop :
    (c : ShardConfig) (changed : Bool) (servers : Map ℕ (List String))
    → JoinLoop c changed servers (join_loop c changed servers)
unfolding join_loop
join_loop-JoinLoop c true [] = (c, (refl, inl refl), refl)
join_loop-JoinLoop c false [] = inl (refl, refl)
join_loop-JoinLoop c changed ((gid, srvs) ∷ rest) =
    let c1 = record c { groups = insert gid srvs c.groups } in
    join_case c changed gid srvs rest (join_loop c1 true rest) (has_group c gid)
      (taken srvs c.groups) refl refl (join_loop-JoinLoop c1 true rest)

abbrev pub LeaveLoop : ShardConfig → Bool → List ℕ → Change → Type 0
LeaveLoop c changed gids =
    Changed ((changed ≡ false) × (gids ≡ [])) (LeavesUpTo c gids)
      (λ c1. Leaves c gids c1 × ((changed ≡ true) ⊎ (gids ≢ [])))

leave_case :
    (c : ShardConfig) (changed : Bool) (gid : ℕ) (rest : List ℕ) (r : Change) (old : Bool)
    → has_group c gid ≡ old
    → LeaveLoop (record c { groups = delete gid c.groups }) true rest r
    → LeaveLoop c changed (gid ∷ rest) (if old then r else returned c false)
leave_case c changed gid rest r false e h = ([], gid, rest, refl, refl, e)
leave_case c changed gid rest fatal true e (b, empty) = cc
leave_case c changed gid rest diverged true e h = h
leave_case c changed gid rest (returned c' false) true e (before, g, after, s, l, gone) =
    (gid ∷ before, g, after, ap (λ m. gid ∷ m) s, (e, l), gone)
leave_case c changed gid rest (returned c' true) true e (c1, (l, some_old), s) =
    (c1, ((e, l), inr (λ z. cc)), s)

pub leave_loop-LeaveLoop :
    (c : ShardConfig) (changed : Bool) (gids : List ℕ)
    → LeaveLoop c changed gids (leave_loop c changed gids)
unfolding leave_loop
leave_loop-LeaveLoop c true [] = (c, (refl, inl refl), refl)
leave_loop-LeaveLoop c false [] = (refl, refl)
leave_loop-LeaveLoop c changed (gid ∷ rest) =
    let c1 = record c { groups = delete gid c.groups } in
    leave_case c changed gid rest (leave_loop c1 true rest) (has_group c gid) refl
      (leave_loop-LeaveLoop c1 true rest)
