-- ===== src/Shard/Config/Change/Ends.antt =====
-- How a change of the groups ends, lec-2025/src/shardkv1/shardcfg/shardcfg.go.
use mit.Base.{◌⊎◌, inl, inr, ℕ, ◌+◌, ◌≡◌, ◌∙◌, ap, sym, String, true, false, List, [], length}
use mathlib.Core.Path.{subst}
use mit.Base.Assoc.{Map, nat_eq}
use mit.Shard.Key.{n_shards}
use mit.Shard.Config.{ShardConfig, keys, check_config}
use mit.Shard.Config.Check.{rebalance-check_config}
use mit.Shard.Config.Change.{
  Change, fatal, returned, diverged, rebalanced, balanced, join, leave, join_balance, leave_balance,
}
use mit.Shard.Config.Change.Loops.{
  Joins-kept, Joins-Groups, Leaves-kept, Leaves-Groups, join_loop-JoinLoop, leave_loop-LeaveLoop,
  JoinLoop, LeaveLoop, JoinsAll, LeavesAll, JoinsUpTo, LeavesUpTo, Clash,
}

-- How a change of `c` with its rebalancing ends: with the exit; refused, with the number and the
-- shards from before; or with the next number, the groups of a configuration that accepts it, and
-- shards that pass `CheckConfig` for them. It does not go on for ever.
abbrev pub Ends :
    ShardConfig → Type 0 → (ShardConfig → Type 0) → (ShardConfig → Type 0) → Change → Type 0
Ends c exits refuses accepts fatal = exits
Ends c exits refuses accepts diverged = ⊥
Ends c exits refuses accepts (returned c' false) =
    refuses c' × (c'.num ≡ c.num) × (c'.shards ≡ c.shards)
Ends c exits refuses accepts (returned c' true) =
    (c1 : ShardConfig) × accepts c1
    × (c'.num ≡ c.num + 1)
    × (c'.groups ≡ c1.groups)
    × (check_config c' (keys c'.groups) ≡ true)

-- The rebalancing of an accepted change.
rebalanced-Ends :
    (c c1 : ShardConfig) (exits : Type 0) (refuses accepts : ShardConfig → Type 0)
    → length c.shards ≡ n_shards
    → c1.num ≡ c.num
    → c1.shards ≡ c.shards
    → accepts c1
    → Ends c exits refuses accepts (balanced (returned (record c1 { num = c1.num + 1 }) true))
rebalanced-Ends c c1 exits refuses accepts places num shards fits =
    let (c2, (e, n, g, p, ok)) =
      rebalance-check_config (record c1 { num = c1.num + 1 }) (ap length shards ∙ places) in
    subst (Ends c exits refuses accepts) (sym (ap rebalanced e))
      (c1, fits, n ∙ ap (λ k. k + 1) num, g, ap (λ m. check_config c2 (keys m)) g ∙ ok)

join-Ends :
    (c : ShardConfig) (servers : Map ℕ (List String)) (r : Change)
    → length c.shards ≡ n_shards
    → JoinLoop c false servers r
    → Ends c
        ((servers ≡ []) ⊎ Clash c servers)
        (JoinsUpTo c servers)
        (JoinsAll c servers)
        (balanced r)
join-Ends c servers fatal places (inl (b, empty)) = inl empty
join-Ends c servers fatal places (inr clash) = inr clash
join-Ends c servers diverged places h = h
join-Ends c servers (returned c' false) places (before, g, s, after, e, j, there) =
    ((before, g, s, after, e, j, there), (Joins-kept c c' before j).0, (Joins-kept c c' before j).1)
join-Ends c servers (returned c' true) places (c1, (j, inl never), e) = cc
join-Ends c servers (returned c' true) places (c1, (j, inr some_new), e) =
    let (num, shards) = Joins-kept c c1 servers j in
    subst
      (λ d.
        Ends c ((servers ≡ []) ⊎ Clash c servers) (JoinsUpTo c servers) (JoinsAll c servers)
          (balanced (returned d true)))
      (sym e)
      (rebalanced-Ends c c1 ((servers ≡ []) ⊎ Clash c servers) (JoinsUpTo c servers)
        (JoinsAll c servers) places num shards (some_new, j, Joins-Groups c c1 servers j))

leave-Ends :
    (c : ShardConfig) (gids : List ℕ) (r : Change)
    → length c.shards ≡ n_shards
    → LeaveLoop c false gids r
    → Ends c (gids ≡ []) (LeavesUpTo c gids) (LeavesAll c gids) (balanced r)
leave-Ends c gids fatal places (b, empty) = empty
leave-Ends c gids diverged places h = h
leave-Ends c gids (returned c' false) places (before, g, after, e, l, gone) =
    ((before, g, after, e, l, gone), (Leaves-kept c c' before l).0, (Leaves-kept c c' before l).1)
leave-Ends c gids (returned c' true) places (c1, (l, inl never), e) = cc
leave-Ends c gids (returned c' true) places (c1, (l, inr some_old), e) =
    let (num, shards) = Leaves-kept c c1 gids l in
    subst
      (λ d. Ends c (gids ≡ []) (LeavesUpTo c gids) (LeavesAll c gids) (balanced (returned d true)))
      (sym e)
      (rebalanced-Ends c c1 (gids ≡ []) (LeavesUpTo c gids) (LeavesAll c gids) places num shards
        (some_old, l, Leaves-Groups c c1 gids l))

-- `JoinBalance` of a configuration with a place for each shard, for any new groups in any order, ends.
-- If it returns true, there are new groups, each was not there when its turn came and shared no server
-- with one that was; the number is the next one, the groups are exactly the old and the new ones, and
-- `CheckConfig` passes for them. If it returns false, a new group was already there when its turn
-- came; the number and the shards are as before, with the groups before that one joined. It exits if
-- no group is given or, before any that is there already, a new group shares a server with one that
-- is there.
pub join_balance-Ends :
    (c : ShardConfig) (servers : Map ℕ (List String))
    → length c.shards ≡ n_shards
    → Ends c
        ((servers ≡ []) ⊎ Clash c servers)
        (JoinsUpTo c servers)
        (JoinsAll c servers)
        (join_balance c servers)
unfolding join_balance join
join_balance-Ends c servers places =
    join-Ends c servers (join c servers) places (join_loop-JoinLoop c false servers)

-- `LeaveBalance` of a configuration with a place for each shard, for any list of groups, ends. If it
-- returns true, there are groups in the list and each was there when its turn came; the number is the
-- next one, the groups are exactly the old ones that are not in the list, and `CheckConfig` passes for
-- them. If it returns false, a group of the list was not there when its turn came; the number and the
-- shards are as before, without the groups before that one. It exits if the list is empty.
pub leave_balance-Ends :
    (c : ShardConfig) (gids : List ℕ)
    → length c.shards ≡ n_shards
    → Ends c (gids ≡ []) (LeavesUpTo c gids) (LeavesAll c gids) (leave_balance c gids)
unfolding leave_balance leave
leave_balance-Ends c gids places =
    leave-Ends c gids (leave c gids) places (leave_loop-LeaveLoop c false gids)
