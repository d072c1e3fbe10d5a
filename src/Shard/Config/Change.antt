-- ===== src/Shard/Config/Change.antt =====
-- `Join`, `Leave`, `JoinBalance` and `LeaveBalance` of lec-2025/src/shardkv1/shardcfg/shardcfg.go.
mod Shared
pub mod Loops
pub mod Ends
use mit.Base.{
  ℕ, ◌+◌, String, Bool, true, false, ◌||◌, Option, none, some, List, [], ◌∷◌, if◌then◌else◌,
}
use mit.Base.Assoc.{Map, insert, delete, nat_eq}
use text.Mathlib.Text.{◌==◌ as str_eq}
use mit.Shard.Config.{ShardConfig, has_group, rebalance}

-- The exit of log.Fatalf, a return with its Boolean, or a loop that does not end.
pub data Change : Type 0 where
  fatal : Change
  returned : ShardConfig → Bool → Change
  diverged : Change

unfoldable pub has_server : String → List String → Bool
has_server s [] = false
has_server s (t ∷ ts) = str_eq t s || has_server s ts

unfoldable pub share : List String → List String → Bool
share [] ts = false
share (s ∷ ss) ts = has_server s ts || share ss ts

-- Some group already has one of the servers.
unfoldable pub taken : List String → Map ℕ (List String) → Bool
taken srvs [] = false
taken srvs ((g, xsrvs) ∷ m) = share xsrvs srvs || taken srvs m

abbrev pub finish : ShardConfig → Bool → Change
finish c changed = if changed then returned (record c { num = c.num + 1 }) true else fatal

-- The loop over the new groups, in the order in which the iteration takes them.
unfoldable pub join_loop : ShardConfig → Bool → Map ℕ (List String) → Change
unfolding taken
join_loop c changed [] = finish c changed
join_loop c changed ((gid, srvs) ∷ rest) =
    let joined = join_loop (record c { groups = insert gid srvs c.groups }) true rest in
    if has_group c gid then returned c false else if taken srvs c.groups then fatal else joined

unfoldable pub join : ShardConfig → Map ℕ (List String) → Change
unfolding join_loop
join c servers = join_loop c false servers

unfoldable pub leave_loop : ShardConfig → Bool → List ℕ → Change
leave_loop c changed [] = finish c changed
leave_loop c changed (gid ∷ rest) =
    let left = leave_loop (record c { groups = delete gid c.groups }) true rest in
    if has_group c gid then left else returned c false

unfoldable pub leave : ShardConfig → List ℕ → Change
unfolding leave_loop
leave c gids = leave_loop c false gids

abbrev pub rebalanced : Option ShardConfig → Change
rebalanced none = diverged
rebalanced (some c) = returned c true

abbrev pub balanced : Change → Change
balanced fatal = fatal
balanced diverged = diverged
balanced (returned c false) = returned c false
balanced (returned c true) = rebalanced (rebalance c)

unfoldable pub join_balance : ShardConfig → Map ℕ (List String) → Change
unfolding join
join_balance c servers = balanced (join c servers)

unfoldable pub leave_balance : ShardConfig → List ℕ → Change
unfolding leave
leave_balance c gids = balanced (leave c gids)
