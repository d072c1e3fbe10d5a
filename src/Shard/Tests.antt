-- ===== src/Shard/Tests.antt =====
-- The theorems on a shard group's server (lec-2025/src/shardkv1/shardgrp/server.go) at concrete
-- servers and requests.
use mit.Base.{
  ◌⊎◌, ℕ, ◌≡◌, ◌&&◌, if◌then◌else◌, ◌≢◌, refl, String, true, Option, none, some, [], ◌∷◌, arith,
}
use text.Mathlib.Text.{◌==◌ as str_eq}
use text.Mathlib.TextEquality.{eq_iff}
use mit.Base.Assoc.{Map, lookup, filter_keys, nat_eq, string_eq}
use mit.Rpc.{Err, GetArgs}
use mit.Raft.State.{Bytes}
use mit.Kv.{ValueEntry, do_get}
use mit.Shard.Key.{key_to_shard, sum32}
use mit.Shard.Group.{
  KvServer, Json, InstallShardArgs, Age, shard_age, shard_data, closed, group_get, freeze, put, Req,
  pointer, value, do_freeze_shard, do_install_shard, do_delete_shard, apply_all, start_server,
}
use mit.Shard.Migration.{RoundTrips, frozen, installed, deleted, migration-get}
use mit.Shard.Frozen.{resident, closed_stays, install_retry, delete_keeps}
use mit.Shard.Key.{n_shards}
use mit.Base.{length, List}
use mit.Shard.Config.{
  ShardConfig, make_shard_config, keys, check_config, all_present, max_count, min_count, count,
}
use mit.Shard.Config.Check.{Rebalanced, rebalance-check_config}
use mit.Shard.Config.Change.{join_balance, leave_balance}
use mit.Shard.Config.Change.Ends.{Ends, join_balance-Ends, leave_balance-Ends}
use mit.Shard.Config.Change.Loops.{JoinsAll, LeavesAll, JoinsUpTo, LeavesUpTo, Clash}

abbrev entry : ValueEntry
entry = record { value = "x"; version = 3 }

-- An encoding that writes the empty map and a map with the key "a" and the value "x" alone, and
-- fails on every other.
abbrev marshal : Map String ValueEntry → Option Bytes
marshal [] = some (0 ∷ [])
marshal ((k, e) ∷ []) =
    if str_eq k "a" && str_eq e.value "x" then some (e.version ∷ 0 ∷ []) else none
marshal _ = none

abbrev unmarshal : Bytes → Option (Map String ValueEntry)
unmarshal (_ ∷ []) = some []
unmarshal (n ∷ _ ∷ []) = some (("a", record { value = "x"; version = n }) ∷ [])
unmarshal _ = none

abbrev json : Json
json = record { marshal = marshal; unmarshal = unmarshal }

json-RoundTrips : RoundTrips json
json-RoundTrips [] b h = ground (arith, h)
json-RoundTrips ((k, e) ∷ []) b h = ground (arith, h, eq_iff k "a", eq_iff e.value "x")
json-RoundTrips (_ ∷ _ ∷ _) b h = cc

-- The old group serves "a", the new group has nothing of it.
abbrev old_group : KvServer
old_group = record (start_server 100 0) { key_value = ("a", entry) ∷ ("b", entry) ∷ [] }

abbrev new_group : KvServer
new_group = record (start_server 101 1) {
  key_value = ("c", entry) ∷ [];
  max_shard_num = (key_to_shard "a", 1) ∷ [];
}

abbrev shard_a : ℕ
shard_a = key_to_shard "a"

collected_a : marshal (shard_data old_group shard_a) ≡ some (3 ∷ 0 ∷ [])
unfolding shard_data key_to_shard sum32 start_server filter_keys
collected_a = refl

new_a : shard_age old_group shard_a 2 ≡ Age.newer
unfolding start_server lookup
new_a = refl

new_b : shard_age new_group shard_a 2 ≡ Age.newer
unfolding key_to_shard sum32 start_server lookup
new_b = refl

lacking : lookup "a" old_group.key_value ≡ none → lookup "a" new_group.key_value ≡ none
unfolding start_server lookup
lacking = λ h. refl

abbrev get_a : GetArgs
get_a = record { key = "a" }

migration-get_example :
    let (a', reply) = frozen json old_group shard_a 2 in
    (reply.err ≡ Err.ok)
    × ((group_get a' get_a).err ≡ Err.wrong_group)
    × ((group_get (deleted a' shard_a 2) get_a).err ≡ Err.wrong_group)
    × (group_get (installed json new_group shard_a 2 reply.state) get_a
        ≡ do_get old_group.key_value get_a)
migration-get_example =
    migration-get json json-RoundTrips old_group new_group 2 (3 ∷ 0 ∷ []) get_a new_a new_b
      collected_a lacking

apart : key_to_shard "c" ≢ shard_a
unfolding key_to_shard sum32
apart = λ h. omega (arith, h)

abbrev freeze_a : Req
freeze_a = pointer (freeze (record { shard = shard_a; num = 2 }))

abbrev put_a : Req
put_a = value (put (record { key = "a"; value = "y"; version = 3 }))

abbrev frozen_group : KvServer
frozen_group = record old_group { frozen_shards = (shard_a, true) ∷ [] }

is_closed : closed frozen_group shard_a ≡ true
unfolding key_to_shard sum32 start_server lookup
is_closed = refl

few : resident (freeze_a ∷ put_a ∷ []) ≡ true
unfolding resident
few = refl

closed_stays_example :
    (closed (apply_all json frozen_group (freeze_a ∷ put_a ∷ [])) shard_a ≡ true)
    × (lookup "a" (apply_all json frozen_group (freeze_a ∷ put_a ∷ [])).key_value
        ≡ lookup "a" frozen_group.key_value)
closed_stays_example = closed_stays json frozen_group (freeze_a ∷ put_a ∷ []) "a" few is_closed

abbrev garbled : InstallShardArgs
garbled = record { shard = shard_a; state = []; num = 2 }

install_retry_example :
    let (kv', reply) = do_install_shard json new_group garbled in
    let (kv'', reply') = do_install_shard json kv' garbled in
    (reply.err ≡ Err.maybe) × (reply'.err ≡ Err.ok) × (kv''.key_value ≡ new_group.key_value)
install_retry_example = install_retry json new_group garbled new_b refl

delete_keeps_example :
    let kv' = (do_freeze_shard json old_group (record { shard = shard_a; num = 2 })).0 in
    let (kv'', reply) = do_delete_shard kv' (record { shard = shard_a; num = 2 }) in
    (reply.err ≡ Err.ok) × (kv''.key_value ≡ old_group.key_value) × (closed kv'' shard_a ≡ true)
delete_keeps_example = delete_keeps json old_group shard_a 2 new_a

-- Twelve shards of no group, and two groups.
abbrev first_config : ShardConfig
first_config = record make_shard_config { groups = (101, "s0" ∷ []) ∷ (102, "s1" ∷ []) ∷ [] }

places : length first_config.shards ≡ n_shards
unfolding make_shard_config
places = refl

rebalance-check_config_example : (c' : ShardConfig) × Rebalanced first_config c'
rebalance-check_config_example = rebalance-check_config first_config places

abbrev even_config : ShardConfig
even_config = record first_config {
  shards = 101 ∷ 102 ∷ 101 ∷ 102 ∷ 101 ∷ 102 ∷ 101 ∷ 102 ∷ 101 ∷ 102 ∷ 101 ∷ 102 ∷ [];
}

even_places : length even_config.shards ≡ n_shards
unfolding make_shard_config
even_places = refl

even : check_config even_config (keys even_config.groups) ≡ true
unfolding check_config all_present max_count min_count keys count make_shard_config lookup
even = refl

abbrev third : Map ℕ (List String)
third = (103, "s2" ∷ []) ∷ []

join_balance-Ends_example :
    Ends even_config
      ((third ≡ []) ⊎ Clash even_config third)
      (JoinsUpTo even_config third)
      (JoinsAll even_config third)
      (join_balance even_config third)
join_balance-Ends_example = join_balance-Ends even_config third even_places

leave_balance-Ends_example :
    let gids : List ℕ = 101 ∷ [] in
    Ends even_config
      (gids ≡ [])
      (LeavesUpTo even_config gids)
      (LeavesAll even_config gids)
      (leave_balance even_config gids)
leave_balance-Ends_example = leave_balance-Ends even_config (101 ∷ []) even_places
