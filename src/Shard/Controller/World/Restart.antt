-- ===== src/Shard/Controller/World/Restart.antt =====
-- A controller that starts after one that stopped in a change of the configuration: `InitController` of
-- lec-2025/src/shardkv1/shardctrler/shardctrler.go, with the groups and the clerks of the service.
use mit.Base.{ℕ, ◌+◌, ◌<◌, ◌≡◌, ◌≢◌, ◌⊎◌, refl, String, none, some}
use mit.Base.Assoc.{Map, lookup, string_eq}
use mit.Rpc.{Err, GetArgs}
use mit.Raft.State.{Bytes}
use mit.Kv.{ValueEntry}
use mit.Shard.Key.{key_to_shard}
use mit.Shard.Config.{ShardConfig}
use mit.Shard.Group.{Json, group_get}
use mit.Shard.Migration.{RoundTrips}
use mit.Shard.Controller.{value, Codec, config_key, gid_of, query, init_controller}
use mit.Shard.Controller.Keys.{Current}
use mit.Shard.Controller.Alone.{HasServers}
use mit.Shard.Controller.Recovery.{init_controller_lem}
use mit.Shard.Controller.World.{World, services}
use mit.Shard.Controller.World.Moves.{services-IsStore}
use mit.Shard.Controller.World.Shards.{owner, IsReady}
use mit.Shard.Controller.World.Data.{
  AsIn, AllSettled, AnswersAlike, ready-Moves, settled-AnswersAlike, put_settled,
}

-- A controller starts after one that has stored its next configurations and stopped before it moved a
-- shard, while no clerk puts and no other controller works, over clerks whose calls may fail any
-- number of times, with requests that reach the group or not. `InitController` returns and `Query`
-- gives the last configuration that is stored. Then a Get of the service's clerk, for a key whose
-- shard had a group and has one, is answered as it would have been before; and if the shard has
-- moved, its old group refuses the key. The hypotheses are that the old configuration is
-- the current one, that the configurations after it are stored without a gap, `k + 1` of them and less than a hundred, that the groups of a shard
-- have servers, that the groups are ready (`IsReady`), that json encodes each map and gives it back,
-- and that json and Atoi give back the last configuration and every number.
pub init_controller-AnswersAlike :
    (codec : Codec) (json : Json) (w : World) (old new : ShardConfig) (args : GetArgs) (k : ℕ)
    (e : ValueEntry)
    → ((n : ℕ) → codec.atoi (codec.sprint n) ≡ n)
    → ((m : Map String ValueEntry) → (b : Bytes) × (json.marshal m ≡ some b))
    → RoundTrips json
    → Current codec w.store old
    → HasServers old new
    → IsReady old new w
    → k + 1 < 100
    → new.num ≡ old.num + 1 + k
    → ((j : ℕ) → j < k → lookup (config_key (codec.sprint (old.num + 1 + j))) w.store ≢ none)
    → lookup (config_key (codec.sprint (old.num + 1 + k))) w.store ≡ some e
    → codec.unmarshal e.value ≡ some new
    → lookup (config_key (codec.sprint (old.num + 1 + k + 1))) w.store ≡ none
    → gid_of old (key_to_shard args.key) ≢ 0
    → gid_of new (key_to_shard args.key) ≢ 0
    → (w' : World) × (init_controller codec (services json) w ≡ value w')
      × (query codec (services json) w' ≡ value (w', some new))
      × AnswersAlike codec json w w' args
      × ((gid_of old (key_to_shard args.key) ≡ gid_of new (key_to_shard args.key))
          ⊎ ((group_get (owner w' old (key_to_shard args.key)) args).err ≡ Err.wrong_group))
init_controller-AnswersAlike codec json w old new args k e number total round_trips cur has ready
      small next stored there decodes absent a b =
    let (w', started, cur', settled) =
      init_controller_lem codec (services json) (λ v. v.store) (services-IsStore json) (AsIn w)
        (AllSettled old new w) (λ v a p. p)
        (put_settled codec json w old new total round_trips has ready) old new
        (ready-Moves codec json w old new total round_trips has ready) number w k e cur (λ s. refl)
        small next stored there decodes absent in
    let (asked, alike, moved) =
      settled-AnswersAlike codec json w old new total round_trips has ready w' args cur cur' settled
        a b in
    (w', started, asked, alike, moved)
