-- ===== src/Shard/Controller/World/Steps.antt =====
-- `migrateShard` and `removeShard` of lec-2025/src/shardkv1/shardctrler/shardctrler.go, at the servers
-- of the groups.
use text.Mathlib.Text.{◌==◌ as str_eq}
use mit.Base.{ℕ, ◌≡◌, ◌≢◌, ◌∙◌, ap, String, false, some, List, ◌∷◌, if◌then◌else◌, arith}
use mit.Base.Assoc.{Map, lookup, nat_eq}
use mit.Raft.State.{Bytes}
use mit.Kv.{ValueEntry}
use mit.Shard.Config.{ShardConfig}
use mit.Shard.Group.{Json, flag, Age, shard_age, shard_data}
use mit.Shard.Migration.{RoundTrips, deleted}
use mit.Shard.Controller.{
  value, ◌>>=◌, Codec, servers_in, gid_of, moved, must, must_state, migrate_shard, remove_shard,
  remove_from, take_over, hand_over, migrate_found, get_servers_for_group,
}
use mit.Shard.Controller.Keys.{Current}
use mit.Shard.Controller.Alone.{query_lem, servers_lem}
use mit.Shard.Controller.World.{World, with_group, services}
use mit.Shard.Controller.World.Calls.{freeze_lem, install_lem, delete_lem}
use mit.Shard.Controller.World.Moves.{services-IsStore, world1, world2, world3, numbered}

module _ (codec : Codec) (json : Json) (w : World) (old new : ShardConfig)
    (cur : Current codec w.store old) (sh : ℕ) where
  -- A move to a server that was not the old one's.
  pub migrate_shard_lem :
      (from to : ℕ) (p q : String) (ps qs : List String) (state : Bytes)
      → gid_of old sh ≡ from
      → servers_in old from ≡ p ∷ ps
      → lookup to new.groups ≡ some (q ∷ qs)
      → str_eq p q ≡ false
      → RoundTrips json
      → shard_age (w.group p) sh new.num ≡ Age.newer
      → shard_age (w.group q) sh new.num ≡ Age.newer
      → flag (w.group p).migrated_shards sh ≡ false
      → json.marshal (shard_data (w.group p) sh) ≡ some state
      → migrate_shard codec (services json) w from to sh new.num new
        ≡ value (world3 json w p q sh new.num state)
  unfolding migrate_shard
  migrate_shard_lem from to p q ps qs state here servers there apart round_trips new_p new_q mine
        written =
      let env = services json in
      let num = new.num in
      let gone =
        λ (w' : World). env.delete_shard w' (p ∷ ps) (record { shard = sh; num = num }) >>= must in
      let stays : moved (some old) sh from ≡ false = ground (arith, here) in
      let stores = services-IsStore json in
      let store : World → Map String ValueEntry = λ w'. w'.store in
      let new_q' : shard_age ((world1 json w p q sh num state).group q) sh num ≡ Age.newer =
        ground (arith, apart, new_q) in
      let n = numbered json w p q sh num state apart round_trips new_p new_q written in
      let fresh : shard_age ((world2 json w p q sh num state).group p) sh num ≢ Age.old =
        ground (arith, n) in
      ap (λ r. r >>= migrate_found codec env new from to sh num)
        (query_lem codec env store stores w old cur)
      ∙ ap
          (λ b.
            if b
            then value w
            else get_servers_for_group codec env w from >>= take_over codec env new to sh num)
          stays
      ∙ ap (λ r. r >>= take_over codec env new to sh num)
          (servers_lem codec env store stores w old from cur ∙ ap (λ l. value (w, l)) servers)
      ∙ ap (λ r. (r >>= must_state) >>= hand_over codec env (p ∷ ps) (lookup to new.groups) sh num)
          (freeze_lem json w p ps sh num state new_p mine written)
      ∙ ap (λ o. hand_over codec env (p ∷ ps) o sh num (world1 json w p q sh num state, state))
          there
      ∙ ap (λ r. (r >>= must) >>= gone)
          (install_lem json (world1 json w p q sh num state) q qs sh num state
            (shard_data (w.group p) sh) new_q'
            (round_trips (shard_data (w.group p) sh) state written))
      ∙ ap (λ r. r >>= must) (delete_lem json (world2 json w p q sh num state) p ps sh num fresh)

  pub remove_shard_lem :
      (from : ℕ) (p : String) (ps : List String)
      → servers_in old from ≡ p ∷ ps
      → shard_age (w.group p) sh new.num ≡ Age.newer
      → remove_shard codec (services json) w from sh new.num
        ≡ value (with_group w p (deleted (w.group p) sh new.num))
  unfolding remove_shard
  remove_shard_lem from p ps servers fresh =
      let env = services json in
      let stores = services-IsStore json in
      let store : World → Map String ValueEntry = λ w'. w'.store in
      ap (λ r. r >>= remove_from codec env sh new.num)
        (servers_lem codec env store stores w old from cur ∙ ap (λ l. value (w, l)) servers)
      ∙ ap (λ r. r >>= must) (delete_lem json w p ps sh new.num (ground (arith, fresh)))
