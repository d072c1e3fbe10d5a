-- ===== src/Shard/Controller/Alone.antt =====
-- A controller that works alone, lec-2025/src/shardkv1/shardctrler/shardctrler.go: no other clerk
-- writes the keys of the controller.
use mit.Base.{ℕ, ◌≡◌, ◌≢◌, refl, ap, String, Option, none, some, List, [], get_or, arith}
use mit.Base.Assoc.{Map, lookup, nat_eq, string_eq}
use mit.Rpc.{GetArgs, PutArgs}
use mit.Kv.{ValueEntry, do_get, do_put}
use mit.Shard.Config.{ShardConfig}
use mit.Shard.Controller.Keys.{Current}
use mit.Shard.Controller.{
  value, ◌>>=◌, Codec, Services, config_key, servers_in, query, get_servers_for_group,
  servers_or_panic,
}

-- The key/value service is a map that no other clerk writes.
pub record IsStore {W : Type 0} (env : Services W) (store : W → Map String ValueEntry)
    : Type 0 where
  pub gets : (w : W) (a : GetArgs) → env.get w a ≡ (w, do_get (store w) a)
  pub puts : (w : W) (a : PutArgs) → store (env.put w a).0 ≡ (do_put (store w) a).0
  pub put_errs : (w : W) (a : PutArgs) → (env.put w a).1 ≡ (do_put (store w) a).1.err

-- Each shard that moves has servers where it goes from and to.
abbrev pub HasServers : ShardConfig → ShardConfig → Type 0
HasServers old new =
    (sh : ℕ)
    → ((get_or old.shards sh 0 ≢ 0) → servers_in old (get_or old.shards sh 0) ≢ [])
      × ((get_or new.shards sh 0 ≢ 0) → servers_in new (get_or new.shards sh 0) ≢ [])

pub servers_found :
    (c : ShardConfig) (gid : ℕ)
    → servers_in c gid ≢ []
    → (srvs : List String) × (lookup gid c.groups ≡ some srvs) × (srvs ≢ [])
servers_found c gid h = found (lookup gid c.groups) h
  where
    found :
        (o : Option (List String))
        → (elim o [ none ↦ [] | some srvs ↦ srvs ]) ≢ []
        → (srvs : List String) × (o ≡ some srvs) × (srvs ≢ [])
    found none h = absurd (h refl)
    found (some srvs) h = (srvs, refl, h)

module _ {W : Type 0} (codec : Codec) (env : Services W) (store : W → Map String ValueEntry)
    (stores : IsStore env store) where
  pub query_lem :
      (w : W) (c : ShardConfig) → Current codec (store w) c → query codec env w ≡ value (w, some c)
  unfolding query do_get
  query_lem w c cur =
      let a = stores.gets w (record { key = "latest" }) in
      let b = stores.gets w (record { key = config_key cur.latest.value }) in
      ground (arith, a, b, cur.points, cur.number, cur.there, cur.decodes)

  pub servers_lem :
      (w : W) (old : ShardConfig) (gid : ℕ)
      → Current codec (store w) old
      → get_servers_for_group codec env w gid ≡ value (w, servers_in old gid)
  unfolding get_servers_for_group
  servers_lem w old gid cur = ap (λ r. r >>= servers_or_panic gid) (query_lem w old cur)
