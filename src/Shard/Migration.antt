-- ===== src/Shard/Migration.antt =====
-- A shard's move between two groups, in the order of `migrateShard` of
-- lec-2025/src/shardkv1/shardctrler/shardctrler.go: freeze at the old group, install at the new one,
-- delete at the old one, all with the number of the new configuration.
use mit.Base.{
  ℕ, ◌==◌, ==_iff, ◌≡◌, ◌≢◌, refl, ◌∙◌, ap, String, Bool, true, false, not, none, some,
  if◌then◌else◌, arith,
}
use mit.Base.Assoc.{
  Map, lookup, insert, delete, insert_all, lookup-insert, lookup-delete, lookup-filter_keys,
  lookup-insert_all, beq_refl, string_eq, nat_eq,
}
use mit.Rpc.{Err, GetArgs}
use mit.Raft.State.{Bytes}
use mit.Kv.{ValueEntry, do_get}
use mit.Shard.Key.{key_to_shard}
use mit.Shard.Group.{
  FreezeShardReply, KvServer, Json, flag, Age, shard_age, shard_data, closed, group_get,
  do_freeze_shard, do_install_shard, do_delete_shard,
}

-- What `Marshal` writes, `Unmarshal` reads.
abbrev pub RoundTrips : Json → Type 0
RoundTrips json =
    (m : Map String ValueEntry) (b : Bytes) → json.marshal m ≡ some b → json.unmarshal b ≡ some m

-- The three steps, on the old and on the new group's server.
abbrev pub frozen : Json → KvServer → ℕ → ℕ → KvServer × FreezeShardReply
frozen json a shard num = do_freeze_shard json a (record { shard = shard; num = num })

abbrev pub installed : Json → KvServer → ℕ → ℕ → Bytes → KvServer
installed json b shard num state =
    (do_install_shard json b (record { shard = shard; state = state; num = num })).0

abbrev pub deleted : KvServer → ℕ → ℕ → KvServer
deleted a shard num = (do_delete_shard a (record { shard = shard; num = num })).0

lookup-shard_data :
    (kv : KvServer) (shard : ℕ) (key : String)
    → lookup key (shard_data kv shard)
      ≡ (if key_to_shard key == shard then lookup key kv.key_value else none)
unfolding shard_data
lookup-shard_data kv shard key = lookup-filter_keys (λ k. key_to_shard k == shard) key kv.key_value

pub flag-insert :
    (m : Map ℕ Bool) (s t : ℕ) → flag (insert s true m) t ≡ (if s == t then true else flag m t)
flag-insert m s t = ground (arith, lookup-insert s t true m)

pub flag-delete :
    (m : Map ℕ Bool) (s t : ℕ) → flag (delete s m) t ≡ (if s == t then false else flag m t)
flag-delete m s t = ground (arith, lookup-delete s t m)

module _ (json : Json) where
  pub frozen-newer :
      (a : KvServer) (shard num : ℕ) (state : Bytes)
      → shard_age a shard num ≡ Age.newer
      → json.marshal (shard_data a shard) ≡ some state
      → ((frozen json a shard num).1 ≡ record { state = state; num = num; err = Err.ok })
        × (closed (frozen json a shard num).0 shard ≡ true)
        × ((frozen json a shard num).0.key_value ≡ a.key_value)
        × (lookup shard (frozen json a shard num).0.max_shard_num ≡ some num)
  unfolding do_freeze_shard
  frozen-newer a shard num state new written = rw new (
      rw written (
        refl,
        ground (arith, flag-insert a.frozen_shards shard shard, beq_refl shard),
        refl,
        ground (arith, lookup-insert shard shard num a.max_shard_num, beq_refl shard),
      ))

  pub installed-newer :
      (b : KvServer) (shard num : ℕ) (state : Bytes) (m : Map String ValueEntry)
      → shard_age b shard num ≡ Age.newer
      → json.unmarshal state ≡ some m
      → ((installed json b shard num state).key_value ≡ insert_all m b.key_value)
        × (closed (installed json b shard num state) shard ≡ false)
  unfolding do_install_shard
  installed-newer b shard num state m new read = ground (
    arith,
    new,
    read,
    flag-delete b.frozen_shards shard shard,
    flag-delete b.migrated_shards shard shard,
    beq_refl shard,
  )

pub group_get-open :
    (kv : KvServer) (req : GetArgs)
    → closed kv (key_to_shard req.key) ≡ false
    → group_get kv req ≡ do_get kv.key_value req
unfolding group_get
group_get-open kv req h = ground arith

pub group_get-closed :
    (kv : KvServer) (req : GetArgs)
    → closed kv (key_to_shard req.key) ≡ true
    → (group_get kv req).err ≡ Err.wrong_group
unfolding group_get
group_get-closed kv req h = ground arith

pub deleted-closed :
    (kv : KvServer) (shard num : ℕ)
    → lookup shard kv.max_shard_num ≡ some num
    → (closed (deleted kv shard num) shard ≡ true)
      × ((deleted kv shard num).key_value ≡ kv.key_value)
unfolding do_delete_shard
deleted-closed kv shard num h =
    ground (arith, h, flag-insert kv.migrated_shards shard shard, beq_refl shard)

-- The entries of a shard, written over what another map holds, read as in the first map.
pub lookup-moved :
    (a b : KvServer) (key : String)
    → (lookup key a.key_value ≡ none → lookup key b.key_value ≡ none)
    → lookup key (insert_all (shard_data a (key_to_shard key)) b.key_value) ≡ lookup key a.key_value
lookup-moved a b key among = ground (
  arith,
  lookup-insert_all key (shard_data a (key_to_shard key)) b.key_value,
  lookup-shard_data a (key_to_shard key) key,
  beq_refl (key_to_shard key),
)

installed_get :
    (json : Json) (a b : KvServer) (num : ℕ) (state : Bytes) (req : GetArgs)
    → shard_age b (key_to_shard req.key) num ≡ Age.newer
    → json.unmarshal state ≡ some (shard_data a (key_to_shard req.key))
    → (lookup req.key a.key_value ≡ none → lookup req.key b.key_value ≡ none)
    → group_get (installed json b (key_to_shard req.key) num state) req ≡ do_get a.key_value req
unfolding do_get
installed_get json a b num state req new read among =
    let shard = key_to_shard req.key in
    let (m, opened) = installed-newer json b shard num state (shard_data a shard) new read in
    group_get-open (installed json b shard num state) req opened
    ∙ (rw m (rw (lookup-moved a b req.key among) refl))

module _ (json : Json) (shard t : ℕ) (apart : (shard == t) ≡ false) where
  pub frozen-others :
      (kv : KvServer) (num : ℕ)
      → (closed (frozen json kv shard num).0 t ≡ closed kv t)
        × ((frozen json kv shard num).0.key_value ≡ kv.key_value)
  unfolding do_freeze_shard
  frozen-others kv num = ground (arith, flag-insert kv.frozen_shards shard t)

  pub installed-others :
      (kv : KvServer) (num : ℕ) (state : Bytes)
      → closed (installed json kv shard num state) t ≡ closed kv t
  unfolding do_install_shard
  installed-others kv num state =
      ground (arith, flag-delete kv.frozen_shards shard t, flag-delete kv.migrated_shards shard t)

pub deleted-others :
    (kv : KvServer) (shard num : ℕ) (key : String)
    → (shard == key_to_shard key) ≡ false
    → (closed (deleted kv shard num) (key_to_shard key) ≡ closed kv (key_to_shard key))
      × (lookup key (deleted kv shard num).key_value ≡ lookup key kv.key_value)
unfolding do_delete_shard
deleted-others kv shard num key apart = ground (
  arith,
  flag-delete kv.frozen_shards shard (key_to_shard key),
  flag-insert kv.migrated_shards shard (key_to_shard key),
  lookup-filter_keys (λ k. not (key_to_shard k == shard)) key kv.key_value,
  ==_iff (key_to_shard key) shard,
  ==_iff shard (key_to_shard key),
)

-- Data of one shard changes no key of another.
pub installed_data :
    (json : Json) (a b : KvServer) (shard num : ℕ) (state : Bytes) (key : String)
    → json.unmarshal state ≡ some (shard_data a shard)
    → (key_to_shard key == shard) ≡ false
    → lookup key (installed json b shard num state).key_value ≡ lookup key b.key_value
unfolding do_install_shard
installed_data json a b shard num state key read apart = ground (
  arith,
  read,
  lookup-shard_data a shard key,
  lookup-insert_all key (shard_data a shard) b.key_value,
)

module _ (json : Json) (round_trips : RoundTrips json) (a b : KvServer) (num : ℕ)
    (state : Bytes) where
  -- A move of the shard of `req.key` from `a` to `b`, when the number is new to both for that shard
  -- and the entries can be encoded: the freeze answers OK; then, before and after the delete, a `Get`
  -- of the key is refused by the old group, and the new group answers it as the old group would have
  -- without the move, provided that a key which the old group lacks is not left at the new group
  -- from before.
  pub migration-get :
      (req : GetArgs)
      → shard_age a (key_to_shard req.key) num ≡ Age.newer
      → shard_age b (key_to_shard req.key) num ≡ Age.newer
      → json.marshal (shard_data a (key_to_shard req.key)) ≡ some state
      → (lookup req.key a.key_value ≡ none → lookup req.key b.key_value ≡ none)
      → let shard = key_to_shard req.key in
        let (a', reply) = frozen json a shard num in
        (reply.err ≡ Err.ok)
        × ((group_get a' req).err ≡ Err.wrong_group)
        × ((group_get (deleted a' shard num) req).err ≡ Err.wrong_group)
        × (group_get (installed json b shard num reply.state) req ≡ do_get a.key_value req)
  migration-get req new_a new_b written among =
      let shard = key_to_shard req.key in
      let (r, c, e, n) = frozen-newer json a shard num state new_a written in
      let read = round_trips (shard_data a shard) state written in
      let (c', e') = deleted-closed (frozen json a shard num).0 shard num n in
      (
        ap (λ r. r.err) r,
        group_get-closed (frozen json a shard num).0 req c,
        group_get-closed (deleted (frozen json a shard num).0 shard num) req c',
        rw (ap (λ r. r.state) r) (installed_get json a b num state req new_b read among),
      )

  -- The move changes no other shard: a key of another shard is held at either group as before, and
  -- is served there exactly if it was.
  pub migration-others :
      (shard : ℕ) (key : String)
      → json.marshal (shard_data a shard) ≡ some state
      → key_to_shard key ≢ shard
      → let b' = installed json b shard num state in
        let a' = deleted (frozen json a shard num).0 shard num in
        (lookup key b'.key_value ≡ lookup key b.key_value)
        × (closed b' (key_to_shard key) ≡ closed b (key_to_shard key))
        × (lookup key a'.key_value ≡ lookup key a.key_value)
        × (closed a' (key_to_shard key) ≡ closed a (key_to_shard key))
  migration-others shard key written other =
      let apart : (key_to_shard key == shard) ≡ false =
        ground (arith, other, ==_iff (key_to_shard key) shard) in
      let apart' : (shard == key_to_shard key) ≡ false =
        ground (arith, other, ==_iff shard (key_to_shard key)) in
      let a1 = (frozen json a shard num).0 in
      let (c, e) = frozen-others json shard (key_to_shard key) apart' a num in
      let (d, l) = deleted-others a1 shard num key apart' in
      let read = round_trips (shard_data a shard) state written in
      (
        installed_data json a b shard num state key read apart,
        installed-others json shard (key_to_shard key) apart' b num state,
        l ∙ ap (lookup key) e,
        d ∙ c,
      )
