-- ===== src/Shard/Group.antt =====
-- A shard group's server, lec-2025/src/shardkv1/shardgrp/server.go: `DoOp` over the messages of
-- kvsrv1/rpc and shardgrp/shardrpc. What is proved is in the modules below.
use mit.Base.{
  ℕ, ◌==◌, String, Bool, true, false, ◌||◌, not, Option, none, some, List, [], ◌∷◌, ltb,
  if◌then◌else◌,
}
use mit.Base.Assoc.{Map, lookup, insert, delete, filter_keys, insert_all, string_eq, nat_eq}
use mit.Rpc.{Err, PutArgs, PutReply, GetArgs, GetReply}
use mit.Raft.State.{Bytes}
use mit.Kv.{ValueEntry, do_get, do_put}
use mit.Shard.Key.{key_to_shard}

pub record FreezeShardArgs : Type 0 where
  pub shard : ℕ
  pub num : ℕ

pub record FreezeShardReply : Type 0 where
  pub state : Bytes
  pub num : ℕ
  pub err : Err

pub record InstallShardArgs : Type 0 where
  pub shard : ℕ
  pub state : Bytes
  pub num : ℕ

pub record InstallShardReply : Type 0 where
  pub err : Err

pub record DeleteShardArgs : Type 0 where
  pub shard : ℕ
  pub num : ℕ

pub record DeleteShardReply : Type 0 where
  pub err : Err

pub record KvServer : Type 0 where
  pub me : ℕ
  pub dead : Bool
  pub gid : ℕ
  pub key_value : Map String ValueEntry
  pub frozen_shards : Map ℕ Bool
  pub max_shard_num : Map ℕ ℕ
  pub migrated_shards : Map ℕ Bool

-- encoding/json is not in the repository: Marshal and Unmarshal are parameters, `none` for an error.
pub record Json : Type 0 where
  pub marshal : Map String ValueEntry → Option Bytes
  pub unmarshal : Bytes → Option (Map String ValueEntry)

-- []byte("{}")
abbrev pub empty_object : Bytes
empty_object = b'{' ∷ b'}' ∷ []

-- `v, ok := flags[shard]; ok && v`.
abbrev pub flag : Map ℕ Bool → ℕ → Bool
flag m shard = elim (lookup shard m) [ none ↦ false | some b ↦ b ]

-- The requests, and the two ways in which each arrives (a pointer on the leader).
pub data Args : Type 0 where
  freeze : FreezeShardArgs → Args
  install : InstallShardArgs → Args
  remove : DeleteShardArgs → Args
  get : GetArgs → Args
  put : PutArgs → Args

pub data Req : Type 0 where
  pointer : Args → Req
  value : Args → Req
  other : Req

pub data Reply : Type 0 where
  freeze_reply : FreezeShardReply → Reply
  install_reply : InstallShardReply → Reply
  delete_reply : DeleteShardReply → Reply
  get_reply : GetReply → Reply
  put_reply : PutReply → Reply
  fatal : Reply

-- The two tests of `Get` and `Put`: the shard has moved away, or is frozen.
abbrev pub closed : KvServer → ℕ → Bool
closed kv shard = flag kv.migrated_shards shard || flag kv.frozen_shards shard

unfoldable pub group_get : KvServer → GetArgs → GetReply
group_get kv req =
    let shard = key_to_shard req.key in
    if flag kv.migrated_shards shard
    then record { value = ""; version = 0; err = Err.wrong_group }
    else if flag kv.frozen_shards shard
    then record { value = ""; version = 0; err = Err.wrong_group }
    else do_get kv.key_value req

abbrev with_map : KvServer → Map String ValueEntry × PutReply → KvServer × PutReply
with_map kv (m, reply) = (record kv { key_value = m }, reply)

unfoldable pub group_put : KvServer → PutArgs → KvServer × PutReply
group_put kv req =
    let shard = key_to_shard req.key in
    if flag kv.migrated_shards shard
    then (kv, record { err = Err.wrong_group })
    else if flag kv.frozen_shards shard
    then (kv, record { err = Err.wrong_group })
    else with_map kv (do_put kv.key_value req)

-- The number of a request against the greatest that the shard has seen.
pub data Age : Type 0 where
  old same newer : Age

abbrev pub age : Option ℕ → ℕ → Age
age none num = newer
age (some max_num) num = if ltb num max_num then old else if num == max_num then same else newer

abbrev pub shard_age : KvServer → ℕ → ℕ → Age
shard_age kv shard num = age (lookup shard kv.max_shard_num) num

-- The entries of a shard.
unfoldable pub shard_data : KvServer → ℕ → Map String ValueEntry
shard_data kv shard = filter_keys (λ key. key_to_shard key == shard) kv.key_value

abbrev freeze_refused : FreezeShardReply
freeze_refused = record { state = []; num = 0; err = Err.maybe }

abbrev collected : ℕ → Option Bytes → FreezeShardReply
collected num none = freeze_refused
collected num (some state) = record { state = state; num = num; err = Err.ok }

module _ (json : Json) where
  abbrev freeze_at : KvServer → FreezeShardArgs → Age → KvServer × FreezeShardReply
  freeze_at kv args old = (kv, freeze_refused)
  freeze_at kv args same =
      if flag kv.migrated_shards args.shard
      then (kv, record { state = empty_object; num = args.num; err = Err.ok })
      else (kv, collected args.num (json.marshal (shard_data kv args.shard)))
  freeze_at kv args newer = (
    record kv {
      frozen_shards = insert args.shard true kv.frozen_shards;
      max_shard_num = insert args.shard args.num kv.max_shard_num;
    },
    collected args.num (json.marshal (shard_data kv args.shard)),
  )

  unfoldable pub do_freeze_shard : KvServer → FreezeShardArgs → KvServer × FreezeShardReply
  do_freeze_shard kv args = freeze_at kv args (shard_age kv args.shard args.num)

  abbrev install_data :
      KvServer → InstallShardArgs → Option (Map String ValueEntry) → KvServer × InstallShardReply
  install_data kv args none = (kv, record { err = Err.maybe })
  install_data kv args (some entries) = (
    record kv {
      key_value = insert_all entries kv.key_value;
      frozen_shards = delete args.shard kv.frozen_shards;
    },
    record { err = Err.ok },
  )

  -- The number and the migrated mark are changed before the data is read.
  abbrev install_at : KvServer → InstallShardArgs → Age → KvServer × InstallShardReply
  install_at kv args old = (kv, record { err = Err.maybe })
  install_at kv args same = (kv, record { err = Err.ok })
  install_at kv args newer =
      install_data
        (record kv {
          max_shard_num = insert args.shard args.num kv.max_shard_num;
          migrated_shards = delete args.shard kv.migrated_shards;
        })
        args (json.unmarshal args.state)

  unfoldable pub do_install_shard : KvServer → InstallShardArgs → KvServer × InstallShardReply
  do_install_shard kv args = install_at kv args (shard_age kv args.shard args.num)

abbrev delete_at : KvServer → DeleteShardArgs → Age → KvServer × DeleteShardReply
delete_at kv args old = (kv, record { err = Err.maybe })
delete_at kv args same = (
  record kv {
    migrated_shards = insert args.shard true kv.migrated_shards;
    frozen_shards = delete args.shard kv.frozen_shards;
  },
  record { err = Err.ok },
)
delete_at kv args newer = (
  record kv {
    max_shard_num = insert args.shard args.num kv.max_shard_num;
    migrated_shards = insert args.shard true kv.migrated_shards;
    key_value = filter_keys (λ key. not (key_to_shard key == args.shard)) kv.key_value;
    frozen_shards = delete args.shard kv.frozen_shards;
  },
  record { err = Err.ok },
)

unfoldable pub do_delete_shard : KvServer → DeleteShardArgs → KvServer × DeleteShardReply
do_delete_shard kv args = delete_at kv args (shard_age kv args.shard args.num)

module _ (json : Json) where
  unfoldable pub serve_args : KvServer → Args → KvServer × Reply
  serve_args kv (freeze args) =
      let (kv', reply) = do_freeze_shard json kv args in (kv', freeze_reply reply)
  serve_args kv (install args) =
      let (kv', reply) = do_install_shard json kv args in (kv', install_reply reply)
  serve_args kv (remove args) =
      let (kv', reply) = do_delete_shard kv args in (kv', delete_reply reply)
  serve_args kv (get args) = (kv, get_reply (group_get kv args))
  serve_args kv (put args) = let (kv', reply) = group_put kv args in (kv', put_reply reply)

  -- `DoOp`; a request of another type ends the process.
  unfoldable pub do_op : KvServer → Req → KvServer × Reply
  unfolding serve_args
  do_op kv (pointer args) = serve_args kv args
  do_op kv (value args) = serve_args kv args
  do_op kv other = (kv, fatal)

  unfoldable pub apply_all : KvServer → List Req → KvServer
  apply_all kv [] = kv
  apply_all kv (req ∷ reqs) = apply_all (do_op kv req).0 reqs

-- Neither keeps anything: `Snapshot` returns nil and `Restore` ignores its argument.
unfoldable pub snapshot : KvServer → Bytes
snapshot kv = []

unfoldable pub restore : KvServer → Bytes → KvServer
restore kv bytes = kv

unfoldable pub start_server : ℕ → ℕ → KvServer
start_server gid me = record {
  me = me;
  dead = false;
  gid = gid;
  key_value = [];
  frozen_shards = [];
  max_shard_num = [];
  migrated_shards = [];
}
