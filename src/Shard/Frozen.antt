-- ===== src/Shard/Frozen.antt =====
-- What the server of a shard group keeps over any sequence of requests: `DoOp` of
-- lec-2025/src/shardkv1/shardgrp/server.go.
use mit.Base.{
  ℕ, ==_iff, ◌≤◌, ◌≡◌, refl, ap, inl, inr, Bool-cases, String, Bool, true, false, none, some, List,
  [], ◌∷◌, if◌then◌else◌, arith,
}
use mit.Base.Assoc.{lookup, lookup-insert, string_eq, nat_eq, beq_refl}
use text.Mathlib.Text.{◌==◌ as str_eq}
use text.Mathlib.TextEquality.{eq_iff}
use mit.Rpc.{Err, PutArgs}
use mit.Kv.Model.{do_put-ne}
use mit.Shard.Key.{key_to_shard}
use mit.Shard.Group.{
  FreezeShardArgs, InstallShardArgs, DeleteShardArgs, KvServer, Json, Age, shard_age, closed, Args,
  freeze, install, remove, get, put, Req, pointer, value, other, do_freeze_shard, do_install_shard,
  do_delete_shard, group_put, serve_args, do_op, apply_all,
}

-- The greatest number that the server has seen for the shard, 0 for none.
abbrev pub shard_num : KvServer → ℕ → ℕ
shard_num kv shard = elim (lookup shard kv.max_shard_num) [ none ↦ 0 | some n ↦ n ]

group_put-num :
    (kv : KvServer) (req : PutArgs) → (group_put kv req).0.max_shard_num ≡ kv.max_shard_num
unfolding group_put
group_put-num kv req = ground arith

module _ (json : Json) (t : ℕ) where
  freeze-num :
      (kv : KvServer) (args : FreezeShardArgs)
      → shard_num kv t ≤ shard_num (do_freeze_shard json kv args).0 t
  unfolding do_freeze_shard
  freeze-num kv args =
      ground (arith, lookup-insert args.shard t args.num kv.max_shard_num, ==_iff args.shard t)

  install-num :
      (kv : KvServer) (args : InstallShardArgs)
      → shard_num kv t ≤ shard_num (do_install_shard json kv args).0 t
  unfolding do_install_shard
  install-num kv args =
      ground (arith, lookup-insert args.shard t args.num kv.max_shard_num, ==_iff args.shard t)

  remove-num :
      (kv : KvServer) (args : DeleteShardArgs)
      → shard_num kv t ≤ shard_num (do_delete_shard kv args).0 t
  unfolding do_delete_shard
  remove-num kv args =
      ground (arith, lookup-insert args.shard t args.num kv.max_shard_num, ==_iff args.shard t)

  serve_args-num :
      (kv : KvServer) (args : Args) → shard_num kv t ≤ shard_num (serve_args json kv args).0 t
  unfolding serve_args
  serve_args-num kv (freeze args) = freeze-num kv args
  serve_args-num kv (install args) = install-num kv args
  serve_args-num kv (remove args) = remove-num kv args
  serve_args-num kv (get args) = omega arith
  serve_args-num kv (put args) = let e = group_put-num kv args in rw (e, shard_num) (omega arith)

  do_op-num : (kv : KvServer) (req : Req) → shard_num kv t ≤ shard_num (do_op json kv req).0 t
  unfolding do_op
  do_op-num kv (pointer args) = serve_args-num kv args
  do_op-num kv (value args) = serve_args-num kv args
  do_op-num kv other = omega arith

  -- No sequence of requests, of any kind and in any order, lowers the greatest number that the server
  -- has seen for a shard.
  pub apply_all-le_num :
      (kv : KvServer) (reqs : List Req) → shard_num kv t ≤ shard_num (apply_all json kv reqs) t
  unfolding apply_all
  apply_all-le_num kv [] = omega arith
  apply_all-le_num kv (req ∷ reqs) =
      let step = do_op-num kv req in
      let rest = apply_all-le_num (do_op json kv req).0 reqs in omega (arith, step, rest)

-- The requests that carry no shard away and bring none.
abbrev is_resident : Args → Bool
is_resident (freeze _) = true
is_resident (get _) = true
is_resident (put _) = true
is_resident _ = false

unfoldable pub resident : List Req → Bool
resident [] = true
resident (pointer args ∷ reqs) =
    let rest = resident reqs in if is_resident args then rest else false
resident (value args ∷ reqs) = let rest = resident reqs in if is_resident args then rest else false
resident (other ∷ reqs) = resident reqs

group_put-closed :
    (kv : KvServer) (req : PutArgs) (key : String)
    → closed kv (key_to_shard key) ≡ true
    → (closed (group_put kv req).0 (key_to_shard key) ≡ true)
      × (lookup key (group_put kv req).0.key_value ≡ lookup key kv.key_value)
unfolding group_put
group_put-closed kv req key h = elim (Bool-cases (str_eq req.key key)) [
  | inl same ↦ let e = (eq_iff req.key key).0 same in ground (arith, e)
  | inr differs ↦ ground (arith, do_put-ne kv.key_value req key differs)
]

module _ (json : Json) where
  freeze-closed :
      (kv : KvServer) (args : FreezeShardArgs) (t : ℕ)
      → closed kv t ≡ true
      → (closed (do_freeze_shard json kv args).0 t ≡ true)
        × ((do_freeze_shard json kv args).0.key_value ≡ kv.key_value)
  unfolding do_freeze_shard
  freeze-closed kv args t h = ground (arith, lookup-insert args.shard t true kv.frozen_shards)

  resident_step :
      (kv : KvServer) (args : Args) (key : String)
      → is_resident args ≡ true
      → closed kv (key_to_shard key) ≡ true
      → (closed (serve_args json kv args).0 (key_to_shard key) ≡ true)
        × (lookup key (serve_args json kv args).0.key_value ≡ lookup key kv.key_value)
  unfolding serve_args
  resident_step kv (freeze args) key r h =
      let (c, e) = freeze-closed kv args (key_to_shard key) h in (c, ap (lookup key) e)
  resident_step kv (get args) key r h = (h, refl)
  resident_step kv (put args) key r h = group_put-closed kv args key h
  resident_step kv (install args) key r h = cc
  resident_step kv (remove args) key r h = cc

  -- From when a shard is frozen or gone, its entries stand still until it is installed or deleted:
  -- over any sequence of Gets, Puts and freezes the shard stays closed and no key of it changes.
  pub closed_stays :
      (kv : KvServer) (reqs : List Req) (key : String)
      → resident reqs ≡ true
      → closed kv (key_to_shard key) ≡ true
      → (closed (apply_all json kv reqs) (key_to_shard key) ≡ true)
        × (lookup key (apply_all json kv reqs).key_value ≡ lookup key kv.key_value)
  unfolding apply_all do_op resident
  closed_stays kv [] key r h = (h, refl)
  closed_stays kv (pointer args ∷ reqs) key r h =
      ground (arith, resident_step kv args key, closed_stays (serve_args json kv args).0 reqs key)
  closed_stays kv (value args ∷ reqs) key r h =
      ground (arith, resident_step kv args key, closed_stays (serve_args json kv args).0 reqs key)
  closed_stays kv (other ∷ reqs) key r h = closed_stays kv reqs key r h

  -- An install that cannot read its data is refused, but its number stays: the same request sent
  -- again is answered OK, although no entry was installed.
  pub install_retry :
      (kv : KvServer) (args : InstallShardArgs)
      → shard_age kv args.shard args.num ≡ Age.newer
      → json.unmarshal args.state ≡ none
      → let (kv', reply) = do_install_shard json kv args in
        let (kv'', reply') = do_install_shard json kv' args in
        (reply.err ≡ Err.maybe) × (reply'.err ≡ Err.ok) × (kv''.key_value ≡ kv.key_value)
  unfolding do_install_shard
  install_retry kv args new unread = ground (
    arith,
    new,
    unread,
    lookup-insert args.shard args.shard args.num kv.max_shard_num,
    beq_refl args.shard,
  )

  -- The freeze of a move and its delete bear the same number, so the delete is taken for a
  -- repetition: it closes the shard, and the old group keeps every entry.
  pub delete_keeps :
      (kv : KvServer) (shard num : ℕ)
      → shard_age kv shard num ≡ Age.newer
      → let kv' = (do_freeze_shard json kv (record { shard = shard; num = num })).0 in
        let (kv'', reply) = do_delete_shard kv' (record { shard = shard; num = num }) in
        (reply.err ≡ Err.ok) × (kv''.key_value ≡ kv.key_value) × (closed kv'' shard ≡ true)
  unfolding do_freeze_shard do_delete_shard
  delete_keeps kv shard num new = ground (
    arith,
    new,
    lookup-insert shard shard num kv.max_shard_num,
    lookup-insert shard shard true kv.migrated_shards,
    beq_refl shard,
  )
