-- ===== src/Shard/Controller/World/Calls.antt =====
-- What the calls of the controller's clerks of the groups do, after any attempts that fail:
-- lec-2025/src/shardkv1/shardgrp/client.go at lec-2025/src/shardkv1/shardgrp/server.go.
use mit.Base.{
  ℕ, ◌≡◌, ◌≢◌, refl, ◌∙◌, ap, String, Bool, true, false, Option, some, List, [], ◌∷◌, not, arith,
}
use mit.Base.Assoc.{Map, nat_eq}
use mit.Rpc.{Err, is_wrong_leader, GetArgs, GetReply}
use mit.Raft.State.{Bytes}
use mit.Kv.{ValueEntry, do_get}
use mit.Shard.Group.{
  FreezeShardArgs, InstallShardArgs, DeleteShardArgs, KvServer, Json, flag, Age, shard_age,
  shard_data, do_freeze_shard, group_get,
}
use mit.Shard.Clients.{Clerk, make_clerk, first_try, get, freeze_shard, install_shard, delete_shard}
use mit.Shard.Clients.Once.{
  after, results_of, Once, freeze_idle, install_idle, delete_idle, call_loop-Once, call_loop-once,
}
use mit.Shard.Migration.{frozen, installed, deleted}
use mit.Shard.Controller.{value}
use mit.Shard.Controller.World.{
  World, rpc_install, rpc_delete, with_group, answered, call_group, call_freeze, call_install,
  call_delete, call_get,
}

-- A call that is answered like a first attempt leaves the group as one attempt does.
call_group-Once :
    {Rep A : Type 0} (exec : KvServer → KvServer × Rep) (err : Rep → Err)
    (clerk : List (Option Rep) → Option (Clerk × Rep)) (returned : World → Rep → A) (ck : Clerk)
    (w : World) (s : String)
    → Once err exec (w.group s) (w.lost w.calls) clerk ck
    → call_group exec clerk returned w s
      ≡ value (returned (with_group w s (exec (w.group s)).0) (exec (w.group s)).1)
call_group-Once exec err clerk returned ck w s (call, ok, same) =
    let kv = w.group s in
    let lost = w.lost w.calls in
    ap (λ o. answered exec clerk returned (with_group w s (exec (after exec kv lost)).0) o) call
    ∙ ap (λ k. value (returned (with_group w s k) (exec kv).1)) same

module _ (json : Json) (w : World) (s : String) (ss : List String) (shard num : ℕ) where
  pub freeze_lem :
      (state : Bytes)
      → shard_age (w.group s) shard num ≡ Age.newer
      → flag (w.group s).migrated_shards shard ≡ false
      → json.marshal (shard_data (w.group s) shard) ≡ some state
      → call_freeze json w (s ∷ ss) (record { shard = shard; num = num })
        ≡ value (with_group w s (frozen json (w.group s) shard num).0, state, Err.ok)
  unfolding call_freeze freeze_shard do_freeze_shard
  freeze_lem state new here written =
      let args : FreezeShardArgs = record { shard = shard; num = num } in
      let ck = make_clerk (s ∷ ss) in
      let (idle, ok) = freeze_idle json (w.group s) args state new here written in
      call_group-Once (λ kv. do_freeze_shard json kv args) (λ r. r.err) (freeze_shard ck)
        (λ w' reply. (w', reply.state, reply.err)) ck w s
        (call_loop-Once (λ r. r.err) (λ kv. do_freeze_shard json kv args) (w.group s)
          (w.lost w.calls) ck idle ok)
      ∙ ground (arith, new, written)

  pub install_lem :
      (state : Bytes) (m : Map String ValueEntry)
      → shard_age (w.group s) shard num ≡ Age.newer
      → json.unmarshal state ≡ some m
      → call_install json w (s ∷ ss) (record { shard = shard; state = state; num = num })
        ≡ value (with_group w s (installed json (w.group s) shard num state), Err.ok)
  unfolding call_install install_shard
  install_lem state m new read =
      let args : InstallShardArgs = record { shard = shard; state = state; num = num } in
      let ck = make_clerk (s ∷ ss) in
      let (idle, ok) = install_idle json (w.group s) args m new read in
      call_group-Once (λ kv. rpc_install json kv args) (λ r. r.err) (install_shard ck)
        (λ w' reply. (w', reply.err)) ck w s
        (call_loop-Once (λ r. r.err) (λ kv. rpc_install json kv args) (w.group s) (w.lost w.calls)
          ck (ap (λ p. (p.0, record { err = Err.ok })) idle) refl)

  pub delete_lem :
      shard_age (w.group s) shard num ≢ Age.old
      → call_delete json w (s ∷ ss) (record { shard = shard; num = num })
        ≡ value (with_group w s (deleted (w.group s) shard num), Err.ok)
  unfolding call_delete delete_shard
  delete_lem fresh =
      let args : DeleteShardArgs = record { shard = shard; num = num } in
      let ck = make_clerk (s ∷ ss) in
      let (idle, ok) = delete_idle (w.group s) args fresh in
      call_group-Once (λ kv. rpc_delete kv args) (λ r. r.err) (delete_shard ck)
        (λ w' reply. (w', reply.err)) ck w s
        (call_loop-Once (λ r. r.err) (λ kv. rpc_delete kv args) (w.group s) (w.lost w.calls) ck
          (ap (λ p. (p.0, record { err = Err.ok })) idle) refl)

-- Gets that fail change nothing.
after-get :
    (kv : KvServer) (args : GetArgs) (lost : List Bool)
    → after (λ k. (k, group_get k args)) kv lost ≡ kv
after-get kv args [] = refl
after-get kv args (true ∷ lost) = after-get kv args lost
after-get kv args (false ∷ lost) = after-get kv args lost

group_get-leader :
    (kv : KvServer) (args : GetArgs) → not (is_wrong_leader (group_get kv args).err) ≡ true
unfolding group_get do_get
group_get-leader kv args = ground arith

pub get_lem :
    (w : World) (s : String) (ss : List String) (args : GetArgs)
    → call_get w (s ∷ ss) args ≡ value (with_group w s (w.group s), group_get (w.group s) args)
unfolding call_get get
get_lem w s ss args =
    let ck = make_clerk (s ∷ ss) in
    let lost = w.lost w.calls in
    let exec : KvServer → KvServer × GetReply = λ kv. (kv, group_get kv args) in
    let finish = λ (k : KvServer).
      answered exec (get ck) (λ w' reply. (w', reply)) (with_group w s k)
        (get ck (results_of lost (group_get k args))) in
    ap finish (after-get (w.group s) args lost)
    ∙ ap (λ o. answered exec (get ck) (λ w' reply. (w', reply)) (with_group w s (w.group s)) o)
        (call_loop-once exec (λ r. not (is_wrong_leader r.err)) ck (first_try ck) lost
          (group_get (w.group s) args) (group_get-leader (w.group s) args))
