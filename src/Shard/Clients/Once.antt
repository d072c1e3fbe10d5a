-- ===== src/Shard/Clients/Once.antt =====
-- The requests of a group's clerk, sent until one is answered (lec-2025/src/shardkv1/shardgrp/client.go),
-- at the server of the group (lec-2025/src/shardkv1/shardgrp/server.go).
use mit.Base.{
  ℕ, ◌≡◌, ◌≢◌, refl, ◌∙◌, ap, Bool, true, false, not, Option, none, some, List, [], ◌∷◌, String,
  arith,
}
use mit.Base.Assoc.{Map, insert, delete, filter_keys, lookup-insert, beq_refl, nat_eq, Eq}
use mit.Rpc.{Err, is_ok}
use mit.Raft.State.{Bytes}
use mit.Kv.{ValueEntry}
use mit.Shard.Group.{
  FreezeShardArgs, FreezeShardReply, InstallShardArgs, InstallShardReply, DeleteShardArgs,
  DeleteShardReply, KvServer, Json, flag, Age, shard_age, shard_data, do_freeze_shard,
  do_install_shard, do_delete_shard,
}
use mit.Shard.Clients.{
  Clerk, first_try, next_try, settled, call_loop, freeze_shard, install_shard, delete_shard,
}

-- The server after calls that returned false to the clerk, for each of them whether the request
-- reached the server.
abbrev pub after : {Rep : Type 0} → (KvServer → KvServer × Rep) → KvServer → List Bool → KvServer
after exec kv [] = kv
after exec kv (true ∷ lost) = after exec (exec kv).0 lost
after exec kv (false ∷ lost) = after exec kv lost

-- The results of these calls, and of the one that is answered.
abbrev pub results_of : {Rep : Type 0} → List Bool → Rep → List (Option Rep)
results_of [] reply = some reply ∷ []
results_of (reached ∷ lost) reply = none ∷ results_of lost reply

abbrev pub last_try : Clerk → ℕ → List Bool → ℕ
last_try ck i [] = i
last_try ck i (reached ∷ lost) = last_try ck (next_try ck i) lost

module _ {Rep : Type 0} (exec : KvServer → KvServer × Rep) where
  after-again :
      (kv : KvServer) (lost : List Bool)
      → exec (exec kv).0 ≡ exec kv
      → exec (after exec (exec kv).0 lost) ≡ exec kv
  after-again kv [] idle = idle
  after-again kv (true ∷ lost) idle =
      ap (λ k. exec (after exec k lost)) (ap (λ p. p.0) idle) ∙ after-again kv lost idle
  after-again kv (false ∷ lost) idle = after-again kv lost idle

  -- Whatever reached the server before, the answered request leaves what one would.
  after-once :
      (kv : KvServer) (lost : List Bool)
      → exec (exec kv).0 ≡ exec kv
      → exec (after exec kv lost) ≡ exec kv
  after-once kv [] idle = refl
  after-once kv (true ∷ lost) idle = after-again kv lost idle
  after-once kv (false ∷ lost) idle = after-once kv lost idle

  pub call_loop-once :
      (accept : Rep → Bool) (ck : Clerk) (i : ℕ) (lost : List Bool) (reply : Rep)
      → accept reply ≡ true
      → call_loop accept ck i (results_of lost reply)
        ≡ some (settled ck (last_try ck i lost), reply)
  unfolding call_loop
  call_loop-once accept ck i [] reply ok = ground (arith, ok)
  call_loop-once accept ck i (reached ∷ lost) reply ok =
      call_loop-once accept ck (next_try ck i) lost reply ok

module _ {K V : Type 0} ⦃e : Eq K⦄ where
  insert_twice : (k : K) (v : V) (m : Map K V) → insert k v (insert k v m) ≡ insert k v m
  unfolding insert
  insert_twice k v [] = ground (arith, beq_refl k)
  insert_twice k v ((j, w) ∷ m) = ground (arith, beq_refl k, insert_twice k v m)

  filter_twice : (p : K → Bool) (m : Map K V) → filter_keys p (filter_keys p m) ≡ filter_keys p m
  unfolding filter_keys
  filter_twice p [] = refl
  filter_twice p ((j, w) ∷ m) = ground (arith, filter_twice p m)

  delete_twice : (k : K) (m : Map K V) → delete k (delete k m) ≡ delete k m
  unfolding delete
  delete_twice k m = filter_twice (λ j. not (e.beq j k)) m

module _ (json : Json) where
  pub freeze_idle :
      (kv : KvServer) (a : FreezeShardArgs) (state : Bytes)
      → shard_age kv a.shard a.num ≡ Age.newer
      → flag kv.migrated_shards a.shard ≡ false
      → json.marshal (shard_data kv a.shard) ≡ some state
      → (do_freeze_shard json (do_freeze_shard json kv a).0 a ≡ do_freeze_shard json kv a)
        × ((do_freeze_shard json kv a).1.err ≡ Err.ok)
  unfolding do_freeze_shard shard_data
  freeze_idle kv a state new here written = (
    ground (
      arith,
      new,
      here,
      written,
      lookup-insert a.shard a.shard a.num kv.max_shard_num,
      beq_refl a.shard,
    ),
    ground (arith, new, written),
  )

  pub install_idle :
      (kv : KvServer) (a : InstallShardArgs) (m : Map String ValueEntry)
      → shard_age kv a.shard a.num ≡ Age.newer
      → json.unmarshal a.state ≡ some m
      → (do_install_shard json (do_install_shard json kv a).0 a ≡ do_install_shard json kv a)
        × ((do_install_shard json kv a).1.err ≡ Err.ok)
  unfolding do_install_shard
  install_idle kv a m new read = (
    ground
        (arith, new, read, lookup-insert a.shard a.shard a.num kv.max_shard_num, beq_refl a.shard),
    ground (arith, new, read),
  )

pub delete_idle :
    (kv : KvServer) (a : DeleteShardArgs)
    → shard_age kv a.shard a.num ≢ Age.old
    → (do_delete_shard (do_delete_shard kv a).0 a ≡ do_delete_shard kv a)
      × ((do_delete_shard kv a).1.err ≡ Err.ok)
unfolding do_delete_shard
delete_idle kv a fresh = (
  ground (
    arith,
    fresh,
    lookup-insert a.shard a.shard a.num kv.max_shard_num,
    insert_twice a.shard true kv.migrated_shards,
    delete_twice a.shard kv.frozen_shards,
    beq_refl a.shard,
  ),
  ground (arith, fresh),
)

-- The clerk returns the reply of a first request, which is OK, and the server is left as by one.
abbrev pub Once :
    {Rep : Type 0}
    → (Rep → Err)
    → (KvServer → KvServer × Rep)
    → KvServer
    → List Bool
    → (List (Option Rep) → Option (Clerk × Rep))
    → Clerk
    → Type 0
Once err exec kv lost call ck =
    let last = exec (after exec kv lost) in
    (call (results_of lost last.1)
      ≡ some (settled ck (last_try ck (first_try ck) lost), (exec kv).1))
    × (err (exec kv).1 ≡ Err.ok)
    × (last.0 ≡ (exec kv).0)

pub call_loop-Once :
    {Rep : Type 0} (err : Rep → Err) (exec : KvServer → KvServer × Rep) (kv : KvServer)
    (lost : List Bool) (ck : Clerk)
    → exec (exec kv).0 ≡ exec kv
    → err (exec kv).1 ≡ Err.ok
    → Once err exec kv lost (call_loop (λ r. is_ok (err r)) ck (first_try ck)) ck
call_loop-Once err exec kv lost ck idle ok =
    let same = after-once exec kv lost idle in
    (
      ap (λ p. call_loop (λ r. is_ok (err r)) ck (first_try ck) (results_of lost p.1)) same
          ∙ call_loop-once exec (λ r. is_ok (err r)) ck (first_try ck) lost (exec kv).1
              (ap is_ok ok),
      ok,
      ap (λ p. p.0) same,
    )

-- The three requests at a server.
abbrev pub freeze_at : Json → ℕ → ℕ → KvServer → KvServer × FreezeShardReply
freeze_at json shard num kv = do_freeze_shard json kv (record { shard = shard; num = num })

abbrev pub install_at : Json → ℕ → Bytes → ℕ → KvServer → KvServer × InstallShardReply
install_at json shard state num kv =
    do_install_shard json kv (record { shard = shard; state = state; num = num })

abbrev pub delete_at : ℕ → ℕ → KvServer → KvServer × DeleteShardReply
delete_at shard num kv = do_delete_shard kv (record { shard = shard; num = num })

-- The clerk of a group repeats FreezeShard, InstallShard and DeleteShard until one is answered, after
-- any number of calls that failed, whether the requests reached the server or not. It then returns,
-- with OK and what a single request is answered, and the server is left as by a single request. The
-- conditions are: for the freeze, the number is new to the shard, which has not moved away, and its
-- entries can be encoded; for the install, the number is new and the data can be decoded; for the
-- delete, the number is not smaller than the greatest.
pub requests-Once :
    (json : Json) (ck : Clerk) (lost : List Bool) (old new : KvServer) (shard num : ℕ)
    (state : Bytes) (m : Map String ValueEntry)
    → shard_age old shard num ≡ Age.newer
    → flag old.migrated_shards shard ≡ false
    → json.marshal (shard_data old shard) ≡ some state
    → shard_age new shard num ≡ Age.newer
    → json.unmarshal state ≡ some m
    → (gone : KvServer) → shard_age gone shard num ≢ Age.old
    → Once (λ r. r.err) (freeze_at json shard num) old lost (freeze_shard ck) ck
      × Once (λ r. r.err) (install_at json shard state num) new lost (install_shard ck) ck
      × Once (λ r. r.err) (delete_at shard num) gone lost (delete_shard ck) ck
unfolding freeze_shard install_shard delete_shard
requests-Once json ck lost old new shard num state m newer here written newer' read gone fresh =
    let (f, f_ok) =
      freeze_idle json old (record { shard = shard; num = num }) state newer here written in
    let (i, i_ok) =
      install_idle json new (record { shard = shard; state = state; num = num }) m newer' read in
    let (d, d_ok) = delete_idle gone (record { shard = shard; num = num }) fresh in
    (
      call_loop-Once (λ r. r.err) (freeze_at json shard num) old lost ck f f_ok,
      call_loop-Once (λ r. r.err) (install_at json shard state num) new lost ck i i_ok,
      call_loop-Once (λ r. r.err) (delete_at shard num) gone lost ck d d_ok,
    )
