-- ===== src/Shard/Clients.antt =====
-- The clerk of a group, lec-2025/src/shardkv1/shardgrp/client.go, and the clerk of the sharded
-- service, lec-2025/src/shardkv1/client.go. What is proved is in the modules below.
pub mod Once
pub mod Tests
use mit.Base.{
  ℕ, zero, suc, ◌+◌, ◌%◌, String, Bool, true, false, ◌&&◌, not, Option, none, some, List, [], ◌∷◌,
  length, if◌then◌else◌,
}
use mit.Rpc.{
  Err, is_ok, is_version, is_wrong_leader, is_wrong_group, PutArgs, PutReply, GetArgs, GetReply,
}
use mit.Raft.State.{Bytes}
use mit.Shard.Key.{key_to_shard}
use mit.Shard.Config.{ShardConfig}
use mit.Shard.Group.{FreezeShardReply, InstallShardReply, DeleteShardReply}
use mit.Shard.Controller.{
  Run, value, panic, hang, ◌>>=◌, Codec, Services, gid_of, servers_in, query,
}

-- `last_leader` is none for -1.
pub record Clerk : Type 0 where
  pub servers : List String
  pub last_leader : Option ℕ

unfoldable pub make_clerk : List String → Clerk
make_clerk servers = record { servers = servers; last_leader = none }

abbrev pub first_try : Clerk → ℕ
first_try ck = elim ck.last_leader [ none ↦ 0 | some i ↦ i ]

abbrev pub next_try : Clerk → ℕ → ℕ
next_try ck i = (i + 1) % length ck.servers

abbrev pub settled : Clerk → ℕ → Clerk
settled ck i = record ck { last_leader = some i }

-- The loop over the results of `Call`, a reply or `none` for false; it ends at a reply that `accept`
-- takes, and `none` stands for a clerk that goes on when the results are over.
module _ {Rep : Type 0} (accept : Rep → Bool) where
  unfoldable pub call_loop : Clerk → ℕ → List (Option Rep) → Option (Clerk × Rep)
  call_loop ck i [] = none
  call_loop ck i (none ∷ rest) = call_loop ck (next_try ck i) rest
  call_loop ck i (some reply ∷ rest) =
      let again = call_loop ck (next_try ck i) rest in
      if accept reply then some (settled ck i, reply) else again

unfoldable pub get : Clerk → List (Option GetReply) → Option (Clerk × GetReply)
unfolding call_loop
get ck results = call_loop (λ r. not (is_wrong_leader r.err)) ck (first_try ck) results

abbrev pub put_result : Bool → Err → Err
put_result is_resend e = if is_resend && is_version e then Err.maybe else e

unfoldable pub put_loop : Clerk → ℕ → Bool → List (Option PutReply) → Option (Clerk × Err)
put_loop ck i is_resend [] = none
put_loop ck i is_resend (none ∷ rest) = put_loop ck (next_try ck i) true rest
put_loop ck i is_resend (some reply ∷ rest) =
    let again = put_loop ck (next_try ck i) true rest in
    if is_wrong_leader reply.err then again else some (settled ck i, put_result is_resend reply.err)

unfoldable pub put : Clerk → List (Option PutReply) → Option (Clerk × Err)
unfolding put_loop
put ck results = put_loop ck (first_try ck) false results

unfoldable pub freeze_shard :
    Clerk → List (Option FreezeShardReply) → Option (Clerk × FreezeShardReply)
unfolding call_loop
freeze_shard ck results = call_loop (λ r. is_ok r.err) ck (first_try ck) results

unfoldable pub install_shard :
    Clerk → List (Option InstallShardReply) → Option (Clerk × InstallShardReply)
unfolding call_loop
install_shard ck results = call_loop (λ r. is_ok r.err) ck (first_try ck) results

unfoldable pub delete_shard :
    Clerk → List (Option DeleteShardReply) → Option (Clerk × DeleteShardReply)
unfolding call_loop
delete_shard ck results = call_loop (λ r. is_ok r.err) ck (first_try ck) results

-- The clerk of the service, in the rounds that it takes: the controller's query, and a call of the
-- clerk of the group of the key's shard. `hang` when the rounds are over.
module _ {W : Type 0} (codec : Codec) (env : Services W) where
  module _ (ask : W → List String → GetArgs → Run (W × GetReply)) where
    abbrev pub ask_group : GetArgs → W × Option ShardConfig → Run (W × GetReply)
    ask_group args (w, none) = panic
    ask_group args (w, some c) = ask w (servers_in c (gid_of c (key_to_shard args.key))) args

    abbrev pub get_again : (W → Run (W × GetReply)) → W × GetReply → Run (W × GetReply)
    get_again again (w, reply) = if is_wrong_group reply.err then again w else value (w, reply)

    unfoldable pub service_get : ℕ → GetArgs → W → Run (W × GetReply)
    service_get zero args w = hang
    service_get (suc n) args w =
        (query codec env w >>= ask_group args) >>= get_again (service_get n args)

  module _ (tell : W → List String → PutArgs → Run (W × Err)) where
    abbrev tell_group : PutArgs → W × Option ShardConfig → Run (W × Err)
    tell_group args (w, none) = panic
    tell_group args (w, some c) = tell w (servers_in c (gid_of c (key_to_shard args.key))) args

    abbrev put_again : (W → Run (W × Err)) → W × Err → Run (W × Err)
    put_again again (w, e) = if is_wrong_group e then again w else value (w, e)

    unfoldable pub service_put : ℕ → PutArgs → W → Run (W × Err)
    service_put zero args w = hang
    service_put (suc n) args w =
        (query codec env w >>= tell_group args) >>= put_again (service_put n args)
