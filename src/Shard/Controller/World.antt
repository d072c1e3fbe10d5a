-- ===== src/Shard/Controller/World.antt =====
-- The services of the controller (lec-2025/src/shardkv1/shardctrler/shardctrler.go) built from the
-- servers of the groups (shardgrp/server.go) and their clerks (shardgrp/client.go). What is proved is
-- in the modules below.
pub mod Kept
pub mod Calls
pub mod Moves
pub mod Steps
pub mod Shards
pub mod Loop
pub mod Data
pub mod Restart
pub mod Encoding
pub mod Tests
use mit.Base.{ℕ, ◌+◌, String, Bool, Option, none, some, List, [], ◌∷◌, if◌then◌else◌}
use text.Mathlib.Text.{◌==◌ as str_eq}
use mit.Base.Assoc.{Map}
use mit.Rpc.{Err, GetArgs, GetReply}
use mit.Raft.State.{Bytes}
use mit.Kv.{ValueEntry, do_get, do_put}
use mit.Shard.Group.{
  FreezeShardArgs, FreezeShardReply, InstallShardArgs, InstallShardReply, DeleteShardArgs,
  DeleteShardReply, KvServer, Json, do_freeze_shard, do_install_shard, do_delete_shard, group_get,
}
use mit.Shard.Clients.{Clerk, make_clerk, get, freeze_shard, install_shard, delete_shard}
use mit.Shard.Clients.Once.{after, results_of}
use mit.Shard.Controller.{Run, value, panic, hang, Services}

-- The map of the key/value service; the state of each group, by the name of its first server; the
-- number of the next call to a group; and for each call the attempts that fail first, with whether
-- the request of each reaches the group.
pub record World : Type 0 where
  pub store : Map String ValueEntry
  pub group : String → KvServer
  pub calls : ℕ
  pub lost : ℕ → List Bool

abbrev pub with_group : World → String → KvServer → World
with_group w s kv = record w {
  group = λ t. if str_eq s t then kv else w.group t;
  calls = w.calls + 1;
}

-- A call of the clerk of a group with the server `s` first: what the group has executed in the end, and
-- what the clerk returns.
module _ {Rep A : Type 0} (exec : KvServer → KvServer × Rep)
    (clerk : List (Option Rep) → Option (Clerk × Rep)) (returned : World → Rep → A) where
  abbrev answered : World → Option (Clerk × Rep) → Run A
  answered w none = hang
  answered w (some (ck, reply)) = value (returned w reply)

  abbrev pub call_group : World → String → Run A
  call_group w s =
      let lost = w.lost w.calls in
      let last = exec (after exec (w.group s) lost) in
      answered (with_group w s last.0) (clerk (results_of lost last.1))

-- The handlers `InstallShard` and `DeleteShard` drop the reply of the command and answer the error of
-- `Submit`, which is OK for a command that is executed.
abbrev pub rpc_install : Json → KvServer → InstallShardArgs → KvServer × InstallShardReply
rpc_install json kv args = ((do_install_shard json kv args).0, record { err = Err.ok })

abbrev pub rpc_delete : KvServer → DeleteShardArgs → KvServer × DeleteShardReply
rpc_delete kv args = ((do_delete_shard kv args).0, record { err = Err.ok })

module _ (json : Json) where
  -- A clerk without servers panics on an index out of range.
  unfoldable pub call_freeze : World → List String → FreezeShardArgs → Run (World × Bytes × Err)
  unfolding freeze_shard make_clerk
  call_freeze w [] args = panic
  call_freeze w (s ∷ ss) args =
      call_group (λ kv. do_freeze_shard json kv args) (freeze_shard (make_clerk (s ∷ ss)))
        (λ w' reply. (w', reply.state, reply.err)) w s

  unfoldable pub call_install : World → List String → InstallShardArgs → Run (World × Err)
  call_install w [] args = panic
  call_install w (s ∷ ss) args =
      call_group (λ kv. rpc_install json kv args) (install_shard (make_clerk (s ∷ ss)))
        (λ w' reply. (w', reply.err)) w s

  unfoldable pub call_delete : World → List String → DeleteShardArgs → Run (World × Err)
  call_delete w [] args = panic
  call_delete w (s ∷ ss) args =
      call_group (λ kv. rpc_delete kv args) (delete_shard (make_clerk (s ∷ ss)))
        (λ w' reply. (w', reply.err)) w s

  abbrev pub services : Services World
  services = record {
    get = λ w a. (w, do_get w.store a);
    put = λ w a. (record w { store = (do_put w.store a).0 }, (do_put w.store a).1.err);
    freeze = λ w servers a. call_freeze w servers a;
    install = λ w servers a. call_install w servers a;
    delete_shard = λ w servers a. call_delete w servers a;
  }

-- A Get of the clerk of a group.
unfoldable pub call_get : World → List String → GetArgs → Run (World × GetReply)
call_get w [] args = panic
call_get w (s ∷ ss) args =
    call_group (λ kv. (kv, group_get kv args)) (get (make_clerk (s ∷ ss))) (λ w' reply. (w', reply))
      w s
