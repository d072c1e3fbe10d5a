-- ===== src/Shard/Controller/World/Shards.antt =====
-- One shard in the loop of `ChangeConfigTo`, lec-2025/src/shardkv1/shardctrler/shardctrler.go, at the
-- servers of the groups.
use mit.Base.{
  ℕ, ==_iff, ◌≡◌, ◌≢◌, refl, ◌∙◌, ap, sym, String, true, false, none, some, List, [], ◌∷◌, arith,
}
use mit.Base.Assoc.{lookup, nat_eq, string_eq}
use mit.Shard.Key.{key_to_shard}
use mit.Shard.Config.{ShardConfig}
use mit.Shard.Group.{KvServer, Age, shard_age, closed, do_delete_shard}
use mit.Shard.Migration.{deleted, flag-insert}
use mit.Shard.Controller.{servers_in, gid_of}
use mit.Shard.Controller.Alone.{servers_found}
use mit.Shard.Controller.World.{World}
use mit.Shard.Controller.World.Kept.{SameAt}
use mit.Shard.Controller.World.Moves.{Holds}

-- The name of a group: its first server.
abbrev pub first_server : ShardConfig → ℕ → String
first_server c gid = elim (servers_in c gid) [ [] ↦ "" | s ∷ ss ↦ s ]

-- The group of a shard.
abbrev pub owner : World → ShardConfig → ℕ → KvServer
owner w c t = w.group (first_server c (gid_of c t))

-- Before the change: each group serves its shards, the number of the new configuration is new to
-- every shard, no two groups that a shard moves between have the same first server, and a key that the
-- old group of a shard lacks is not left at the new one.
pub record IsReady (old new : ShardConfig) (w : World) : Type 0 where
  pub served : (t : ℕ) → gid_of old t ≢ 0 → closed (owner w old t) t ≡ false
  pub newer : (s : String) (t : ℕ) → shard_age (w.group s) t new.num ≡ Age.newer
  pub apart :
      (t : ℕ)
      → gid_of old t ≢ gid_of new t
      → gid_of old t ≢ 0
      → gid_of new t ≢ 0
      → first_server old (gid_of old t) ≢ first_server new (gid_of new t)
  pub stays :
      (t : ℕ)
      → gid_of old t ≡ gid_of new t
      → first_server old (gid_of old t) ≡ first_server new (gid_of new t)
  pub lacks :
      (t : ℕ) (key : String)
      → gid_of old t ≢ gid_of new t
      → gid_of old t ≢ 0
      → gid_of new t ≢ 0
      → key_to_shard key ≡ t
      → lookup key (owner w old t).key_value ≡ none
      → lookup key (owner w new t).key_value ≡ none

-- After it: the new group serves the shard with the entries that the old one had, and an old group
-- that the shard has left refuses it.
pub record IsSettled (old new : ShardConfig) (w0 : World) (t : ℕ) (w : World) : Type 0 where
  pub holds : gid_of old t ≢ 0 → gid_of new t ≢ 0 → Holds (owner w0 old t) t (owner w new t)
  pub left : gid_of old t ≢ gid_of new t → gid_of old t ≢ 0 → closed (owner w old t) t ≡ true

pub servers_first :
    (c : ShardConfig) (gid : ℕ)
    → servers_in c gid ≢ []
    → (ss : List String) × (servers_in c gid ≡ first_server c gid ∷ ss)
servers_first c gid h = go (servers_in c gid) h
  where
    go :
        (l : List String)
        → l ≢ []
        → (ss : List String) × (l ≡ (elim l [ [] ↦ "" | s ∷ ss ↦ s ]) ∷ ss)
    go [] h = absurd (h refl)
    go (s ∷ ss) h = (ss, refl)

pub lookup_first :
    (c : ShardConfig) (gid : ℕ)
    → servers_in c gid ≢ []
    → (ss : List String) × (lookup gid c.groups ≡ some (first_server c gid ∷ ss))
lookup_first c gid h =
    let (srvs, found, some_there) = servers_found c gid h in
    let (ss, e) = servers_first c gid h in
    let same : servers_in c gid ≡ srvs = ap (λ o. elim o [ none ↦ [] | some l ↦ l ]) found in
    (ss, found ∙ ap some (sym same ∙ e))

pub SameAt-IsSettled :
    (old new : ShardConfig) (w0 w w' : World) (t : ℕ)
    → SameAt t w w'
    → IsSettled old new w0 t w
    → IsSettled old new w0 t w'
SameAt-IsSettled old new w0 w w' t same s = record {
  holds = λ a b.
      let (opened, entries) = s.holds a b in
      let k = same (first_server new (gid_of new t)) in
      (k.shut ∙ opened, λ key h. k.entries key h ∙ entries key h);
  left = λ a b. let k = same (first_server old (gid_of old t)) in k.shut ∙ s.left a b;
}

pub newly_closed :
    (kv : KvServer) (sh num : ℕ)
    → shard_age kv sh num ≡ Age.newer
    → closed (deleted kv sh num) sh ≡ true
unfolding do_delete_shard
newly_closed kv sh num new = ground (arith, new, flag-insert kv.migrated_shards sh sh, ==_iff sh sh)
