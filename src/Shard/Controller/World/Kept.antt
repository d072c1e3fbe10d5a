-- ===== src/Shard/Controller/World/Kept.antt =====
-- What the requests of a move leave alone at a group's server,
-- lec-2025/src/shardkv1/shardgrp/server.go: the other shards.
use mathlib.Core.Path.{subst}
use text.Mathlib.TextEquality.{eq_iff}
use mit.Base.{
  ℕ, ◌==◌, ==_iff, ◌≡◌, refl, ◌∙◌, ap, sym, String, false, some, if◌then◌else◌, inl, inr,
  Bool-cases, arith,
}
use text.Mathlib.Text.{◌==◌ as str_eq}
use mit.Base.Assoc.{lookup, lookup-insert, nat_eq, string_eq}
use mit.Raft.State.{Bytes}
use mit.Shard.Key.{key_to_shard}
use mit.Shard.Group.{
  KvServer, Json, closed, shard_data, do_freeze_shard, do_install_shard, do_delete_shard,
}
use mit.Shard.Migration.{
  flag-delete, flag-insert, frozen, installed, deleted, frozen-others, installed-others,
  installed_data, deleted-others,
}
use mit.Shard.Controller.World.{World, with_group}

-- A shard is as it was: served or not, with the same number and the same entries.
pub record IsSame (t : ℕ) (kv kv' : KvServer) : Type 0 where
  pub shut : closed kv' t ≡ closed kv t
  pub number : lookup t kv'.max_shard_num ≡ lookup t kv.max_shard_num
  pub entries :
      (key : String) → key_to_shard key ≡ t → lookup key kv'.key_value ≡ lookup key kv.key_value

pub unchanged-IsSame : (t : ℕ) (kv : KvServer) → IsSame t kv kv
unchanged-IsSame t kv = record { shut = refl; number = refl; entries = λ key h. refl }

pub chain-IsSame : (t : ℕ) (a b c : KvServer) → IsSame t a b → IsSame t b c → IsSame t a c
chain-IsSame t a b c x y = record {
  shut = y.shut ∙ x.shut;
  number = y.number ∙ x.number;
  entries = λ key h. y.entries key h ∙ x.entries key h;
}

module _ (json : Json) (shard t : ℕ) (apart : (shard == t) ≡ false) where
  pub frozen-IsSame : (kv : KvServer) (num : ℕ) → IsSame t kv (frozen json kv shard num).0
  unfolding do_freeze_shard
  frozen-IsSame kv num =
      let (c, e) = frozen-others json shard t apart kv num in
      record {
        shut = c;
        number = ground (arith, apart, lookup-insert shard t num kv.max_shard_num);
        entries = λ key h. ap (lookup key) e;
      }

  pub installed-IsSame :
      (a b : KvServer) (num : ℕ) (state : Bytes)
      → json.unmarshal state ≡ some (shard_data a shard)
      → IsSame t b (installed json b shard num state)
  unfolding do_install_shard
  installed-IsSame a b num state read = record {
    shut = installed-others json shard t apart b num state;
    number = ground (arith, apart, read, lookup-insert shard t num b.max_shard_num);
    entries = λ key h.
        let other : (key_to_shard key == shard) ≡ false =
          ground (arith, h, apart, ==_iff t shard, ==_iff shard t) in
        installed_data json a b shard num state key read other;
  }

  pub deleted-IsSame : (kv : KvServer) (num : ℕ) → IsSame t kv (deleted kv shard num)
  unfolding do_delete_shard
  deleted-IsSame kv num = record {
    shut = ground (
      arith,
      apart,
      flag-delete kv.frozen_shards shard t,
      flag-insert kv.migrated_shards shard t,
    );
    number = ground (arith, apart, lookup-insert shard t num kv.max_shard_num);
    entries = λ key h. (deleted-others kv shard num key (ap (λ x. shard == x) h ∙ apart)).1;
  }

-- A shard is as it was at every group.
abbrev pub SameAt : ℕ → World → World → Type 0
SameAt t w w' = (s : String) → IsSame t (w.group s) (w'.group s)

pub with_group-SameAt :
    (t : ℕ) (w : World) (s : String) (kv : KvServer)
    → IsSame t (w.group s) kv
    → SameAt t w (with_group w s kv)
with_group-SameAt t w s kv same u = elim (Bool-cases (str_eq s u)) [
  | inl this ↦
      let e = (eq_iff s u).0 this in
      subst (IsSame t (w.group u)) (sym (ap (λ b. if b then kv else w.group u) this))
        (subst (λ x. IsSame t (w.group x) kv) e same)
  | inr other ↦
      subst (IsSame t (w.group u)) (sym (ap (λ b. if b then kv else w.group u) other))
        (unchanged-IsSame t (w.group u))
]

pub SameAt-trans : (t : ℕ) (a b c : World) → SameAt t a b → SameAt t b c → SameAt t a c
SameAt-trans t a b c x y s = chain-IsSame t (a.group s) (b.group s) (c.group s) (x s) (y s)
