-- ===== src/Shard/Controller/World/Moves.antt =====
-- A shard's move by the controller, lec-2025/src/shardkv1/shardctrler/shardctrler.go, at the servers of
-- the groups.
use text.Mathlib.Text.{◌==◌ as str_eq}
use text.Mathlib.TextEquality.{eq_iff}
use mit.Base.{ℕ, ◌==◌, ◌≡◌, refl, ◌∙◌, ap, sym, String, true, false, none, some, arith}
use mit.Base.Assoc.{insert_all, lookup, nat_eq, string_eq}
use mit.Raft.State.{Bytes}
use mit.Shard.Key.{key_to_shard}
use mit.Shard.Group.{KvServer, Json, Age, shard_age, shard_data, closed}
use mit.Shard.Migration.{
  RoundTrips, frozen, installed, deleted, frozen-newer, installed-newer, deleted-closed,
  lookup-moved,
}
use mit.Shard.Controller.Alone.{IsStore}
use mit.Shard.Controller.World.{World, with_group, services}
use mit.Shard.Controller.World.Kept.{
  SameAt, SameAt-trans, with_group-SameAt, frozen-IsSame, installed-IsSame, deleted-IsSame,
}

pub services-IsStore : (json : Json) → IsStore (services json) (λ w. w.store)
services-IsStore json = record { gets = λ w a. refl; puts = λ w a. refl; put_errs = λ w a. refl }

-- The group `q` serves the shard with the entries that `kv` has.
abbrev pub Holds : KvServer → ℕ → KvServer → Type 0
Holds kv t q =
    (closed q t ≡ false)
    × ((key : String) → key_to_shard key ≡ t → lookup key q.key_value ≡ lookup key kv.key_value)

module _ (json : Json) (w : World) (p q : String) (sh num : ℕ) (state : Bytes) where
  -- After the freeze at `p`, the install at `q` and the delete at `p`.
  abbrev pub world1 : World
  world1 = with_group w p (frozen json (w.group p) sh num).0

  abbrev pub world2 : World
  world2 = with_group world1 q (installed json (world1.group q) sh num state)

  abbrev pub world3 : World
  world3 = with_group world2 p (deleted (world2.group p) sh num)

  module _ (apart : str_eq p q ≡ false) (round_trips : RoundTrips json)
      (new_p : shard_age (w.group p) sh num ≡ Age.newer)
      (new_q : shard_age (w.group q) sh num ≡ Age.newer)
      (written : json.marshal (shard_data (w.group p) sh) ≡ some state) where
    read : json.unmarshal state ≡ some (shard_data (w.group p) sh)
    read = round_trips (shard_data (w.group p) sh) state written

    at_q : world1.group q ≡ w.group q
    at_q = ground (arith, apart)

    at_p : world2.group p ≡ (frozen json (w.group p) sh num).0
    at_p = ground (arith, apart, eq_iff q p, eq_iff p q, eq_iff p p)

    pub numbered : lookup sh (world2.group p).max_shard_num ≡ some num
    numbered =
        let (r, c, e, n) = frozen-newer json (w.group p) sh num state new_p written in
        ap (λ k. lookup sh k.max_shard_num) at_p ∙ n

    -- The old group is closed, and the new one serves what it had.
    pub world3-closed : closed (world3.group p) sh ≡ true
    world3-closed =
        let same : world3.group p ≡ deleted (world2.group p) sh num = ground (arith, eq_iff p p) in
        ap (λ k. closed k sh) same ∙ (deleted-closed (world2.group p) sh num numbered).0

    pub world3-Holds :
        ((key : String)
          → key_to_shard key ≡ sh
          → lookup key (w.group p).key_value ≡ none
          → lookup key (w.group q).key_value ≡ none)
        → Holds (w.group p) sh (world3.group q)
    world3-Holds lacks =
        let same : world3.group q ≡ installed json (w.group q) sh num state =
          ground (arith, apart, eq_iff q q, at_q) in
        let (m, opened) =
          installed-newer json (w.group q) sh num state (shard_data (w.group p) sh) new_q read in
        (
          ap (λ k. closed k sh) same ∙ opened,
          λ key here.
              ap (λ k. lookup key k.key_value) same
              ∙ ap (lookup key) m
              ∙ ap (λ x. lookup key (insert_all (shard_data (w.group p) x) (w.group q).key_value))
                  (sym here)
              ∙ lookup-moved (w.group p) (w.group q) key (lacks key here),
        )

    -- Every other shard is as it was, at every group.
    pub world3-SameAt : (t : ℕ) → (sh == t) ≡ false → SameAt t w world3
    world3-SameAt t other =
        let a =
          with_group-SameAt t w p (frozen json (w.group p) sh num).0
            (frozen-IsSame json sh t other (w.group p) num) in
        let b =
          with_group-SameAt t world1 q (installed json (world1.group q) sh num state)
            (installed-IsSame json sh t other (w.group p) (world1.group q) num state read) in
        let c =
          with_group-SameAt t world2 p (deleted (world2.group p) sh num)
            (deleted-IsSame json sh t other (world2.group p) num) in
        SameAt-trans t w world2 world3 (SameAt-trans t w world1 world2 a b) c
