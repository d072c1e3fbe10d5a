-- ===== src/Shard/Controller/World/Tests.antt =====
-- The data of a change of the configuration (lec-2025/src/shardkv1/shardctrler/shardctrler.go) at two
-- groups: the second one takes over the shards from 6 on, and calls fail on the way.
use text.Mathlib.TextEquality.{eq_iff}
use mit.Base.{
  ℕ, ◌≡◌, ◌≢◌, ◌⊎◌, ◌==◌, ==_iff, ◌||◌, ◌∙◌, ap, sym, inl, inr, Bool-cases, length, refl, true,
  false, String, none, some, List, [], ◌∷◌, Bool, if◌then◌else◌, arith,
}
use text.Mathlib.Text.{◌==◌ as str_eq}
use mit.Base.Assoc.{lookup, nat_eq, string_eq}
use mit.Rpc.{Err, GetArgs}
use mit.Shard.Key.{key_to_shard, sum32}
use mit.Shard.Group.{KvServer, start_server, group_get, closed, shard_age, Age}
use mit.Shard.Controller.{value, gid_of, query, change_config_to, init_controller}
use mit.Shard.Controller.Tests.{
  unfinished, unfinished-Current, entry_of, second_stored, no_third, first, second, codec, at_first,
  count-strokes, at_first-Current, served, every-get_or,
}
use mit.Shard.Controller.World.{World, services}
use mit.Shard.Controller.World.Encoding.{json, put_entries, json-RoundTrips}
use mit.Shard.Controller.World.Shards.{IsReady, owner, first_server}
use mit.Shard.Controller.World.Restart.{init_controller-AnswersAlike}
use mit.Shard.Controller.World.Data.{AnswersAlike, change_config_to-AnswersAlike}

-- The group of "s0" has two keys, the other group none.
abbrev group_of : String → KvServer
group_of s =
    if str_eq s "s0"
    then record (start_server 101 0) {
      key_value =
          ("a", record { value = "x"; version = 3 })
          ∷ ("e", record { value = "y"; version = 1 })
          ∷ [];
    }
    else start_server 102 0

-- The first attempt of each call fails; that of every second call reaches the group.
abbrev fates : ℕ → List Bool
fates n = (n == 1 || n == 3) ∷ []

abbrev world : World
world = record { store = at_first; group = group_of; calls = 0; lost = fates }

-- No group has seen a shard's number or given one away.
group_of-plain :
    (s : String) (t : ℕ)
    → (closed (group_of s) t ≡ false) × (shard_age (group_of s) t 2 ≡ Age.newer)
unfolding lookup start_server
group_of-plain s t = elim (Bool-cases (str_eq s "s0")) [
  | inl this ↦ ground (arith, this)
  | inr other ↦ ground (arith, other)
]

first_gid : (t : ℕ) → (gid_of first t == 0 || gid_of first t == 101) ≡ true
first_gid t = every-get_or (λ g. g == 0 || g == 101) first.shards t refl refl

second_gid :
    (t : ℕ) → (gid_of second t == 0 || gid_of second t == 101 || gid_of second t == 102) ≡ true
second_gid t = every-get_or (λ g. g == 0 || g == 101 || g == 102) second.shards t refl refl

-- A shard that moves between groups goes from 101 to 102.
moves_over :
    (t : ℕ)
    → gid_of first t ≢ gid_of second t
    → gid_of first t ≢ 0
    → gid_of second t ≢ 0
    → (gid_of first t ≡ 101) × (gid_of second t ≡ 102)
moves_over t e a b =
    let here : gid_of first t ≡ 101 = ground (arith, first_gid t, a) in
    (here, ground (arith, second_gid t, b, e, here))

names : (first_server first 101 ≡ "s0") × (first_server second 102 ≡ "s1")
unfolding lookup
names = (refl, refl)

same_name : (g : ℕ) → (g == 0 || g == 101) ≡ true → first_server first g ≡ first_server second g
unfolding lookup
same_name g h = elim (Bool-cases (g == 101)) [
  | inl this ↦ rw ((==_iff g 101).0 this) refl
  | inr other ↦ let none_of : g ≡ 0 = ground (arith, h, other) in rw none_of refl
]

empty_group : (key : String) → lookup key (group_of "s1").key_value ≡ none
unfolding lookup start_server
empty_group key = refl

different : str_eq "s0" "s1" ≡ false
different = refl

ready : IsReady first second world
ready = record {
  served = λ t a. (group_of-plain (first_server first (gid_of first t)) t).0;
  newer = λ s t. (group_of-plain s t).1;
  apart = λ t e a b same.
      let (f, g) = moves_over t e a b in
      let clash : "s0" ≡ "s1" =
        sym (ap (first_server first) f ∙ names.0) ∙ same ∙ ap (first_server second) g ∙ names.1 in
      absurd (ground (arith, (eq_iff "s0" "s1").1 clash, different));
  stays = λ t e. same_name (gid_of first t) (first_gid t) ∙ ap (first_server second) e;
  lacks = λ t key e a b h missing.
      let (f, g) = moves_over t e a b in
      ap (λ s. lookup key (group_of s).key_value) (ap (first_server second) g ∙ names.1)
      ∙ empty_group key;
}

no_second : lookup "config-II" at_first ≡ none
unfolding lookup
no_second = refl

abbrev get_e : GetArgs
get_e = record { key = "e" }

-- Its shard, 8, moves from 101 to 102.
has_group :
    (gid_of first (key_to_shard get_e.key) ≢ 0) × (gid_of second (key_to_shard get_e.key) ≢ 0)
unfolding key_to_shard sum32
has_group = (λ h. omega (arith, h), λ h. omega (arith, h))

change_config_to-AnswersAlike_example :
    (w' : World) × (change_config_to codec (services json) world second ≡ value w')
    × (query codec (services json) w' ≡ value (w', some second))
    × AnswersAlike codec json world w' get_e
    × ((gid_of first (key_to_shard get_e.key) ≡ gid_of second (key_to_shard get_e.key))
        ⊎ ((group_get (owner w' first (key_to_shard get_e.key)) get_e).err ≡ Err.wrong_group))
change_config_to-AnswersAlike_example =
    change_config_to-AnswersAlike codec json world first second get_e count-strokes
      (λ m. (length m ∷ put_entries m, refl)) json-RoundTrips at_first-Current served ready
      (omega arith) no_second refl has_group.0 has_group.1

-- The second configuration is stored, and no shard has moved.
abbrev stopped : World
stopped = record world { store = unfinished }

stopped-IsReady : IsReady first second stopped
stopped-IsReady = record {
  served = ready.served;
  newer = ready.newer;
  apart = ready.apart;
  stays = ready.stays;
  lacks = ready.lacks;
}

init_controller-AnswersAlike_example :
    (w' : World) × (init_controller codec (services json) stopped ≡ value w')
    × (query codec (services json) w' ≡ value (w', some second))
    × AnswersAlike codec json stopped w' get_e
    × ((gid_of first (key_to_shard get_e.key) ≡ gid_of second (key_to_shard get_e.key))
        ⊎ ((group_get (owner w' first (key_to_shard get_e.key)) get_e).err ≡ Err.wrong_group))
init_controller-AnswersAlike_example =
    init_controller-AnswersAlike codec json stopped first second get_e 0 (entry_of "II")
      count-strokes (λ m. (length m ∷ put_entries m, refl)) json-RoundTrips unfinished-Current
      served stopped-IsReady (omega arith) refl (λ j h. absurd (omega (arith, h))) second_stored
      refl no_third has_group.0 has_group.1
