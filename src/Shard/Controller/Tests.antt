-- ===== src/Shard/Controller/Tests.antt =====
-- Configurations for the theorems on the shard controller
-- (lec-2025/src/shardkv1/shardctrler/shardctrler.go).
use Prim.Native.String.{◌++◌, count}
use text.Mathlib.Text.{◌==◌ as str_eq}
use text.Mathlib.TextLemmas.{length-append}
use mit.Base.{
  ℕ, zero, suc, Bool, true, ◌==◌, ◌||◌, ◌&&◌, get_or, ◌≡◌, ◌≢◌, refl, ◌∙◌, String, none, some, List,
  [], ◌∷◌, if◌then◌else◌, arith,
}
use mit.Base.Assoc.{Map, lookup, string_eq}
use mit.Kv.{ValueEntry}
use mit.Shard.Config.{ShardConfig}
use mit.Shard.Controller.{Codec, servers_in}
use mit.Shard.Controller.Keys.{Current}
use mit.Shard.Controller.Alone.{HasServers}

abbrev pub first : ShardConfig
first = record {
  num = 1;
  shards = 101 ∷ 101 ∷ 101 ∷ 101 ∷ 101 ∷ 101 ∷ 101 ∷ 101 ∷ 101 ∷ 101 ∷ 101 ∷ 101 ∷ [];
  groups = (101, "s0" ∷ []) ∷ [];
}

abbrev pub second : ShardConfig
second = record {
  num = 2;
  shards = 101 ∷ 101 ∷ 101 ∷ 101 ∷ 101 ∷ 101 ∷ 102 ∷ 102 ∷ 102 ∷ 102 ∷ 102 ∷ 102 ∷ [];
  groups = (101, "s0" ∷ []) ∷ (102, "s1" ∷ []) ∷ [];
}

-- Numbers in strokes, and the two configurations by their numbers.
abbrev pub strokes : ℕ → String
strokes zero = ""
strokes (suc n) = "I" ++ strokes n

pub count-strokes : (n : ℕ) → count (strokes n) ≡ n
count-strokes zero = refl
count-strokes (suc n) =
    let one : count "I" ≡ 1 = refl in
    length-append "I" (strokes n) ∙ omega (arith, one, count-strokes n)

abbrev pub codec : Codec
codec = record {
  marshal = λ c. strokes c.num;
  unmarshal = λ s. if str_eq s "I" then some first else some second;
  sprint = strokes;
  atoi = count;
}

-- The pointer at the first configuration, alone and with the second one stored.
abbrev pub entry_of : String → ValueEntry
entry_of s = record { value = s; version = 1 }

abbrev pub at_first : Map String ValueEntry
at_first = ("config-I", entry_of "I") ∷ ("latest", entry_of "I") ∷ []

abbrev pub unfinished : Map String ValueEntry
unfinished = ("config-II", entry_of "II") ∷ at_first

pub at_first-Current : Current codec at_first first
unfolding lookup
at_first-Current = record {
  latest = entry_of "I";
  entry = entry_of "I";
  points = refl;
  number = refl;
  there = refl;
  decodes = refl;
}

pub unfinished-Current : Current codec unfinished first
unfolding lookup
unfinished-Current = record {
  latest = entry_of "I";
  entry = entry_of "I";
  points = refl;
  number = refl;
  there = refl;
  decodes = refl;
}

-- A group that a place of a list may name, or none.
abbrev pub every : (ℕ → Bool) → List ℕ → Bool
every p [] = true
every p (g ∷ gs) = p g && every p gs

pub every-get_or :
    (p : ℕ → Bool) (gs : List ℕ) (i : ℕ) → every p gs ≡ true → p 0 ≡ true → p (get_or gs i 0) ≡ true
every-get_or p [] i h z = z
every-get_or p (g ∷ gs) zero h z = ground (arith, h)
every-get_or p (g ∷ gs) (suc i) h z = every-get_or p gs i (ground (arith, h)) z

first_servers : (g : ℕ) → (g == 0 || g == 101) ≡ true → g ≢ 0 → servers_in first g ≢ []
unfolding lookup
first_servers g h k = ground (arith, h, k)

second_servers :
    (g : ℕ) → (g == 0 || g == 101 || g == 102) ≡ true → g ≢ 0 → servers_in second g ≢ []
unfolding lookup
second_servers g h k = ground (arith, h, k)

pub served : HasServers first second
served sh = (
  first_servers (get_or first.shards sh 0)
      (every-get_or (λ g. g == 0 || g == 101) first.shards sh refl refl),
  second_servers (get_or second.shards sh 0)
      (every-get_or (λ g. g == 0 || g == 101 || g == 102) second.shards sh refl refl),
)

pub second_stored : lookup "config-II" unfinished ≡ some (entry_of "II")
unfolding lookup
second_stored = refl

pub no_third : lookup "config-III" unfinished ≡ none
unfolding lookup
no_third = refl
