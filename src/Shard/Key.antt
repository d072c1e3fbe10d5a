-- ===== src/Shard/Key.antt =====
-- Which shard a key is in, `Key2Shard` of lec-2025/src/shardkv1/shardcfg/shardcfg.go, with the hash
-- of hash/fnv, FNV-1a on 32 bits, written out over the bytes of the key.
use Prim.Native.Nat.{bit_xor}
use Prim.Native.Char.{code}
use mit.Base.{
  ℕ, ◌+◌, ◌*◌, ◌/◌, ◌%◌, ◌^◌, ◌<◌, ◌≡◌, refl, String, List, [], ◌∷◌, ◌++◌, ltb, if◌then◌else◌,
  arith,
}

abbrev pub n_shards : ℕ
n_shards = 12

-- The bytes of a character in UTF-8.
abbrev utf8 : ℕ → List ℕ
utf8 c =
    if ltb c 0x80
    then c ∷ []
    else if ltb c 0x800
    then (0xc0 + c / 64) ∷ (0x80 + c % 64) ∷ []
    else if ltb c 0x10000
    then (0xe0 + c / 4096) ∷ (0x80 + c / 64 % 64) ∷ (0x80 + c % 64) ∷ []
    else (0xf0 + c / 262144) ∷ (0x80 + c / 4096 % 64) ∷ (0x80 + c / 64 % 64) ∷ (0x80 + c % 64) ∷ []

abbrev pub bytes_of : String → List ℕ
bytes_of String.[] = []
bytes_of (String.◌∷◌ c s) = utf8 (code c) ++ bytes_of s

unfoldable pub sum32 : ℕ → List ℕ → ℕ
sum32 h [] = h
sum32 h (b ∷ bs) = sum32 (bit_xor h b * 16777619 % 2 ^ 32) bs

unfoldable pub key_to_shard : String → ℕ
unfolding sum32
key_to_shard key = sum32 2166136261 (bytes_of key) % n_shards

pub key_to_shard-lt : (key : String) → key_to_shard key < n_shards
unfolding key_to_shard
key_to_shard-lt key = omega arith

sum32_a : sum32 2166136261 (bytes_of "a") ≡ 0xe40c292c
unfolding sum32
sum32_a = refl
