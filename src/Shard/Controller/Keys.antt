-- ===== src/Shard/Controller/Keys.antt =====
-- The keys of the controller in the key/value service,
-- lec-2025/src/shardkv1/shardctrler/shardctrler.go: "latest" and "config-N".
use text.Mathlib.Text.{◌==◌ as str_eq, starts_with}
use text.Mathlib.TextPositions.{starts_with-append}
use text.Mathlib.TextEquality.{eq_iff}
use text.Mathlib.TextLemmas.{append_cancel_left}
use mit.Base.{ℕ, ◌≡◌, ◌≢◌, refl, ◌∙◌, ap, sym, inl, inr, Bool-cases, false, String, some, arith}
use mit.Base.Assoc.{Map, lookup, string_eq}
use mit.Kv.{ValueEntry}
use mit.Shard.Config.{ShardConfig}
use mit.Shard.Controller.{Codec, config_key}

-- The keys of the controller for a current configuration.
pub record Current (codec : Codec) (m : Map String ValueEntry) (c : ShardConfig) : Type 0 where
  pub latest : ValueEntry
  pub entry : ValueEntry
  pub points : lookup "latest" m ≡ some latest
  pub number : latest.value ≡ codec.sprint c.num
  pub there : lookup (config_key (codec.sprint c.num)) m ≡ some entry
  pub decodes : codec.unmarshal entry.value ≡ some c

starts_apart : starts_with "latest" "config-" ≡ false
starts_apart = refl

-- No configuration is stored under the key of the pointer.
pub key_apart : (s : String) → str_eq "latest" (config_key s) ≡ false
key_apart s = elim (Bool-cases (str_eq "latest" (config_key s))) [
  | inl same ↦
      let e = (eq_iff "latest" (config_key s)).0 same in
      let t =
        sym (starts_with-append "config-" s)
        ∙ ap (λ k. starts_with k "config-") (sym e)
        ∙ starts_apart in
      absurd (ground (arith, t))
  | inr apart ↦ apart
]

pub config_apart :
    (codec : Codec)
    → ((n : ℕ) → codec.atoi (codec.sprint n) ≡ n)
    → (a b : ℕ) → a ≢ b
    → str_eq (config_key (codec.sprint a)) (config_key (codec.sprint b)) ≡ false
config_apart codec number a b h =
    let ka = config_key (codec.sprint a) in
    let kb = config_key (codec.sprint b) in
    elim (Bool-cases (str_eq ka kb)) [
      | inl same ↦
          let e =
            append_cancel_left "config-" (codec.sprint a) (codec.sprint b)
              ((eq_iff ka kb).0 same) in
          absurd (h (sym (number a) ∙ ap codec.atoi e ∙ number b))
      | inr apart ↦ apart
    ]
