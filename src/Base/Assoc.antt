-- ===== src/Base/Assoc.antt =====
-- Go maps as association lists, over a key type with a Boolean equality.
use mathlib.Core.Path.{◌≡◌, refl}
use mathlib.Core.Logic.{◌↔◌}
use mathlib.Core.Bool.{Bool, true, not}
use mathlib.Core.List.{List, [], ◌∷◌}
use mathlib.Core.Option.{Option, none, some}
use native.Mathlib.Omega.{arith}
use Prim.Native.Nat.{ℕ}
use Prim.Native.String.{String}
use text.Mathlib.Text.{◌==◌ as str_eq}
use text.Mathlib.TextEquality.{eq_iff}
use mit.Base.Tests.{◌==◌, ==_iff, if◌then◌else◌}

pub record Eq (K : Type 0) : Type 0 where
  pub beq : K → K → Bool
  pub beq_iff : (a b : K) → (beq a b ≡ true) ↔ (a ≡ b)

instance abbrev pub nat_eq : Eq ℕ
nat_eq = record { beq = λ a b. a == b; beq_iff = ==_iff }

instance abbrev pub string_eq : Eq String
string_eq = record { beq = str_eq; beq_iff = eq_iff }

abbrev pub Map : Type 0 → Type 0 → Type 0
Map K V = List (K × V)

module _ {K V : Type 0} ⦃e : Eq K⦄ where
  -- v, ok := m[k]
  unfoldable pub lookup : K → Map K V → Option V
  lookup k [] = none
  lookup k ((j, v) ∷ m) = if e.beq j k then some v else lookup k m

  -- m[k] = v
  unfoldable pub insert : K → V → Map K V → Map K V
  insert k v [] = (k, v) ∷ []
  insert k v ((j, w) ∷ m) = if e.beq j k then (k, v) ∷ m else (j, w) ∷ insert k v m

  -- for k := range m { if p(k) { keep } }
  unfoldable pub filter_keys : (K → Bool) → Map K V → Map K V
  filter_keys p [] = []
  filter_keys p ((j, v) ∷ m) = let rest = filter_keys p m in if p j then (j, v) ∷ rest else rest

  -- for k, v := range new { m[k] = v }; the keys of a Go map differ, so the order does not matter
  unfoldable pub insert_all : Map K V → Map K V → Map K V
  insert_all [] m = m
  insert_all ((k, v) ∷ new) m = insert k v (insert_all new m)

  -- delete(m, k)
  unfoldable pub delete : K → Map K V → Map K V
  unfolding filter_keys
  delete k m = filter_keys (λ j. not (e.beq j k)) m

  pub lookup-insert :
      (k j : K) (v : V) (m : Map K V)
      → lookup j (insert k v m) ≡ (if e.beq k j then some v else lookup j m)
  unfolding lookup insert
  lookup-insert k j v [] = refl
  lookup-insert k j v ((i, w) ∷ m) =
      ground (arith, e.beq_iff k j, e.beq_iff i k, e.beq_iff i j, lookup-insert k j v m)

  pub lookup-filter_keys :
      (p : K → Bool) (k : K) (m : Map K V)
      → lookup k (filter_keys p m) ≡ (if p k then lookup k m else none)
  unfolding lookup filter_keys
  lookup-filter_keys p k [] = ground arith
  lookup-filter_keys p k ((i, w) ∷ m) = ground (arith, e.beq_iff i k, lookup-filter_keys p k m)

module _ {K V : Type 0} ⦃e : Eq K⦄ where
  pub lookup-delete :
      (k j : K) (m : Map K V) → lookup j (delete k m) ≡ (if e.beq j k then none else lookup j m)
  unfolding delete
  lookup-delete k j m = ground (arith, lookup-filter_keys (λ i. not (e.beq i k)) j m)

  pub lookup-insert_all :
      (k : K) (new m : Map K V)
      → lookup k (insert_all new m) ≡ (elim (lookup k new) [ none ↦ lookup k m | some v ↦ some v ])
  unfolding insert_all lookup
  lookup-insert_all k [] m = refl
  lookup-insert_all k ((j, v) ∷ new) m =
      ground (arith, lookup-insert j k v (insert_all new m), lookup-insert_all k new m)

pub beq_refl : {K : Type 0} ⦃e : Eq K⦄ (k : K) → e.beq k k ≡ true
beq_refl ⦃e⦄ k = (e.beq_iff k k).1 refl
