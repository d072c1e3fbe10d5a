-- ===== src/Base/Sort.antt =====
-- `slices.Sort` on numbers, and which elements a list has.
use mathlib.Core.Path.{◌≡◌, refl}
use mathlib.Core.Bool.{Bool, false, ◌||◌}
use mathlib.Core.List.{List, [], ◌∷◌}
use native.Mathlib.Omega.{arith}
use Prim.Native.Nat.{ℕ}
use mit.Base.Tests.{leb, ◌==◌, if◌then◌else◌}

-- Ascending.
unfoldable pub insert_sorted : ℕ → List ℕ → List ℕ
insert_sorted x [] = x ∷ []
insert_sorted x (y ∷ ys) = if leb x y then x ∷ y ∷ ys else y ∷ insert_sorted x ys

unfoldable pub sort : List ℕ → List ℕ
unfolding insert_sorted
sort [] = []
sort (x ∷ xs) = insert_sorted x (sort xs)

unfoldable pub contains : ℕ → List ℕ → Bool
contains a [] = false
contains a (x ∷ xs) = x == a || contains a xs

contains-insert_sorted :
    (a x : ℕ) (xs : List ℕ) → contains a (insert_sorted x xs) ≡ (x == a || contains a xs)
unfolding contains insert_sorted
contains-insert_sorted a x [] = refl
contains-insert_sorted a x (y ∷ ys) = ground (arith, contains-insert_sorted a x ys)

pub contains-sort : (a : ℕ) (xs : List ℕ) → contains a (sort xs) ≡ contains a xs
unfolding contains sort
contains-sort a [] = refl
contains-sort a (x ∷ xs) = ground (arith, contains-sort a xs, contains-insert_sorted a x (sort xs))
