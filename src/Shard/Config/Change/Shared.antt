-- ===== src/Shard/Config/Change/Shared.antt =====
-- When a new group shares a server with one that is there, the two inner loops of `Join` in
-- lec-2025/src/shardkv1/shardcfg/shardcfg.go.
use mathlib.Core.List.{Memᴰ}
use mathlib.Core.List.Memᴰ.{head, tail}
use text.Mathlib.Text.{◌==◌ as str_eq}
use text.Mathlib.TextEquality.{eq_iff}
use mit.Base.{
  ℕ, ◌≡◌, refl, ap, sym, inl, inr, Bool-cases, String, true, false, List, [], ◌∷◌, arith,
}
use mit.Base.Assoc.{Map}
use mit.Shard.Config.Change.{has_server, share, taken}

-- Some group of the map has one of the servers.
abbrev pub Shared : List String → Map ℕ (List String) → Type 0
Shared srvs m =
    (gid : ℕ) × (others : List String) × (s : String) × Memᴰ (gid, others) m
    × Memᴰ s others
    × Memᴰ s srvs

has_server-true : (s : String) (ts : List String) → has_server s ts ≡ true → Memᴰ s ts
unfolding has_server
has_server-true s [] h = cc
has_server-true s (t ∷ ts) h = elim (Bool-cases (str_eq t s)) [
  | inl same ↦ head (sym ((eq_iff t s).0 same))
  | inr apart ↦ tail (has_server-true s ts (ground (arith, h, apart)))
]

Mem-has_server : (s : String) (ts : List String) → Memᴰ s ts → has_server s ts ≡ true
unfolding has_server
Mem-has_server s [] m = elim m [ ]
Mem-has_server s (t ∷ ts) (head e) = ground (arith, eq_iff t s, e)
Mem-has_server s (t ∷ ts) (tail m) = ground (arith, Mem-has_server s ts m)

share-true : (ss ts : List String) → share ss ts ≡ true → (s : String) × Memᴰ s ss × Memᴰ s ts
unfolding share
share-true [] ts h = cc
share-true (s ∷ ss) ts h = elim (Bool-cases (has_server s ts)) [
  | inl common ↦ (s, head refl, has_server-true s ts common)
  | inr not_there ↦
      let (u, m, n) = share-true ss ts (ground (arith, h, not_there)) in (u, tail m, n)
]

Mem-share : (ss ts : List String) (s : String) → Memᴰ s ss → Memᴰ s ts → share ss ts ≡ true
unfolding share
Mem-share [] ts s m n = elim m [ ]
Mem-share (u ∷ ss) ts s (head e) n = ground (arith, e, Mem-has_server s ts n)
Mem-share (u ∷ ss) ts s (tail m) n = ground (arith, Mem-share ss ts s m n)

pub taken-Shared :
    (srvs : List String) (m : Map ℕ (List String)) → taken srvs m ≡ true → Shared srvs m
unfolding taken
taken-Shared srvs [] h = cc
taken-Shared srvs ((g, xsrvs) ∷ m) h = elim (Bool-cases (share xsrvs srvs)) [
  | inl common ↦ let (s, x, y) = share-true xsrvs srvs common in (g, xsrvs, s, head refl, x, y)
  | inr apart ↦
      let (gid, others, s, x, y, z) = taken-Shared srvs m (ground (arith, h, apart)) in
      (gid, others, s, tail x, y, z)
]

Mem-taken :
    (srvs : List String) (m : Map ℕ (List String)) (gid : ℕ) (others : List String) (s : String)
    → Memᴰ (gid, others) m
    → Memᴰ s others
    → Memᴰ s srvs
    → taken srvs m ≡ true
unfolding taken
Mem-taken srvs [] gid others s x y z = elim x [ ]
Mem-taken srvs ((g, xsrvs) ∷ m) gid others s (head e) y z =
    let same : others ≡ xsrvs = ap (λ p. p.1) e in ground (arith, same, Mem-share others srvs s y z)
Mem-taken srvs ((g, xsrvs) ∷ m) gid others s (tail x) y z =
    ground (arith, Mem-taken srvs m gid others s x y z)

pub taken-apart :
    (srvs : List String) (m : Map ℕ (List String)) → taken srvs m ≡ false → ¬ (Shared srvs m)
taken-apart srvs m h (gid, others, s, x, y, z) =
    ground (arith, h, Mem-taken srvs m gid others s x y z)
