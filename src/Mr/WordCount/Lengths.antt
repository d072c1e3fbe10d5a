-- ===== src/Mr/WordCount/Lengths.antt =====
-- The numbers of the word count, src/mrapps/wc.go.
use mit.Base.{
  ℕ, zero, suc, ◌+◌, ◌≡◌, refl, ◌∙◌, ap, sym, inl, inr, Bool-cases, String, List, [], ◌∷◌, ◌++◌,
  length, length-append, if◌then◌else◌, arith,
}
use mit.Base.Assoc.{string_eq, beq_refl}
use mit.Mr.Worker.{KeyValue}
use mit.Mr.Shuffle.{values_of, values_of-append}
use mit.Mr.Reduce.{occurrences, line}
use mit.Mr.Sequential.{SameValues, concat}
use mit.Mr.System.Files.{inputs}
use mit.Mr.WordCount.{pairs_of, wc_reduce, total, counted}

-- A list without the first place of a value.
abbrev without : String → List String → List String
without v [] = []
without v (w ∷ ws) = if string_eq.beq w v then ws else w ∷ without v ws

length-without :
    (v : String) (ws : List String) (k : ℕ)
    → occurrences v ws ≡ suc k
    → length ws ≡ suc (length (without v ws))
unfolding occurrences
length-without v [] k h = absurd (omega (arith, h))
length-without v (w ∷ ws) k h = elim (Bool-cases (string_eq.beq w v)) [
  | inl this ↦ ground (arith, this)
  | inr other ↦
      let rest : occurrences v ws ≡ suc k = ground (arith, h, other) in
      ground (arith, other, length-without v ws k rest)
]

occurrences-without :
    (v u : String) (ws : List String) (k : ℕ)
    → occurrences v ws ≡ suc k
    → occurrences u ws ≡ (if string_eq.beq v u then 1 else 0) + occurrences u (without v ws)
unfolding occurrences
occurrences-without v u [] k h = absurd (omega (arith, h))
occurrences-without v u (w ∷ ws) k h = elim (Bool-cases (string_eq.beq w v)) [
  | inl this ↦
      let twin : string_eq.beq w u ≡ string_eq.beq v u =
        ap (λ x. string_eq.beq x u) ((string_eq.beq_iff w v).0 this) in
      ground (arith, this, twin)
  | inr other ↦
      let before : occurrences v ws ≡ suc k = ground (arith, h, other) in
      let rest = occurrences-without v u ws k before in ground (arith, other, rest)
]

-- Lists with the same values have the same length.
pub SameValues-length : (vs ws : List String) → SameValues vs ws → length vs ≡ length ws
unfolding occurrences
SameValues-length [] [] same = refl
SameValues-length [] (w ∷ ws) same =
    let e : 0 ≡ occurrences w (w ∷ ws) = same w in
    absurd (ground (arith, e, beq_refl {K = String} w))
SameValues-length (v ∷ vs) ws same =
    let there : suc (occurrences v vs) ≡ occurrences v ws =
      ground (arith, same v, beq_refl {K = String} v) in
    let fewer : SameValues vs (without v ws) =
      λ u. ground (arith, same u, occurrences-without v u ws (occurrences v vs) (sym there)) in
    let rest = SameValues-length vs (without v ws) fewer in
    omega (arith, rest, length-without v ws (occurrences v vs) (sym there))

length-values_of :
    (word : String) (ws : List String) → length (values_of word (pairs_of ws)) ≡ occurrences word ws
unfolding values_of occurrences
length-values_of word [] = refl
length-values_of word (w ∷ ws) = ground (arith, length-values_of word ws)

concat-snoc :
    (xs : List (List KeyValue)) (x : List KeyValue) → concat (xs ++ (x ∷ [])) ≡ concat xs ++ x
concat-snoc [] x = append-none x
  where
    append-none : (x : List KeyValue) → x ++ [] ≡ x
    append-none [] = refl
    append-none (y ∷ ys) = ap (λ r. y ∷ r) (append-none ys)
concat-snoc (y ∷ ys) x = ap (λ r. y ++ r) (concat-snoc ys x) ∙ sym (append-assoc y (concat ys) x)
  where
    append-assoc : (a b c : List KeyValue) → (a ++ b) ++ c ≡ a ++ (b ++ c)
    append-assoc [] b c = refl
    append-assoc (k ∷ a) b c = ap (λ r. k ∷ r) (append-assoc a b c)

pub length-inputs :
    (word : String) (texts : ℕ → List String) (m : ℕ)
    → length (values_of word (concat (inputs (λ i. pairs_of (texts i)) m))) ≡ total texts word m
unfolding values_of
length-inputs word texts zero = refl
length-inputs word texts (suc m) =
    let before = concat (inputs (λ i. pairs_of (texts i)) m) in
    ap (λ kvs. length (values_of word kvs))
      (concat-snoc (inputs (λ i. pairs_of (texts i)) m) (pairs_of (texts m)))
    ∙ ap length (values_of-append word before (pairs_of (texts m)))
    ∙ length-append (values_of word before) (values_of word (pairs_of (texts m)))
    ∙ omega (arith, length-inputs word texts m, length-values_of word (texts m))

pub line-counted :
    (itoa : ℕ → String) (word : String) (vs : List String)
    → line (wc_reduce itoa) word vs ≡ counted itoa (length vs)
unfolding wc_reduce
line-counted itoa word [] = refl
line-counted itoa word (v ∷ vs) = ground arith
