-- ===== src/Raft/Log.antt =====
-- Laws of the log of a peer: its terms under append, take and drop.
use mit.Base.{
  ℕ, zero, suc, ◌+◌, ◌-◌, ◌≤◌, ◌<◌, ◌≡◌, refl, ap, none, some, List, [], ◌∷◌, ◌++◌, arith, length,
  take, drop, ltb, if◌then◌else◌,
}
use native.Mathlib.Nat.{zero-add, suc-add}
use mit.Raft.State.{Raft, Entry, term_at, get_log_term}

module _ {C : Type 0} where
  pub term_at-drop :
      (n : ℕ) (es : List (Entry C)) (i : ℕ) → term_at (drop n es) i ≡ term_at es (n + i)
  term_at-drop zero es i = rw zero-add
  term_at-drop (suc n) [] i = refl
  term_at-drop (suc n) (e ∷ es) i = rw suc-add (term_at-drop n es i)

  pub term_at-take :
      (n : ℕ) (es : List (Entry C)) (i : ℕ) → i < n → term_at (take n es) i ≡ term_at es i
  term_at-take zero es i h = elim h [ ]
  term_at-take (suc n) [] i h = refl
  term_at-take (suc n) (e ∷ es) zero h = refl
  term_at-take (suc n) (e ∷ es) (suc i) h = term_at-take n es i (omega arith)

  pub term_at-append :
      (xs ys : List (Entry C)) (i : ℕ) → i < length xs → term_at (xs ++ ys) i ≡ term_at xs i
  term_at-append [] ys i h = elim h [ ]
  term_at-append (x ∷ xs) ys zero h = refl
  term_at-append (x ∷ xs) ys (suc i) h = term_at-append xs ys i (omega arith)

  pub term_at-some_lt :
      (es : List (Entry C)) (i : ℕ) {t : ℕ} → term_at es i ≡ some t → i < length es
  term_at-some_lt [] i h = cc
  term_at-some_lt (e ∷ es) zero h = omega arith
  term_at-some_lt (e ∷ es) (suc i) h = omega (arith, term_at-some_lt es i h)

  pub term_at-none : (es : List (Entry C)) (i : ℕ) → length es ≤ i → term_at es i ≡ none
  term_at-none [] i h = refl
  term_at-none (e ∷ es) zero h = absurd (omega arith)
  term_at-none (e ∷ es) (suc i) h = term_at-none es i (omega arith)

  -- The three branches of `getLogTerm` are one bounds test and one access.
  pub get_log_term_lem :
      (rf : Raft C) (i : ℕ)
      → get_log_term rf i ≡ (
          if ltb i rf.last_included_index
          then none
          else term_at rf.logs (i - rf.last_included_index))
  unfolding get_log_term
  get_log_term_lem rf i = ground (arith, term_at-none rf.logs (i - rf.last_included_index))

  -- A term that is found stands at an index of the log.
  pub get_log_term-some :
      (rf : Raft C) (i : ℕ) {t : ℕ}
      → get_log_term rf i ≡ some t
      → (rf.last_included_index ≤ i)
        × (i < rf.last_included_index + length rf.logs)
        × (term_at rf.logs (i - rf.last_included_index) ≡ some t)
  get_log_term-some rf i {t} h =
      ground
        (arith, get_log_term_lem rf i, term_at-some_lt rf.logs (i - rf.last_included_index) {t = t})

  pub term_at-append_length :
      (xs : List (Entry C)) (y : Entry C) (ys : List (Entry C))
      → term_at (xs ++ y ∷ ys) (length xs) ≡ some y.term
  term_at-append_length [] y ys = refl
  term_at-append_length (x ∷ xs) y ys = term_at-append_length xs y ys

  pub take-append_length : (xs ys : List (Entry C)) → take (length xs) (xs ++ ys) ≡ xs
  take-append_length [] ys = refl
  take-append_length (x ∷ xs) ys = ap (◌∷◌ x) (take-append_length xs ys)

  pub term_at-append_right :
      (xs ys : List (Entry C)) (i : ℕ) → term_at (xs ++ ys) (length xs + i) ≡ term_at ys i
  term_at-append_right [] ys i = rw zero-add
  term_at-append_right (x ∷ xs) ys i = rw suc-add (term_at-append_right xs ys i)
