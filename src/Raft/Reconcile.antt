-- ===== src/Raft/Reconcile.antt =====
-- The loop of `AppendEntries` over entries that the log may already hold, against a recursion over
-- two lists that does not count.
use mathlib.Core.List.{append-nil, append_assoc}
use mit.Base.{
  ℕ, zero, suc, ◌+◌, ◌≤◌, ◌<◌, ◌≡◌, refl, sym, ap, ◌∙◌, some, List, [], ◌∷◌, ◌++◌, arith, length,
  length-append, take, ◌==◌, if◌then◌else◌,
}
use mit.Raft.State.{Raft, Entry, Gob, persist, get_log_term, term_at}
use mit.Raft.Append.{merge_entries}
use mit.Raft.Log.{get_log_term_lem, term_at-append_length, take-append_length}

module _ {C : Type 0} where
  -- New entries over the end of a log: what agrees stays, and the first entry whose term differs
  -- takes the rest of the log away. Without a difference what follows the new entries stays too.
  unfoldable pub overlay : List (Entry C) → List (Entry C) → List (Entry C)
  overlay xs [] = xs
  overlay [] (e ∷ es) = e ∷ es
  overlay (x ∷ xs) (e ∷ es) = if x.term == e.term then x ∷ overlay xs es else e ∷ es

  pub length-overlay : (xs es : List (Entry C)) → length es ≤ length (overlay xs es)
  unfolding overlay
  length-overlay xs [] = omega arith
  length-overlay [] (e ∷ es) = omega arith
  length-overlay (x ∷ xs) (e ∷ es) = ground (arith, length-overlay xs es)

  -- After the overlay each new entry's term stands at its place.
  pub term_at-overlay :
      (xs es : List (Entry C)) (i : ℕ) → i < length es → term_at (overlay xs es) i ≡ term_at es i
  unfolding overlay
  term_at-overlay xs [] i h = elim h [ ]
  term_at-overlay [] (e ∷ es) i h = refl
  term_at-overlay (x ∷ xs) (e ∷ es) zero h = ground arith
  term_at-overlay (x ∷ xs) (e ∷ es) (suc i) h = ground (arith, term_at-overlay xs es i)

  overlay_self : (es : List (Entry C)) → overlay es es ≡ es
  unfolding overlay
  overlay_self [] = refl
  overlay_self (e ∷ es) = ground (arith, overlay_self es)

  -- Sending the same entries again changes nothing.
  pub overlay_twice : (xs es : List (Entry C)) → overlay (overlay xs es) es ≡ overlay xs es
  unfolding overlay
  overlay_twice xs [] = refl
  overlay_twice [] (e ∷ es) = overlay_self (e ∷ es)
  overlay_twice (x ∷ xs) (e ∷ es) = ground (arith, overlay_twice xs es, overlay_self es)

module _ {C : Type 0} (gob : Gob C) where
  merge_step :
      (rf : Raft C) (pre : List (Entry C)) (x : Entry C) (xs : List (Entry C))
      → rf.logs ≡ pre ++ x ∷ xs
      → get_log_term rf (rf.last_included_index + length pre) ≡ some x.term
  merge_step rf pre x xs e = ground (
    arith,
    e,
    get_log_term_lem rf (rf.last_included_index + length pre),
    term_at-append_length pre x xs,
  )

  pub logs-merge_entries :
      (rf : Raft C) (i : ℕ) (pre suf es : List (Entry C))
      → rf.logs ≡ pre ++ suf
      → i ≡ rf.last_included_index + length pre
      → 0 < length pre
      → (merge_entries gob rf i es).logs ≡ pre ++ overlay suf es
  unfolding merge_entries persist overlay
  logs-merge_entries rf i pre suf [] e k h = e
  logs-merge_entries rf i pre [] (y ∷ es) e k h = ground (arith, append-nil pre, ap length e)
  logs-merge_entries rf i pre (x ∷ xs) (y ∷ es) e k h = ground (
    arith,
    merge_step rf pre x xs e,
    ap length e,
    length-append pre (x ∷ xs),
    ap (take (length pre)) e ∙ take-append_length pre (x ∷ xs),
    logs-merge_entries rf (i + 1) (pre ++ x ∷ []) xs es (e ∙ sym (append_assoc pre (x ∷ []) xs))
        (omega (arith, length-append pre (x ∷ []))) (omega (arith, length-append pre (x ∷ []))),
    append_assoc pre (x ∷ []) (overlay xs es),
  )
