-- ===== src/Mr/System/Moves.antt =====
-- What the steps of a worker on the files keep, src/mr/worker.go.
use mathlib.Core.Path.{subst}
use mit.Base.{
  ℕ, ◌+◌, ◌<◌, ◌≡◌, ◌==◌, ==_iff, refl, ◌∙◌, ap, sym, inl, inr, Bool-cases, Option-cases, true,
  ◌&&◌, ◌⊎◌, Option, none, some, List, arith,
}
use mit.Mr.Worker.{KeyValue, map_file, reduce_file}
use mit.Mr.System.{
  mapping, reading, renaming, cleaning, System, has, kept_or, with_worker, with_inter, with_out,
  Job, files_of,
}
use mit.Mr.System.Files.{IsFair, Right, reduce_file-Right}
use mit.Mr.System.Sound.{Kept, Written, Good, IsLater, Sound, moved-Sound, later-Good, alone-Sound}

module _ (job : Job) (n_map n : ℕ) where
  -- Renaming the file of a map task.
  pub mapping-Sound :
      (s : System) (w m i : ℕ)
      → Sound job n_map n s
      → Good job n_map n s (mapping m i)
      → Sound job n_map n (
          with_worker
            (with_inter s m i (kept_or (s.inter m i) (map_file job.sort n i (job.pairs m))))
            w
            (mapping m (i + 1)))
  mapping-Sound s w m i sound (lt, good) =
      let right = sound.0 in
      let file = map_file job.sort n i (job.pairs m) in
      let s' = with_inter s m i (kept_or (s.inter m i) file) in
      let there : has (kept_or (s.inter m i) file) ≡ true = elim (Option-cases (s.inter m i)) [
        | inl empty ↦ ground (arith, empty)
        | inr (old, found) ↦ ground (arith, found)
      ] in
      let kept : (m' r : ℕ) → Kept s m' r → Kept s' m' r = λ m' r k. ground (arith, k, there) in
      let good_file : (f : List KeyValue) → kept_or (s.inter m i) file ≡ some f → f ≡ file = λ f e.
        elim (Option-cases (s.inter m i)) [
          | inl empty ↦ ground (arith, empty, e)
          | inr (old, found) ↦ ground (arith, found, e, right.inter_right m i old found)
        ] in
      moved-Sound job n_map n s s' w (mapping m (i + 1)) sound refl
        (record { kept = kept; written = λ r h. h; finished = λ j h. h })
        (record {
          sound = right.sound;
          maps = right.maps;
          reduces = right.reduces;
          inter_right = λ m' r f e. elim (Bool-cases (m == m' && i == r)) [
            | inl this ↦
                let file' : kept_or (s.inter m i) file ≡ some f = ground (arith, this, e) in
                let same_m : m ≡ m' = (==_iff m m').0 (ground (arith, this)) in
                let same_r : i ≡ r = (==_iff i r).0 (ground (arith, this)) in
                good_file f file'
                ∙ ap (λ x. map_file job.sort n i (job.pairs x)) same_m
                ∙ ap (λ x. map_file job.sort n x (job.pairs m')) same_r
            | inr other ↦ right.inter_right m' r f (ground (arith, other, e))
          ];
          outs_right = right.outs_right;
          mapped = λ m' below f r lt'. kept m' r (right.mapped m' below f r lt');
          reduced = right.reduced;
        })
        (
          lt,
          λ r below. elim (Bool-cases (i == r)) [
            | inl this ↦ ground (arith, this, there)
            | inr other ↦ kept m r (good r (ground (arith, below, other)))
          ],
        )

  -- Reading the files of a reduce task: they are all there as long as it is not written.
  pub reading-Sound :
      (s : System) (w r : ℕ)
      → IsFair job n_map
      → Sound job n_map n s
      → Good job n_map n s (reading r)
      → Sound job n_map n (
          with_worker s w (
            renaming r (
              reduce_file job.sort_strings job.reducef
                (job.listing (files_of s.inter r s.coordinator.n_map)))))
  reading-Sound s w r fair sound (lt, mapped) =
      let right = sound.0 in
      let lines : ℕ → List KeyValue =
        λ k. reduce_file job.sort_strings job.reducef (job.listing (files_of s.inter r k)) in
      let all : s.outs r ≡ none
          → (m : ℕ) → m < n_map
          → s.inter m r ≡ some (map_file job.sort n r (job.pairs m)) =
        λ missing m below.
          let kept : Kept s m r = right.mapped m below (mapped m below) r lt in
          elim (Option-cases (s.inter m r)) [
            | inl empty ↦ absurd (ground (arith, kept, missing, empty))
            | inr (f, found) ↦ found ∙ ap some (right.inter_right m r f found)
          ] in
      alone-Sound job n_map n s w (renaming r (lines s.coordinator.n_map)) sound (
        lt,
        λ missing.
            subst (λ k. Right job n_map n r (lines k)) (sym right.maps)
              (reduce_file-Right job s.inter n r n_map fair (all missing)),
      )

  -- Renaming the file of a reduce task.
  pub renaming-Sound :
      (s : System) (w r : ℕ) (lines : List KeyValue)
      → Sound job n_map n s
      → Good job n_map n s (renaming r lines)
      → Sound job n_map n (with_worker (with_out s r (kept_or (s.outs r) lines)) w (cleaning r))
  renaming-Sound s w r lines sound (lt, good) =
      let right = sound.0 in
      let file = kept_or (s.outs r) lines in
      let s' = with_out s r file in
      let there : has file ≡ true = elim (Option-cases (s.outs r)) [
        | inl empty ↦ ground (arith, empty)
        | inr (old, found) ↦ ground (arith, found)
      ] in
      let good_file : (f : List KeyValue) → file ≡ some f → Right job n_map n r f = λ f e.
        elim (Option-cases (s.outs r)) [
          | inl empty ↦ subst (Right job n_map n r) (ground (arith, empty, e)) (good empty)
          | inr (old, found) ↦ right.outs_right r f (ground (arith, found, e))
        ] in
      let written : (r' : ℕ) → Written s r' → Written s' r' = λ r' h. ground (arith, h, there) in
      let kept : (m r' : ℕ) → Kept s m r' → Kept s' m r' = λ m r' k. ground (arith, k, there) in
      moved-Sound job n_map n s s' w (cleaning r) sound refl
        (record { kept = kept; written = written; finished = λ j h. h })
        (record {
          sound = right.sound;
          maps = right.maps;
          reduces = right.reduces;
          inter_right = right.inter_right;
          outs_right = λ r' f e. elim (Bool-cases (r == r')) [
            | inl this ↦
                subst (λ x. Right job n_map n x f) ((==_iff r r').0 this)
                  (good_file f (ground (arith, this, e)))
            | inr other ↦ right.outs_right r' f (ground (arith, other, e))
          ];
          mapped = λ m below f r' lt'. kept m r' (right.mapped m below f r' lt');
          reduced = λ r' below f. written r' (right.reduced r' below f);
        })
        (lt, ground (arith, there))

  -- Files of a reduce task go when it is written.
  pub less-Sound :
      (s : System) (r : ℕ) (inter : ℕ → ℕ → Option (List KeyValue))
      → Sound job n_map n s
      → Written s r
      → ((m r' : ℕ) → (inter m r' ≡ s.inter m r') ⊎ ((r' ≡ r) × (inter m r' ≡ none)))
      → Sound job n_map n (record s { inter = inter })
  less-Sound s r inter sound written less =
      let right = sound.0 in
      let s' = record s { inter = inter } in
      let kept : (m r' : ℕ) → Kept s m r' → Kept s' m r' = λ m r' h. elim (less m r') [
        | inl same ↦ ground (arith, same, h)
        | inr (this, empty) ↦
            let there : has (s.outs r') ≡ true = ap (λ x. has (s.outs x)) this ∙ written in
            ground (arith, there)
      ] in
      let later : IsLater s s' = record { kept = kept; written = λ r' h. h; finished = λ j h. h } in
      (
        record {
          sound = right.sound;
          maps = right.maps;
          reduces = right.reduces;
          inter_right = λ m r' f e. elim (less m r') [
            | inl same ↦ right.inter_right m r' f (sym same ∙ e)
            | inr (this, empty) ↦ absurd (ground (arith, empty, e))
          ];
          outs_right = right.outs_right;
          mapped = λ m below f r' lt'. kept m r' (right.mapped m below f r' lt');
          reduced = right.reduced;
        },
        λ w. later-Good job n_map n s s' (s.workers w) later (sound.1 w),
      )
