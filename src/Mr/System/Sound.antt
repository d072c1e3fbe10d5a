-- ===== src/Mr/System/Sound.antt =====
-- What holds of a whole job at all times, src/mr/coordinator.go and src/mr/worker.go.
use mathlib.Core.Path.{subst}
use mit.Base.{
  ℕ, ◌+◌, ◌<◌, ◌≡◌, ◌==◌, refl, ◌∙◌, ap, sym, inl, inr, Bool-cases, Option-cases, true, none, some,
  List, if◌then◌else◌, arith,
}
use mit.Mr.{is_finished, task_at}
use mit.Mr.Kept.{IsSound}
use mit.Mr.Worker.{KeyValue, map_file}
use mit.Mr.System.{
  Worker, resting, mapping, reporting_map, reading, renaming, cleaning, reporting_reduce, gone,
  System, has, with_worker, Job,
}
use mit.Mr.System.Files.{Right}

-- A reduce task is written, or the file for it from a map task is there.
abbrev pub Kept : System → ℕ → ℕ → Type 0
Kept s m r = (if has (s.outs r) then true else has (s.inter m r)) ≡ true

abbrev pub Written : System → ℕ → Type 0
Written s r = has (s.outs r) ≡ true

module _ (job : Job) (n_map n : ℕ) where
  -- The counts and the files are right, and each finished task has its files.
  pub record IsRight (s : System) : Type 0 where
    pub sound : IsSound s.coordinator
    pub maps : s.coordinator.n_map ≡ n_map
    pub reduces : s.coordinator.n_reduce ≡ n
    pub inter_right :
        (m r : ℕ) (f : List KeyValue)
        → s.inter m r ≡ some f
        → f ≡ map_file job.sort n r (job.pairs m)
    pub outs_right : (r : ℕ) (f : List KeyValue) → s.outs r ≡ some f → Right job n_map n r f
    pub mapped :
        (m : ℕ)
        → m < n_map
        → task_at s.coordinator.tasks is_finished m ≡ true
        → (r : ℕ) → r < n
        → Kept s m r
    pub reduced :
        (r : ℕ) → r < n → task_at s.coordinator.tasks is_finished (r + n_map) ≡ true → Written s r

  -- What a worker may rely on.
  abbrev pub Good : System → Worker → Type 0
  Good s resting = Unit
  Good s (mapping m i) = (m < n_map) × ((r : ℕ) → r < i → Kept s m r)
  Good s (reporting_map m) = (m < n_map) × ((r : ℕ) → r < n → Kept s m r)
  Good s (reading r) =
      (r < n) × ((m : ℕ) → m < n_map → task_at s.coordinator.tasks is_finished m ≡ true)
  Good s (renaming r lines) = (r < n) × (s.outs r ≡ none → Right job n_map n r lines)
  Good s (cleaning r) = (r < n) × Written s r
  Good s (reporting_reduce r) = (r < n) × Written s r
  Good s gone = Unit

-- Nothing that a worker relies on goes away.
pub record IsLater (s s' : System) : Type 0 where
  pub kept : (m r : ℕ) → Kept s m r → Kept s' m r
  pub written : (r : ℕ) → Written s r → Written s' r
  pub finished :
      (j : ℕ)
      → task_at s.coordinator.tasks is_finished j ≡ true
      → task_at s'.coordinator.tasks is_finished j ≡ true

pub same-IsLater : (s : System) → IsLater s s
same-IsLater s = record { kept = λ m r h. h; written = λ r h. h; finished = λ j h. h }

module _ (job : Job) (n_map n : ℕ) where
  pub later-Good :
      (s s' : System) (k : Worker) → IsLater s s' → Good job n_map n s k → Good job n_map n s' k
  later-Good s s' resting l g = tt
  later-Good s s' (mapping m i) l (lt, g) = (lt, λ r below. l.kept m r (g r below))
  later-Good s s' (reporting_map m) l (lt, g) = (lt, λ r below. l.kept m r (g r below))
  later-Good s s' (reading r) l (lt, g) = (lt, λ m below. l.finished m (g m below))
  later-Good s s' (renaming r lines) l (lt, g) = (
    lt,
    λ missing. elim (Option-cases (s.outs r)) [
      | inl before ↦ g before
      | inr (f, there) ↦
          let still : has (s'.outs r) ≡ true = l.written r (ap has there) in
          absurd (ground (arith, still, missing))
    ],
  )
  later-Good s s' (cleaning r) l (lt, g) = (lt, l.written r g)
  later-Good s s' (reporting_reduce r) l (lt, g) = (lt, l.written r g)
  later-Good s s' gone l g = tt

  -- A system is sound if it is right and each worker may rely on what it does.
  abbrev pub Sound : System → Type 0
  Sound s = IsRight job n_map n s × ((w : ℕ) → Good job n_map n s (s.workers w))

  -- Files or the coordinator have changed, and one worker has gone on.
  pub moved-Sound :
      (s s' : System) (w : ℕ) (k : Worker)
      → Sound s
      → s'.workers ≡ s.workers
      → IsLater s s'
      → IsRight job n_map n s'
      → Good job n_map n s' k
      → Sound (with_worker s' w k)
  moved-Sound s s' w k (right, good) same later right' mine = (
    record {
      sound = right'.sound;
      maps = right'.maps;
      reduces = right'.reduces;
      inter_right = right'.inter_right;
      outs_right = right'.outs_right;
      mapped = right'.mapped;
      reduced = right'.reduced;
    },
    λ v. elim (Bool-cases (w == v)) [
      | inl this ↦
          subst (Good job n_map n s') (sym (ap (λ b. if b then k else s'.workers v) this)) mine
      | inr other ↦
          subst (Good job n_map n s')
            (sym (ap (λ b. if b then k else s'.workers v) other ∙ ap (λ ws. ws v) same))
            (later-Good s s' (s.workers v) later (good v))
    ],
  )

  -- Only the worker goes on.
  pub alone-Sound :
      (s : System) (w : ℕ) (k : Worker) → Sound s → Good job n_map n s k → Sound (with_worker s w k)
  alone-Sound s w k sound mine = moved-Sound s s w k sound refl (same-IsLater s) sound.0 mine
