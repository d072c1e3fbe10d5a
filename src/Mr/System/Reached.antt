-- ===== src/Mr/System/Reached.antt =====
-- Every event of a whole job, src/mr/coordinator.go and src/mr/worker.go.
use mathlib.Core.Path.{subst}
use mit.Base.{
  ℕ, ◌+◌, ◌≡◌, ◌==◌, ==_iff, ltb, refl, sym, inl, inr, Bool-cases, Bool, true, false, ◌&&◌, Option,
  none, some, List, [], ◌∷◌, if◌then◌else◌, arith,
}
use mit.Mr.Worker.{KeyValue, map_file}
use mit.Mr.System.{
  Worker, resting, mapping, reporting_map, reading, renaming, cleaning, reporting_reduce, gone,
  System, Event, go, lose, die, remove, kept_or, with_worker, with_inter, after_loss, removed, Job,
  advance, step, run,
}
use mit.Mr.System.Files.{IsFair}
use mit.Mr.System.Sound.{Good, Sound, alone-Sound}
use mit.Mr.System.Steps.{Goes, beat-Sound, report_map-Goes, report_reduce-Goes}
use mit.Mr.System.Moves.{mapping-Sound, reading-Sound, renaming-Sound, less-Sound}

module _ (job : Job) (n_map n : ℕ) where
  if-Goes :
      (b : Bool) (x y : System)
      → (b ≡ true → Sound job n_map n x)
      → (b ≡ false → Sound job n_map n y)
      → Goes job n_map n (if b then some x else some y)
  if-Goes true x y yes_so no_so = yes_so refl
  if-Goes false x y yes_so no_so = no_so refl

  advance-Goes :
      (s : System) (w now : ℕ) (k : Worker)
      → IsFair job n_map
      → Sound job n_map n s
      → Good job n_map n s k
      → Goes job n_map n (advance job s w now k)
  unfolding advance
  advance-Goes s w now resting fair sound good = beat-Sound job n_map n s w now sound
  advance-Goes s w now (mapping m i) fair sound good =
      let next = mapping m (i + 1) in
      let file : ℕ → List KeyValue = λ k. map_file job.sort k i (job.pairs m) in
      if-Goes (ltb i s.coordinator.n_reduce)
        (with_worker (with_inter s m i (kept_or (s.inter m i) (file s.coordinator.n_reduce))) w
          next)
        (with_worker s w (reporting_map m))
        (λ more.
          subst
            (λ k.
              Sound job n_map n
                (with_worker (with_inter s m i (kept_or (s.inter m i) (file k))) w next))
            (sym sound.0.reduces) (mapping-Sound job n_map n s w m i sound good))
        (λ over.
          alone-Sound job n_map n s w (reporting_map m) sound
            (good.0, λ r below. good.1 r (ground (arith, over, below, sound.0.reduces))))
  advance-Goes s w now (reporting_map m) fair sound good =
      report_map-Goes job n_map n s w m sound good
  advance-Goes s w now (reading r) fair sound good = reading-Sound job n_map n s w r fair sound good
  advance-Goes s w now (renaming r lines) fair sound good =
      renaming-Sound job n_map n s w r lines sound good
  advance-Goes s w now (cleaning r) fair sound good =
      let inter : ℕ → ℕ → Option (List KeyValue) = λ m r'. if r == r' then none else s.inter m r' in
      let less = less-Sound job n_map n s r inter sound good.1 (λ m r'.
        elim (Bool-cases (r == r')) [
          | inl this ↦ inr (sym ((==_iff r r').0 this), ground (arith, this))
          | inr other ↦ inl (ground (arith, other))
        ]) in
      alone-Sound job n_map n (record s { inter = inter }) w (reporting_reduce r) less good
  advance-Goes s w now (reporting_reduce r) fair sound good =
      report_reduce-Goes job n_map n s w r sound good
  advance-Goes s w now gone fair sound good = sound

  after_loss-Good :
      (s : System) (k : Worker) → Good job n_map n s k → Good job n_map n s (after_loss job k)
  after_loss-Good s resting good = tt
  after_loss-Good s (mapping m i) good = good
  after_loss-Good s (reporting_map m) good = tt
  after_loss-Good s (reading r) good = good
  after_loss-Good s (renaming r lines) good = good
  after_loss-Good s (cleaning r) good = good
  after_loss-Good s (reporting_reduce r) good = tt
  after_loss-Good s gone good = tt

  removed-Sound :
      (s : System) (m : ℕ) (k : Worker)
      → Sound job n_map n s
      → Good job n_map n s k
      → Sound job n_map n (removed job s m k)
  removed-Sound s m (cleaning r) sound good =
      less-Sound job n_map n s r (λ m' r'. if m == m' && r == r' then none else s.inter m' r') sound
        good.1
        (λ m' r'. elim (Bool-cases (m == m' && r == r')) [
          | inl this ↦ inr (sym ((==_iff r r').0 (ground (arith, this))), ground (arith, this))
          | inr other ↦ inl (ground (arith, other))
        ])
  removed-Sound s m resting sound good = sound
  removed-Sound s m (mapping i j) sound good = sound
  removed-Sound s m (reporting_map i) sound good = sound
  removed-Sound s m (reading r) sound good = sound
  removed-Sound s m (renaming r lines) sound good = sound
  removed-Sound s m (reporting_reduce r) sound good = sound
  removed-Sound s m gone sound good = sound

  -- No event makes the coordinator panic, and each keeps a system sound.
  pub step-Goes :
      (s : System) (e : Event)
      → IsFair job n_map
      → Sound job n_map n s
      → Goes job n_map n (step job s e)
  unfolding step
  step-Goes s (go w now) fair sound = advance-Goes s w now (s.workers w) fair sound (sound.1 w)
  step-Goes s (lose w) fair sound =
      alone-Sound job n_map n s w (after_loss job (s.workers w)) sound
        (after_loss-Good s (s.workers w) (sound.1 w))
  step-Goes s (die w) fair sound = alone-Sound job n_map n s w gone sound tt
  step-Goes s (remove w m) fair sound = removed-Sound s m (s.workers w) sound (sound.1 w)

  go_on-Sound :
      (s : System) (es : List Event) (o : Option System)
      → Goes job n_map n o
      → ((s' : System) → Sound job n_map n s' → Sound job n_map n (run job s' es))
      → Sound job n_map n (elim o [ none ↦ s | some s' ↦ run job s' es ])
  go_on-Sound s es none goes rest = absurd goes
  go_on-Sound s es (some s') goes rest = rest s' goes

  pub run-Sound :
      (s : System) (es : List Event)
      → IsFair job n_map
      → Sound job n_map n s
      → Sound job n_map n (run job s es)
  unfolding run
  run-Sound s [] fair sound = sound
  run-Sound s (e ∷ es) fair sound =
      go_on-Sound s es (step job s e) (step-Goes s e fair sound)
        (λ s' sound'. run-Sound s' es fair sound')
