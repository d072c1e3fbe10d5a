-- ===== src/Labrpc/Once.antt =====
-- At most one execution of each call, lec-2025/src/labrpc/labrpc.go.
use mathlib.Core.Path.{subst}
use mit.Base.{
  ℕ, ◌≤◌, ◌≡◌, refl, Bool, true, false, Option, none, some, List, [], ◌∷◌, if◌then◌else◌, arith,
}
use mit.Base.Assoc.{lookup, nat_eq}
use mit.Raft.State.{Bytes}
use mit.Labrpc.{
  Work, Phase, unused, sent, timing_out, waiting, received, gave_up, delayed, replied, Handler,
  idle, started, finished, Fate, System, Event, send, accept, handle, receive, tick, finish,
  deliver, make_end, delete_end, add_server, delete_server, connect, enable, set_reliable,
  set_long_reordering, with_phase, with_handler, work_of, accepted, accept_in, receive_in, tick_in,
  finish_in, deliver_in, send_in, handle_in, after_reply, drops, is_server_dead, step, run, quiet,
}
use mit.Labrpc.History.{
  times, Handled, Phased, Sound, with_phase-Sound, with_both-Sound, ran-Sound, Phased-if,
  after_reply-Phased,
}

module _ {S : Type 0} where
  -- What `Sound` says of one call.
  phased : (s : System S) (c : ℕ) (p : Phase) → Sound s → s.phases c ≡ p → Phased p (s.handlers c)
  phased s c p sound at = subst (λ q. Phased q (s.handlers c)) at (sound c).0

  Sound-if : (b : Bool) (x y : System S) → Sound x → Sound y → Sound (if b then x else y)
  Sound-if true x y hx hy = hx
  Sound-if false x y hx hy = hy

  send_in-Sound :
      (s : System S) (c endname : ℕ) (req : Bytes) (p : Phase)
      → Sound s
      → s.phases c ≡ p
      → Sound (send_in s c endname req p)
  send_in-Sound s c endname req unused sound at =
      with_phase-Sound s c (sent endname req) sound (phased s c unused sound at)
  send_in-Sound s c endname req (sent e q) sound at = sound
  send_in-Sound s c endname req timing_out sound at = sound
  send_in-Sound s c endname req (waiting w) sound at = sound
  send_in-Sound s c endname req (received w r) sound at = sound
  send_in-Sound s c endname req gave_up sound at = sound
  send_in-Sound s c endname req (delayed r) sound at = sound
  send_in-Sound s c endname req (replied r) sound at = sound

  accepted-Sound :
      (s : System S) (c : ℕ) (req : Bytes) (f : Fate) (w : Option Work)
      → Sound s
      → s.handlers c ≡ idle
      → Sound (accepted s c req f w)
  accepted-Sound s c req f none sound at = with_phase-Sound s c timing_out sound tt
  accepted-Sound s c req f (some w) sound at =
      let never : times c s.executed ≡ 0 =
        subst (λ h. Handled h (times c s.executed) (lookup c s.executed)) at (sound c).1 in
      Sound-if (drops w.reliable f) (with_phase s c (replied none))
        (with_handler (with_phase s c (waiting w)) c (started w.server req))
        (with_phase-Sound s c (replied none) sound tt)
        (with_both-Sound s c (waiting w) (started w.server req) sound tt never)

  accept_in-Sound :
      (s : System S) (c : ℕ) (f : Fate) (p : Phase)
      → Sound s
      → s.phases c ≡ p
      → Sound (accept_in s c f p)
  accept_in-Sound s c f unused sound at = sound
  accept_in-Sound s c f (sent e q) sound at =
      accepted-Sound s c q f (work_of s.net e) sound (phased s c (sent e q) sound at)
  accept_in-Sound s c f timing_out sound at = sound
  accept_in-Sound s c f (waiting w) sound at = sound
  accept_in-Sound s c f (received w r) sound at = sound
  accept_in-Sound s c f gave_up sound at = sound
  accept_in-Sound s c f (delayed r) sound at = sound
  accept_in-Sound s c f (replied r) sound at = sound

  receive_in-Sound :
      (s : System S) (c : ℕ) (p : Phase) (h : Handler)
      → Sound s
      → s.handlers c ≡ h
      → Sound (receive_in s c p h)
  receive_in-Sound s c (waiting w) idle sound at = sound
  receive_in-Sound s c (waiting w) (started e q) sound at = sound
  receive_in-Sound s c (waiting w) (finished r) sound at =
      with_phase-Sound s c (received w r) sound at
  receive_in-Sound s c unused h sound at = sound
  receive_in-Sound s c (sent e q) h sound at = sound
  receive_in-Sound s c timing_out h sound at = sound
  receive_in-Sound s c (received w r) h sound at = sound
  receive_in-Sound s c gave_up h sound at = sound
  receive_in-Sound s c (delayed r) h sound at = sound
  receive_in-Sound s c (replied r) h sound at = sound

  tick_in-Sound : (s : System S) (c : ℕ) (p : Phase) → Sound s → Sound (tick_in s c p)
  tick_in-Sound s c (waiting w) sound =
      Sound-if (is_server_dead s.net w) (with_phase s c gave_up) s
        (with_phase-Sound s c gave_up sound tt) sound
  tick_in-Sound s c unused sound = sound
  tick_in-Sound s c (sent e q) sound = sound
  tick_in-Sound s c timing_out sound = sound
  tick_in-Sound s c (received w r) sound = sound
  tick_in-Sound s c gave_up sound = sound
  tick_in-Sound s c (delayed r) sound = sound
  tick_in-Sound s c (replied r) sound = sound

  finish_in-Sound :
      (s : System S) (c : ℕ) (f : Fate) (p : Phase)
      → Sound s
      → s.phases c ≡ p
      → Sound (finish_in s c f p)
  finish_in-Sound s c f (received w r) sound at =
      with_phase-Sound s c (if is_server_dead s.net w then replied none else after_reply w r f)
        sound
        (Phased-if (is_server_dead s.net w) (replied none) (after_reply w r f) (s.handlers c) tt
          (after_reply-Phased w r f (s.handlers c) (phased s c (received w r) sound at)))
  finish_in-Sound s c f gave_up sound at = with_phase-Sound s c (replied none) sound tt
  finish_in-Sound s c f unused sound at = sound
  finish_in-Sound s c f (sent e q) sound at = sound
  finish_in-Sound s c f timing_out sound at = sound
  finish_in-Sound s c f (waiting w) sound at = sound
  finish_in-Sound s c f (delayed r) sound at = sound
  finish_in-Sound s c f (replied r) sound at = sound

  deliver_in-Sound :
      (s : System S) (c : ℕ) (p : Phase) → Sound s → s.phases c ≡ p → Sound (deliver_in s c p)
  deliver_in-Sound s c timing_out sound at = with_phase-Sound s c (replied none) sound tt
  deliver_in-Sound s c (delayed r) sound at =
      with_phase-Sound s c (replied (some r)) sound (phased s c (delayed r) sound at)
  deliver_in-Sound s c unused sound at = sound
  deliver_in-Sound s c (sent e q) sound at = sound
  deliver_in-Sound s c (waiting w) sound at = sound
  deliver_in-Sound s c (received w r) sound at = sound
  deliver_in-Sound s c gave_up sound at = sound
  deliver_in-Sound s c (replied r) sound at = sound

  end-Sound :
      (s x y : System S) (o : Option Bool)
      → Sound x
      → Sound y
      → Sound (elim o [ none ↦ x | some b ↦ y ])
  end-Sound s x y none hx hy = hx
  end-Sound s x y (some b) hx hy = hy

  module _ (dispatch : ℕ → Bytes → S → S × Bytes) where
    handle_in-Sound :
        (s : System S) (c : ℕ) (h : Handler)
        → Sound s
        → s.handlers c ≡ h
        → Sound (handle_in dispatch s c h)
    handle_in-Sound s c idle sound at = sound
    handle_in-Sound s c (finished r) sound at = sound
    handle_in-Sound s c (started server req) sound at =
        ran-Sound s c server req (dispatch server req s.state).1 (dispatch server req s.state).0
          sound at

    step-Sound : (s : System S) (e : Event) → Sound s → Sound (step dispatch s e)
    unfolding step
    step-Sound s (send c e req) sound = send_in-Sound s c e req (s.phases c) sound refl
    step-Sound s (accept c f) sound = accept_in-Sound s c f (s.phases c) sound refl
    step-Sound s (handle c) sound = handle_in-Sound s c (s.handlers c) sound refl
    step-Sound s (receive c) sound = receive_in-Sound s c (s.phases c) (s.handlers c) sound refl
    step-Sound s (tick c) sound = tick_in-Sound s c (s.phases c) sound
    step-Sound s (finish c f) sound = finish_in-Sound s c f (s.phases c) sound refl
    step-Sound s (deliver c) sound = deliver_in-Sound s c (s.phases c) sound refl
    step-Sound s (make_end e) sound = end-Sound s _ s (lookup e s.net.ends) sound sound
    step-Sound s (delete_end e) sound = end-Sound s s _ (lookup e s.net.ends) sound sound
    step-Sound s (add_server sn p) sound = sound
    step-Sound s (delete_server sn) sound = sound
    step-Sound s (connect e sn) sound = sound
    step-Sound s (enable e b) sound = sound
    step-Sound s (set_reliable b) sound = sound
    step-Sound s (set_long_reordering b) sound = sound

    run-Sound : (s : System S) (es : List Event) → Sound s → Sound (run dispatch s es)
    unfolding run
    run-Sound s [] sound = sound
    run-Sound s (e ∷ es) sound = run-Sound (step dispatch s e) es (step-Sound s e sound)

-- What the answer to a call says of the history.
abbrev pub Answers : Phase → ℕ → Option Bytes → Type 0
Answers (replied (some reply)) k o = (k ≡ 1) × (o ≡ some reply)
Answers p k o = Unit

Handled-le : (h : Handler) (k : ℕ) (o : Option Bytes) → Handled h k o → k ≤ 1
Handled-le idle k o h = omega (arith, h)
Handled-le (started server req) k o h = omega (arith, h)
Handled-le (finished r) k o h = omega (arith, h.0)

Answers-lem :
    (p : Phase) (h : Handler) (k : ℕ) (o : Option Bytes)
    → Phased p h
    → Handled h k o
    → Answers p k o
Answers-lem (replied (some r)) h k o phased handled = subst (λ x. Handled x k o) phased handled
Answers-lem (replied none) h k o phased handled = tt
Answers-lem unused h k o phased handled = tt
Answers-lem (sent e q) h k o phased handled = tt
Answers-lem timing_out h k o phased handled = tt
Answers-lem (waiting w) h k o phased handled = tt
Answers-lem (received w r) h k o phased handled = tt
Answers-lem gave_up h k o phased handled = tt
Answers-lem (delayed r) h k o phased handled = tt

-- On a new network, whatever is connected, enabled, deleted, lost and delayed, and however the steps of
-- the calls mix: the handler of each call runs at most once, and a call that is answered with true
-- has run exactly once and is answered with the reply of its handler.
pub run-Answers :
    {S : Type 0} (dispatch : ℕ → Bytes → S → S × Bytes) (state : S) (es : List Event) (c : ℕ)
    → let s = run dispatch (quiet state) es in
      (times c s.executed ≤ 1) × Answers (s.phases c) (times c s.executed) (lookup c s.executed)
run-Answers dispatch state es c =
    let s = run dispatch (quiet state) es in
    let (phased, handled) = run-Sound dispatch (quiet state) es (λ d. (refl, refl)) c in
    (
      Handled-le (s.handlers c) (times c s.executed) (lookup c s.executed) handled,
      Answers-lem (s.phases c) (s.handlers c) (times c s.executed) (lookup c s.executed) phased
          handled,
    )
