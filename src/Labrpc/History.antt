-- ===== src/Labrpc/History.antt =====
-- What the history has of each call, lec-2025/src/labrpc/labrpc.go.
use mathlib.Core.Path.{subst}
use mit.Base.{
  ℕ, suc, ◌==◌, ==_iff, ◌≡◌, ◌∙◌, ap, sym, inl, inr, Bool, Bool-cases, true, false, Option, none,
  some, [], ◌∷◌, if◌then◌else◌, arith,
}
use mit.Base.Assoc.{Map, lookup, nat_eq}
use mit.Raft.State.{Bytes}
use mit.Labrpc.{
  Work, Phase, unused, sent, timing_out, waiting, received, gave_up, delayed, replied, Handler,
  idle, started, finished, Fate, passes, dropped, slow, System, with_phase, with_handler,
  after_reply,
}

-- How often a call has been executed.
abbrev pub times : ℕ → Map ℕ Bytes → ℕ
times c [] = 0
times c ((d, reply) ∷ m) = let rest = times c m in if d == c then suc rest else rest

-- What the history has of a call, by its handler.
abbrev pub Handled : Handler → ℕ → Option Bytes → Type 0
Handled idle k o = k ≡ 0
Handled (started server req) k o = k ≡ 0
Handled (finished reply) k o = (k ≡ 1) × (o ≡ some reply)

-- What a phase says of the handler.
abbrev pub Phased : Phase → Handler → Type 0
Phased unused h = h ≡ idle
Phased (sent endname req) h = h ≡ idle
Phased timing_out h = Unit
Phased (waiting w) h = Unit
Phased (received w reply) h = h ≡ finished reply
Phased gave_up h = Unit
Phased (delayed reply) h = h ≡ finished reply
Phased (replied none) h = Unit
Phased (replied (some reply)) h = h ≡ finished reply

Phased-ran :
    (p : Phase) (server : ℕ) (req reply : Bytes)
    → Phased p (started server req)
    → Phased p (finished reply)
Phased-ran unused server req reply h = cc
Phased-ran (sent endname q) server req reply h = cc
Phased-ran timing_out server req reply h = tt
Phased-ran (waiting w) server req reply h = tt
Phased-ran (received w r) server req reply h = cc
Phased-ran gave_up server req reply h = tt
Phased-ran (delayed r) server req reply h = cc
Phased-ran (replied none) server req reply h = tt
Phased-ran (replied (some r)) server req reply h = cc

pub Phased-if :
    (b : Bool) (p q : Phase) (h : Handler) → Phased p h → Phased q h → Phased (if b then p else q) h
Phased-if true p q h hp hq = hp
Phased-if false p q h hp hq = hq

pub after_reply-Phased :
    (w : Work) (r : Bytes) (f : Fate) (h : Handler) → h ≡ finished r → Phased (after_reply w r f) h
after_reply-Phased w r passes h e = e
after_reply-Phased w r dropped h e = Phased-if w.reliable (replied (some r)) (replied none) h e tt
after_reply-Phased w r slow h e = Phased-if w.reordering (delayed r) (replied (some r)) h e e

module _ {S : Type 0} where
  abbrev pub Sound : System S → Type 0
  Sound s =
      (c : ℕ)
      → Phased (s.phases c) (s.handlers c)
        × Handled (s.handlers c) (times c s.executed) (lookup c s.executed)

  -- One call goes to another phase.
  pub with_phase-Sound :
      (s : System S) (c : ℕ) (p : Phase)
      → Sound s
      → Phased p (s.handlers c)
      → Sound (with_phase s c p)
  with_phase-Sound s c p sound fits d = elim (Bool-cases (c == d)) [
    | inl this ↦ (
      subst (λ q. Phased q (s.handlers d)) (sym (ap (λ b. if b then p else s.phases d) this))
          (subst (λ x. Phased p (s.handlers x)) ((==_iff c d).0 this) fits),
      (sound d).1,
    )
    | inr other ↦ (
      subst (λ q. Phased q (s.handlers d)) (sym (ap (λ b. if b then p else s.phases d) other))
          (sound d).0,
      (sound d).1,
    )
  ]

  -- Both change.
  pub with_both-Sound :
      (s : System S) (c : ℕ) (p : Phase) (h : Handler)
      → Sound s
      → Phased p h
      → Handled h (times c s.executed) (lookup c s.executed)
      → Sound (with_handler (with_phase s c p) c h)
  with_both-Sound s c p h sound fits handled d = elim (Bool-cases (c == d)) [
    | inl this ↦
        let e = (==_iff c d).0 this in
        (
          subst (λ q. Phased q (if c == d then h else s.handlers d))
              (sym (ap (λ b. if b then p else s.phases d) this))
              (subst (Phased p) (sym (ap (λ b. if b then h else s.handlers d) this)) fits),
          subst (λ q. Handled q (times d s.executed) (lookup d s.executed))
              (sym (ap (λ b. if b then h else s.handlers d) this))
              (subst (λ x. Handled h (times x s.executed) (lookup x s.executed)) e handled),
        )
    | inr other ↦ (
      subst (λ q. Phased q (if c == d then h else s.handlers d))
          (sym (ap (λ b. if b then p else s.phases d) other))
          (subst (Phased (s.phases d)) (sym (ap (λ b. if b then h else s.handlers d) other))
            (sound d).0),
      subst (λ q. Handled q (times d s.executed) (lookup d s.executed))
          (sym (ap (λ b. if b then h else s.handlers d) other)) (sound d).1,
    )
  ]

  pub ran-Sound :
      (s : System S) (c server : ℕ) (req reply : Bytes) (state : S)
      → Sound s
      → s.handlers c ≡ started server req
      → Sound (
          with_handler
            (record s { state = state; executed = (c, reply) ∷ s.executed })
            c
            (finished reply))
  unfolding lookup
  ran-Sound s c server req reply state sound at d = elim (Bool-cases (c == d)) [
    | inl this ↦
        let e = (==_iff c d).0 this in
        let (phased, handled) = sound d in
        let at' : s.handlers d ≡ started server req = ap s.handlers (sym e) ∙ at in
        let never : times d s.executed ≡ 0 =
          subst (λ h. Handled h (times d s.executed) (lookup d s.executed)) at' handled in
        let now : (if c == d then finished reply else s.handlers d) ≡ finished reply =
          ap (λ b. if b then finished reply else s.handlers d) this in
        (
          subst (Phased (s.phases d)) (sym now)
              (Phased-ran (s.phases d) server req reply (subst (Phased (s.phases d)) at' phased)),
          subst
              (λ h.
                Handled h (if c == d then suc (times d s.executed) else times d s.executed)
                  (if c == d then some reply else lookup d s.executed))
              (sym now) (ground (arith, this, never), ground (arith, this)),
        )
    | inr other ↦
        let now : (if c == d then finished reply else s.handlers d) ≡ s.handlers d =
          ap (λ b. if b then finished reply else s.handlers d) other in
        (
          subst (Phased (s.phases d)) (sym now) (sound d).0,
          subst
              (λ h.
                Handled h (if c == d then suc (times d s.executed) else times d s.executed)
                  (if c == d then some reply else lookup d s.executed))
              (sym now)
              (subst
                (λ b.
                  Handled (s.handlers d)
                    (if b then suc (times d s.executed) else times d s.executed)
                    (if b then some reply else lookup d s.executed))
                (sym other) (sound d).1),
        )
  ]
