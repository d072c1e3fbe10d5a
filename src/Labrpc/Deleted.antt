-- ===== src/Labrpc/Deleted.antt =====
-- A call whose server is deleted, lec-2025/src/labrpc/labrpc.go.
use mathlib.Core.Path.{subst}
use mit.Base.{
  ℕ, ◌==◌, ==_iff, ◌≡◌, ◌≢◌, ◌∙◌, ap, sym, inl, inr, Bool, Bool-cases, true, false, ◌&&◌, Option,
  none, some, List, [], ◌∷◌, if◌then◌else◌, arith,
}
use mit.Base.Assoc.{nat_eq}
use mit.Raft.State.{Bytes}
use mit.Labrpc.{
  Network, Work, Phase, unused, sent, timing_out, waiting, received, gave_up, delayed, replied,
  Handler, idle, started, finished, Fate, System, Event, add_server, with_phase, with_handler,
  work_of, accepted, accept_in, receive_in, tick_in, finish_in, deliver_in, send_in, after_reply,
  drops, is_server_dead, is_pointer, server_at,
}

-- Whether a server is added under this name again.
unfoldable pub adds : ℕ → ℕ → List Event → Bool
adds sn p [] = false
adds sn p (add_server sn' p' ∷ es) =
    let rest = adds sn p es in if sn' == sn && p' == p then true else rest
adds sn p (e ∷ es) = adds sn p es

-- The server is not the one of its name any more.
abbrev pub Gone : Network → ℕ → ℕ → Type 0
Gone rn sn p = is_pointer (server_at rn sn) p ≡ false

-- The call was handed to the server and is not over, or is answered with false.
abbrev pub HandedTo : ℕ → ℕ → Phase → Type 0
HandedTo sn p (waiting w) = (w.servername ≡ sn) × (w.server ≡ p)
HandedTo sn p (received w r) = (w.servername ≡ sn) × (w.server ≡ p)
HandedTo sn p gave_up = Unit
HandedTo sn p (replied none) = Unit
HandedTo sn p (replied (some r)) = ⊥
HandedTo sn p unused = ⊥
HandedTo sn p (sent e q) = ⊥
HandedTo sn p timing_out = ⊥
HandedTo sn p (delayed r) = ⊥

dead :
    (sn p : ℕ) (rn : Network) (w : Work)
    → Gone rn sn p
    → w.servername ≡ sn
    → w.server ≡ p
    → is_server_dead rn w ≡ true
unfolding is_server_dead
dead sn p rn w gone a b =
    let gone' : is_pointer (server_at rn w.servername) w.server ≡ false =
      ap (λ x. is_pointer (server_at rn x) w.server) a
      ∙ ap (is_pointer (server_at rn sn)) b
      ∙ gone in
    ground (arith, gone')

module _ {S : Type 0} (sn p c : ℕ) where
  abbrev pub Cut : System S → Type 0
  Cut s = Gone s.net sn p × HandedTo sn p (s.phases c)

  -- A call goes to another phase.
  with_phase-Cut :
      (s : System S) (d : ℕ) (q : Phase)
      → Cut s
      → (d ≡ c → HandedTo sn p q)
      → Cut (with_phase s d q)
  with_phase-Cut s d q (gone, handed) now = (
    gone,
    elim (Bool-cases (d == c)) [
      | inl this ↦
          subst (HandedTo sn p) (sym (ap (λ b. if b then q else s.phases c) this))
            (now ((==_iff d c).0 this))
      | inr other ↦ subst (HandedTo sn p) (sym (ap (λ b. if b then q else s.phases c) other)) handed
    ],
  )

  -- What the phase of a call says, if it is the one.
  at_call : (s : System S) (d : ℕ) (q : Phase) → Cut s → s.phases d ≡ q → d ≡ c → HandedTo sn p q
  at_call s d q cut at same =
      subst (HandedTo sn p) at (subst (λ x. HandedTo sn p (s.phases x)) (sym same) cut.1)

  Cut-if : (b : Bool) (x y : System S) → Cut x → Cut y → Cut (if b then x else y)
  Cut-if true x y hx hy = hx
  Cut-if false x y hx hy = hy

  pub send_in-Cut :
      (s : System S) (d endname : ℕ) (req : Bytes) (q : Phase)
      → Cut s
      → s.phases d ≡ q
      → Cut (send_in s d endname req q)
  send_in-Cut s d endname req unused cut at =
      with_phase-Cut s d (sent endname req) cut (λ same. absurd (at_call s d unused cut at same))
  send_in-Cut s d endname req (sent e q) cut at = cut
  send_in-Cut s d endname req timing_out cut at = cut
  send_in-Cut s d endname req (waiting w) cut at = cut
  send_in-Cut s d endname req (received w r) cut at = cut
  send_in-Cut s d endname req gave_up cut at = cut
  send_in-Cut s d endname req (delayed r) cut at = cut
  send_in-Cut s d endname req (replied r) cut at = cut

  accepted-Cut :
      (s : System S) (d : ℕ) (req : Bytes) (f : Fate) (w : Option Work)
      → Cut s
      → (d ≢ c)
      → Cut (accepted s d req f w)
  accepted-Cut s d req f none cut other =
      with_phase-Cut s d timing_out cut (λ same. absurd (other same))
  accepted-Cut s d req f (some w) cut other =
      Cut-if (drops w.reliable f) (with_phase s d (replied none))
        (with_handler (with_phase s d (waiting w)) d (started w.server req))
        (with_phase-Cut s d (replied none) cut (λ same. tt))
        (with_phase-Cut s d (waiting w) cut (λ same. absurd (other same)))

  pub accept_in-Cut :
      (s : System S) (d : ℕ) (f : Fate) (q : Phase)
      → Cut s
      → s.phases d ≡ q
      → Cut (accept_in s d f q)
  accept_in-Cut s d f unused cut at = cut
  accept_in-Cut s d f (sent e q) cut at =
      accepted-Cut s d q f (work_of s.net e) cut (λ same. at_call s d (sent e q) cut at same)
  accept_in-Cut s d f timing_out cut at = cut
  accept_in-Cut s d f (waiting w) cut at = cut
  accept_in-Cut s d f (received w r) cut at = cut
  accept_in-Cut s d f gave_up cut at = cut
  accept_in-Cut s d f (delayed r) cut at = cut
  accept_in-Cut s d f (replied r) cut at = cut

  pub receive_in-Cut :
      (s : System S) (d : ℕ) (q : Phase) (h : Handler)
      → Cut s
      → s.phases d ≡ q
      → Cut (receive_in s d q h)
  receive_in-Cut s d (waiting w) idle cut at = cut
  receive_in-Cut s d (waiting w) (started e q) cut at = cut
  receive_in-Cut s d (waiting w) (finished r) cut at =
      with_phase-Cut s d (received w r) cut (λ same. at_call s d (waiting w) cut at same)
  receive_in-Cut s d unused h cut at = cut
  receive_in-Cut s d (sent e q) h cut at = cut
  receive_in-Cut s d timing_out h cut at = cut
  receive_in-Cut s d (received w r) h cut at = cut
  receive_in-Cut s d gave_up h cut at = cut
  receive_in-Cut s d (delayed r) h cut at = cut
  receive_in-Cut s d (replied r) h cut at = cut

  pub tick_in-Cut :
      (s : System S) (d : ℕ) (q : Phase) → Cut s → s.phases d ≡ q → Cut (tick_in s d q)
  tick_in-Cut s d unused cut at = cut
  tick_in-Cut s d (sent e q) cut at = cut
  tick_in-Cut s d timing_out cut at = cut
  tick_in-Cut s d (waiting w) cut at =
      Cut-if (is_server_dead s.net w) (with_phase s d gave_up) s
        (with_phase-Cut s d gave_up cut (λ same. tt)) cut
  tick_in-Cut s d (received w r) cut at = cut
  tick_in-Cut s d gave_up cut at = cut
  tick_in-Cut s d (delayed r) cut at = cut
  tick_in-Cut s d (replied r) cut at = cut

  pub finish_in-Cut :
      (s : System S) (d : ℕ) (f : Fate) (q : Phase)
      → Cut s
      → s.phases d ≡ q
      → Cut (finish_in s d f q)
  finish_in-Cut s d f unused cut at = cut
  finish_in-Cut s d f (sent e q) cut at = cut
  finish_in-Cut s d f timing_out cut at = cut
  finish_in-Cut s d f (waiting w) cut at = cut
  finish_in-Cut s d f (received w r) cut at =
      with_phase-Cut s d (if is_server_dead s.net w then replied none else after_reply w r f) cut
        (λ same.
          let (a, b) = at_call s d (received w r) cut at same in
          subst (HandedTo sn p)
            (sym (
              ap (λ x. if x then replied none else after_reply w r f)
                (dead sn p s.net w cut.0 a b)))
            tt)
  finish_in-Cut s d f gave_up cut at = with_phase-Cut s d (replied none) cut (λ same. tt)
  finish_in-Cut s d f (delayed r) cut at = cut
  finish_in-Cut s d f (replied r) cut at = cut

  pub deliver_in-Cut :
      (s : System S) (d : ℕ) (q : Phase) → Cut s → s.phases d ≡ q → Cut (deliver_in s d q)
  deliver_in-Cut s d unused cut at = cut
  deliver_in-Cut s d (sent e q) cut at = cut
  deliver_in-Cut s d timing_out cut at = with_phase-Cut s d (replied none) cut (λ same. tt)
  deliver_in-Cut s d (waiting w) cut at = cut
  deliver_in-Cut s d (received w r) cut at = cut
  deliver_in-Cut s d gave_up cut at = cut
  deliver_in-Cut s d (delayed r) cut at =
      with_phase-Cut s d (replied (some r)) cut (λ same. at_call s d (delayed r) cut at same)
  deliver_in-Cut s d (replied r) cut at = cut

  pub end-Cut :
      (s x y : System S) (o : Option Bool) → Cut x → Cut y → Cut (elim o [ none ↦ x | some b ↦ y ])
  end-Cut s x y none hx hy = hx
  end-Cut s x y (some b) hx hy = hy
