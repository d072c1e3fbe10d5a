-- ===== src/Rsm/Logged.antt =====
-- Results that were logged, as the channels and the calls of `Submit` have them, lec-2025/src/kvraft1/rsm/rsm.go.
use mathlib.Core.Path.{subst}
use mit.Base.{
  ℕ, ◌==◌, ◌≡◌, refl, sym, inl, inr, ◌⊎◌, Bool-cases, ◌&&◌, true, Option, none, some, List, [], ◌∷◌,
  arith,
}
use mit.Base.Assoc.{Map, lookup, insert, nat_eq, lookup-insert}
use mit.Rpc.{Err}
use mit.Raft.State.{opt_eqb}
use mit.Rsm.{
  StateMachine, Result, Chan, empty, full, closed, Stage, started, waiting, returned, Call, Applied,
  offer, close_all, judge,
}

module _ {S Req Rep : Type 0} (sm : StateMachine S Req Rep) where
  -- A command was run at this index and in this term, and `DoOp` answered `x` to it.
  abbrev pub Logged : List (Applied S Req Rep) → ℕ → Option ℕ → Rep → Type 0
  Logged [] i t x = ⊥
  Logged (a ∷ log) i t x =
      ((a.index ≡ i) × (a.term ≡ t) × ((sm.do_op a.before a.op.req).1 ≡ x)) ⊎ Logged log i t x

  abbrev pub ChanSound : List (Applied S Req Rep) → Chan Rep → Type 0
  ChanSound log empty = Unit
  ChanSound log (full res) = (x : Rep) → res.value ≡ some x → Logged log res.index res.term x
  ChanSound log closed = Unit

  abbrev pub StageSound : List (Applied S Req Rep) → ℕ → ℕ → Stage Rep → Type 0
  StageSound log i t started = Unit
  StageSound log i t waiting = Unit
  StageSound log i t (returned e none) = Unit
  StageSound log i t (returned e (some x)) = (e ≡ Err.ok) × Logged log i (some t) x

  abbrev pub CallSound : List (Applied S Req Rep) → Call Rep → Type 0
  CallSound log c = StageSound log c.index c.term c.stage

  module _ (log : List (Applied S Req Rep)) where
    pub chans-insert :
        (m : Map ℕ (Chan Rep)) (id : ℕ) (new : Chan Rep)
        → ((j : ℕ) (ch : Chan Rep) → lookup j m ≡ some ch → ChanSound log ch)
        → ChanSound log new
        → (j : ℕ) (ch : Chan Rep) → lookup j (insert id new m) ≡ some ch
        → ChanSound log ch
    chans-insert m id new all h j ch e = elim (Bool-cases (id == j)) [
      | inl same ↦
          let e' : new ≡ ch = ground (arith, e, same, lookup-insert id j new m) in
          subst (ChanSound log) e' h
      | inr apart ↦ all j ch (ground (arith, e, apart, lookup-insert id j new m))
    ]

    pub calls-insert :
        (m : Map ℕ (Call Rep)) (id : ℕ) (new : Call Rep)
        → ((j : ℕ) (c : Call Rep) → lookup j m ≡ some c → CallSound log c)
        → CallSound log new
        → (j : ℕ) (c : Call Rep) → lookup j (insert id new m) ≡ some c
        → CallSound log c
    calls-insert m id new all h j c e = elim (Bool-cases (id == j)) [
      | inl same ↦
          let e' : new ≡ c = ground (arith, e, same, lookup-insert id j new m) in
          subst (CallSound log) e' h
      | inr apart ↦ all j c (ground (arith, e, apart, lookup-insert id j new m))
    ]

    pub ChanSound-offer :
        (ch : Chan Rep) (res : Result Rep)
        → ChanSound log ch
        → ChanSound log (full res)
        → ChanSound log (offer ch res)
    ChanSound-offer empty res h k = k
    ChanSound-offer (full old) res h k = h
    ChanSound-offer closed res h k = tt

  pub Stage-cons :
      (a : Applied S Req Rep) (log : List (Applied S Req Rep)) (i t : ℕ) (st : Stage Rep)
      → StageSound log i t st
      → StageSound (a ∷ log) i t st
  Stage-cons a log i t started h = tt
  Stage-cons a log i t waiting h = tt
  Stage-cons a log i t (returned e none) h = tt
  Stage-cons a log i t (returned e (some x)) h = (h.0, inr h.1)

  pub Chan-cons :
      (a : Applied S Req Rep) (log : List (Applied S Req Rep)) (ch : Chan Rep)
      → ChanSound log ch
      → ChanSound (a ∷ log) ch
  Chan-cons a log empty h = tt
  Chan-cons a log (full res) h = λ x e. inr (h x e)
  Chan-cons a log closed h = tt

  opt_eqb-some : (o : Option ℕ) (t : ℕ) → opt_eqb o (some t) ≡ true → o ≡ some t
  opt_eqb-some o t h = ground arith

  verdict :
      (c : Call Rep) (res : Result Rep)
      → ((judge c res ≡ (Err.ok, res.value)) × (res.index ≡ c.index) × (res.term ≡ some c.term))
        ⊎ (judge c res ≡ (Err.wrong_leader, none))
  verdict c res = elim (Bool-cases (res.index == c.index && opt_eqb res.term (some c.term))) [
    | inl agree ↦ inl (
      ground (arith, agree),
      ground (arith, agree),
      opt_eqb-some res.term c.term (ground (arith, agree)),
    )
    | inr other ↦ inr (ground (arith, other))
  ]

  returned-Sound :
      (log : List (Applied S Req Rep)) (i t : ℕ) (value : Option Rep)
      → ((x : Rep) → value ≡ some x → Logged log i (some t) x)
      → StageSound log i t (returned Err.ok value)
  returned-Sound log i t none h = tt
  returned-Sound log i t (some x) h = (refl, h x refl)

  -- What a call makes of a result that was logged.
  pub judge-Sound :
      (log : List (Applied S Req Rep)) (c : Call Rep) (res : Result Rep)
      → ChanSound log (full res)
      → StageSound log c.index c.term (returned (judge c res).0 (judge c res).1)
  judge-Sound log c res h = elim (verdict c res) [
    | inl (e, i, t) ↦
        subst (λ (p : Err × Option Rep). StageSound log c.index c.term (returned p.0 p.1)) (sym e)
          (returned-Sound log c.index c.term res.value (λ x v.
            subst (λ j. Logged log j (some c.term) x) i
              (subst (λ u. Logged log res.index u x) t (h x v))))
    | inr e ↦
        subst (λ (p : Err × Option Rep). StageSound log c.index c.term (returned p.0 p.1)) (sym e)
          tt
  ]

  pub Logged-cons :
      (a : Applied S Req Rep) (log : List (Applied S Req Rep)) (c : Call Rep)
      → CallSound log c
      → CallSound (a ∷ log) c
  Logged-cons a log c h = Stage-cons a log c.index c.term c.stage h

  pub close_all-Sound :
      (log : List (Applied S Req Rep)) (m : Map ℕ ℕ) (chans : Map ℕ (Chan Rep))
      → ((id : ℕ) (ch : Chan Rep) → lookup id chans ≡ some ch → ChanSound log ch)
      → (id : ℕ) (ch : Chan Rep) → lookup id (close_all m chans) ≡ some ch
      → ChanSound log ch
  unfolding close_all
  close_all-Sound log [] chans h = h
  close_all-Sound log ((i, id) ∷ m) chans h =
      close_all-Sound log m (insert id closed chans) (chans-insert log chans id closed h tt)
