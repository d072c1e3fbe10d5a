-- ===== src/Kv/Once.antt =====
-- What the error of the clerk's `Put` says about the server: the loop of the clerk against a server
-- that other clients use too, over a network that loses requests and replies.
use mit.Base.{
  ℕ, ◌+◌, ◌%◌, ◌^◌, ◌≤◌, ◌<◌, ◌≡◌, ◌≢◌, refl, ◌∙◌, inl, inr, ◌⊎◌, Bool, true, false, Option, some,
  List, [], ◌∷◌, length, arith,
}
use mit.Base.Assoc.{string_eq}
use mit.Rpc.{Err, is_wrong_leader, PutArgs, PutReply}
use mit.Kv.{KvServer, Req, do_put}
use mit.Kv.Clerk.{Clerk, put_loop, put, put_result, settled, first_try}
use mit.Kv.Rounds.{
  Fate, lost, unseen, apply_all, own_put, own_reply, after_round, seen, takes_effect, effects,
  results, answer, load, version_of, own_put_cases, apply_all-version, passed, Changes,
  effects-Changes,
}

-- At most one put takes effect, and an answer without an error says that one has.
at_most_once :
    (kv : KvServer) (args : PutArgs) (fs : List Fate) (last : List Req)
    → version_of kv args.key + load fs last < 2 ^ 64
    → ((answer kv args fs last ≡ Err.ok) × (effects kv args fs last ≡ 1))
      ⊎ ((answer kv args fs last ≡ Err.version) × (effects kv args fs last ≤ 1))
unfolding effects answer after_round takes_effect
at_most_once kv args [] last small =
    let a = apply_all-version kv last args.key (omega arith) in
    ground (arith, a, own_put_cases (apply_all kv last) args)
at_most_once kv args (lost rs b ∷ fs) last small =
    let a = apply_all-version kv rs args.key (omega arith) in
    ground (arith, a, at_most_once (apply_all kv rs) args fs last)
at_most_once kv args (unseen rs b ∷ fs) last small =
    let a = apply_all-version kv rs args.key (omega arith) in
    ground (
      arith,
      a,
      own_put_cases (apply_all kv rs) args,
      passed (own_put (apply_all kv rs) args) args fs last,
      at_most_once (own_put (apply_all kv rs) args) args fs last,
    )

abbrev resent : Bool → List Fate → Bool
resent b [] = b
resent b (f ∷ fs) = true

resent-true : (fs : List Fate) → resent true fs ≡ true
resent-true [] = refl
resent-true (f ∷ fs) = refl

reply-final : (kv : KvServer) (args : PutArgs) → is_wrong_leader (own_reply kv args).err ≡ false
unfolding own_reply do_put
reply-final kv args = ground arith

-- A round without an answer makes the clerk go on to the next server.
unseen_round :
    (ck : Clerk) (i : ℕ) (b : Bool) (f : Fate) (rest : List (Option PutReply))
    → put_loop ck i b (seen f ∷ rest) ≡ put_loop ck ((i + 1) % length ck.servers) true rest
unfolding put_loop
unseen_round ck i b (lost rs true) rest = refl
unseen_round ck i b (lost rs false) rest = refl
unseen_round ck i b (unseen rs true) rest = refl
unseen_round ck i b (unseen rs false) rest = refl

-- The clerk returns at the answer and not before.
loop_answer :
    (ck : Clerk) (i : ℕ) (b : Bool) (kv : KvServer) (args : PutArgs) (fs : List Fate)
    (last : List Req)
    → (c : Clerk) × (put_loop ck i b (results kv args fs last)
        ≡ some (c, put_result (resent b fs) (answer kv args fs last)))
unfolding put_loop results answer
loop_answer ck i b kv args [] last = (settled ck i, rw (reply-final (apply_all kv last) args))
loop_answer ck i b kv args (f ∷ fs) last =
    let (c, e) =
      loop_answer ck ((i + 1) % length ck.servers) true (after_round kv args f) args fs last in
    (c, unseen_round ck i b f _ ∙ (rw (resent-true fs) at e))

-- What a successful or failed put says: `ok` that it took effect, exactly once; a version error that
-- it did not, and was tried once; `maybe` only that there was more than one try.
abbrev pub Outcome : Err → ℕ → List Fate → Type 0
Outcome Err.ok n fs = n ≡ 1
Outcome Err.version n fs = (n ≡ 0) × (fs ≡ [])
Outcome Err.maybe n fs = fs ≢ []
Outcome _ n fs = ⊥

outcome :
    (kv : KvServer) (args : PutArgs) (fs : List Fate) (last : List Req)
    → version_of kv args.key + load fs last < 2 ^ 64
    → Outcome (put_result (resent false fs) (answer kv args fs last)) (effects kv args fs last) fs
unfolding effects answer
outcome kv args [] last small = elim (at_most_once kv args [] last small) [
  | inl (a, n) ↦ rw a refl
  | inr (a, n) ↦ rw a (refl, refl)
]
outcome kv args (f ∷ fs) last small = elim (at_most_once kv args (f ∷ fs) last small) [
  | inl (a, n) ↦ rw a n
  | inr (a, n) ↦ rw a (λ z. cc)
]

-- The clerk's `Put` returns once a call is answered, whatever calls were lost before, in either
-- direction, and whatever other clients do in between. Each of its requests that reaches the server
-- leaves the whole server as it is, or finds the version of the put and sets the entry of the key to
-- the value with the next version. At most one does the latter, and the returned error says how many:
-- `OK` that one did, `ErrVersion` that none did, and `ErrMaybe` only after a resend. The hypothesis is
-- that the version of the key cannot reach 2 ^ 64.
pub put_once :
    (ck : Clerk) (kv : KvServer) (args : PutArgs) (fs : List Fate) (last : List Req)
    → version_of kv args.key + load fs last < 2 ^ 64
    → (c : Clerk) × (e : Err) × (put ck (results kv args fs last) ≡ some (c, e))
      × (n : ℕ) × Changes kv args fs last n
      × (n ≤ 1)
      × Outcome e n fs
unfolding put
put_once ck kv args fs last small =
    let (c, e) = loop_answer ck (first_try ck) false kv args fs last in
    (
      c,
      put_result (resent false fs) (answer kv args fs last),
      e,
      effects kv args fs last,
      effects-Changes kv args fs last small,
      ground (arith, at_most_once kv args fs last small),
      outcome kv args fs last small,
    )
