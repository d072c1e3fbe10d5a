-- ===== src/Kv/Rounds.antt =====
-- The rounds of the clerk's `Put` (lec-2025/src/kvraft1/client.go) at the server
-- (lec-2025/src/kvraft1/server.go), and what its requests do to the server.
use mathlib.Core.Path.{subst}
use mit.Base.{
  ℕ, zero, suc, ◌+◌, ==_iff, Option-cases, ◌^◌, ◌≤◌, ◌<◌, ◌≡◌, ◌≢◌, refl, inl, inr, ◌⊎◌, Bool-cases,
  String, Bool, true, false, Option, none, some, List, [], ◌∷◌, length, if◌then◌else◌, arith,
}
use mit.Base.Assoc.{lookup, insert, lookup-insert, string_eq}
use text.Mathlib.Text.{◌==◌ as str_eq}
use text.Mathlib.TextEquality.{eq_iff}
use text.Mathlib.TextPositions.{eq_refl}
use mit.Rpc.{Err, is_ok, PutArgs, PutReply}
use mit.Kv.{KvServer, Req, put_pointer, put_value, do_put, do_op, next_version}
use mit.Kv.Model.{state_of, do_put-ne}

-- A round of the loop without an answer, after some requests of other clients: the request is lost,
-- or it is applied and the clerk does not see the reply. The clerk sees a call that returned false,
-- or a wrong leader, which `Submit` also says at a timeout. The `Bool` says which.
pub data Fate : Type 0 where
  lost : List Req → Bool → Fate
  unseen : List Req → Bool → Fate

unfoldable pub apply_all : KvServer → List Req → KvServer
apply_all kv [] = kv
apply_all kv (r ∷ rs) = apply_all (do_op kv r).0 rs

abbrev failure : Bool → Option PutReply
failure true = none
failure false = some (record { err = Err.wrong_leader })

unfoldable pub own_put : KvServer → PutArgs → KvServer
own_put kv args = record kv { key_value = (do_put kv.key_value args).0 }

unfoldable pub own_reply : KvServer → PutArgs → PutReply
own_reply kv args = (do_put kv.key_value args).1

-- The server after a round, and what the clerk sees.
unfoldable pub after_round : KvServer → PutArgs → Fate → KvServer
after_round kv args (lost rs _) = apply_all kv rs
after_round kv args (unseen rs _) = own_put (apply_all kv rs) args

abbrev pub seen : Fate → Option PutReply
seen (lost _ silent) = failure silent
seen (unseen _ silent) = failure silent

-- Whether a put of the clerk is carried out in the round, as its reply says.
unfoldable pub takes_effect : KvServer → PutArgs → Fate → Bool
takes_effect kv args (lost rs _) = false
takes_effect kv args (unseen rs _) = is_ok (own_reply (apply_all kv rs) args).err

abbrev pub one_if : Bool → ℕ
one_if b = if b then 1 else 0

-- How many puts of the clerk are carried out, over the rounds without an answer and the last round,
-- which is applied and answered after some more requests of other clients.
unfoldable pub effects : KvServer → PutArgs → List Fate → List Req → ℕ
effects kv args [] last = one_if (is_ok (own_reply (apply_all kv last) args).err)
effects kv args (f ∷ fs) last =
    one_if (takes_effect kv args f) + effects (after_round kv args f) args fs last

-- The results of the clerk's calls.
unfoldable pub results : KvServer → PutArgs → List Fate → List Req → List (Option PutReply)
results kv args [] last = some (own_reply (apply_all kv last) args) ∷ []
results kv args (f ∷ fs) last = seen f ∷ results (after_round kv args f) args fs last

unfoldable pub answer : KvServer → PutArgs → List Fate → List Req → Err
answer kv args [] last = (own_reply (apply_all kv last) args).err
answer kv args (f ∷ fs) last = answer (after_round kv args f) args fs last

-- All requests that the server may apply.
abbrev pub load : List Fate → List Req → ℕ
load [] last = length last + 1
load (lost rs _ ∷ fs) last = length rs + load fs last
load (unseen rs _ ∷ fs) last = length rs + 1 + load fs last

abbrev pub version_of : KvServer → String → ℕ
version_of kv key = (state_of kv.key_value key).version

-- A put takes effect exactly at its version, which it raises by one.
pub own_put_cases :
    (kv : KvServer) (args : PutArgs)
    → version_of kv args.key + 1 < 2 ^ 64
    → (((own_reply kv args).err ≡ Err.ok)
        × (args.version ≡ version_of kv args.key)
        × (version_of (own_put kv args) args.key ≡ version_of kv args.key + 1))
      ⊎ (((own_reply kv args).err ≡ Err.version)
          × (args.version ≢ version_of kv args.key)
          × (version_of (own_put kv args) args.key ≡ version_of kv args.key))
unfolding own_put own_reply do_put
own_put_cases kv args small = grind (
  arith,
  eq_refl args.key,
  lookup-insert args.key args.key (record { value = args.value; version = 1 }) kv.key_value,
  lookup-insert args.key args.key
      (record { value = args.value; version = next_version (version_of kv args.key) }) kv.key_value,
)

pub put-version :
    (kv : KvServer) (args : PutArgs) (key : String)
    → version_of kv key + 1 < 2 ^ 64
    → (version_of kv key ≤ version_of (own_put kv args) key)
      × (version_of (own_put kv args) key ≤ version_of kv key + 1)
put-version kv args key small = elim (Bool-cases (str_eq args.key key)) [
  | inl same ↦ let e = (eq_iff args.key key).0 same in ground (arith, e, own_put_cases kv args)
  | inr differs ↦
      let e = do_put-ne kv.key_value args key differs in unfold own_put in ground (arith, e)
]

do_op-version :
    (kv : KvServer) (r : Req) (key : String)
    → version_of kv key + 1 < 2 ^ 64
    → (version_of kv key ≤ version_of (do_op kv r).0 key)
      × (version_of (do_op kv r).0 key ≤ version_of kv key + 1)
unfolding do_op own_put
do_op-version kv (put_pointer r) key small = put-version kv r key small
do_op-version kv (put_value r) key small = put-version kv r key small
do_op-version kv _ key small = omega arith

pub apply_all-version :
    (kv : KvServer) (rs : List Req) (key : String)
    → version_of kv key + length rs < 2 ^ 64
    → (version_of kv key ≤ version_of (apply_all kv rs) key)
      × (version_of (apply_all kv rs) key ≤ version_of kv key + length rs)
unfolding apply_all
apply_all-version kv [] key small = omega arith
apply_all-version kv (r ∷ rs) key small =
    let step = do_op-version kv r key (omega arith) in
    let rest = apply_all-version (do_op kv r).0 rs key (omega (arith, step)) in
    omega (arith, step, rest)

-- Once the version of the key has passed that of the put, the put never takes effect.
pub passed :
    (kv : KvServer) (args : PutArgs) (fs : List Fate) (last : List Req)
    → version_of kv args.key + load fs last < 2 ^ 64
    → args.version < version_of kv args.key
    → (effects kv args fs last ≡ 0) × (answer kv args fs last ≡ Err.version)
unfolding effects answer after_round takes_effect
passed kv args [] last small h =
    let a = apply_all-version kv last args.key (omega arith) in
    ground (arith, a, own_put_cases (apply_all kv last) args)
passed kv args (lost rs b ∷ fs) last small h =
    let a = apply_all-version kv rs args.key (omega arith) in
    ground (arith, a, passed (apply_all kv rs) args fs last)
passed kv args (unseen rs b ∷ fs) last small h =
    let a = apply_all-version kv rs args.key (omega arith) in
    ground (
      arith,
      a,
      own_put_cases (apply_all kv rs) args,
      passed (own_put (apply_all kv rs) args) args fs last,
    )

-- What a request of the clerk does to the server: nothing, or, at the version of the put, it gives
-- the key the value of the put and the next version, and changes no other key.
abbrev pub Acts : KvServer → PutArgs → ℕ → Type 0
Acts kv args zero = own_put kv args ≡ kv
Acts kv args (suc zero) =
    (version_of kv args.key ≡ args.version)
    × (own_put kv args ≡ record kv {
      key_value =
          insert args.key (record { value = args.value; version = args.version + 1 }) kv.key_value;
    })
Acts kv args (suc (suc n)) = ⊥

-- How many of the clerk's requests changed the server, each of them as `Acts` says.
abbrev pub Changes : KvServer → PutArgs → List Fate → List Req → ℕ → Type 0
Changes kv args [] last n = Acts (apply_all kv last) args n
Changes kv args (lost rs _ ∷ fs) last n = Changes (apply_all kv rs) args fs last n
Changes kv args (unseen rs _ ∷ fs) last n =
    let kv' = apply_all kv rs in
    (k : ℕ) × (m : ℕ) × (k + m ≡ n) × Acts kv' args k × Changes (own_put kv' args) args fs last m

own_put_full :
    (kv : KvServer) (args : PutArgs)
    → version_of kv args.key + 1 < 2 ^ 64
    → ((is_ok (own_reply kv args).err ≡ true) × Acts kv args 1)
      ⊎ ((is_ok (own_reply kv args).err ≡ false) × Acts kv args 0)
unfolding own_put own_reply do_put
own_put_full kv args small = elim (Option-cases (lookup args.key kv.key_value)) [
  | inl missing ↦ ground (arith, missing, ==_iff args.version 0)
  | inr (entry, found) ↦ ground (arith, found, small, ==_iff args.version entry.version)
]

own_put-Acts :
    (kv : KvServer) (args : PutArgs)
    → version_of kv args.key + 1 < 2 ^ 64
    → Acts kv args (one_if (is_ok (own_reply kv args).err))
own_put-Acts kv args small = elim (own_put_full kv args small) [
  | inl (same, own) ↦ rw same own
  | inr (differs, own) ↦ rw differs own
]

pub effects-Changes :
    (kv : KvServer) (args : PutArgs) (fs : List Fate) (last : List Req)
    → version_of kv args.key + load fs last < 2 ^ 64
    → Changes kv args fs last (effects kv args fs last)
unfolding effects after_round takes_effect
effects-Changes kv args [] last small =
    own_put-Acts (apply_all kv last) args
      (let a = apply_all-version kv last args.key (omega arith) in omega (arith, a))
effects-Changes kv args (lost rs b ∷ fs) last small =
    let a = apply_all-version kv rs args.key (omega arith) in
    subst (Changes (apply_all kv rs) args fs last) (omega arith)
      (effects-Changes (apply_all kv rs) args fs last (omega (arith, a)))
effects-Changes kv args (unseen rs b ∷ fs) last small =
    let a = apply_all-version kv rs args.key (omega arith) in
    let kv' = apply_all kv rs in
    let next = put-version kv' args args.key (omega (arith, a)) in
    (
      one_if (is_ok (own_reply kv' args).err),
      effects (own_put kv' args) args fs last,
      refl,
      own_put-Acts kv' args (omega (arith, a)),
      effects-Changes (own_put kv' args) args fs last (omega (arith, a, next)),
    )
