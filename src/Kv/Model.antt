-- ===== src/Kv/Model.antt =====
-- The specification that the tests check histories against, lec-2025/src/models1/kv.go, and the
-- proof that the server implements it.
use mit.Base.{
  ℕ, ◌==◌, ◌≡◌, refl, ◌∙◌, ap, sym, inl, inr, Bool-cases, String, Bool, true, false, Option, none,
  some, List, [], ◌∷◌, ◌||◌, if◌then◌else◌, arith,
}
use mit.Base.Assoc.{Map, lookup, lookup-insert, string_eq}
use mit.Rpc.{Err, is_ok, is_maybe, is_version, PutArgs, GetArgs}
use mit.Kv.{
  ValueEntry, KvServer, Req, get_pointer, put_pointer, get_value, put_value, other, Reply,
  get_reply, put_reply, do_get, do_put, do_op, next_version,
}
use text.Mathlib.Text.{◌==◌ as str_eq}
use text.Mathlib.TextEquality.{eq_iff}
use text.Mathlib.TextPositions.{eq_refl}

-- `Op` 0 is a get and 1 a put; the model refuses any other.
pub record KvInput : Type 0 where
  pub op : ℕ
  pub key : String
  pub value : String
  pub version : ℕ

pub record KvOutput : Type 0 where
  pub value : String
  pub version : ℕ
  pub err : Err

pub record KvState : Type 0 where
  pub value : String
  pub version : ℕ

abbrev pub model_init : KvState
model_init = record { value = ""; version = 0 }

-- One step of the model on the state of one key: whether the output is allowed, and the next state.
unfoldable pub model_step : KvState → KvInput → KvOutput → Bool × KvState
model_step st inp out =
    if inp.op == 0
    then (str_eq out.value st.value, st)
    else if inp.op == 1
    then if st.version == inp.version
      then (
        is_ok out.err || is_maybe out.err,
        record { value = inp.value; version = next_version st.version },
      )
      else (is_version out.err || is_maybe out.err, st)
    else (false, st)

abbrev pub Event : Type 0
Event = KvInput × KvOutput

-- The part of a history that is about one key, in order.
unfoldable pub partition : String → List Event → List Event
partition key [] = []
partition key ((inp, out) ∷ history) =
    let rest = partition key history in if str_eq inp.key key then (inp, out) ∷ rest else rest

abbrev accept : Bool → Option KvState → Option KvState
accept true o = o
accept false o = none

-- The model over a history of one key; `none` if it does not allow an output.
unfoldable pub model_run : KvState → List Event → Option KvState
model_run st [] = some st
model_run st ((inp, out) ∷ history) =
    let rest = model_run (model_step st inp out).1 history in accept (model_step st inp out).0 rest

-- What the model sees of a map at a key.
abbrev entry_state : Option ValueEntry → KvState
entry_state none = model_init
entry_state (some e) = record { value = e.value; version = e.version }

abbrev pub state_of : Map String ValueEntry → String → KvState
state_of m key = entry_state (lookup key m)

-- A call and its reply, as the test records them.
unfoldable pub event : Req → Reply → Option Event
event (get_pointer r) (get_reply a) = some (
  record { op = 0; key = r.key; value = ""; version = 0 },
  record { value = a.value; version = a.version; err = a.err },
)
event (get_value r) (get_reply a) = some (
  record { op = 0; key = r.key; value = ""; version = 0 },
  record { value = a.value; version = a.version; err = a.err },
)
event (put_pointer r) (put_reply a) = some (
  record { op = 1; key = r.key; value = r.value; version = r.version },
  record { value = ""; version = 0; err = a.err },
)
event (put_value r) (put_reply a) = some (
  record { op = 1; key = r.key; value = r.value; version = r.version },
  record { value = ""; version = 0; err = a.err },
)
event _ _ = none

abbrev note : Option Event → List Event → List Event
note none history = history
note (some e) history = e ∷ history

-- The server applies requests in the order of the log: its final state, and the history.
unfoldable pub serve : KvServer → List Req → KvServer × List Event
serve kv [] = (kv, [])
serve kv (req ∷ reqs) =
    let (kv', reply) = do_op kv req in
    let (last, history) = serve kv' reqs in (last, note (event req reply) history)

get-allowed :
    (m : Map String ValueEntry) (r : GetArgs) (v : String) (n : ℕ)
    → let a = do_get m r in
      model_step
        (state_of m r.key)
        (record { op = 0; key = r.key; value = v; version = n })
        (record { value = a.value; version = a.version; err = a.err })
      ≡ (true, state_of m r.key)
unfolding model_step do_get
get-allowed m r v n = ground (arith, eq_refl (state_of m r.key).value)

put-allowed :
    (m : Map String ValueEntry) (r : PutArgs)
    → let (m', a) = do_put m r in
      model_step
        (state_of m r.key)
        (record { op = 1; key = r.key; value = r.value; version = r.version })
        (record { value = ""; version = 0; err = a.err })
      ≡ (true, state_of m' r.key)
unfolding model_step do_put
put-allowed m r = ground (
  arith,
  eq_refl r.key,
  lookup-insert r.key r.key (record { value = r.value; version = 1 }) m,
  lookup-insert r.key r.key
      (record { value = r.value; version = next_version (state_of m r.key).version }) m,
)

-- A put leaves every other key alone.
pub do_put-ne :
    (m : Map String ValueEntry) (r : PutArgs) (k : String)
    → str_eq r.key k ≡ false
    → lookup k (do_put m r).0 ≡ lookup k m
unfolding do_put
do_put-ne m r k h = ground (
  arith,
  h,
  lookup-insert r.key k (record { value = r.value; version = 1 }) m,
  lookup-insert r.key k
      (record { value = r.value; version = next_version (state_of m r.key).version }) m,
)

-- One request is one step of the model at its key, and none at another.
abbrev Follows : String → KvServer → KvServer → Option Event → Type 0
Follows key kv kv' none = kv' ≡ kv
Follows key kv kv' (some (inp, out)) =
    (str_eq inp.key key ≡ true
      → model_step (state_of kv.key_value key) inp out ≡ (true, state_of kv'.key_value key))
    × (str_eq inp.key key ≡ false → state_of kv'.key_value key ≡ state_of kv.key_value key)

do_op-Follows :
    (kv : KvServer) (req : Req) (key : String)
    → Follows key kv (do_op kv req).0 (event req (do_op kv req).1)
unfolding do_op event
do_op-Follows kv (get_pointer r) key =
    (λ h. ground (arith, eq_iff r.key key, get-allowed kv.key_value r "" 0), λ h. refl)
do_op-Follows kv (get_value r) key =
    (λ h. ground (arith, eq_iff r.key key, get-allowed kv.key_value r "" 0), λ h. refl)
do_op-Follows kv (put_pointer r) key = (
  λ h. ground (arith, eq_iff r.key key, put-allowed kv.key_value r),
  λ h. rw (do_put-ne kv.key_value r key h),
)
do_op-Follows kv (put_value r) key = (
  λ h. ground (arith, eq_iff r.key key, put-allowed kv.key_value r),
  λ h. rw (do_put-ne kv.key_value r key h),
)
do_op-Follows kv other key = refl

note_run :
    (key : String) (kv kv' : KvServer) (e : Option Event) (history : List Event)
    → Follows key kv kv' e
    → model_run (state_of kv.key_value key) (partition key (note e history))
      ≡ model_run (state_of kv'.key_value key) (partition key history)
unfolding partition model_run
note_run key kv kv' none history f = rw f
note_run key kv kv' (some (inp, out)) history f = elim (Bool-cases (str_eq inp.key key)) [
  | inl same ↦ rw same (rw (f.0 same) refl)
  | inr differs ↦
      rw differs (ap (λ (st : KvState). model_run st (partition key history)) (sym (f.1 differs)))
]

-- Any requests in any order, got or put by a leader or by another peer: for every key, the replies
-- are a history that the model of the tests allows, and the model ends in the state that the server
-- has for the key. A key that is missing is the model's empty string at version 0.
pub serve-model_run :
    (kv : KvServer) (reqs : List Req) (key : String)
    → let (last, history) = serve kv reqs in
      model_run (state_of kv.key_value key) (partition key history)
      ≡ some (state_of last.key_value key)
unfolding serve partition model_run
serve-model_run kv [] key = refl
serve-model_run kv (req ∷ reqs) key =
    note_run key kv (do_op kv req).0 (event req (do_op kv req).1) (serve (do_op kv req).0 reqs).1
      (do_op-Follows kv req key)
    ∙ serve-model_run (do_op kv req).0 reqs key
