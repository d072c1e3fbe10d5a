-- ===== src/Kvsrv/Model.antt =====
-- The sequential specification of src/models/kv.go, and its refinement by the server of
-- src/kvsrv/server.go.
use mit.Base.{
  ℕ, ◌==◌, ◌≡◌, refl, ◌∙◌, ap, inl, inr, Bool-cases, String, Bool, true, false, Option, none, some,
  List, [], ◌∷◌, ◌++◌, get_elem?, if◌then◌else◌, arith,
}
use Prim.Native.String.{◌++◌ as concat}
use mit.Base.Assoc.{lookup-insert, string_eq, beq_refl}
use mit.Kvsrv.{
  ClientAckTime, KvServer, PutAppendArgs, PutAppendReply, GetArgs, value_at, get, put, append,
  new_client,
}

-- Op is 0 for a get, 1 for a put, 2 for an append, and above for an append with its return value.
pub record KvInput : Type 0 where
  pub op : ℕ
  pub key : String
  pub value : String

pub record KvOutput : Type 0 where
  pub value : String

abbrev pub Operation : Type 0
Operation = KvInput × KvOutput

-- `Partition` puts the operations of a key into one history.
unfoldable pub partition : String → List Operation → List Operation
partition key [] = []
partition key ((inp, out) ∷ history) =
    let rest = partition key history in
    if string_eq.beq inp.key key then (inp, out) ∷ rest else rest

abbrev pub model_init : String
model_init = ""

unfoldable pub model_step : String → KvInput → KvOutput → Bool × String
model_step st inp out =
    if inp.op == 0
    then (string_eq.beq out.value st, st)
    else if inp.op == 1
    then (true, inp.value)
    else if inp.op == 2
    then (true, concat st inp.value)
    else (string_eq.beq out.value st, concat st inp.value)

-- The state after a history that is allowed.
unfoldable pub model_run : String → List Operation → Option String
unfolding model_step
model_run st [] = some st
model_run st ((inp, out) ∷ history) =
    let rest = model_run (model_step st inp out).1 history in
    if (model_step st inp out).0 then rest else none

pub data Call : Type 0 where
  get_call : GetArgs → Call
  put_call : PutAppendArgs → Call
  append_call : PutAppendArgs → Call

-- The server expects the identifier of the request, and carries it out.
abbrev is_expected : PutAppendArgs → Option ClientAckTime → Bool
is_expected args none = false
is_expected args (some c) = args.transaction_id == c.ack_id

abbrev carried_out : KvServer → PutAppendArgs → Option ℕ → Bool
carried_out kv args none = false
carried_out kv args (some i) = is_expected args (get_elem? kv.ack_time i)

-- The operation that a client sees when its request is carried out; a repetition is none.
abbrev recorded :
    KvServer → Bool → KvInput → Option (KvServer × PutAppendReply) → KvServer × List Operation
recorded kv b inp none = (kv, [])
recorded kv b inp (some (kv', reply)) =
    (kv', if b then (inp, record { value = reply.value }) ∷ [] else [])

unfoldable pub serve : KvServer → Call → KvServer × List Operation
serve kv (get_call args) = (
  kv,
  (record { op = 0; key = args.key; value = "" }, record { value = (get kv args).value }) ∷ [],
)
serve kv (put_call args) =
    recorded kv (carried_out kv args args.client_id)
      (record { op = 1; key = args.key; value = args.value }) (put kv args)
serve kv (append_call args) =
    recorded kv (carried_out kv args args.client_id)
      (record { op = 3; key = args.key; value = args.value }) (append kv args)

unfoldable pub serve_all : KvServer → List Call → KvServer × List Operation
unfolding serve
serve_all kv [] = (kv, [])
serve_all kv (call ∷ calls) =
    let (kv', history) = serve kv call in
    let (last, rest) = serve_all kv' calls in (last, history ++ rest)

module _ (key : String) where
  partition-append :
      (xs ys : List Operation) → partition key (xs ++ ys) ≡ partition key xs ++ partition key ys
  unfolding partition
  partition-append [] ys = refl
  partition-append ((inp, out) ∷ xs) ys = ground (arith, partition-append xs ys)

  model_run-append :
      (st st' : String) (xs ys : List Operation)
      → model_run st xs ≡ some st'
      → model_run st (xs ++ ys) ≡ model_run st' ys
  unfolding model_run
  model_run-append st st' [] ys h = ground (arith, h)
  model_run-append st st' ((inp, out) ∷ xs) ys h =
      ground (arith, h, model_run-append (model_step st inp out).1 st' xs ys)

  get-allowed :
      (kv : KvServer) (args : GetArgs)
      → model_run (value_at kv key) (partition key (serve kv (get_call args)).1)
        ≡ some (value_at (serve kv (get_call args)).0 key)
  unfolding model_run model_step partition serve get
  get-allowed kv args = elim (Bool-cases (string_eq.beq args.key key)) [
    | inl same ↦
        let e = (string_eq.beq_iff args.key key).0 same in
        ground (arith, same, ap (value_at kv) e, beq_refl {K = String} (value_at kv key))
    | inr apart ↦ ground (arith, apart)
  ]

  put-allowed :
      (kv : KvServer) (args : PutAppendArgs)
      → model_run (value_at kv key) (partition key (serve kv (put_call args)).1)
        ≡ some (value_at (serve kv (put_call args)).0 key)
  unfolding model_run model_step partition serve put new_client
  put-allowed kv args = ground (arith, lookup-insert args.key key args.value kv.key_value)

  append-allowed :
      (kv : KvServer) (args : PutAppendArgs)
      → model_run (value_at kv key) (partition key (serve kv (append_call args)).1)
        ≡ some (value_at (serve kv (append_call args)).0 key)
  unfolding model_run model_step partition serve append new_client
  append-allowed kv args =
      let more = concat (value_at kv args.key) args.value in
      let new = lookup-insert args.key key more kv.key_value in
      elim (Bool-cases (string_eq.beq args.key key)) [
        | inl same ↦
            let e = (string_eq.beq_iff args.key key).0 same in
            ground (arith, same, new, ap (value_at kv) e, beq_refl {K = String} (value_at kv key))
        | inr apart ↦ ground (arith, apart, new)
      ]

serve-allowed :
    (key : String) (kv : KvServer) (call : Call)
    → model_run (value_at kv key) (partition key (serve kv call).1)
      ≡ some (value_at (serve kv call).0 key)
serve-allowed key kv (get_call args) = get-allowed key kv args
serve-allowed key kv (put_call args) = put-allowed key kv args
serve-allowed key kv (append_call args) = append-allowed key kv args

-- Whatever requests arrive in whatever order, repeated ones among them: for each key, the operations
-- that the server carried out, with the replies that it gave to them, are a history that the
-- specification allows from the value that the key had, and the specification ends in the value that
-- the key has.
pub serve_all-model_run :
    (key : String) (kv : KvServer) (calls : List Call)
    → model_run (value_at kv key) (partition key (serve_all kv calls).1)
      ≡ some (value_at (serve_all kv calls).0 key)
unfolding serve_all model_run partition
serve_all-model_run key kv [] = refl
serve_all-model_run key kv (call ∷ calls) =
    let kv1 = (serve kv call).0 in
    let history = (serve kv call).1 in
    let rest = (serve_all kv1 calls).1 in
    ap (model_run (value_at kv key)) (partition-append key history rest)
    ∙ model_run-append key (value_at kv key) (value_at kv1 key) (partition key history)
        (partition key rest) (serve-allowed key kv call)
    ∙ serve_all-model_run key kv1 calls
