-- ===== src/Kvsrv/Repeat.antt =====
-- Repeated requests at the key/value server of src/kvsrv/server.go.
use mit.Base.{
  ℕ, zero, suc, ◌+◌, ◌≡◌, ◌≢◌, refl, ap, inl, inr, Option-cases, String, Option, none, some, List,
  [], ◌∷◌, ◌++◌, get_elem?, get_elem?-set_ne, set, arith,
}
use Prim.Native.String.{◌++◌ as concat}
use mit.Base.Assoc.{insert, string_eq}
use mit.Kvsrv.{
  ClientAckTime, KvServer, PutAppendArgs, PutAppendReply, value_at, put, append, new_client,
}

-- A request that reaches the server; a `Get` changes nothing.
pub data Request : Type 0 where
  put_request : PutAppendArgs → Request
  append_request : PutAppendArgs → Request

abbrev pub args_of : Request → PutAppendArgs
args_of (put_request args) = args
args_of (append_request args) = args

abbrev pub after : KvServer → Option (KvServer × PutAppendReply) → KvServer
after kv none = kv
after kv (some (kv', r)) = kv'

-- The server after a request; a panic of the handler ends it where it is.
unfoldable pub serve : KvServer → Request → KvServer
serve kv (put_request args) = after kv (put kv args)
serve kv (append_request args) = after kv (append kv args)

unfoldable pub serve_all : KvServer → List Request → KvServer
serve_all kv [] = kv
serve_all kv (r ∷ rs) = serve_all (serve kv r) rs

-- No request of the list comes from client `i`.
abbrev pub Others : ℕ → List Request → Type 0
Others i [] = Unit
Others i (r ∷ rs) = ((args_of r).client_id ≢ some i) × Others i rs

get_elem?-append :
    {A : Type 0} (xs ys : List A) (i : ℕ) (a : A)
    → get_elem? xs i ≡ some a
    → get_elem? (xs ++ ys) i ≡ some a
get_elem?-append [] ys i a h = cc
get_elem?-append (x ∷ xs) ys zero a h = h
get_elem?-append (x ∷ xs) ys (suc i) a h = get_elem?-append xs ys i a h

get_elem?-set :
    {A : Type 0} (xs : List A) (i : ℕ) (v : A) (a : A)
    → get_elem? xs i ≡ some a
    → get_elem? (set xs i v) i ≡ some v
get_elem?-set [] i v a h = cc
get_elem?-set (x ∷ xs) zero v a h = refl
get_elem?-set (x ∷ xs) (suc i) v a h = get_elem?-set xs i v a h

abbrev newcomer : PutAppendArgs → List ClientAckTime
newcomer args = record { ack_id = args.transaction_id; value_buffer = "" } ∷ []

-- A request of another client leaves the record of client `i`.
put-Others :
    (kv : KvServer) (args : PutAppendArgs) (o : Option ℕ) (i : ℕ) (c : ClientAckTime)
    → args.client_id ≡ o
    → o ≢ some i
    → get_elem? kv.ack_time i ≡ some c
    → get_elem? (after kv (put kv args)).ack_time i ≡ some c
unfolding put new_client
put-Others kv args none i c e apart h =
    ground (arith, e, get_elem?-append kv.ack_time (newcomer args) i c h)
put-Others kv args (some j) i c e apart h =
    let d : j ≢ i = λ q. apart (ap some q) in
    elim (Option-cases (get_elem? kv.ack_time j)) [
      | inl missing ↦ ground (arith, e, missing, h)
      | inr (cj, found) ↦
          let v = record cj { ack_id = 1 + cj.ack_id } in
          ground (arith, e, found, h, get_elem?-set_ne kv.ack_time {i = j} {j = i} v d)
    ]

append-Others :
    (kv : KvServer) (args : PutAppendArgs) (o : Option ℕ) (i : ℕ) (c : ClientAckTime)
    → args.client_id ≡ o
    → o ≢ some i
    → get_elem? kv.ack_time i ≡ some c
    → get_elem? (after kv (append kv args)).ack_time i ≡ some c
unfolding append new_client
append-Others kv args none i c e apart h =
    ground (arith, e, get_elem?-append kv.ack_time (newcomer args) i c h)
append-Others kv args (some j) i c e apart h =
    let d : j ≢ i = λ q. apart (ap some q) in
    elim (Option-cases (get_elem? kv.ack_time j)) [
      | inl missing ↦ ground (arith, e, missing, h)
      | inr (cj, found) ↦
          let v : ClientAckTime = record {
            ack_id = 1 + cj.ack_id;
            value_buffer = value_at kv args.key;
          } in
          ground (arith, e, found, h, get_elem?-set_ne kv.ack_time {i = j} {j = i} v d)
    ]

pub serve_all-Others :
    (kv : KvServer) (rs : List Request) (i : ℕ) (c : ClientAckTime)
    → Others i rs
    → get_elem? kv.ack_time i ≡ some c
    → get_elem? (serve_all kv rs).ack_time i ≡ some c
unfolding serve_all serve
serve_all-Others kv [] i c o h = h
serve_all-Others kv (put_request args ∷ rs) i c (apart, o) h =
    serve_all-Others (after kv (put kv args)) rs i c o
      (put-Others kv args args.client_id i c refl apart h)
serve_all-Others kv (append_request args ∷ rs) i c (apart, o) h =
    serve_all-Others (after kv (append kv args)) rs i c o
      (append-Others kv args args.client_id i c refl apart h)

-- What a first append does, and the record that it leaves.
pub append_first :
    (kv : KvServer) (args : PutAppendArgs) (i : ℕ) (c : ClientAckTime)
    → args.client_id ≡ some i
    → get_elem? kv.ack_time i ≡ some c
    → args.transaction_id ≡ c.ack_id
    → (kv1 : KvServer) × (append kv args
        ≡ some (
          kv1,
          record { value = value_at kv args.key; client_id = i; ack_id = 1 + args.transaction_id },
        ))
      × (get_elem? kv1.ack_time i
          ≡ some (record { ack_id = 1 + args.transaction_id; value_buffer = value_at kv args.key }))
      × (kv1.key_value ≡ insert args.key (concat (value_at kv args.key) args.value) kv.key_value)
unfolding append
append_first kv args i c e found first = (
  record kv {
    ack_time =
        set kv.ack_time i (record { ack_id = 1 + c.ack_id; value_buffer = value_at kv args.key });
    key_value = insert args.key (concat (value_at kv args.key) args.value) kv.key_value;
  },
  ground (arith, e, found, first),
  ground (
    arith,
    first,
    get_elem?-set kv.ack_time i
        (record { ack_id = 1 + c.ack_id; value_buffer = value_at kv args.key }) c found,
  ),
  refl,
)

pub append_repeated :
    (kv : KvServer) (args : PutAppendArgs) (i : ℕ) (value : String)
    → args.client_id ≡ some i
    → get_elem? kv.ack_time i
      ≡ some (record { ack_id = 1 + args.transaction_id; value_buffer = value })
    → append kv args
      ≡ some (kv, record { value = value; client_id = i; ack_id = 1 + args.transaction_id })
unfolding append
append_repeated kv args i value e found = ground (arith, e, found)

-- An append that a client sends with the identifier that the server expects is answered; when it is
-- sent again, after any requests of other clients, the server gives the same answer, the value from
-- before the first one, and changes nothing.
pub append_twice :
    (kv : KvServer) (args : PutAppendArgs) (i : ℕ) (c : ClientAckTime) (rs : List Request)
    → args.client_id ≡ some i
    → get_elem? kv.ack_time i ≡ some c
    → args.transaction_id ≡ c.ack_id
    → Others i rs
    → (kv1 : KvServer) × (r : PutAppendReply) × (append kv args ≡ some (kv1, r))
      × (r.value ≡ value_at kv args.key)
      × (append (serve_all kv1 rs) args ≡ some (serve_all kv1 rs, r))
append_twice kv args i c rs e found first o =
    let (kv1, done, left, stored) = append_first kv args i c e found first in
    (
      kv1,
      record { value = value_at kv args.key; client_id = i; ack_id = 1 + args.transaction_id },
      done,
      refl,
      append_repeated (serve_all kv1 rs) args i (value_at kv args.key) e
          (serve_all-Others kv1 rs i _ o left),
    )
