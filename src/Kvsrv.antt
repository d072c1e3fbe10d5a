-- ===== src/Kvsrv.antt =====
-- The key/value server of src/kvsrv/server.go, which tells a repeated request by the identifier that
-- it expects next from the client. What is proved is in the modules below.
pub mod Repeat
pub mod Clerk
pub mod Once
pub mod Model
pub mod Tests
use mit.Base.{
  ℕ, ◌+◌, ◌==◌, String, Bool, true, false, Option, none, some, List, [], ◌∷◌, ◌++◌, length,
  get_elem?, set, if◌then◌else◌,
}
use Prim.Native.String.{◌++◌ as concat}
use mit.Base.Assoc.{Map, lookup, insert, string_eq}

pub record ClientAckTime : Type 0 where
  pub ack_id : ℕ
  pub value_buffer : String

pub record KvServer : Type 0 where
  pub key_value : Map String String
  pub ack_time : List ClientAckTime
  pub len_ack_time : ℕ

pub data PutAppendType : Type 0 where
  puttype appendtype : PutAppendType

-- The client identifier is `none` for the -1 of a client that has none yet.
pub record PutAppendArgs : Type 0 where
  pub key : String
  pub value : String
  pub put_or_append : PutAppendType
  pub client_id : Option ℕ
  pub transaction_id : ℕ

pub record PutAppendReply : Type 0 where
  pub value : String
  pub client_id : ℕ
  pub ack_id : ℕ

pub record GetArgs : Type 0 where
  pub key : String
  pub client_id : Option ℕ
  pub transaction_id : ℕ

-- `Get` leaves the last field at 0.
pub record GetReply : Type 0 where
  pub value : String
  pub client_id : Option ℕ
  pub ack_id : ℕ

-- value, ok := kv.KeyValue[key], with "" for a missing key.
abbrev pub value_at : KvServer → String → String
value_at kv key = elim (lookup key kv.key_value) [ none ↦ "" | some v ↦ v ]

unfoldable pub new_client : KvServer → ℕ → KvServer × ℕ
new_client kv transaction_id = (
  record kv {
    len_ack_time = 1 + kv.len_ack_time;
    ack_time = kv.ack_time ++ (record { ack_id = transaction_id; value_buffer = "" } ∷ []);
  },
  kv.len_ack_time,
)

unfoldable pub get : KvServer → GetArgs → GetReply
get kv args = record { value = value_at kv args.key; client_id = args.client_id; ack_id = 0 }

-- The answer to a client without an identifier.
abbrev welcome : PutAppendArgs → KvServer × ℕ → KvServer × PutAppendReply
welcome args (kv, client_id) =
    (kv, record { value = ""; client_id = client_id; ack_id = args.transaction_id })

abbrev pub put_for :
    KvServer → PutAppendArgs → ℕ → Option ClientAckTime → Option (KvServer × PutAppendReply)
put_for kv args i none = none
put_for kv args i (some c) =
    if args.transaction_id == c.ack_id
    then some (
      record kv {
        ack_time = set kv.ack_time i (record c { ack_id = 1 + c.ack_id });
        key_value = insert args.key args.value kv.key_value;
      },
      record { value = value_at kv args.key; client_id = i; ack_id = 1 + c.ack_id },
    )
    else some (kv, record { value = c.value_buffer; client_id = i; ack_id = c.ack_id })

abbrev pub append_for :
    KvServer → PutAppendArgs → ℕ → Option ClientAckTime → Option (KvServer × PutAppendReply)
append_for kv args i none = none
append_for kv args i (some c) =
    if args.transaction_id == c.ack_id
    then some (
      record kv {
        ack_time =
            set kv.ack_time i
              (record { ack_id = 1 + c.ack_id; value_buffer = value_at kv args.key });
        key_value = insert args.key (concat (value_at kv args.key) args.value) kv.key_value;
      },
      record { value = value_at kv args.key; client_id = i; ack_id = 1 + c.ack_id },
    )
    else some (kv, record { value = c.value_buffer; client_id = i; ack_id = c.ack_id })

-- `none` for the panic on a client identifier that was never given.
unfoldable pub put : KvServer → PutAppendArgs → Option (KvServer × PutAppendReply)
unfolding new_client
put kv args = elim args.client_id [
  | none ↦ some (welcome args (new_client kv args.transaction_id))
  | some i ↦ put_for kv args i (get_elem? kv.ack_time i)
]

unfoldable pub append : KvServer → PutAppendArgs → Option (KvServer × PutAppendReply)
unfolding new_client
append kv args = elim args.client_id [
  | none ↦ some (welcome args (new_client kv args.transaction_id))
  | some i ↦ append_for kv args i (get_elem? kv.ack_time i)
]

unfoldable pub start_kv_server : KvServer
start_kv_server = record { key_value = []; ack_time = []; len_ack_time = 0 }
