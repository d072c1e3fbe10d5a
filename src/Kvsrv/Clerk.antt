-- ===== src/Kvsrv/Clerk.antt =====
-- The clerk of the key/value server, src/kvsrv/client.go. The loops run over the results of `Call`, a
-- reply or `none` for false, and give `none` when the clerk would go on.
use mit.Base.{ℕ, ◌+◌, ◌==◌, String, Option, none, some, List, [], ◌∷◌, if◌then◌else◌}
use mit.Kvsrv.{PutAppendType, PutAppendArgs, PutAppendReply, GetArgs, GetReply}

-- `client_id` is none for -1.
pub record Clerk : Type 0 where
  pub client_id : Option ℕ
  pub transaction_id : ℕ

unfoldable pub make_clerk : Clerk
make_clerk = record { client_id = none; transaction_id = 0 }

abbrev pub get_args : Clerk → String → GetArgs
get_args ck key = record { key = key; client_id = ck.client_id; transaction_id = ck.transaction_id }

unfoldable pub get : List (Option GetReply) → Option String
get [] = none
get (none ∷ rest) = get rest
get (some reply ∷ rest) = some reply.value

abbrev pub args_of : Clerk → PutAppendType → String → String → PutAppendArgs
args_of ck op key value = record {
  key = key;
  value = value;
  put_or_append = op;
  client_id = ck.client_id;
  transaction_id = ck.transaction_id;
}

-- A first reply gives the clerk its identifier; one whose acknowledgment is next ends the loop.
unfoldable pub put_append : Clerk → List (Option PutAppendReply) → Option (Clerk × String)
put_append ck [] = none
put_append ck (none ∷ rest) = put_append ck rest
put_append ck (some reply ∷ rest) =
    let named = put_append (record ck { client_id = some reply.client_id }) rest in
    let again = put_append ck rest in
    elim ck.client_id [
      | none ↦ named
      | some i ↦
          if ck.transaction_id + 1 == reply.ack_id
          then some (record ck { transaction_id = reply.ack_id }, reply.value)
          else again
    ]
