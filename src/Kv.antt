-- ===== src/Kv.antt =====
-- The replicated key/value server, lec-2025/src/kvraft1/server.go: `DoOp`, snapshots, and the RPC
-- handlers above `Submit`. What is proved is in the modules below.
pub mod Model
pub mod Clerk
pub mod Rounds
pub mod Once
pub mod Tests
use mit.Base.{
  ℕ, ◌+◌, ◌%◌, ◌^◌, ◌==◌, String, Bool, true, false, Option, none, some, List, [], ◌∷◌,
  if◌then◌else◌,
}
use mit.Base.Assoc.{Map, lookup, insert, string_eq}
use mit.Rpc.{Err, is_ok, PutArgs, PutReply, GetArgs, GetReply}
use mit.Raft.State.{Bytes}

pub record ValueEntry : Type 0 where
  pub value : String
  pub version : ℕ

-- entry.Version + 1 on uint64.
abbrev pub next_version : ℕ → ℕ
next_version v = (v + 1) % 2 ^ 64

pub record KvServer : Type 0 where
  pub me : ℕ
  pub dead : Bool
  pub key_value : Map String ValueEntry

-- The dynamic types that the switch of `DoOp` tells apart; a leader passes the pointer that its RPC
-- handler got, the other peers the decoded value.
pub data Req : Type 0 where
  get_pointer : GetArgs → Req
  put_pointer : PutArgs → Req
  get_value : GetArgs → Req
  put_value : PutArgs → Req
  other : Req

-- `fatal` is the exit of log.Fatalf.
pub data Reply : Type 0 where
  get_reply : GetReply → Reply
  put_reply : PutReply → Reply
  fatal : Reply

abbrev pub found : Option ValueEntry → GetReply
found none = record { value = ""; version = 0; err = Err.no_key }
found (some entry) = record { value = entry.value; version = entry.version; err = Err.ok }

unfoldable pub do_get : Map String ValueEntry → GetArgs → GetReply
do_get m req = found (lookup req.key m)

abbrev put_entry :
    Map String ValueEntry → PutArgs → Option ValueEntry → Map String ValueEntry × PutReply
put_entry m req none =
    if req.version == 0
    then (insert req.key (record { value = req.value; version = 1 }) m, record { err = Err.ok })
    else (m, record { err = Err.version })
put_entry m req (some entry) =
    if req.version == entry.version
    then (
      insert req.key (record { value = req.value; version = next_version entry.version }) m,
      record { err = Err.ok },
    )
    else (m, record { err = Err.version })

unfoldable pub do_put : Map String ValueEntry → PutArgs → Map String ValueEntry × PutReply
do_put m req = put_entry m req (lookup req.key m)

abbrev after_put : KvServer → Map String ValueEntry × PutReply → KvServer × Reply
after_put kv (m, reply) = (record kv { key_value = m }, put_reply reply)

unfoldable pub do_op : KvServer → Req → KvServer × Reply
do_op kv (get_pointer req) = (kv, get_reply (do_get kv.key_value req))
do_op kv (put_pointer req) = after_put kv (do_put kv.key_value req)
do_op kv (get_value req) = (kv, get_reply (do_get kv.key_value req))
do_op kv (put_value req) = after_put kv (do_put kv.key_value req)
do_op kv other = (kv, fatal)

-- labgob's encoding of the map is a parameter, as encoding/gob is not in the repository.
pub record MapGob : Type 0 where
  pub encode : Map String ValueEntry → Bytes
  pub decode : Bytes → Option (Map String ValueEntry)

unfoldable pub snapshot : MapGob → KvServer → Bytes
snapshot gob kv = gob.encode kv.key_value

abbrev restored : KvServer → Option (Map String ValueEntry) → KvServer
restored kv none = kv
restored kv (some m) = record kv { key_value = m }

unfoldable pub restore : MapGob → KvServer → Bytes → KvServer
restore gob kv [] = kv
restore gob kv (b ∷ bytes) = restored kv (gob.decode (b ∷ bytes))

-- The handlers, from what `Submit` returns: an error, and the reply of `DoOp` if there is one.
abbrev fill_get : Err → Option Reply → GetReply
fill_get Err.ok (some (get_reply r)) = r
fill_get e _ = record { value = ""; version = 0; err = e }

abbrev fill_put : Err → Option Reply → PutReply
fill_put Err.ok (some (put_reply r)) = r
fill_put e _ = record { err = e }

unfoldable pub get : Err × Option Reply → GetReply
get (e, value) = fill_get e value

unfoldable pub put : Err × Option Reply → PutReply
put (e, value) = fill_put e value

unfoldable pub start_kv_server : ℕ → KvServer
start_kv_server me = record { me = me; dead = false; key_value = [] }
