-- ===== src/Rpc.antt =====
-- The errors and the messages of the key/value services, lec-2025/src/kvsrv1/rpc/rpc.go.
-- Strings are Go's strings; a version is a uint64.
use mit.Base.{ℕ, String, Bool, true, false}

-- The strings of type `Err`; `blank` is the empty one, that of a reply not yet filled in.
pub data Err : Type 0 where
  blank ok no_key version maybe wrong_leader wrong_group : Err

abbrev pub is_ok : Err → Bool
is_ok Err.ok = true
is_ok _ = false

abbrev pub is_version : Err → Bool
is_version Err.version = true
is_version _ = false

abbrev pub is_maybe : Err → Bool
is_maybe Err.maybe = true
is_maybe _ = false

abbrev pub is_wrong_leader : Err → Bool
is_wrong_leader Err.wrong_leader = true
is_wrong_leader _ = false

abbrev pub is_wrong_group : Err → Bool
is_wrong_group Err.wrong_group = true
is_wrong_group _ = false

pub record PutArgs : Type 0 where
  pub key : String
  pub value : String
  pub version : ℕ

pub record PutReply : Type 0 where
  pub err : Err

pub record GetArgs : Type 0 where
  pub key : String

pub record GetReply : Type 0 where
  pub value : String
  pub version : ℕ
  pub err : Err
