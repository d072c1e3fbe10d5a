-- ===== src/Kv/Clerk.antt =====
-- The clerk, lec-2025/src/kvraft1/client.go. The network decides the results of `Call`: the loops
-- run over the list of results, a reply or `none` for a call that returned false, and give `none`
-- when the list is over and the clerk would go on.
use mit.Base.{
  ℕ, ◌+◌, ◌%◌, String, Bool, true, false, ◌&&◌, Option, none, some, List, [], ◌∷◌, length,
  if◌then◌else◌,
}
use mit.Rpc.{Err, is_version, is_wrong_leader, PutReply, GetReply}

pub record Clerk : Type 0 where
  pub servers : List String
  pub last_leader : Option ℕ

unfoldable pub make_clerk : List String → Clerk
make_clerk servers = record { servers = servers; last_leader = none }

-- `i := ck.lastLeader; if i == -1 { i = 0 }`.
abbrev pub first_try : Clerk → ℕ
first_try ck = elim ck.last_leader [ none ↦ 0 | some i ↦ i ]

abbrev pub settled : Clerk → ℕ → Clerk
settled ck i = record ck { last_leader = some i }

unfoldable pub get_loop : Clerk → ℕ → List (Option GetReply) → Option (Clerk × GetReply)
get_loop ck i [] = none
get_loop ck i (none ∷ rest) = get_loop ck ((i + 1) % length ck.servers) rest
get_loop ck i (some reply ∷ rest) =
    let again = get_loop ck ((i + 1) % length ck.servers) rest in
    if is_wrong_leader reply.err then again else some (settled ck i, reply)

unfoldable pub get : Clerk → List (Option GetReply) → Option (Clerk × GetReply)
unfolding get_loop
get ck results = get_loop ck (first_try ck) results

-- The error that `Put` returns for a reply: a version error is uncertain on a resend.
abbrev pub put_result : Bool → Err → Err
put_result is_resend e = if is_resend && is_version e then Err.maybe else e

unfoldable pub put_loop : Clerk → ℕ → Bool → List (Option PutReply) → Option (Clerk × Err)
put_loop ck i is_resend [] = none
put_loop ck i is_resend (none ∷ rest) = put_loop ck ((i + 1) % length ck.servers) true rest
put_loop ck i is_resend (some reply ∷ rest) =
    let again = put_loop ck ((i + 1) % length ck.servers) true rest in
    if is_wrong_leader reply.err then again else some (settled ck i, put_result is_resend reply.err)

unfoldable pub put : Clerk → List (Option PutReply) → Option (Clerk × Err)
unfolding put_loop
put ck results = put_loop ck (first_try ck) false results
