-- ===== src/Kv/Tests.antt =====
-- The theorems on the key/value server and its clerk (lec-2025/src/kvraft1) at concrete requests.
use mit.Base.{ℕ, ◌≤◌, ◌≤◌, ◌≡◌, true, false, some, List, [], ◌∷◌, arith}
use mit.Base.Assoc.{lookup}
use mit.Rpc.{Err, PutArgs}
use mit.Kv.{Req, get_value, put_pointer, put_value, start_kv_server}
use mit.Kv.Model.{state_of, partition, model_run, serve, serve-model_run}
use mit.Kv.Clerk.{Clerk, make_clerk, put}
use mit.Kv.Rounds.{Fate, lost, unseen, results, Changes}
use mit.Kv.Once.{Outcome, put_once}

abbrev first_put : PutArgs
first_put = record { key = "k"; value = "a"; version = 0 }

abbrev second_put : PutArgs
second_put = record { key = "k"; value = "b"; version = 1 }

abbrev requests : List Req
requests =
    put_pointer first_put
    ∷ get_value (record { key = "k" })
    ∷ put_value second_put
    ∷ put_value second_put
    ∷ get_value (record { key = "none" })
    ∷ []

serve-model_run_example :
    let (last, history) = serve (start_kv_server 0) requests in
    model_run (state_of (start_kv_server 0).key_value "k") (partition "k" history)
    ≡ some (state_of last.key_value "k")
serve-model_run_example = serve-model_run (start_kv_server 0) requests "k"

abbrev clerk : Clerk
clerk = make_clerk ("s0" ∷ "s1" ∷ "s2" ∷ [])

-- The first request is lost, and the reply to the second is.
abbrev fates : List Fate
fates = lost [] true ∷ unseen (put_value first_put ∷ []) false ∷ []

put_once_example :
    (c : Clerk) × (e : Err) × (put clerk (results (start_kv_server 0) second_put fates [])
      ≡ some (c, e))
    × (n : ℕ) × Changes (start_kv_server 0) second_put fates [] n
    × (n ≤ 1)
    × Outcome e n fates
unfolding start_kv_server lookup
put_once_example = put_once clerk (start_kv_server 0) second_put fates [] (omega arith)
