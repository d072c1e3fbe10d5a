-- ===== src/Kvsrv/Tests.antt =====
-- The theorems on the key/value server of src/kvsrv/server.go at two clients.
use mit.Base.{ℕ, ◌≡◌, refl, true, false, none, some, List, [], ◌∷◌}
use mit.Kvsrv.{KvServer, PutAppendType, PutAppendArgs, PutAppendReply, value_at, append}
use mit.Kvsrv.Model.{
  Call, get_call, put_call, append_call, partition, model_run, serve_all as served,
  serve_all-model_run,
}
use mit.Kvsrv.Clerk.{Clerk, args_of, put_append}
use mit.Kvsrv.Once.{Lost, AllOthers, exchange, results, Appends, append_once}
use mit.Kvsrv.Repeat.{Request, append_request, put_request, Others, serve_all, append_twice}

abbrev two_clients : KvServer
two_clients = record {
  key_value = ("k", "x") ∷ [];
  ack_time =
      record { ack_id = 4; value_buffer = "" } ∷ record { ack_id = 0; value_buffer = "" } ∷ [];
  len_ack_time = 2;
}

abbrev request : ℕ → ℕ → PutAppendArgs
request i n = record {
  key = "k";
  value = "y";
  put_or_append = PutAppendType.appendtype;
  client_id = some i;
  transaction_id = n;
}

abbrev others : List Request
others = put_request (request 1 0) ∷ append_request (request 1 1) ∷ []

others-Others : Others 0 others
others-Others = (λ e. cc, (λ e. cc, tt))

append_twice_example :
    (kv1 : KvServer) × (r : PutAppendReply) × (append two_clients (request 0 4) ≡ some (kv1, r))
    × (r.value ≡ value_at two_clients "k")
    × (append (serve_all kv1 others) (request 0 4) ≡ some (serve_all kv1 others, r))
append_twice_example =
    append_twice two_clients (request 0 4) 0 (record { ack_id = 4; value_buffer = "" }) others refl
      refl refl others-Others

abbrev clerk : Clerk
clerk = record { client_id = some 0; transaction_id = 4 }

-- A request that does not arrive, and one whose reply is lost.
abbrev failed : List Lost
failed = (put_request (request 1 0) ∷ [], false) ∷ ([], true) ∷ []

failed-AllOthers : AllOthers 0 failed
failed-AllOthers = ((λ e. cc, tt), (tt, tt))

append_once_example :
    let args = args_of clerk PutAppendType.appendtype "k" "y" in
    let rs = append_request (request 1 1) ∷ [] in
    (kv' : KvServer) × (reply : PutAppendReply) × (exchange two_clients args failed rs
      ≡ some (kv', reply))
    × (put_append clerk (results failed reply)
        ≡ some (record clerk { transaction_id = 5 }, reply.value))
    × Appends two_clients args failed rs (reply.value ∷ [])
append_once_example =
    append_once two_clients clerk 0 (record { ack_id = 4; value_buffer = "" }) "k" "y" failed
      (append_request (request 1 1) ∷ []) refl refl refl failed-AllOthers (λ e. cc, tt)

-- A resent append among the requests.
abbrev requests : List Call
requests =
    append_call (request 0 4)
    ∷ append_call (request 0 4)
    ∷ put_call (request 1 0)
    ∷ get_call (record { key = "k"; client_id = none; transaction_id = 0 })
    ∷ []

serve_all-model_run_example :
    model_run (value_at two_clients "k") (partition "k" (served two_clients requests).1)
    ≡ some (value_at (served two_clients requests).0 "k")
serve_all-model_run_example = serve_all-model_run "k" two_clients requests
