-- ===== src/Kvsrv/Once.antt =====
-- An append of the clerk (src/kvsrv/client.go) at the server (src/kvsrv/server.go), over calls that
-- are lost and requests of other clients.
use mathlib.Core.Path.{subst}
use Prim.Native.String.{◌++◌ as concat}
use mit.Base.Assoc.{insert, string_eq}
use mit.Base.{
  refl, sym, ℕ, ◌+◌, ◌≡◌, ◌∙◌, ap, String, Bool, true, false, Option, none, some, List, [], ◌∷◌,
  ◌++◌, get_elem?, arith,
}
use mit.Kvsrv.{ClientAckTime, KvServer, PutAppendArgs, PutAppendReply, appendtype, value_at, append}
use mit.Kvsrv.Repeat.{
  Request, after, serve_all, Others, serve_all-Others, append_first, append_repeated,
}
use mit.Kvsrv.Clerk.{Clerk, args_of, put_append}

-- A call that returned false: what other clients did before it, and whether it reached the server.
abbrev pub Lost : Type 0
Lost = List Request × Bool

-- The last call, with what other clients did before it, is answered.
abbrev pub exchange :
    KvServer → PutAppendArgs → List Lost → List Request → Option (KvServer × PutAppendReply)
exchange kv args [] others = append (serve_all kv others) args
exchange kv args ((rs, true) ∷ lost) others =
    exchange (after (serve_all kv rs) (append (serve_all kv rs) args)) args lost others
exchange kv args ((rs, false) ∷ lost) others = exchange (serve_all kv rs) args lost others

abbrev pub results : List Lost → PutAppendReply → List (Option PutAppendReply)
results [] reply = some reply ∷ []
results (call ∷ lost) reply = none ∷ results lost reply

-- What a call that reaches the server does to it, with the values that the appends found: nothing at
-- all, or one append to the value of the key, which changes no other key.
abbrev pub Acts : KvServer → PutAppendArgs → List String → Type 0
Acts kv args [] = after kv (append kv args) ≡ kv
Acts kv args (v ∷ []) =
    (v ≡ value_at kv args.key)
    × ((after kv (append kv args)).key_value ≡ insert args.key (concat v args.value) kv.key_value)
Acts kv args (v ∷ w ∷ vs) = ⊥

-- The values that the calls found which appended, each call as `Acts` says.
abbrev pub Appends : KvServer → PutAppendArgs → List Lost → List Request → List String → Type 0
Appends kv args [] others vs = Acts (serve_all kv others) args vs
Appends kv args ((rs, false) ∷ lost) others vs = Appends (serve_all kv rs) args lost others vs
Appends kv args ((rs, true) ∷ lost) others vs =
    let kv1 = serve_all kv rs in
    (us : List String) × (ws : List String) × (us ++ ws ≡ vs)
    × Acts kv1 args us
    × Appends (after kv1 (append kv1 args)) args lost others ws

abbrev pub AllOthers : ℕ → List Lost → Type 0
AllOthers i [] = Unit
AllOthers i ((rs, reached) ∷ lost) = Others i rs × AllOthers i lost

-- The record of a client whose append has been carried out.
abbrev done : ℕ → String → ClientAckTime
done t value = record { ack_id = 1 + t; value_buffer = value }

abbrev answer : ℕ → ℕ → String → PutAppendReply
answer i t value = record { value = value; client_id = i; ack_id = 1 + t }

module _ (args : PutAppendArgs) (i : ℕ) (e : args.client_id ≡ some i) where
  -- After the append, every call gets the same answer, and none is carried out.
  exchange-done :
      (kv : KvServer) (value : String) (lost : List Lost) (others : List Request)
      → get_elem? kv.ack_time i ≡ some (done args.transaction_id value)
      → AllOthers i lost
      → Others i others
      → (kv' : KvServer) × (exchange kv args lost others
          ≡ some (kv', answer i args.transaction_id value))
        × Appends kv args lost others []
  exchange-done kv value [] others found o last =
      let found' = serve_all-Others kv others i _ last found in
      (
        serve_all kv others,
        append_repeated (serve_all kv others) args i value e found',
        ap (after (serve_all kv others))
            (append_repeated (serve_all kv others) args i value e found'),
      )
  exchange-done kv value ((rs, false) ∷ lost) others found (o, os) last =
      exchange-done (serve_all kv rs) value lost others (serve_all-Others kv rs i _ o found) os last
  exchange-done kv value ((rs, true) ∷ lost) others found (o, os) last =
      let kv1 = serve_all kv rs in
      let found1 = serve_all-Others kv rs i _ o found in
      let same : after kv1 (append kv1 args) ≡ kv1 =
        ap (after kv1) (append_repeated kv1 args i value e found1) in
      let (kv', x, y) = exchange-done kv1 value lost others found1 os last in
      (
        kv',
        ap (λ k. exchange k args lost others) same ∙ x,
        ([], [], refl, same, subst (λ k. Appends k args lost others []) (sym same) y),
      )

  exchange-once :
      (kv : KvServer) (c : ClientAckTime) (lost : List Lost) (others : List Request)
      → get_elem? kv.ack_time i ≡ some c
      → args.transaction_id ≡ c.ack_id
      → AllOthers i lost
      → Others i others
      → (kv' : KvServer) × (value : String) × (exchange kv args lost others
          ≡ some (kv', answer i args.transaction_id value))
        × Appends kv args lost others (value ∷ [])
  exchange-once kv c [] others found first o last =
      let kv1 = serve_all kv others in
      let found1 = serve_all-Others kv others i c last found in
      let (kv', x, y, z) = append_first kv1 args i c e found1 first in
      (kv', value_at kv1 args.key, x, (refl, ap (λ o. (after kv1 o).key_value) x ∙ z))
  exchange-once kv c ((rs, false) ∷ lost) others found first (o, os) last =
      exchange-once (serve_all kv rs) c lost others (serve_all-Others kv rs i c o found) first os
        last
  exchange-once kv c ((rs, true) ∷ lost) others found first (o, os) last =
      let kv1 = serve_all kv rs in
      let found1 = serve_all-Others kv rs i c o found in
      let (kv2, x, y, z) = append_first kv1 args i c e found1 first in
      let next : after kv1 (append kv1 args) ≡ kv2 = ap (after kv1) x in
      let (kv', a, b) = exchange-done kv2 (value_at kv1 args.key) lost others y os last in
      (
        kv',
        value_at kv1 args.key,
        ap (λ k. exchange k args lost others) next ∙ a,
        (
          value_at kv1 args.key ∷ [],
          [],
          refl,
          (refl, ap (λ k. k.key_value) next ∙ z),
          subst (λ k. Appends k args lost others []) (sym next) b,
        ),
      )

put_append-answered :
    (ck : Clerk) (i : ℕ) (lost : List Lost) (value : String)
    → ck.client_id ≡ some i
    → put_append ck (results lost (answer i ck.transaction_id value))
      ≡ some (record ck { transaction_id = 1 + ck.transaction_id }, value)
unfolding put_append
put_append-answered ck i [] value e = ground (arith, e)
put_append-answered ck i (call ∷ lost) value e = put_append-answered ck i lost value e

-- A clerk that has its identifier appends a value, when the server expects the clerk's next request.
-- Whatever calls fail first, whether they reach the server or not, and whatever other clients do
-- between them, when a call is answered the append returns and the clerk counts its request. Exactly
-- one of the calls that reached the server put the value at the end of the key's, of which it found
-- the value that is returned, and left the other keys; the others left the whole server as it was.
pub append_once :
    (kv : KvServer) (ck : Clerk) (i : ℕ) (c : ClientAckTime) (key value : String) (lost : List Lost)
    (others : List Request)
    → ck.client_id ≡ some i
    → get_elem? kv.ack_time i ≡ some c
    → ck.transaction_id ≡ c.ack_id
    → AllOthers i lost
    → Others i others
    → let args = args_of ck appendtype key value in
      (kv' : KvServer) × (reply : PutAppendReply) × (exchange kv args lost others
        ≡ some (kv', reply))
      × (put_append ck (results lost reply)
          ≡ some (record ck { transaction_id = 1 + ck.transaction_id }, reply.value))
      × Appends kv args lost others (reply.value ∷ [])
append_once kv ck i c key value lost others e found first o last =
    let args = args_of ck appendtype key value in
    let (kv', v, x, y) = exchange-once args i e kv c lost others found first o last in
    (kv', answer i ck.transaction_id v, x, put_append-answered ck i lost v e, y)
