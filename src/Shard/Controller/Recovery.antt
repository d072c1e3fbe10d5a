-- ===== src/Shard/Controller/Recovery.antt =====
-- The first configuration, and the recovery of a change that a controller left unfinished: `InitConfig`
-- and `InitController` of lec-2025/src/shardkv1/shardctrler/shardctrler.go.
use mathlib.Core.Path.{subst}
use mit.Base.{
  ℕ, zero, suc, ◌+◌, ◌<◌, ◌≡◌, ◌≢◌, ◌∙◌, ap, sym, inl, inr, Option-cases, String, Option, none,
  some, arith,
}
use mit.Base.Assoc.{Map, lookup, lookup-insert, string_eq, beq_refl}
use mit.Rpc.{PutArgs}
use mit.Kv.{ValueEntry, do_get}
use mit.Shard.Config.{ShardConfig}
use mit.Shard.Controller.{
  value, ◌>>=◌, Codec, Services, config_key, query, init_config, complete, find_pending,
  init_controller, recover, recover_new, recover_old, recover_with, recover_latest,
}
use mit.Shard.Controller.Keys.{Current, key_apart}
use mit.Shard.Controller.Alone.{IsStore, query_lem}
use mit.Shard.Controller.Change.{put_new, put_ok, Current-latest, get_latest, complete_lem, Moves}

module _ {W : Type 0} (codec : Codec) (env : Services W) (store : W → Map String ValueEntry)
    (stores : IsStore env store) where
  -- `InitConfig` of a controller that works alone, with a configuration and no configuration of its
  -- number and no pointer stored yet: then `Query` gives this configuration, if json gives it back.
  pub init_config-query :
      (w : W) (c : ShardConfig)
      → lookup (config_key (codec.sprint c.num)) (store w) ≡ none
      → lookup "latest" (store w) ≡ none
      → codec.unmarshal (codec.marshal c) ≡ some c
      → query codec env (init_config codec env w c) ≡ value (init_config codec env w c, some c)
  unfolding init_config
  init_config-query w c absent no_pointer decodes =
      let key = config_key (codec.sprint c.num) in
      let a : PutArgs = record { key = key; value = codec.marshal c; version = 0 } in
      let b : PutArgs = record { key = "latest"; value = codec.sprint c.num; version = 0 } in
      let e : ValueEntry = record { value = codec.marshal c; version = 1 } in
      let w1 = (env.put w a).0 in
      let s1 =
        (put_ok codec env store stores w a _ (put_new (store w) key (codec.marshal c) absent)).1 in
      let none1 : lookup "latest" (store w1) ≡ none =
        ap (lookup "latest") s1
        ∙ lookup-insert key "latest" e (store w)
        ∙ ground (
          arith,
          key_apart (codec.sprint c.num),
          string_eq.beq_iff key "latest",
          string_eq.beq_iff "latest" key,
          no_pointer,
        ) in
      let there : lookup key (store w1) ≡ some e =
        ap (lookup key) s1
        ∙ lookup-insert key key e (store w)
        ∙ ground (arith, beq_refl {K = String} key) in
      let s2 =
        (put_ok codec env store stores w1 b _
          (put_new (store w1) "latest" (codec.sprint c.num) none1)).1 in
      query_lem codec env store stores (env.put w1 b).0 c (
        subst (λ m. Current codec m c) (sym s2)
          (Current-latest codec (store w1) c e 1 there decodes))

  abbrev pub stored_at : W → ℕ → Option ValueEntry
  stored_at w n = lookup (config_key (codec.sprint n)) (store w)

  find_there :
      (n number : ℕ) (w : W) (found : Option (ℕ × String)) (e : ValueEntry)
      → stored_at w number ≡ some e
      → find_pending codec env (suc n) number w found
        ≡ find_pending codec env n (number + 1) w (some (number, e.value))
  unfolding find_pending do_get
  find_there n number w found e there =
      let a = stores.gets w (record { key = config_key (codec.sprint number) }) in
      ground (arith, a, there)

  find_absent :
      (n number : ℕ) (w : W) (found : Option (ℕ × String))
      → stored_at w number ≡ none
      → find_pending codec env (suc n) number w found ≡ (w, found)
  unfolding find_pending do_get
  find_absent n number w found absent =
      let a = stores.gets w (record { key = config_key (codec.sprint number) }) in
      ground (arith, a, absent)

  -- The search stops at the last of `k + 1` configurations without a gap.
  find_pending-last :
      (k n number : ℕ) (w : W) (found : Option (ℕ × String)) (e : ValueEntry)
      → k + 1 < n
      → ((j : ℕ) → j < k → stored_at w (number + j) ≢ none)
      → stored_at w (number + k) ≡ some e
      → stored_at w (number + k + 1) ≡ none
      → find_pending codec env n number w found ≡ (w, some (number + k, e.value))
  find_pending-last k zero number w found e small stored there absent =
      absurd (omega (arith, small))
  find_pending-last zero (suc zero) number w found e small stored there absent =
      absurd (omega (arith, small))
  find_pending-last zero (suc (suc n)) number w found e small stored there absent =
      let at : number + zero ≡ number = omega arith in
      find_there (suc n) number w found e (ap (stored_at w) (sym at) ∙ there)
      ∙ find_absent n (number + 1) w (some (number, e.value))
          (ap (λ m. stored_at w (m + 1)) (sym at) ∙ absent)
      ∙ ap (λ m. (w, some (m, e.value))) (sym at)
  find_pending-last (suc k) (suc n) number w found e small stored there absent =
      let at : number + 1 + k ≡ number + suc k = omega arith in
      let first : number + 0 ≡ number = omega arith in
      elim (Option-cases (stored_at w number)) [
        | inl missing ↦ absurd (stored 0 (omega arith) (ap (stored_at w) first ∙ missing))
        | inr (e0, here) ↦
            find_there n number w found e0 here
            ∙ find_pending-last k n (number + 1) w (some (number, e0.value)) e
                (omega (arith, small))
                (λ j h miss.
                  stored (j + 1) (omega (arith, h)) (ap (stored_at w) (omega arith) ∙ miss))
                (ap (stored_at w) at ∙ there) (ap (λ m. stored_at w (m + 1)) at ∙ absent)
            ∙ ap (λ m. (w, some (m, e.value))) at
      ]

  -- A controller starts when a change was left unfinished: the configurations after the current one
  -- are stored without a gap, `k + 1` of them and less than a hundred.
  module _ (P Q : W → Type 0) (put_P : (w : W) (a : PutArgs) → P w → P (env.put w a).0)
      (put_Q : (w : W) (a : PutArgs) → Q w → Q (env.put w a).0) (old new : ShardConfig)
      (moves : Moves codec env store stores P Q old new) where
    pub init_controller_lem :
        (number : (n : ℕ) → codec.atoi (codec.sprint n) ≡ n) (w : W) (k : ℕ) (e : ValueEntry)
        → Current codec (store w) old
        → P w
        → k + 1 < 100
        → new.num ≡ old.num + 1 + k
        → ((j : ℕ) → j < k → stored_at w (old.num + 1 + j) ≢ none)
        → stored_at w (old.num + 1 + k) ≡ some e
        → codec.unmarshal e.value ≡ some new
        → stored_at w (old.num + 1 + k + 1) ≡ none
        → (w' : W) × (init_controller codec env w ≡ value w') × Current codec (store w') new × Q w'
    unfolding init_controller
    init_controller_lem number w k e cur p small next stored there decodes absent =
        let r = get_latest codec env store stores w old cur in
        let version = cur.latest.version in
        let last = find_pending-last k 100 (old.num + 1) w none e small stored there absent in
        let (w', done, cur', q) =
          complete_lem codec env store stores P Q put_P put_Q old new moves w e cur p
            (ap (stored_at w) next ∙ there) decodes in
        (
          w',
          ap (recover_latest codec env) r
              ∙ ap (λ n. recover codec env (find_pending codec env 100 (n + 1) w none))
                  (number old.num)
              ∙ ap (recover codec env) last
              ∙ ap (recover_new codec env (old.num + 1 + k) w) decodes
              ∙ ap (λ q. q >>= recover_old codec env (old.num + 1 + k) new)
                  (query_lem codec env store stores w old cur)
              ∙ ap (recover_with codec env (old.num + 1 + k) new old) r
              ∙ ap (λ n. complete codec env old new (codec.sprint n) version w) (sym next)
              ∙ done,
          cur',
          q,
        )
