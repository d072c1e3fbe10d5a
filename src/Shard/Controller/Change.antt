-- ===== src/Shard/Controller/Change.antt =====
-- `ChangeConfigTo`, `InitConfig` and `InitController` of
-- lec-2025/src/shardkv1/shardctrler/shardctrler.go, for a controller that works alone.
use mathlib.Core.Path.{subst}
use mit.Base.{
  ℕ, ◌<◌, ◌≡◌, ◌≢◌, refl, ◌∙◌, ap, sym, leb, if◌then◌else◌, false, String, none, some, arith,
}
use mit.Base.Assoc.{Map, lookup, insert, lookup-insert, string_eq, beq_refl}
use mit.Rpc.{Err, GetReply, PutArgs}
use mit.Kv.{ValueEntry, do_get, do_put, next_version}
use mit.Shard.Key.{n_shards}
use mit.Shard.Config.{ShardConfig}
use mit.Shard.Controller.{
  value, ◌>>=◌, Codec, Services, config_key, change_config_to, complete, migrate_loop, change_from,
  change_put, change_saved, change_again,
}
use mit.Shard.Controller.Keys.{Current, key_apart, config_apart}
use mit.Shard.Controller.Alone.{IsStore, query_lem}

-- After a successful put of this entry at a key that the map has at this version.
pub put_new :
    (m : Map String ValueEntry) (key v : String)
    → lookup key m ≡ none
    → do_put m (record { key = key; value = v; version = 0 })
      ≡ (insert key (record { value = v; version = 1 }) m, record { err = Err.ok })
unfolding do_put
put_new m key v h = ground (arith, h)

put_over :
    (m : Map String ValueEntry) (key v : String) (e : ValueEntry)
    → lookup key m ≡ some e
    → do_put m (record { key = key; value = v; version = e.version }) ≡ (
      insert key (record { value = v; version = next_version e.version }) m,
      record { err = Err.ok },
    )
unfolding do_put
put_over m key v e h = ground (arith, h)

module _ (codec : Codec) (m : Map String ValueEntry) where
  -- The pointer moves to a configuration that is stored.
  pub Current-latest :
      (c : ShardConfig) (e : ValueEntry) (version : ℕ)
      → lookup (config_key (codec.sprint c.num)) m ≡ some e
      → codec.unmarshal e.value ≡ some c
      → Current codec
          (insert "latest" (record { value = codec.sprint c.num; version = version }) m)
          c
  Current-latest c e version there decodes = record {
    latest = record { value = codec.sprint c.num; version = version };
    entry = e;
    points = ground (
      arith,
      lookup-insert "latest" "latest" (record { value = codec.sprint c.num; version = version }) m,
      beq_refl {K = String} "latest",
    );
    number = refl;
    there =
        lookup-insert "latest" (config_key (codec.sprint c.num))
          (record { value = codec.sprint c.num; version = version }) m
        ∙ ground (arith, key_apart (codec.sprint c.num), there);
    decodes = decodes;
  }

  -- Another configuration is stored.
  Current-config :
      ((n : ℕ) → codec.atoi (codec.sprint n) ≡ n)
      → (c : ShardConfig) (n : ℕ) (e : ValueEntry) → n ≢ c.num
      → Current codec m c
      → Current codec (insert (config_key (codec.sprint n)) e m) c
  Current-config number c n e other cur =
      let key = config_key (codec.sprint n) in
      record {
        latest = cur.latest;
        entry = cur.entry;
        points =
            lookup-insert key "latest" e m
            ∙ ground (
              arith,
              key_apart (codec.sprint n),
              string_eq.beq_iff key "latest",
              string_eq.beq_iff "latest" key,
              cur.points,
            );
        number = cur.number;
        there =
            lookup-insert key (config_key (codec.sprint c.num)) e m
            ∙ ground (arith, config_apart codec number n c.num other, cur.there);
        decodes = cur.decodes;
      }

module _ {W : Type 0} (codec : Codec) (env : Services W) (store : W → Map String ValueEntry)
    (stores : IsStore env store) where
  -- What a read of the pointer gives.
  abbrev pointer : (c : ShardConfig) → ℕ → GetReply
  pointer c version = record { value = codec.sprint c.num; version = version; err = Err.ok }

  pub get_latest :
      (w : W) (c : ShardConfig) (cur : Current codec (store w) c)
      → env.get w (record { key = "latest" }) ≡ (w, pointer c cur.latest.version)
  unfolding do_get
  get_latest w c cur =
      let a = stores.gets w (record { key = "latest" }) in ground (arith, a, cur.points, cur.number)

  pub put_ok :
      (w : W) (a : PutArgs) (m : Map String ValueEntry)
      → do_put (store w) a ≡ (m, record { err = Err.ok })
      → (env.put w a ≡ ((env.put w a).0, Err.ok)) × (store (env.put w a).0 ≡ m)
  put_ok w a m e = (
    ap (λ e. ((env.put w a).0, e)) (stores.put_errs w a ∙ ap (λ p. p.1.err) e),
    stores.puts w a ∙ ap (λ p. p.0) e,
  )

  -- The loop over the shards ends with `Q` if it starts with `P`.
  abbrev pub Moves : (W → Type 0) → (W → Type 0) → ShardConfig → ShardConfig → Type 0
  Moves P Q old new =
      (w : W)
      → Current codec (store w) old
      → P w
      → (w' : W) × (migrate_loop codec env n_shards 0 w old new ≡ value w')
        × (store w' ≡ store w)
        × Q w'

  module _ (P Q : W → Type 0) (put_P : (w : W) (a : PutArgs) → P w → P (env.put w a).0)
      (put_Q : (w : W) (a : PutArgs) → Q w → Q (env.put w a).0) (old new : ShardConfig)
      (moves : Moves P Q old new) where
    -- The shards move, then the pointer.
    pub complete_lem :
        (w : W) (e : ValueEntry) (cur : Current codec (store w) old)
        → P w
        → lookup (config_key (codec.sprint new.num)) (store w) ≡ some e
        → codec.unmarshal e.value ≡ some new
        → (w' : W) × (complete codec env old new (codec.sprint new.num) cur.latest.version w
            ≡ value w')
          × (Current codec (store w') new)
          × Q w'
    complete_lem w e cur p there decodes =
        let (w1, e1, s1, q) = moves w cur p in
        let a : PutArgs = record {
          key = "latest";
          value = codec.sprint new.num;
          version = cur.latest.version;
        } in
        let over =
          put_over (store w1) "latest" (codec.sprint new.num) cur.latest
            (ap (lookup "latest") s1 ∙ cur.points) in
        let (same, s2) = put_ok w1 a _ over in
        (
          (env.put w1 a).0,
          ap (λ r. r >>= λ w'. value (env.put w' a).0) e1,
          subst (λ m. Current codec m new) (sym s2)
              (Current-latest codec (store w1) new e (next_version cur.latest.version)
                (ap (lookup (config_key (codec.sprint new.num))) s1 ∙ there) decodes),
          put_Q w1 a q,
        )

  module _ (number : (n : ℕ) → codec.atoi (codec.sprint n) ≡ n) where
    -- Nothing has changed since the configuration was stored.
    change_saved_lem :
        (w : W) (old new : ShardConfig) (cur : Current codec (store w) old)
        → old.num < new.num
        → change_saved codec env old new (env.get w (record { key = "latest" }))
          ≡ complete codec env old new (codec.sprint new.num) cur.latest.version w
    change_saved_lem w old new cur h =
        let r = pointer old cur.latest.version in
        ap (change_saved codec env old new) (get_latest w old cur)
        ∙ ap (change_again codec env old new r) (get_latest w old cur)
        ∙ ground (arith, number old.num, h)

    module _ (P Q : W → Type 0) (put_P : (w : W) (a : PutArgs) → P w → P (env.put w a).0)
        (put_Q : (w : W) (a : PutArgs) → Q w → Q (env.put w a).0) (old new : ShardConfig)
        (moves : Moves P Q old new) where
      pub change_new :
          (w : W)
          → Current codec (store w) old
          → P w
          → old.num < new.num
          → lookup (config_key (codec.sprint new.num)) (store w) ≡ none
          → codec.unmarshal (codec.marshal new) ≡ some new
          → (w' : W) × (change_config_to codec env w new ≡ value w')
            × (Current codec (store w') new)
            × Q w'
      unfolding change_config_to
      change_new w cur p h absent decodes =
          let key = config_key (codec.sprint new.num) in
          let a : PutArgs = record { key = key; value = codec.marshal new; version = 0 } in
          let e : ValueEntry = record { value = codec.marshal new; version = 1 } in
          let (same, s1) = put_ok w a _ (put_new (store w) key (codec.marshal new) absent) in
          let w1 = (env.put w a).0 in
          let cur1 =
            subst (λ m. Current codec m old) (sym s1)
              (Current-config codec (store w) number old new.num e (omega (arith, h)) cur) in
          let there : lookup key (store w1) ≡ some e =
            ap (lookup key) s1
            ∙ lookup-insert key key e (store w)
            ∙ ground (arith, beq_refl {K = String} key) in
          let (w2, e2, cur2, q) =
            complete_lem P Q put_P put_Q old new moves w1 e cur1 (put_P w a p) there decodes in
          let low : leb new.num old.num ≡ false = ground (arith, h) in
          (
            w2,
            ap (λ r. r >>= change_from codec env new) (query_lem codec env store stores w old cur)
                ∙ ap (λ b. if b then value w else change_put codec env old new (env.put w a)) low
                ∙ ap (change_put codec env old new) same
                ∙ change_saved_lem w1 old new cur1 h
                ∙ e2,
            cur2,
            q,
          )
