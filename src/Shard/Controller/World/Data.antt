-- ===== src/Shard/Controller/World/Data.antt =====
-- What a change of the configuration leaves to the clerks of the service:
-- lec-2025/src/shardkv1/shardctrler/shardctrler.go with lec-2025/src/shardkv1/client.go.
use mathlib.Core.Path.{subst}
use mit.Base.{
  ==_iff, ◌==◌, ◌⊎◌, inl, inr, Bool-cases, ℕ, suc, ◌<◌, ◌≡◌, ◌≢◌, refl, ◌∙◌, ap, sym, String, false,
  none, some, [], if◌then◌else◌, arith,
}
use mit.Base.Assoc.{Map, lookup, string_eq}
use mit.Rpc.{Err, is_wrong_group, GetArgs, GetReply, PutArgs}
use mit.Raft.State.{Bytes}
use mit.Kv.{ValueEntry, do_get}
use mit.Shard.Key.{key_to_shard, key_to_shard-lt, n_shards}
use mit.Shard.Config.{ShardConfig}
use mit.Shard.Group.{Json, closed, group_get}
use mit.Shard.Migration.{RoundTrips, group_get-open, group_get-closed}
use mit.Shard.Clients.{service_get, ask_group, get_again}
use mit.Shard.Controller.{
  value, ◌>>=◌, Codec, config_key, servers_in, gid_of, query, change_config_to,
}
use mit.Shard.Controller.Keys.{Current}
use mit.Shard.Controller.Alone.{HasServers, query_lem}
use mit.Shard.Controller.Change.{Moves, change_new}
use mit.Shard.Controller.World.{World, with_group, services, call_get}
use mit.Shard.Controller.World.Kept.{IsSame, unchanged-IsSame}
use mit.Shard.Controller.World.Calls.{get_lem}
use mit.Shard.Controller.World.Moves.{services-IsStore}
use mit.Shard.Controller.World.Shards.{first_server, owner, IsReady, IsSettled, servers_first}
use mit.Shard.Controller.World.Loop.{migrate_loop-IsSettled}

module _ (codec : Codec) (json : Json) where
  -- A Get of the service's clerk returns this reply, in the first of its rounds.
  abbrev pub Replies : World → GetArgs → GetReply → Type 0
  Replies w args reply =
      (n : ℕ)
      → (w' : World) × (service_get codec (services json) (λ w. call_get w) (suc n) args w
          ≡ value (w', reply))

  do_get-group :
      (m : Map String ValueEntry) (args : GetArgs) → is_wrong_group (do_get m args).err ≡ false
  unfolding do_get
  do_get-group m args = ground arith

  -- The clerk is answered by the group of the key in the current configuration.
  service_get-Replies :
      (w : World) (c : ShardConfig) (args : GetArgs)
      → let t = key_to_shard args.key in
        Current codec w.store c
        → servers_in c (gid_of c t) ≢ []
        → closed (owner w c t) t ≡ false
        → Replies w args (do_get (owner w c t).key_value args)
  unfolding service_get
  service_get-Replies w c args cur has opened n =
      let t = key_to_shard args.key in
      let env = services json in
      let store : World → Map String ValueEntry = λ w'. w'.store in
      let s = first_server c (gid_of c t) in
      let (ss, servers) = servers_first c (gid_of c t) has in
      let again = service_get codec env (λ w. call_get w) n args in
      let reply = do_get (w.group s).key_value args in
      (
        with_group w s (w.group s),
        ap
              (λ r.
                (r >>= ask_group codec env (λ w. call_get w) args)
                >>= get_again codec env (λ w. call_get w) again)
              (query_lem codec env store (services-IsStore json) w c cur)
            ∙ ap (λ l. call_get w l args >>= get_again codec env (λ w. call_get w) again) servers
            ∙ ap (λ r. r >>= get_again codec env (λ w. call_get w) again) (get_lem w s ss args)
            ∙ ap (λ r. get_again codec env (λ w. call_get w) again (with_group w s (w.group s), r))
                (group_get-open (w.group s) args opened)
            ∙ ap
                (λ b.
                  if b
                  then again (with_group w s (w.group s))
                  else value (with_group w s (w.group s), reply))
                (do_get-group (w.group s).key_value args),
      )

  -- A Get of a key is answered alike in two worlds.
  abbrev pub AnswersAlike : World → World → GetArgs → Type 0
  AnswersAlike w w' args = (reply : GetReply) × (Replies w args reply) × Replies w' args reply

  module _ (old new : ShardConfig) (w w' : World) (t : ℕ) (s : IsSettled old new w t w') where
    refused :
        (args : GetArgs)
        → key_to_shard args.key ≡ t
        → gid_of old t ≢ gid_of new t
        → gid_of old t ≢ 0
        → (group_get (owner w' old t) args).err ≡ Err.wrong_group
    refused args here moves a =
        group_get-closed (owner w' old t) args (ap (closed (owner w' old t)) here ∙ s.left moves a)

    do_get-settled :
        (args : GetArgs)
        → key_to_shard args.key ≡ t
        → gid_of old t ≢ 0
        → gid_of new t ≢ 0
        → do_get (owner w' new t).key_value args ≡ do_get (owner w old t).key_value args
    unfolding do_get
    do_get-settled args here a b = ground (arith, (s.holds a b).1 args.key here)

-- The groups are as they were, or each shard is settled.
abbrev pub AsIn : World → World → Type 0
AsIn w v = (s : String) → v.group s ≡ w.group s

abbrev pub AllSettled : ShardConfig → ShardConfig → World → World → Type 0
AllSettled old new w v = (t : ℕ) → t < n_shards → IsSettled old new w t v

module _ (codec : Codec) (json : Json) (w : World) (old new : ShardConfig)
    (total : (m : Map String ValueEntry) → (b : Bytes) × (json.marshal m ≡ some b))
    (round_trips : RoundTrips json) (has : HasServers old new) (ready : IsReady old new w) where
  pub ready-Moves :
      Moves codec
        (services json)
        (λ v. v.store)
        (services-IsStore json)
        (AsIn w)
        (AllSettled old new w)
        old
        new
  ready-Moves v cur p =
      migrate_loop-IsSettled codec json old new w total round_trips has ready n_shards 0 v cur
        (λ t h. absurd (omega (arith, h)))
        (λ t h s.
          subst (λ kv. IsSame t (w.group s) kv) (sym (p s)) (unchanged-IsSame t (w.group s)))

  -- What the clerks see of a change after which each shard is settled.
  pub settled-AnswersAlike :
      (w' : World) (args : GetArgs)
      → Current codec w.store old
      → Current codec w'.store new
      → AllSettled old new w w'
      → gid_of old (key_to_shard args.key) ≢ 0
      → gid_of new (key_to_shard args.key) ≢ 0
      → (query codec (services json) w' ≡ value (w', some new))
        × AnswersAlike codec json w w' args
        × ((gid_of old (key_to_shard args.key) ≡ gid_of new (key_to_shard args.key))
            ⊎ ((group_get (owner w' old (key_to_shard args.key)) args).err ≡ Err.wrong_group))
  settled-AnswersAlike w' args cur cur' settled a b =
      let t = key_to_shard args.key in
      let s = settled t (key_to_shard-lt args.key) in
      let same = do_get-settled codec json old new w w' t s args refl a b in
      (
        query_lem codec (services json) (λ v. v.store) (services-IsStore json) w' new cur',
        (
          do_get (owner w old t).key_value args,
          service_get-Replies codec json w old args cur ((has t).0 a) (ready.served t a),
          subst (Replies codec json w' args) same
              (service_get-Replies codec json w' new args cur' ((has t).1 b) (s.holds a b).0),
        ),
        elim (Bool-cases (gid_of old t == gid_of new t)) [
          | inl stays ↦ inl ((==_iff (gid_of old t) (gid_of new t)).0 stays)
          | inr moves ↦ inr (
              refused codec json old new w w' t s args refl
                (ground (arith, moves, ==_iff (gid_of old t) (gid_of new t))) a)
        ],
      )

  pub put_settled :
      (v : World) (a : PutArgs)
      → AllSettled old new w v
      → AllSettled old new w ((services json).put v a).0
  put_settled v a q t h = record { holds = (q t h).holds; left = (q t h).left }

-- The controller changes the configuration while no clerk puts and no other controller works, over
-- clerks whose calls may fail any number of times, with requests that reach the group or not. The
-- call returns and `Query` gives the new configuration. Then a Get of the service's clerk, for a key
-- whose shard had a group and has one, is answered as it would have been before; and if the shard has
-- moved, its old group refuses the key. The hypotheses are that the old configuration is
-- the current one and its number smaller, that the groups of a shard have servers, that the groups are
-- ready (`IsReady`), that no configuration of the new number is stored yet, that json encodes each map
-- and gives it back, and that json and Atoi give back the new configuration and every number.
pub change_config_to-AnswersAlike :
    (codec : Codec) (json : Json) (w : World) (old new : ShardConfig) (args : GetArgs)
    → ((n : ℕ) → codec.atoi (codec.sprint n) ≡ n)
    → ((m : Map String ValueEntry) → (b : Bytes) × (json.marshal m ≡ some b))
    → RoundTrips json
    → Current codec w.store old
    → HasServers old new
    → IsReady old new w
    → old.num < new.num
    → lookup (config_key (codec.sprint new.num)) w.store ≡ none
    → codec.unmarshal (codec.marshal new) ≡ some new
    → gid_of old (key_to_shard args.key) ≢ 0
    → gid_of new (key_to_shard args.key) ≢ 0
    → (w' : World) × (change_config_to codec (services json) w new ≡ value w')
      × (query codec (services json) w' ≡ value (w', some new))
      × AnswersAlike codec json w w' args
      × ((gid_of old (key_to_shard args.key) ≡ gid_of new (key_to_shard args.key))
          ⊎ ((group_get (owner w' old (key_to_shard args.key)) args).err ≡ Err.wrong_group))
change_config_to-AnswersAlike codec json w old new args number total round_trips cur has ready later
      absent decodes a b =
    let (w', changed, cur', settled) =
      change_new codec (services json) (λ v. v.store) (services-IsStore json) number (AsIn w)
        (AllSettled old new w) (λ v a p. p)
        (put_settled codec json w old new total round_trips has ready) old new
        (ready-Moves codec json w old new total round_trips has ready) w cur (λ s. refl) later
        absent decodes in
    let (asked, alike, moved) =
      settled-AnswersAlike codec json w old new total round_trips has ready w' args cur cur' settled
        a b in
    (w', changed, asked, alike, moved)
