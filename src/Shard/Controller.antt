-- ===== src/Shard/Controller.antt =====
-- The shard controller, lec-2025/src/shardkv1/shardctrler/shardctrler.go. What is proved is in the
-- modules below.
pub mod Keys
pub mod Alone
pub mod Change
pub mod Recovery
pub mod World
pub mod Tests
use mit.Base.{
  ℕ, zero, suc, ◌+◌, ◌==◌, ◌&&◌, ◌||◌, not, leb, if◌then◌else◌, Bool, true, false, String, Option,
  none, some, List, [], ◌∷◌, get_or,
}
use Prim.Native.String.{◌++◌}
use text.Mathlib.Text.{◌==◌ as str_eq}
use mit.Base.Assoc.{lookup, nat_eq}
use mit.Rpc.{Err, is_ok, is_maybe, GetArgs, GetReply, PutArgs}
use mit.Raft.State.{Bytes}
use mit.Shard.Key.{n_shards}
use mit.Shard.Config.{ShardConfig}
use mit.Shard.Group.{FreezeShardArgs, InstallShardArgs, DeleteShardArgs}

-- How a call ends: it returns, it exits by log.Fatalf, it panics, or it waits for ever.
pub data Run {ℓ} (A : Type ℓ) : Type ℓ where
  value : A → Run A
  fatal : Run A
  panic : Run A
  hang : Run A

infixl 5 ◌>>=◌
abbrev pub ◌>>=◌ {ℓ κ} : {A : Type ℓ} {B : Type κ} → Run A → (A → Run B) → Run B
value a >>= f = f a
fatal >>= f = fatal
panic >>= f = panic
hang >>= f = hang

-- encoding/json on configurations (`none` for an error of Unmarshal), fmt.Sprint and strconv.Atoi on
-- their numbers (0 for an error, which the code does not look at).
pub record Codec : Type 0 where
  pub marshal : ShardConfig → String
  pub unmarshal : String → Option ShardConfig
  pub sprint : ℕ → String
  pub atoi : String → ℕ

-- What the controller calls: its clerk of the key/value service, and the clerks of the groups, by
-- their servers. `W` is the state of the services, with whatever else happens in them.
pub record Services (W : Type 0) : Type 0 where
  pub get : W → GetArgs → W × GetReply
  pub put : W → PutArgs → W × Err
  pub freeze : W → List String → FreezeShardArgs → Run (W × Bytes × Err)
  pub install : W → List String → InstallShardArgs → Run (W × Err)
  pub delete_shard : W → List String → DeleteShardArgs → Run (W × Err)

abbrev pub config_key : String → String
config_key number = "config-" ++ number

abbrev pub gid_of : ShardConfig → ℕ → ℕ
gid_of c sh = get_or c.shards sh 0

-- `Groups[gid]` of a configuration that may be nil.
abbrev pub servers_in : ShardConfig → ℕ → List String
servers_in c gid = elim (lookup gid c.groups) [ none ↦ [] | some srvs ↦ srvs ]

abbrev pub moved : Option ShardConfig → ℕ → ℕ → Bool
moved none sh from = false
moved (some c) sh from = not (get_or c.shards sh 0 == from)

module _ {W : Type 0} where
  -- `if err != rpc.OK { log.Fatalf }`
  abbrev pub must : W × Err → Run W
  must (w, e) = if is_ok e then value w else fatal

  abbrev pub must_state : W × Bytes × Err → Run (W × Bytes)
  must_state (w, state, e) = if is_ok e then value (w, state) else fatal

  abbrev pub servers_or_panic : ℕ → W × Option ShardConfig → Run (W × List String)
  servers_or_panic gid (w, none) = panic
  servers_or_panic gid (w, some c) = value (w, servers_in c gid)

module _ {W : Type 0} (codec : Codec) (env : Services W) where
  abbrev read : W → String → W × GetReply
  read w key = env.get w (record { key = key })

  abbrev write : W → String → String → ℕ → W × Err
  write w key v version = env.put w (record { key = key; value = v; version = version })

  abbrev decoded : W → Option ShardConfig → Run (W × Option ShardConfig)
  decoded w none = fatal
  decoded w (some c) = value (w, some c)

  abbrev pub query_config : W × GetReply → Run (W × Option ShardConfig)
  query_config (w, r) = if is_ok r.err then decoded w (codec.unmarshal r.value) else value (w, none)

  abbrev pub query_latest : W × GetReply → Run (W × Option ShardConfig)
  query_latest (w, r) =
      if is_ok r.err then query_config (read w (config_key r.value)) else value (w, none)

  unfoldable pub query : W → Run (W × Option ShardConfig)
  query w = query_latest (read w "latest")

  unfoldable pub get_servers_for_group : W → ℕ → Run (W × List String)
  unfolding query
  get_servers_for_group w gid = query w >>= servers_or_panic gid

  -- From the frozen shard on.
  abbrev hand_over : List String → Option (List String) → ℕ → ℕ → W × Bytes → Run W
  hand_over servers none sh num (w, state) = fatal
  hand_over servers (some to_servers) sh num (w, state) =
      (env.install w to_servers (record { shard = sh; state = state; num = num }) >>= must)
      >>= λ w'. (env.delete_shard w' servers (record { shard = sh; num = num }) >>= must)

  abbrev take_over : ShardConfig → ℕ → ℕ → ℕ → W × List String → Run W
  take_over new to sh num (w, servers) =
      (env.freeze w servers (record { shard = sh; num = num }) >>= must_state)
      >>= hand_over servers (lookup to new.groups) sh num

  abbrev migrate_found : ShardConfig → ℕ → ℕ → ℕ → ℕ → W × Option ShardConfig → Run W
  migrate_found new from to sh num (w, current) =
      if moved current sh from
      then value w
      else get_servers_for_group w from >>= take_over new to sh num

  unfoldable pub migrate_shard : W → ℕ → ℕ → ℕ → ℕ → ShardConfig → Run W
  unfolding query get_servers_for_group
  migrate_shard w from to sh num new = query w >>= migrate_found new from to sh num

  abbrev remove_from : ℕ → ℕ → W × List String → Run W
  remove_from sh num (w, servers) =
      env.delete_shard w servers (record { shard = sh; num = num }) >>= must

  unfoldable pub remove_shard : W → ℕ → ℕ → ℕ → Run W
  unfolding get_servers_for_group
  remove_shard w gid sh num = get_servers_for_group w gid >>= remove_from sh num

  -- The body of the loops over the shards.
  unfoldable pub migrate_one : W → ℕ → ShardConfig → ShardConfig → Run W
  migrate_one w sh old new =
      if gid_of old sh == gid_of new sh
      then value w
      else if not (gid_of old sh == 0) && not (gid_of new sh == 0)
      then migrate_shard w (gid_of old sh) (gid_of new sh) sh new.num new
      else if not (gid_of old sh == 0)
      then remove_shard w (gid_of old sh) sh new.num
      else value w

  unfoldable pub migrate_loop : ℕ → ℕ → W → ShardConfig → ShardConfig → Run W
  unfolding migrate_one
  migrate_loop zero sh w old new = value w
  migrate_loop (suc n) sh w old new =
      migrate_one w sh old new >>= λ w'. migrate_loop n (sh + 1) w' old new

  -- The loop, and the pointer to the new configuration.
  abbrev pub complete : ShardConfig → ShardConfig → String → ℕ → W → Run W
  complete old new number version w =
      migrate_loop n_shards 0 w old new >>= λ w'. value (write w' "latest" number version).0

  abbrev pub change_again : ShardConfig → ShardConfig → GetReply → W × GetReply → Run W
  change_again old new r (w, r2) =
      if not (str_eq r2.value r.value) && leb new.num (codec.atoi r2.value)
      then value w
      else if leb new.num (codec.atoi r2.value)
      then value w
      else complete old new (codec.sprint new.num) r.version w

  abbrev pub change_saved : ShardConfig → ShardConfig → W × GetReply → Run W
  change_saved old new (w, r) = change_again old new r (read w "latest")

  abbrev pub change_put : ShardConfig → ShardConfig → W × Err → Run W
  change_put old new (w, e) =
      if is_ok e || is_maybe e then change_saved old new (read w "latest") else value w

  abbrev pub change_from : ShardConfig → W × Option ShardConfig → Run W
  change_from new (w, none) = value w
  change_from new (w, some old) =
      if leb new.num old.num
      then value w
      else change_put old new (write w (config_key (codec.sprint new.num)) (codec.marshal new) 0)

  unfoldable pub change_config_to : W → ShardConfig → Run W
  unfolding query migrate_loop
  change_config_to w new = query w >>= change_from new

  unfoldable pub init_config : W → ShardConfig → W
  init_config w c =
      let (w1, e) = write w (config_key (codec.sprint c.num)) (codec.marshal c) 0 in
      (write w1 "latest" (codec.sprint c.num) 0).0

  -- The greatest of the configurations from `number` on that are there without a gap, with its text.
  unfoldable pub find_pending : ℕ → ℕ → W → Option (ℕ × String) → W × Option (ℕ × String)
  find_pending zero number w found = (w, found)
  find_pending (suc n) number w found =
      let (w', r) = read w (config_key (codec.sprint number)) in
      let rest = find_pending n (number + 1) w' (some (number, r.value)) in
      if is_ok r.err then rest else (w', found)

  abbrev pub recover_with : ℕ → ShardConfig → ShardConfig → W × GetReply → Run W
  recover_with number new old (w, r) = complete old new (codec.sprint number) r.version w

  abbrev pub recover_old : ℕ → ShardConfig → W × Option ShardConfig → Run W
  recover_old number new (w, none) = value w
  recover_old number new (w, some old) = recover_with number new old (read w "latest")

  abbrev pub recover_new : ℕ → W → Option ShardConfig → Run W
  recover_new number w none = fatal
  recover_new number w (some new) = query w >>= recover_old number new

  abbrev pub recover : W × Option (ℕ × String) → Run W
  recover (w, none) = value w
  recover (w, some (number, text)) = recover_new number w (codec.unmarshal text)

  abbrev pub recover_latest : W × GetReply → Run W
  recover_latest (w, r) =
      if is_ok r.err then recover (find_pending 100 (codec.atoi r.value + 1) w none) else value w

  unfoldable pub init_controller : W → Run W
  unfolding query migrate_loop find_pending
  init_controller w = recover_latest (read w "latest")
