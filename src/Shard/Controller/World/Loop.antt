-- ===== src/Shard/Controller/World/Loop.antt =====
-- The loop over the shards of lec-2025/src/shardkv1/shardctrler/shardctrler.go, at the servers of the
-- groups.
use mathlib.Core.Path.{subst}
use text.Mathlib.Text.{◌==◌ as str_eq}
use text.Mathlib.TextEquality.{eq_iff}
use mit.Base.{
  ℕ, zero, suc, ◌+◌, ◌<◌, ◌≤◌, ◌==◌, ==_iff, ◌≡◌, ◌≢◌, refl, ◌∙◌, ap, sym, inl, inr, Bool-cases,
  String, Bool, true, false, not, ◌&&◌, ◌⊎◌, some, if◌then◌else◌, arith,
}
use mit.Base.Assoc.{Map, nat_eq, string_eq}
use mit.Raft.State.{Bytes}
use mit.Kv.{ValueEntry}
use mit.Shard.Config.{ShardConfig}
use mit.Shard.Group.{Json, Age, shard_age, shard_data, closed}
use mit.Shard.Migration.{RoundTrips, deleted}
use mit.Shard.Controller.{
  Run, value, ◌>>=◌, Codec, gid_of, migrate_one, migrate_loop, migrate_shard, remove_shard,
}
use mit.Shard.Controller.Keys.{Current}
use mit.Shard.Controller.Alone.{HasServers}
use mit.Shard.Controller.World.{World, with_group, services}
use mit.Shard.Controller.World.Kept.{
  SameAt, SameAt-trans, with_group-SameAt, deleted-IsSame, unchanged-IsSame,
}
use mit.Shard.Controller.World.Moves.{Holds, world3, world3-closed, world3-Holds, world3-SameAt}
use mit.Shard.Controller.World.Steps.{migrate_shard_lem, remove_shard_lem}
use mit.Shard.Controller.World.Shards.{
  first_server, IsReady, IsSettled, servers_first, lookup_first, SameAt-IsSettled, newly_closed,
}

module _ (codec : Codec) (json : Json) (old new : ShardConfig) (w0 : World)
    (total : (m : Map String ValueEntry) → (b : Bytes) × (json.marshal m ≡ some b))
    (round_trips : RoundTrips json) (has : HasServers old new) (ready : IsReady old new w0) where
  -- What one turn of the loop, for shard `sh`, does.
  abbrev Turns : ℕ → World → Run World → Type 0
  Turns sh w r =
      (w' : World) × (r ≡ value w')
      × (w'.store ≡ w.store)
      × (IsSettled old new w0 sh w')
      × ((t : ℕ) → (sh == t) ≡ false → SameAt t w w')

  module _ (w : World) (sh : ℕ) (same : SameAt sh w0 w) (cur : Current codec w.store old) where
    still_new : (s : String) → shard_age (w.group s) sh new.num ≡ Age.newer
    still_new s = ground (arith, (same s).number, ready.newer s sh)

    nothing-Turns : gid_of old sh ≡ gid_of new sh ⊎ gid_of old sh ≡ 0 → Turns sh w (value w)
    nothing-Turns why = (w, refl, refl, settled, λ t other s. unchanged-IsSame t (w.group s))
      where
        settled : IsSettled old new w0 sh w
        settled = record {
          holds = λ a b. elim why [
            | inl e ↦
                let k = same (first_server new (gid_of new sh)) in
                subst (λ s. Holds (w0.group s) sh (w.group (first_server new (gid_of new sh))))
                  (sym (ready.stays sh e))
                  (
                    k.shut
                        ∙ subst (λ s. closed (w0.group s) sh ≡ false) (ready.stays sh e)
                            (ready.served sh a),
                    λ key h. k.entries key h,
                  )
            | inr e ↦ absurd (a e)
          ];
          left = λ a b. elim why [ inl e ↦ absurd (a e) | inr e ↦ absurd (b e) ];
        }

    migrate-Turns :
        gid_of old sh ≢ gid_of new sh
        → gid_of old sh ≢ 0
        → gid_of new sh ≢ 0
        → Turns sh w
            (migrate_shard codec (services json) w (gid_of old sh) (gid_of new sh) sh new.num new)
    migrate-Turns moves a b =
        let from = gid_of old sh in
        let to = gid_of new sh in
        let p = first_server old from in
        let q = first_server new to in
        let (ps, servers) = servers_first old from ((has sh).0 a) in
        let (qs, there) = lookup_first new to ((has sh).1 b) in
        let apart : str_eq p q ≡ false = ground (arith, eq_iff p q, ready.apart sh moves a b) in
        let opened : closed (w.group p) sh ≡ false = (same p).shut ∙ ready.served sh a in
        let (state, written) = total (shard_data (w.group p) sh) in
        let holds =
          world3-Holds json w p q sh new.num state apart round_trips (still_new p) (still_new q)
            written
            (λ key h missing.
              (same q).entries key h
              ∙ ready.lacks sh key moves a b h (sym ((same p).entries key h) ∙ missing)) in
        (
          world3 json w p q sh new.num state,
          migrate_shard_lem codec json w old new cur sh from to p q ps qs state refl servers there
              apart round_trips (still_new p) (still_new q) (ground (arith, opened)) written,
          refl,
          record {
            holds = λ a' b'. (holds.0, λ key h. holds.1 key h ∙ (same p).entries key h);
            left = λ a' b'.
                world3-closed json w p q sh new.num state apart round_trips (still_new p)
                  (still_new q) written;
          },
          λ t other.
              world3-SameAt json w p q sh new.num state apart round_trips (still_new p)
                (still_new q) written t other,
        )

    remove-Turns :
        gid_of old sh ≢ 0
        → gid_of new sh ≡ 0
        → Turns sh w (remove_shard codec (services json) w (gid_of old sh) sh new.num)
    remove-Turns a b =
        let p = first_server old (gid_of old sh) in
        let (ps, servers) = servers_first old (gid_of old sh) ((has sh).0 a) in
        let kv = deleted (w.group p) sh new.num in
        let here : (with_group w p kv).group p ≡ kv = ground (arith, eq_iff p p) in
        (
          with_group w p kv,
          remove_shard_lem codec json w old new cur sh (gid_of old sh) p ps servers (still_new p),
          refl,
          record {
            holds = λ a' b'. absurd (b' b);
            left = λ a' b'.
                ap (λ k. closed k sh) here ∙ newly_closed (w.group p) sh new.num (still_new p);
          },
          λ t other.
              with_group-SameAt t w p kv (deleted-IsSame json sh t other (w.group p) new.num),
        )

    Turns-if :
        (b : Bool) (x y : Run World)
        → (b ≡ true → Turns sh w x)
        → (b ≡ false → Turns sh w y)
        → Turns sh w (if b then x else y)
    Turns-if true x y hx hy = hx refl
    Turns-if false x y hx hy = hy refl

    migrate_one-Turns : Turns sh w (migrate_one codec (services json) w sh old new)
    unfolding migrate_one
    migrate_one-Turns =
        let from = gid_of old sh in
        let to = gid_of new sh in
        let env = services json in
        let gone = if not (from == 0) then remove_shard codec env w from sh new.num else value w in
        Turns-if (from == to) (value w)
          (if not (from == 0) && not (to == 0)
            then migrate_shard codec env w from to sh new.num new
            else gone)
          (λ e. nothing-Turns (inl (ground (arith, e))))
          (λ e.
            Turns-if (not (from == 0) && not (to == 0))
              (migrate_shard codec env w from to sh new.num new) gone
              (λ h. migrate-Turns (ground (arith, e)) (ground (arith, h)) (ground (arith, h)))
              (λ k.
                Turns-if (not (from == 0)) (remove_shard codec env w from sh new.num) (value w)
                  (λ h. remove-Turns (ground (arith, h)) (ground (arith, h, k)))
                  (λ h. nothing-Turns (inr (ground (arith, h))))))

  -- From shard `sh` on: the shards before it are settled, the others are as they were.
  pub migrate_loop-IsSettled :
      (n sh : ℕ) (w : World)
      → Current codec w.store old
      → ((t : ℕ) → t < sh → IsSettled old new w0 t w)
      → ((t : ℕ) → sh ≤ t → SameAt t w0 w)
      → (w' : World) × (migrate_loop codec (services json) n sh w old new ≡ value w')
        × (w'.store ≡ w.store)
        × ((t : ℕ) → t < sh + n → IsSettled old new w0 t w')
  unfolding migrate_loop
  migrate_loop-IsSettled zero sh w cur settled same =
      (w, refl, refl, λ t h. settled t (omega (arith, h)))
  migrate_loop-IsSettled (suc n) sh w cur settled same =
      let (w1, e1, s1, now, others) = migrate_one-Turns w sh (same sh (omega arith)) cur in
      let cur1 = subst (λ m. Current codec m old) (sym s1) cur in
      let settled1 : (t : ℕ) → t < sh + 1 → IsSettled old new w0 t w1 = λ t h.
        elim (Bool-cases (sh == t)) [
          | inl this ↦ subst (λ x. IsSettled old new w0 x w1) ((==_iff sh t).0 this) now
          | inr other ↦
              SameAt-IsSettled old new w0 w w1 t (others t other)
                (settled t (ground (arith, h, other)))
        ] in
      let same1 : (t : ℕ) → sh + 1 ≤ t → SameAt t w0 w1 =
        λ t h. SameAt-trans t w0 w w1 (same t (omega (arith, h))) (others t (ground (arith, h))) in
      let (w2, e2, s2, all) = migrate_loop-IsSettled n (sh + 1) w1 cur1 settled1 same1 in
      (
        w2,
        ap (λ r. r >>= λ w'. migrate_loop codec (services json) n (sh + 1) w' old new) e1 ∙ e2,
        s2 ∙ s1,
        λ t h. all t (omega (arith, h)),
      )
