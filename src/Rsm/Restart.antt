-- ===== src/Rsm/Restart.antt =====
-- A service on Raft that restarts after a snapshot: `trySnapShot` and `MakeRSM` of
-- lec-2025/src/kvraft1/rsm/rsm.go with the peer of Raft, for the key/value server
-- (lec-2025/src/kvraft1/server.go) and for the server of a shard group
-- (lec-2025/src/shardkv1/shardgrp/server.go).
use mathlib.Core.Path.{subst}
use mit.Base.{ℕ, ◌<◌, ◌≡◌, ◌≢◌, refl, ◌∙◌, ap, sym, Option, some, List, [], ◌∷◌, arith}
use mit.Raft.State.{
  Raft, Gob, Bytes, Entry, Persister, make, read_persist, persist, encode_state, persist_bytes,
  Durable, durable,
}
use mit.Raft.Snapshot.{snapshot}
use mit.Kv as Kv
use mit.Shard.Group as Group
use mit.Rsm.{StateMachine, Op, Rsm, make_rsm, try_snapshot}

-- The two services; `rsm.MakeRSM(..., kv)` in the functions that start them.
abbrev pub kv_machine : Kv.MapGob → StateMachine Kv.KvServer Kv.Req Kv.Reply
kv_machine gob = record { do_op = Kv.do_op; snapshot = Kv.snapshot gob; restore = Kv.restore gob }

abbrev pub group_machine : Group.Json → StateMachine Group.KvServer Group.Req Group.Reply
group_machine json = record {
  do_op = Group.do_op json;
  snapshot = Group.snapshot;
  restore = Group.restore;
}

-- What labgob does with the durable state of a peer whose commands hold pointers: the numbers come
-- back, and a log, in which a pointer may have become a value.
pub record KeepsNumbers {C : Type 0} (gob : Gob C) : Type 0 where
  pub logs : Durable C → List (Entry C)
  pub round_trip : (d : Durable C) → gob.decode (gob.encode d) ≡ some (record d { logs = logs d })
  pub some_bytes : (d : Durable C) → gob.encode d ≢ []

-- What a restart on a saved state has.
abbrev pub Reborn : {C : Type 0} → Raft C → Raft C → ℕ → Type 0
Reborn rf' rf i =
    (rf'.last_applied ≡ i)
    × (rf'.last_included_index ≡ i)
    × (rf'.last_included_term ≡ rf.last_included_term)
    × (rf'.current_term ≡ rf.current_term)
    × (rf'.voted_for ≡ rf.voted_for)

module _ {C : Type 0} (gob : Gob C) where
  make_loaded :
      (peers me : ℕ) (rf : Raft C) (p : Persister) (d : Durable C)
      → p.raft_state ≢ []
      → gob.decode p.raft_state ≡ some d
      → d.last_included_term ≡ rf.last_included_term
      → d.current_term ≡ rf.current_term
      → d.voted_for ≡ rf.voted_for
      → Reborn (make gob peers me p) rf d.last_included_index
  unfolding make read_persist
  make_loaded peers me rf p d some_bytes h a b c = ground (arith, some_bytes, h, a, b, c)

  snapshot_saved :
      (rf : Raft C) (i : ℕ) (bytes : Bytes)
      → rf.last_included_index < i
      → let rf' = snapshot gob rf i bytes in
        (rf'.last_included_index ≡ i)
        × (rf'.persister.snapshot ≡ bytes)
        × (rf'.persister.raft_state ≡ gob.encode (durable rf'))
  unfolding snapshot persist encode_state
  snapshot_saved rf i bytes h = ground arith

module _ {C : Type 0} (gob : Gob C) where
  -- A snapshot, then a restart on what is saved.
  remade :
      KeepsNumbers gob
      → (rf : Raft C) (i : ℕ) (bytes : Bytes) → rf.last_included_index < i
      → let rf' = snapshot gob rf i bytes in
        (rf'.persister.snapshot ≡ bytes) × Reborn (make gob rf'.peers rf'.me rf'.persister) rf' i
  remade keeps rf i bytes low =
      let rf' = snapshot gob rf i bytes in
      let (index, shot, state) = snapshot_saved gob rf i bytes low in
      let back = ap gob.decode state ∙ keeps.round_trip (durable rf') in
      let there : rf'.persister.raft_state ≢ [] =
        λ none. keeps.some_bytes (durable rf') (sym state ∙ none) in
      (
        shot,
        subst (Reborn (make gob rf'.peers rf'.me rf'.persister) rf') index (
            make_loaded gob rf'.peers rf'.me rf' rf'.persister
              (record (durable rf') { logs = keeps.logs (durable rf') }) there back refl refl refl),
      )

module _ {S Req Rep : Type 0} (sm : StateMachine S Req Rep) where
  -- The service starts from what its persister holds.
  abbrev started_from : Bytes → S → S
  started_from [] s0 = s0
  started_from (b ∷ bytes) s0 = sm.restore s0 (b ∷ bytes)

  module _ (gob : Gob (Op Req)) where
    make_rsm-service :
        (peers me : ℕ) (max : Option ℕ) (p : Persister) (s0 : S)
        → (make_rsm sm gob peers me max p s0).service ≡ started_from p.snapshot s0
    unfolding make_rsm
    make_rsm-service peers me max p s0 = ground arith

    try_snapshot_lem :
        (r : Rsm S Req Rep) (i m : ℕ)
        → r.max_raft_state ≡ some m
        → m < persist_bytes r.raft
        → (try_snapshot sm gob r i).raft ≡ snapshot gob r.raft i (sm.snapshot r.service)
    unfolding try_snapshot
    try_snapshot_lem r i m e h = ground (arith, e, h)

    -- What is restarted from the disk of a peer.
    abbrev pub reboot : Rsm S Req Rep → S → Rsm S Req Rep
    reboot r s0 = make_rsm sm gob r.raft.peers r.raft.me r.max_raft_state r.raft.persister s0

    abbrev Restarted : Rsm S Req Rep → Bytes → S → ℕ → Option ℕ → Raft (Op Req) → Type 0
    Restarted r bytes s0 i max rf =
        let r' = make_rsm sm gob rf.peers rf.me max rf.persister s0 in
        (r'.service ≡ started_from bytes s0) × Reborn r'.raft rf i

    restarted :
        KeepsNumbers gob
        → (r : Rsm S Req Rep) (i m : ℕ) (s0 : S) → r.max_raft_state ≡ some m
        → m < persist_bytes r.raft
        → r.raft.last_included_index < i
        → Restarted r
            (sm.snapshot r.service)
            s0
            i
            (try_snapshot sm gob r i).max_raft_state
            (try_snapshot sm gob r i).raft
    unfolding make_rsm
    restarted keeps r i m s0 e big low =
        let bytes = sm.snapshot r.service in
        let rf = snapshot gob r.raft i bytes in
        let max = (try_snapshot sm gob r i).max_raft_state in
        let (shot, reborn) = remade gob keeps r.raft i bytes low in
        subst (Restarted r bytes s0 i max) (sym (try_snapshot_lem r i m e big)) (
          make_rsm-service rf.peers rf.me max rf.persister s0 ∙ ap (λ bs. started_from bs s0) shot,
          reborn,
        )

kv_restored :
    (maps : Kv.MapGob) (kv s0 : Kv.KvServer) (bytes : Bytes)
    → bytes ≢ []
    → maps.decode bytes ≡ some kv.key_value
    → (started_from (kv_machine maps) bytes s0).key_value ≡ kv.key_value
unfolding Kv.restore
kv_restored maps kv s0 [] some_bytes h = absurd (some_bytes refl)
kv_restored maps kv s0 (b ∷ bytes) some_bytes h = ground (arith, h)

module _ (maps : Kv.MapGob) (gob : Gob (Op Kv.Req)) where
  -- The key/value server over Raft, when `trySnapShot` is called after the command at `i` and the
  -- saved state is larger than allowed: a server that is then restarted on what is saved has the map
  -- that the server had, and its peer has applied exactly up to `i` and has the term, the vote and
  -- the last included term of the peer. The hypotheses are that `i` is above the last snapshot, that
  -- labgob gives back the numbers of the durable state and the map, and that it writes some bytes.
  pub kv_restart :
      KeepsNumbers gob
      → (r : Rsm Kv.KvServer Kv.Req Kv.Reply) (i m : ℕ) (s0 : Kv.KvServer)
      → maps.decode (maps.encode r.service.key_value) ≡ some r.service.key_value
      → maps.encode r.service.key_value ≢ []
      → r.max_raft_state ≡ some m
      → m < persist_bytes r.raft
      → r.raft.last_included_index < i
      → let saved = try_snapshot (kv_machine maps) gob r i in
        let r' = reboot (kv_machine maps) gob saved s0 in
        (r'.service.key_value ≡ r.service.key_value) × Reborn r'.raft saved.raft i
  unfolding Kv.snapshot
  kv_restart keeps r i m s0 round_trip some_bytes e big low =
      let (s, reborn) = restarted (kv_machine maps) gob keeps r i m s0 e big low in
      (
        ap (λ (s : Kv.KvServer). s.key_value) s
            ∙ kv_restored maps r.service s0 (maps.encode r.service.key_value) some_bytes round_trip,
        reborn,
      )

module _ (json : Group.Json) (gob : Gob (Op Group.Req)) where
  -- The same for the server of a shard group: the restarted server is the one that it was started
  -- as, without an entry of the server that wrote the snapshot, although its peer has applied exactly
  -- up to `i`.
  pub group_restart :
      KeepsNumbers gob
      → (r : Rsm Group.KvServer Group.Req Group.Reply) (i m : ℕ) (s0 : Group.KvServer)
      → r.max_raft_state ≡ some m
      → m < persist_bytes r.raft
      → r.raft.last_included_index < i
      → let saved = try_snapshot (group_machine json) gob r i in
        let r' = reboot (group_machine json) gob saved s0 in
        (r'.service ≡ s0) × Reborn r'.raft saved.raft i
  unfolding Group.snapshot
  group_restart keeps r i m s0 e big low =
      restarted (group_machine json) gob keeps r i m s0 e big low
