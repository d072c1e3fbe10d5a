-- ===== src/Rsm/Answers.antt =====
-- What an answer of `Submit` says, lec-2025/src/kvraft1/rsm/rsm.go.
use mathlib.Core.Path.{subst}
use mit.Base.{
  ℕ, ◌≡◌, refl, ◌∙◌, ap, sym, inl, inr, Option-cases, Bool, true, false, Option, none, some, List,
  [], ◌∷◌, arith,
}
use mit.Base.Assoc.{lookup, insert, nat_eq}
use mit.Rpc.{Err}
use mit.Raft.State.{Raft, Gob, Persister}
use mit.Raft.Applier.{ApplyMsg, Round, deliver, wait, panic, applier_round}
use mit.Raft.Leader.{start}
use mit.Rsm.{
  StateMachine, Op, Result, Chan, empty, full, closed, Stage, started, waiting, returned, Call, Rsm,
  Applied, Act, submit, register, receive, give_up, apply, restore_from, stop, inside, chan_of,
  make_rsm, try_snapshot, offer, notify, run_op, run_command, read_round, read_command,
  read_snapshot, begin, submit_op, finish, judge, take_result, register_at, receive_at, give_up_at,
  on_call, act, noted, run,
}
use mit.Rsm.Logged.{
  Logged, ChanSound, StageSound, CallSound, calls-insert, chans-insert, ChanSound-offer, Chan-cons,
  judge-Sound, Logged-cons, close_all-Sound,
}

module _ {S Req Rep : Type 0} (sm : StateMachine S Req Rep) where
  -- Every result in a channel and every value that a call has returned was logged.
  record IsSound (r : Rsm S Req Rep) (log : List (Applied S Req Rep)) : Type 0 where
    chans : (id : ℕ) (ch : Chan Rep) → lookup id r.chans ≡ some ch → ChanSound sm log ch
    calls : (id : ℕ) (c : Call Rep) → lookup id r.calls ≡ some c → CallSound sm log c

  chan_of-Sound :
      (log : List (Applied S Req Rep)) (r : Rsm S Req Rep) (id : ℕ)
      → IsSound r log
      → ChanSound sm log (chan_of r id)
  chan_of-Sound log r id s = elim (Option-cases (lookup id r.chans)) [
    | inl missing ↦ rw (missing, chan_of) tt
    | inr (ch, found) ↦ rw (found, chan_of) (s.chans id ch found)
  ]

  module _ (r : Rsm S Req Rep) (log : List (Applied S Req Rep)) (s : IsSound r log) where
    begin-IsSound : (id : ℕ) (o : Raft (Op Req) × Option ℕ × ℕ × Bool) → IsSound (begin r id o) log
    begin-IsSound id (rf, i, t, false) = record {
      chans = s.chans;
      calls = calls-insert sm log r.calls id _ s.calls tt;
    }
    begin-IsSound id (rf, none, t, true) = record {
      chans = s.chans;
      calls = calls-insert sm log r.calls id _ s.calls tt;
    }
    begin-IsSound id (rf, some i, t, true) = record {
      chans = chans-insert sm log r.chans id empty s.chans tt;
      calls = calls-insert sm log r.calls id _ s.calls tt;
    }

    finish-IsSound :
        (id : ℕ) (c : Call Rep) (e : Err) (value : Option Rep)
        → StageSound sm log c.index c.term (returned e value)
        → IsSound (finish r id c e value) log
    finish-IsSound id c e value h = record {
      chans = s.chans;
      calls = calls-insert sm log r.calls id _ s.calls h;
    }

    keep_call :
        (id : ℕ) (c : Call Rep) (st : Stage Rep)
        → StageSound sm log c.index c.term st
        → IsSound (record r { calls = insert id (record c { stage = st }) r.calls }) log
    keep_call id c st h = record {
      chans = s.chans;
      calls = calls-insert sm log r.calls id _ s.calls h;
    }

    submit_op-IsSound :
        (gob : Gob (Op Req)) (id : ℕ) (req : Req) → IsSound (submit_op sm gob r id req) log
    unfolding submit_op
    submit_op-IsSound gob id req = elim (Option-cases (lookup id r.calls)) [
      | inl new ↦
          subst
            (λ o.
              IsSound
                (elim o [
                  | some used ↦ r
                  | none ↦ begin r id (start gob r.raft (record { me = r.me; id = 0; req = req }))
                ])
                log)
            (sym new)
            (begin-IsSound id (start gob r.raft (record { me = r.me; id = 0; req = req })))
      | inr (c, used) ↦
          subst
            (λ o.
              IsSound
                (elim o [
                  | some used ↦ r
                  | none ↦ begin r id (start gob r.raft (record { me = r.me; id = 0; req = req }))
                ])
                log)
            (sym used) s
    ]

    register_at-IsSound :
        (id : ℕ) (c : Call Rep) (st : Stage Rep) → IsSound (register_at r id c st) log
    register_at-IsSound id c started = record {
      chans = s.chans;
      calls = calls-insert sm log r.calls id _ s.calls tt;
    }
    register_at-IsSound id c waiting = s
    register_at-IsSound id c (returned e v) = s

    give_up_at-IsSound :
        (id : ℕ) (c : Call Rep) (st : Stage Rep) → IsSound (give_up_at r id c st) log
    give_up_at-IsSound id c started = s
    give_up_at-IsSound id c waiting = finish-IsSound id c Err.wrong_leader none tt
    give_up_at-IsSound id c (returned e v) = s

  take_result-IsSound :
      (r : Rsm S Req Rep) (log : List (Applied S Req Rep)) (id : ℕ) (c : Call Rep) (ch : Chan Rep)
      → IsSound r log
      → ChanSound sm log ch
      → IsSound (take_result r id c ch) log
  take_result-IsSound r log id c empty s h = s
  take_result-IsSound r log id c (full res) s h =
      finish-IsSound (record r { chans = insert id empty r.chans }) log
        (record { chans = chans-insert sm log r.chans id empty s.chans tt; calls = s.calls }) id c
        (judge c res).0 (judge c res).1 (judge-Sound sm log c res h)
  take_result-IsSound r log id c closed s h =
      let res : Result Rep = record { index = 0; term = some 0; value = none } in
      finish-IsSound r log s id c (judge c res).0 (judge c res).1
        (judge-Sound sm log c res (λ x e. cc))

  receive_at-IsSound :
      (r : Rsm S Req Rep) (log : List (Applied S Req Rep)) (id : ℕ) (c : Call Rep) (st : Stage Rep)
      → IsSound r log
      → IsSound (receive_at r id c st) log
  receive_at-IsSound r log id c started s = s
  receive_at-IsSound r log id c waiting s =
      take_result-IsSound r log id c (chan_of r id) s (chan_of-Sound log r id s)
  receive_at-IsSound r log id c (returned e v) s = s

  on_call-IsSound :
      (r : Rsm S Req Rep) (log : List (Applied S Req Rep)) (id : ℕ)
      → IsSound r log
      → (f : Call Rep → Stage Rep → Rsm S Req Rep)
      → ((c : Call Rep) (st : Stage Rep) → c.stage ≡ st → IsSound (f c st) log)
      → IsSound (on_call r (lookup id r.calls) f) log
  on_call-IsSound r log id s f h = called (lookup id r.calls)
    where
      called : (o : Option (Call Rep)) → IsSound (on_call r o f) log
      called none = s
      called (some c) = h c c.stage refl

  cons-IsSound :
      (r : Rsm S Req Rep) (a : Applied S Req Rep) (log : List (Applied S Req Rep))
      → IsSound r log
      → IsSound r (a ∷ log)
  cons-IsSound r a log s = record {
    chans = λ id ch e. Chan-cons sm a log ch (s.chans id ch e);
    calls = λ id c e. Logged-cons sm a log c (s.calls id c e);
  }

  notify-IsSound :
      (r : Rsm S Req Rep) (log : List (Applied S Req Rep)) (res : Result Rep)
      → IsSound r log
      → ChanSound sm log (full res)
      → IsSound (notify r res) log
  unfolding notify
  notify-IsSound r log res s h = notified (lookup res.index r.wait_chs)
    where
      notified :
          (o : Option ℕ)
          → IsSound
              (elim o [
                | none ↦ r
                | some id ↦ record r { chans = insert id (offer (chan_of r id) res) r.chans }
              ])
              log
      notified none = s
      notified (some id) = record {
        chans =
            chans-insert sm log r.chans id (offer (chan_of r id) res) s.chans
              (ChanSound-offer sm log (chan_of r id) res (chan_of-Sound log r id s) h);
        calls = s.calls;
      }

  module _ (gob : Gob (Op Req)) where
    try_snapshot_same :
        (r : Rsm S Req Rep) (i : ℕ)
        → ((try_snapshot sm gob r i).chans ≡ r.chans) × ((try_snapshot sm gob r i).calls ≡ r.calls)
    unfolding try_snapshot
    try_snapshot_same r i = ground arith

    run_op-IsSound :
        (r : Rsm S Req Rep) (log : List (Applied S Req Rep)) (msg : ApplyMsg (Op Req)) (op : Op Req)
        → IsSound r log
        → IsSound (run_op sm gob r msg op).0 ((run_op sm gob r msg op).1 ∷ log)
    run_op-IsSound r log msg op s =
        let a = (run_op sm gob r msg op).1 in
        let s' = cons-IsSound r a log s in
        let r1 = record r { service = (sm.do_op r.service op.req).0 } in
        let (c, k) = try_snapshot_same r1 msg.command_index in
        notify-IsSound (try_snapshot sm gob r1 msg.command_index) (a ∷ log) _
          (record {
            chans = λ id ch e. s'.chans id ch (ap (lookup id) (sym c) ∙ e);
            calls = λ id d e. s'.calls id d (ap (lookup id) (sym k) ∙ e);
          })
          (λ x e. inl (refl, refl, ground (arith, e)))

    read_round-IsSound :
        (r : Rsm S Req Rep) (log : List (Applied S Req Rep)) (o : Raft (Op Req) × Round (Op Req))
        → IsSound r log
        → IsSound (read_round sm gob r o).0 (noted (read_round sm gob r o).1 log)
    read_round-IsSound r log (rf, deliver msg) s = commanded msg.command
      where
        commanded :
            (o : Option (Op Req))
            → IsSound
                (run_command sm gob (record r { raft = rf }) msg o).0
                (noted (run_command sm gob (record r { raft = rf }) msg o).1 log)
        commanded none = record { chans = s.chans; calls = s.calls }
        commanded (some op) =
            run_op-IsSound (record r { raft = rf }) log msg op
              (record { chans = s.chans; calls = s.calls })
    read_round-IsSound r log (rf, wait) s = record { chans = s.chans; calls = s.calls }
    read_round-IsSound r log (rf, panic) s = record { chans = s.chans; calls = s.calls }

    act-IsSound :
        (r : Rsm S Req Rep) (log : List (Applied S Req Rep)) (a : Act Req)
        → IsSound r log
        → IsSound (act sm gob r a).0 (noted (act sm gob r a).1 log)
    unfolding act read_command
    act-IsSound r log (submit id req) s = submit_op-IsSound r log s gob id req
    act-IsSound r log (register id) s =
        on_call-IsSound r log id s (register_at r id)
          (λ c st e. register_at-IsSound r log s id c st)
    act-IsSound r log (receive id) s =
        on_call-IsSound r log id s (receive_at r id) (λ c st e. receive_at-IsSound r log id c st s)
    act-IsSound r log (give_up id) s =
        on_call-IsSound r log id s (give_up_at r id) (λ c st e. give_up_at-IsSound r log s id c st)
    act-IsSound r log apply s = read_round-IsSound r log (applier_round r.raft) s
    act-IsSound r log (restore_from msg) s =
        unfold read_snapshot in record { chans = s.chans; calls = s.calls }
    act-IsSound r log stop s = record {
      chans = close_all-Sound sm log r.wait_chs r.chans s.chans;
      calls = s.calls;
    }
    act-IsSound r log (inside e) s = record { chans = s.chans; calls = s.calls }

    run-IsSound :
        (r : Rsm S Req Rep) (log : List (Applied S Req Rep)) (acts : List (Act Req))
        → IsSound r log
        → IsSound (run sm gob r log acts).0 (run sm gob r log acts).1
    unfolding run
    run-IsSound r log [] s = s
    run-IsSound r log (a ∷ rest) s =
        run-IsSound (act sm gob r a).0 (noted (act sm gob r a).1 log) rest (act-IsSound r log a s)

    make-IsSound :
        (peers me : ℕ) (max : Option ℕ) (persister : Persister) (service : S)
        → IsSound (make_rsm sm gob peers me max persister service) []
    unfolding make_rsm lookup
    make-IsSound peers me max persister service = record {
      chans = λ id ch e. cc;
      calls = λ id c e. cc;
    }

    -- Whatever calls, deliveries, restarts of the service, timeouts and steps of Raft there are, in
    -- any order: when a call of `Submit` has returned a value, the error is OK, and the value is what
    -- `DoOp` answered to the command that was run at the index and in the term at which Raft had
    -- started the call's own.
    pub submit_value :
        (peers me : ℕ) (max : Option ℕ) (persister : Persister) (service : S)
        (acts : List (Act Req)) (id : ℕ) (c : Call Rep) (e : Err) (x : Rep)
        → lookup id (run sm gob (make_rsm sm gob peers me max persister service) [] acts).0.calls
          ≡ some c
        → c.stage ≡ returned e (some x)
        → (e ≡ Err.ok)
          × Logged sm
              (run sm gob (make_rsm sm gob peers me max persister service) [] acts).1
              c.index
              (some c.term)
              x
    submit_value peers me max persister service acts id c e x found back =
        let r0 = make_rsm sm gob peers me max persister service in
        let s = run-IsSound r0 [] acts (make-IsSound peers me max persister service) in
        subst (StageSound sm (run sm gob r0 [] acts).1 c.index c.term) back (s.calls id c found)
