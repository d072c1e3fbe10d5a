-- ===== src/Labrpc/Silent.antt =====
-- No reply after a server is deleted, lec-2025/src/labrpc/labrpc.go.
use mathlib.Core.Path.{subst}
use mit.Base.{ℕ, ==_iff, ◌≡◌, ◌≢◌, refl, sym, false, none, some, List, [], ◌∷◌, arith}
use mit.Base.Assoc.{lookup, lookup-insert, nat_eq}
use mit.Raft.State.{Bytes}
use mit.Labrpc.{
  Work, Phase, waiting, replied, Handler, idle, started, finished, System, Event, send, accept,
  handle, receive, tick, finish, deliver, make_end, delete_end, add_server, delete_server, connect,
  enable, set_reliable, set_long_reordering, handle_in, step, run,
}
use mit.Labrpc.Deleted.{
  adds, Gone, HandedTo, Cut, send_in-Cut, accept_in-Cut, receive_in-Cut, tick_in-Cut, finish_in-Cut,
  deliver_in-Cut, end-Cut,
}

module _ {S : Type 0} (sn p c : ℕ) where
  module _ (dispatch : ℕ → Bytes → S → S × Bytes) where
    handle_in-Cut :
        (s : System S) (d : ℕ) (h : Handler) → Cut sn p c s → Cut sn p c (handle_in dispatch s d h)
    handle_in-Cut s d idle cut = cut
    handle_in-Cut s d (finished r) cut = cut
    handle_in-Cut s d (started server req) cut = cut

    step-Cut :
        (s : System S) (e : Event)
        → Cut sn p c s
        → adds sn p (e ∷ []) ≡ false
        → Cut sn p c (step dispatch s e)
    unfolding step adds
    step-Cut s (send d e req) cut other = send_in-Cut sn p c s d e req (s.phases d) cut refl
    step-Cut s (accept d f) cut other = accept_in-Cut sn p c s d f (s.phases d) cut refl
    step-Cut s (handle d) cut other = handle_in-Cut s d (s.handlers d) cut
    step-Cut s (receive d) cut other =
        receive_in-Cut sn p c s d (s.phases d) (s.handlers d) cut refl
    step-Cut s (tick d) cut other = tick_in-Cut sn p c s d (s.phases d) cut refl
    step-Cut s (finish d f) cut other = finish_in-Cut sn p c s d f (s.phases d) cut refl
    step-Cut s (deliver d) cut other = deliver_in-Cut sn p c s d (s.phases d) cut refl
    step-Cut s (make_end e) cut other = end-Cut sn p c s _ s (lookup e s.net.ends) cut cut
    step-Cut s (delete_end e) cut other = end-Cut sn p c s s _ (lookup e s.net.ends) cut cut
    step-Cut s (add_server sn' p') (gone, handed) other =
        (ground (arith, gone, other, lookup-insert sn' sn (some p') s.net.servers), handed)
    step-Cut s (delete_server sn') (gone, handed) other =
        (ground (arith, gone, lookup-insert sn' sn none s.net.servers), handed)
    step-Cut s (connect e sn') cut other = cut
    step-Cut s (enable e b) cut other = cut
    step-Cut s (set_reliable b) cut other = cut
    step-Cut s (set_long_reordering b) cut other = cut

    adds-cons :
        (e : Event) (es : List Event)
        → adds sn p (e ∷ es) ≡ false
        → (adds sn p (e ∷ []) ≡ false) × (adds sn p es ≡ false)
    unfolding adds
    adds-cons (add_server sn' p') es h = ground (arith, h)
    adds-cons (send d e req) es h = (refl, h)
    adds-cons (accept d f) es h = (refl, h)
    adds-cons (handle d) es h = (refl, h)
    adds-cons (receive d) es h = (refl, h)
    adds-cons (tick d) es h = (refl, h)
    adds-cons (finish d f) es h = (refl, h)
    adds-cons (deliver d) es h = (refl, h)
    adds-cons (make_end e) es h = (refl, h)
    adds-cons (delete_end e) es h = (refl, h)
    adds-cons (delete_server e) es h = (refl, h)
    adds-cons (connect e q) es h = (refl, h)
    adds-cons (enable e b) es h = (refl, h)
    adds-cons (set_reliable b) es h = (refl, h)
    adds-cons (set_long_reordering b) es h = (refl, h)

    run-Cut :
        (s : System S) (es : List Event)
        → Cut sn p c s
        → adds sn p es ≡ false
        → Cut sn p c (run dispatch s es)
    unfolding run
    run-Cut s [] cut never = cut
    run-Cut s (e ∷ es) cut never =
        let (now, then_on) = adds-cons e es never in
        run-Cut (step dispatch s e) es (step-Cut s e cut now) then_on

HandedTo-silent : (sn p : ℕ) (q : Phase) (r : Bytes) → HandedTo sn p q → q ≢ replied (some r)
HandedTo-silent sn p q r handed same = subst (HandedTo sn p) same handed

-- DeleteServer of a call's server while the call is in the loop that waits for its handler: whatever
-- happens then, whether the handler returns or not, the call is never answered with true, as
-- long as the same server is not added under its name again.
pub delete_server-silent :
    {S : Type 0} (dispatch : ℕ → Bytes → S → S × Bytes) (s : System S) (c : ℕ) (w : Work)
    (es : List Event) (reply : Bytes)
    → s.phases c ≡ waiting w
    → adds w.servername w.server es ≡ false
    → (run dispatch (step dispatch s (delete_server w.servername)) es).phases c
      ≢ replied (some reply)
unfolding step
delete_server-silent dispatch s c w es reply at never =
    let s' = step dispatch s (delete_server w.servername) in
    let gone : Gone s'.net w.servername w.server = ground (
      arith,
      lookup-insert w.servername w.servername none s.net.servers,
      ==_iff w.servername w.servername,
    ) in
    let handed : HandedTo w.servername w.server (s.phases c) =
      subst (HandedTo w.servername w.server) (sym at) (refl, refl) in
    HandedTo-silent w.servername w.server ((run dispatch s' es).phases c) reply
      (run-Cut w.servername w.server c dispatch s' es (gone, handed) never).1
