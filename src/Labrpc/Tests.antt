-- ===== src/Labrpc/Tests.antt =====
-- The theorems on the network (lec-2025/src/labrpc/labrpc.go) at one end and one server, which
-- counts its requests.
use mit.Base.{ℕ, ◌+◌, ◌≡◌, ◌≢◌, ◌≤◌, refl, true, false, some, List, [], ◌∷◌}
use mit.Base.Assoc.{lookup, insert, nat_eq}
use mit.Raft.State.{Bytes}
use mit.Labrpc.{
  Work, waiting, replied, passes, dropped, Event, send, accept, handle, receive, finish, make_end,
  add_server, delete_server, connect, enable, is_server_dead, step, run, quiet,
}
use mit.Labrpc.History.{times}
use mit.Labrpc.Once.{Answers, run-Answers}
use mit.Labrpc.Deleted.{adds}
use mit.Labrpc.Silent.{delete_server-silent}

abbrev dispatch : ℕ → Bytes → ℕ → ℕ × Bytes
dispatch server req n = (n + 1, n ∷ req)

-- Server 70 has the name 7, and the end 1 goes to it.
abbrev calling : List Event
calling =
    make_end 1
    ∷ connect 1 7
    ∷ add_server 7 70
    ∷ enable 1 true
    ∷ send 0 1 (5 ∷ [])
    ∷ accept 0 passes
    ∷ []

abbrev whole : List Event
whole =
    make_end 1
    ∷ connect 1 7
    ∷ add_server 7 70
    ∷ enable 1 true
    ∷ send 0 1 (5 ∷ [])
    ∷ accept 0 passes
    ∷ handle 0
    ∷ receive 0
    ∷ finish 0 dropped
    ∷ []

-- On a reliable network the call is answered.
is_answered : (run dispatch (quiet 3) whole).phases 0 ≡ replied (some (3 ∷ 5 ∷ []))
unfolding run step is_server_dead lookup insert
is_answered = refl

run-Answers_example :
    let s = run dispatch (quiet 3) whole in
    (times 0 s.executed ≤ 1) × Answers (s.phases 0) (times 0 s.executed) (lookup 0 s.executed)
run-Answers_example = run-Answers dispatch 3 whole 0

abbrev work : Work
work = record { endname = 1; servername = 7; server = 70; reliable = true; reordering = false }

is_waiting : (run dispatch (quiet 3) calling).phases 0 ≡ waiting work
unfolding run step is_server_dead lookup insert
is_waiting = refl

abbrev afterwards : List Event
afterwards = handle 0 ∷ add_server 7 71 ∷ receive 0 ∷ finish 0 passes ∷ []

not_again : adds 7 70 afterwards ≡ false
unfolding adds
not_again = refl

delete_server-silent_example :
    (run dispatch
        (step dispatch (run dispatch (quiet 3) calling) (delete_server 7))
        afterwards).phases
      0
    ≢ replied (some (3 ∷ 5 ∷ []))
delete_server-silent_example =
    delete_server-silent dispatch (run dispatch (quiet 3) calling) 0 work afterwards (3 ∷ 5 ∷ [])
      is_waiting not_again
