-- ===== src/Labrpc.antt =====
-- The network of the tests and the experiments, lec-2025/src/labrpc/labrpc.go: the goroutine
-- `processReq` of each call, in the steps between which other goroutines run. What is proved is in
-- the modules below.
pub mod History
pub mod Once
pub mod Deleted
pub mod Silent
pub mod Tests
use mit.Base.{
  ℕ, zero, suc, ◌+◌, ◌==◌, Bool, true, false, ◌&&◌, ◌||◌, not, Option, none, some, List, [], ◌∷◌,
  if◌then◌else◌,
}
use mit.Base.Assoc.{Map, lookup, insert, delete, nat_eq}
use mit.Raft.State.{Bytes}

-- Names of ends and of servers are numbers, and so are the pointers to servers; a server that is
-- deleted stays in the map as nil.
pub record Network : Type 0 where
  pub reliable : Bool
  pub long_reordering : Bool
  pub ends : Map ℕ Bool
  pub enabled : Map ℕ Bool
  pub servers : Map ℕ (Option ℕ)
  pub connections : Map ℕ (Option ℕ)

abbrev pub make_network : Network
make_network = record {
  reliable = true;
  long_reordering = false;
  ends = [];
  enabled = [];
  servers = [];
  connections = [];
}

abbrev pub is_enabled : Network → ℕ → Bool
is_enabled rn endname = elim (lookup endname rn.enabled) [ none ↦ false | some b ↦ b ]

abbrev pub server_at : Network → ℕ → Option ℕ
server_at rn servername = elim (lookup servername rn.servers) [ none ↦ none | some s ↦ s ]

abbrev pub connection_of : Network → ℕ → Option ℕ
connection_of rn endname = elim (lookup endname rn.connections) [ none ↦ none | some s ↦ s ]

abbrev pub is_pointer : Option ℕ → ℕ → Bool
is_pointer none server = false
is_pointer (some p) server = p == server

-- What `processReq` knows of its request while the handler runs.
pub record Work : Type 0 where
  pub endname : ℕ
  pub servername : ℕ
  pub server : ℕ
  pub reliable : Bool
  pub reordering : Bool

unfoldable pub is_server_dead : Network → Work → Bool
is_server_dead rn w =
    not (is_enabled rn w.endname) || not (is_pointer (server_at rn w.servername) w.server)

-- Where a call is: `waiting` in the loop, `received` after it, `gave_up` when the server was found dead;
-- `delayed` and `timing_out` until a timer sends the reply. `replied none` is false for the caller.
pub data Phase : Type 0 where
  unused : Phase
  sent : ℕ → Bytes → Phase
  timing_out : Phase
  waiting : Work → Phase
  received : Work → Bytes → Phase
  gave_up : Phase
  delayed : Bytes → Phase
  replied : Option Bytes → Phase

-- The goroutine of the handler, with the server and the request, or the reply.
pub data Handler : Type 0 where
  idle : Handler
  started : ℕ → Bytes → Handler
  finished : Bytes → Handler

-- What chance does with a request on an unreliable network, and with a reply.
pub data Fate : Type 0 where
  passes : Fate
  dropped : Fate
  slow : Fate

-- `executed` is the history of the handlers that have returned, with their calls.
pub record System (S : Type 0) : Type 0 where
  pub net : Network
  pub state : S
  pub phases : ℕ → Phase
  pub handlers : ℕ → Handler
  pub executed : Map ℕ Bytes

pub data Event : Type 0 where
  send : ℕ → ℕ → Bytes → Event
  accept : ℕ → Fate → Event
  handle : ℕ → Event
  receive : ℕ → Event
  tick : ℕ → Event
  finish : ℕ → Fate → Event
  deliver : ℕ → Event
  make_end : ℕ → Event
  delete_end : ℕ → Event
  add_server : ℕ → ℕ → Event
  delete_server : ℕ → Event
  connect : ℕ → ℕ → Event
  enable : ℕ → Bool → Event
  set_reliable : Bool → Event
  set_long_reordering : Bool → Event

abbrev drops : Bool → Fate → Bool
drops reliable passes = false
drops reliable dropped = not reliable
drops reliable slow = false

abbrev pub after_reply : Work → Bytes → Fate → Phase
after_reply w reply passes = replied (some reply)
after_reply w reply dropped = if w.reliable then replied (some reply) else replied none
after_reply w reply slow = if w.reordering then delayed reply else replied (some reply)

-- The end, its connection and its server as `readEndnameInfo` finds them.
abbrev pub work_of : Network → ℕ → Option Work
work_of rn endname = elim (connection_of rn endname) [
  | none ↦ none
  | some sn ↦ elim (server_at rn sn) [
    | none ↦ none
    | some p ↦
        if is_enabled rn endname
        then some (record {
          endname = endname;
          servername = sn;
          server = p;
          reliable = rn.reliable;
          reordering = rn.long_reordering;
        })
        else none
  ]
]

module _ {S : Type 0} where
  abbrev pub with_phase : System S → ℕ → Phase → System S
  with_phase s c p = record s { phases = λ d. if c == d then p else s.phases d }

  abbrev pub with_handler : System S → ℕ → Handler → System S
  with_handler s c h = record s { handlers = λ d. if c == d then h else s.handlers d }

  abbrev pub with_net : System S → Network → System S
  with_net s rn = record s { net = rn }

  -- The handler is started, or the call will time out.
  abbrev pub accepted : System S → ℕ → Bytes → Fate → Option Work → System S
  accepted s c req fate none = with_phase s c timing_out
  accepted s c req fate (some w) =
      if drops w.reliable fate
      then with_phase s c (replied none)
      else with_handler (with_phase s c (waiting w)) c (started w.server req)

  abbrev pub accept_in : System S → ℕ → Fate → Phase → System S
  accept_in s c fate (sent endname req) = accepted s c req fate (work_of s.net endname)
  accept_in s c fate p = s

  abbrev pub receive_in : System S → ℕ → Phase → Handler → System S
  receive_in s c (waiting w) (finished reply) = with_phase s c (received w reply)
  receive_in s c p h = s

  -- A hundred milliseconds are over.
  abbrev pub tick_in : System S → ℕ → Phase → System S
  tick_in s c (waiting w) = if is_server_dead s.net w then with_phase s c gave_up else s
  tick_in s c p = s

  abbrev pub finish_in : System S → ℕ → Fate → Phase → System S
  finish_in s c fate (received w reply) =
      with_phase s c (if is_server_dead s.net w then replied none else after_reply w reply fate)
  finish_in s c fate gave_up = with_phase s c (replied none)
  finish_in s c fate p = s

  abbrev pub deliver_in : System S → ℕ → Phase → System S
  deliver_in s c timing_out = with_phase s c (replied none)
  deliver_in s c (delayed reply) = with_phase s c (replied (some reply))
  deliver_in s c p = s

  abbrev pub send_in : System S → ℕ → ℕ → Bytes → Phase → System S
  send_in s c endname req unused = with_phase s c (sent endname req)
  send_in s c endname req p = s

  -- The handlers of the servers, by the pointer and the request: `Server.dispatch` with its reflection.
  -- It answers each request with a reply, since one to an unknown service or method ends the process.
  module _ (dispatch : ℕ → Bytes → S → S × Bytes) where
    abbrev pub handle_in : System S → ℕ → Handler → System S
    handle_in s c (started server req) =
        let (state, reply) = dispatch server req s.state in
        with_handler (record s { state = state; executed = (c, reply) ∷ s.executed }) c
          (finished reply)
    handle_in s c h = s

    -- MakeEnd of a name that there is, and DeleteEnd of one that there is not, end the process; nothing
    -- is changed here.
    unfoldable pub step : System S → Event → System S
    unfolding is_server_dead
    step s (send c endname req) = send_in s c endname req (s.phases c)
    step s (accept c fate) = accept_in s c fate (s.phases c)
    step s (handle c) = handle_in s c (s.handlers c)
    step s (receive c) = receive_in s c (s.phases c) (s.handlers c)
    step s (tick c) = tick_in s c (s.phases c)
    step s (finish c fate) = finish_in s c fate (s.phases c)
    step s (deliver c) = deliver_in s c (s.phases c)
    step s (make_end e) = elim (lookup e s.net.ends) [
      | none ↦ with_net s (record s.net {
        ends = insert e true s.net.ends;
        enabled = insert e false s.net.enabled;
        connections = insert e none s.net.connections;
      })
      | some b ↦ s
    ]
    step s (delete_end e) = elim (lookup e s.net.ends) [
      | none ↦ s
      | some b ↦ with_net s (record s.net {
        ends = delete e s.net.ends;
        enabled = delete e s.net.enabled;
        connections = delete e s.net.connections;
      })
    ]
    step s (add_server sn p) =
        with_net s (record s.net { servers = insert sn (some p) s.net.servers })
    step s (delete_server sn) = with_net s (record s.net { servers = insert sn none s.net.servers })
    step s (connect e sn) =
        with_net s (record s.net { connections = insert e (some sn) s.net.connections })
    step s (enable e b) = with_net s (record s.net { enabled = insert e b s.net.enabled })
    step s (set_reliable b) = with_net s (record s.net { reliable = b })
    step s (set_long_reordering b) = with_net s (record s.net { long_reordering = b })

    unfoldable pub run : System S → List Event → System S
    run s [] = s
    run s (e ∷ es) = run (step s e) es

abbrev pub quiet : {S : Type 0} → S → System S
quiet state = record {
  net = make_network;
  state = state;
  phases = λ c. unused;
  handlers = λ c. idle;
  executed = [];
}
