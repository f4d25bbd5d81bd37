-- ===== src/Examples.antt =====
-- A small network, and a peer in it, at which the theorems about dpn are applied. The witnesses are in
-- the children.
pub mod Data
pub mod Ports
pub mod Hubs
pub mod Peers
pub mod Contexts
pub mod Broadcasts
pub mod Deliveries
pub mod Processes
pub mod Services
pub mod Loggers
pub mod Strict
pub mod Composed
pub mod Answers
pub mod Enrolments
pub mod Links
pub mod Mailing
pub mod Ordered
pub mod Registry
pub mod Readings
pub mod Deadlines
use dpn.Prelude.{
  ℕ, suc, ◌+◌, true, false, Bool, none, some, List, [], ◌∷◌, ◌++◌, Bytes, if◌then◌else◌, ◌==◌,
  replicate,
}
use dpn.Prelude.Int.{pos}
use dpn.Exec.{done, raised, zmq_error}
use dpn.Message.{Message}
use dpn.Text.{codes}
use dpn.Names.{inproc}
use dpn.Zmq.{Zmq, sent}
use dpn.State.{State, Port, Hub, Peer, Interface, reply, subscription}
use dpn.Port.{has_name}

-- Frames that wait to be received, frames that were sent, the addresses that are bound, the events that
-- the poller will report, and the time.
pub record Net : Type 0 where
  pub incoming : List (Bytes × Bool)
  pub outgoing : List Bytes
  pub bound : List Bytes
  pub events : List (ℕ × ℕ)
  pub time : ℕ

-- A network that takes every frame, hands over the frames that wait, and knows what it has bound.
abbrev pub net : Zmq Net
unfolding has_name
net = record {
  open_router = λ context w. done 5 w;
  set_routing_id = λ socket id w. done tt w;
  set_router_mandatory = λ socket b w. done tt w;
  bind = λ socket id w. done tt (record w { bound = id ∷ w.bound });
  unbind = λ socket id w. if has_name id w.bound then done tt w else raised (zmq_error 2) w;
  connect = λ socket id w. done tt w;
  disconnect = λ socket id w. done tt w;
  close = λ socket w. w;
  send =
      λ socket frame more flags w. done (sent 0) (record w { outgoing = w.outgoing ++ frame ∷ [] });
  recv = λ socket flags w. elim w.incoming [
    | [] ↦ done none w
    | f ∷ fs ↦ done (some f) (record w { incoming = fs })
  ];
  poller_add = λ socket flags id w. done tt w;
  poller_modify = λ socket flags w. done tt w;
  poller_remove = λ socket w. done tt w;
  poller_wait = λ timeout w. elim w.events [
    | [] ↦ done [] w
    | e ∷ es ↦ done (e ∷ []) (record w { events = es })
  ];
  now = λ w. (pos w.time, record w { time = suc w.time });
}

abbrev pub quiet : Net
quiet = record { incoming = []; outgoing = []; bound = []; events = []; time = 0 }

-- The frames of a multipart message as they come out of a socket.
abbrev pub multipart : List Bytes → List (Bytes × Bool)
multipart [] = []
multipart (f ∷ []) = (f, false) ∷ []
multipart (f ∷ g ∷ fs) = (f, true) ∷ multipart (g ∷ fs)

abbrev pub label_message : Message
label_message = record {
  size = 20;
  offset = 0;
  capacity = 20;
  memory = replicate 20 0;
  contents = 20;
}

-- A message that holds "abc" in a buffer of four bytes.
abbrev pub part : Message
part = record { size = 3; offset = 0; capacity = 4; memory = codes "abcd"; contents = 3 }

abbrev pub port : Port
port = record {
  port_name = codes "3-1";
  transport = inproc;
  socket = 5;
  null_message = [];
  connections = [];
  bindings = codes "3-1" ∷ [];
}

-- Peer 3 with one port, number 1, and two interfaces; the label message is at 0 and the messages of its
-- packages are behind it.
abbrev pub start : Net → State Net
start w = record {
  messages = λ h. if h == 0 then label_message else part;
  ports = λ p. port;
  next_port = 1;
  hub = record {
    hub_name = codes "3";
    ports = (1, 0) ∷ [];
    poll_port_id = 0;
    poll_event_flags = 0;
  };
  peer = record {
    peer_id = 3;
    label_message = 0;
    recv_message = 1;
    recv_package = 1 ∷ [];
    message_id = 0;
    interface_map =
        (8, record { kind = subscription; object = 1 })
        ∷ (9, record { kind = reply; object = 2 })
        ∷ [];
    pub_map = [];
  };
  world = w;
}
