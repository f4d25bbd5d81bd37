-- ===== src/Process.antt =====
-- A process as a whole: what its user can call, and what holds of its state between two calls.
pub mod Messages
pub mod Ports
pub mod Creation
pub mod Hubs
pub mod Membership
pub mod Peers
pub mod Services
pub mod Reachable
use dpn.Prelude.{ℕ, ◌+◌, ◌^◌, ◌≤◌, ◌<◌, ◌≡◌, ◌≢◌, Bool, some, List, [], Bytes, length, find}
use dpn.Prelude.Int.{ℤ}
use dpn.Exec.{Exec, done, state, pure, modify, ◌>>=◌}
use dpn.Exec.Keeps.{Keeps}
use dpn.Message.{Message, IsValid, buffer}
use dpn.Label.{Label}
use dpn.Names.{Transport, get_port_name, peer_id_to_hub_name}
use dpn.Zmq.{Zmq, sent}
use dpn.State.{State, Port, Interface, set_message}
use dpn.Port
use dpn.Message
use dpn.Hub
use dpn.Peer
use dpn.Interface
use dpn.Interface.{Handlers}
use dpn.Peer.Header.{HoldsLabel}

-- The parts of a state that fit together: every message stays inside its allocation; the label message
-- has room for a header; every port that the hub lists is one that was made, under the name that the
-- hub's name and its id give; the hub is named for the peer; the message id has 32 bits.
pub record Sound (messages : ℕ → Message) (ports : ℕ → Port) (next_port : ℕ) (hub_name : Bytes)
    (listed : List (ℕ × ℕ)) (peer_id label_message message_id : ℕ) : Type 0 where
  pub valid : (h : ℕ) → IsValid (messages h)
  pub counted : (h : ℕ) → (messages h).capacity < 2 ^ 64
  pub header : HoldsLabel (messages label_message)
  pub made : (id p : ℕ) → find id listed ≡ some p → p < next_port
  pub named :
      (id p : ℕ)
      → find id listed ≡ some p
      → (ports p).port_name ≡ get_port_name (record { hub_name = hub_name; port_id = id })
  pub null : (id p : ℕ) → find id listed ≡ some p → (ports p).null_message ≡ []
  pub hub_named : hub_name ≡ peer_id_to_hub_name peer_id
  pub id_range : message_id < 2 ^ 32

module _ {W : Type 0} where
  abbrev pub IsSound : State W → Type 0
  IsSound s =
      Sound s.messages s.ports s.next_port s.hub.hub_name s.hub.ports s.peer.peer_id
        s.peer.label_message s.peer.message_id

-- What ZeroMQ's manual says of a send: the message that was given is not longer afterwards.
pub record Conforms {W : Type 0} (zmq : Zmq W) : Type 0 where
  pub left :
      (socket : ℕ) (frame : Bytes) (more : Bool) (flags n : ℕ) (w w' : W)
      → zmq.send socket frame more flags w ≡ done (sent n) w'
      → n ≤ length frame

-- A user's handlers change the state of the process in no way that breaks it.
pub record Respectful {W : Type 0} (user : Handlers W) : Type 0 where
  pub pull :
      (object : ℕ) (label : Label) (hs : List ℕ) → Keeps IsSound (user.handle_pull object label hs)
  pub reply :
      (object : ℕ) (label : Label) (hs : List ℕ) → Keeps IsSound (user.handle_reply object label hs)
  pub subscription :
      (object : ℕ) (label : Label) (hs : List ℕ)
      → Keeps IsSound (user.handle_subscription object label hs)

-- The public methods of a peer, and what a user does with messages of its own, one that it makes
-- included. A request has its fuel.
pub data Call : Type 0 where
  push : Label → List ℕ → Call
  publish : Label → List ℕ → Call
  request : ℕ → Label → List ℕ → List ℕ → ℤ → Call
  get_pending_package : List ℕ → ℤ → Call
  service_interfaces : ℤ → Call
  subscribe : Label → Call
  add_interface : ℕ → Interface → Call
  add_port : Transport → ℕ → ℕ → ℕ → Call
  remove_port close_port : ℕ → Call
  connect disconnect : ℕ → ℕ → ℕ → Call
  resize : ℕ → ℕ → ℕ → Call
  reset : ℕ → Call
  fill : ℕ → Bytes → Call
  create_message : ℕ → ℕ → Bytes → Call

module _ {W : Type 0} (zmq : Zmq W) (user : Handlers W) where
  abbrev ignore : {A : Type 0} → Exec (State W) A → Exec (State W) (Unit {0})
  ignore m = m >>= λ _. pure tt

  unfoldable pub perform : Call → Exec (State W) (Unit {0})
  perform (push label hs) = ignore (Peer.push zmq label hs)
  perform (publish label hs) = Peer.publish zmq label hs
  perform (request fuel label hs gs timeout) = ignore (Peer.request zmq fuel label hs gs timeout)
  perform (get_pending_package hs timeout) = ignore (Peer.get_pending_package zmq hs timeout)
  perform (service_interfaces timeout) = Interface.service_interfaces zmq user timeout
  perform (subscribe label) = Peer.subscribe zmq label
  perform (add_interface id interface) = Peer.add_interface zmq id interface
  perform (add_port transport context flags id) = Peer.add_port zmq transport context flags id
  perform (remove_port id) = Peer.remove_port zmq id
  perform (close_port id) = Peer.close_port zmq id
  perform (connect peer port id) = Peer.connect zmq peer port id
  perform (disconnect peer port id) = Peer.disconnect zmq peer port id
  perform (resize h size offset) =
      modify (λ s. set_message h (Message.resize (s.messages h) size offset) s)
  perform (reset h) = modify (λ s. set_message h (Message.reset (s.messages h)) s)
  perform (fill h bytes) = λ s. Port.store zmq h (buffer (s.messages h)) bytes s
  perform (create_message h capacity fresh) = modify (set_message h (Message.create capacity fresh))

  -- A user has no access to the label message, the sizes it passes do not wrap, and a message that it
  -- makes is given the allocation that it asked for.
  abbrev pub Allowed : State W → Call → Type 0
  Allowed s (resize h size offset) = (h ≢ s.peer.label_message) × (size + offset < 2 ^ 64)
  Allowed s (reset h) = h ≢ s.peer.label_message
  Allowed s (fill h bytes) = h ≢ s.peer.label_message
  Allowed s (create_message h capacity fresh) =
      (h ≢ s.peer.label_message) × (length fresh ≡ capacity) × (capacity < 2 ^ 64)
  Allowed s _ = Unit

  -- The states that calls lead to, those that throw included; between two calls, the other processes
  -- and the transport library's threads change the network in any way.
  pub data Reach (s : State W) : State W → Type 0 where
    here : Reach s s
    next :
        {t : State W}
        → Reach s t
        → (call : Call) → Allowed t call
        → Reach s (state (perform call t))
    interfere : {t : State W} → Reach s t → (w : W) → Reach s (record t { world = w })
