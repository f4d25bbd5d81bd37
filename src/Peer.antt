-- ===== src/Peer.antt =====
-- dpn/peer: the calls that a peer offers over its hub. A label passed by reference is an argument, and
-- its new value is part of the result. The logger of a peer is not part of the state.
pub mod Header
pub mod Publishing
pub mod Resend
pub mod Broadcast
pub mod Delivery
pub mod Arrival
pub mod Requests
pub mod Budget
pub mod Rounds
pub mod Waiting
pub mod Links
pub mod Defaults
pub mod Routing
pub mod Sending
pub mod Ordering
pub mod Naming
pub mod Reaching
pub mod Subscriptions
use Prim.Native.Nat.{bit_and}
use dpn.Prelude.{
  ℕ, zero, suc, ◌+◌, ◌%◌, ◌^◌, ◌≡◌, Bool, true, false, Option, none, some, List, [], ◌∷◌, ◌++◌,
  Bytes, drop, ◌==◌, if◌then◌else◌, find, insert, assign, update,
}
use dpn.Prelude.Int.{ℤ, ◌-ℤ◌, leb_ℤ}
use dpn.Exec.{
  Exec, done, raised, pure, raise, gets, lift, modify, attempt, ◌>>=◌, ◌>>◌, runtime_error,
}
use dpn.Message
use dpn.Message.{Message, buffer}
use dpn.Label.{Label, Contents, src, dest, get_interface_id, get_port_id, get_peer_id, set_peer_id}
use dpn.Label.Layout.{contents_size, encode, encode_id, decode}
use dpn.Names.{Transport, PortSpecification, peer_id_to_hub_name, hub_name_to_peer_id}
use dpn.Zmq.{Zmq}
use dpn.State.{State, Peer, Interface, set_message, set_peer, set_hub, on_world}
use dpn.Port
use dpn.Hub

-- zmq::event_flags::pollin
abbrev pub pollin : ℕ
pollin = 1

unfoldable pub poll_event_present : ℕ → ℕ → Bool
poll_event_present flags event = bit_and flags event == event

-- How the waiting of a request ends: with the message that was waited for, with an exception of the
-- poll, or with the time run out. The C++ function returns nothing in all three cases.
pub data Ending : Type 0 where
  matched interrupted expired : Ending

module _ {W : Type 0} (zmq : Zmq W) where
  -- The constructor: `label` and `recv` are the places of the two messages, with what `new` allocated.
  unfoldable pub create : ℕ → ℕ → (label recv : ℕ) → Bytes → Bytes → State W → State W
  unfolding peer_id_to_hub_name
  create id recv_size label recv label_memory recv_memory s = record s {
    messages =
        update
          (update s.messages label
            (Message.resize (Message.create contents_size label_memory) contents_size 0))
          recv (Message.create recv_size recv_memory);
    hub = Hub.create (peer_id_to_hub_name id);
    peer = record {
      peer_id = id;
      label_message = label;
      recv_message = recv;
      recv_package = recv ∷ [];
      message_id = 0;
      interface_map = [];
      pub_map = [];
    };
  }

  unfoldable pub add_interface : ℕ → Interface → Exec (State W) (Unit {0})
  add_interface id interface =
      modify (λ s.
        set_peer (record s.peer { interface_map = insert id interface s.peer.interface_map }) s)

  -- The contents that stand in the label message.
  unfoldable pub load_label : State W → Contents
  load_label s = let m = s.messages s.peer.label_message in decode (drop (buffer m) m.memory)

  abbrev pub set_receipts : ℕ → List Label → State W → State W
  set_receipts topic labels s =
      set_peer (record s.peer { pub_map = assign topic labels s.peer.pub_map }) s

  abbrev pub subscribed : Label → ℕ → Option (List Label) → State W → State W
  subscribed label topic none s =
      set_peer (record s.peer { pub_map = insert topic (label ∷ []) s.peer.pub_map }) s
  subscribed label topic (some labels) s = set_receipts topic (labels ++ label ∷ []) s

  unfoldable pub subscribe : Label → Exec (State W) (Unit {0})
  subscribe label =
      let topic = get_interface_id label src in
      modify (λ s. subscribed label topic (find topic s.peer.pub_map) s)

  -- The label that goes out: with this peer as its source.
  unfoldable pub stamp : State W → Label → Label
  stamp s label = set_peer_id label s.peer.peer_id src

  unfoldable pub destination : Label → PortSpecification
  destination label = record {
    hub_name = peer_id_to_hub_name (get_peer_id label dest);
    port_id = get_port_id label dest;
  }

  -- `messageID_++` on a `uint32_t`.
  unfoldable pub next_id : State W → ℕ
  next_id s = (s.peer.message_id + 1) % 2 ^ 32

  -- The label goes into the message `h`, at its buffer, with the next message id in the place of its own.
  unfoldable pub header_into : ℕ → ℕ → Label → Exec (State W) (Unit {0})
  header_into h at label = do
    Port.store zmq h at (encode label.contents)
    modify (λ s. set_peer (record s.peer { message_id = next_id s }) s)
    id ← gets (λ s. s.peer.message_id)
    Port.store zmq h at (encode_id id)

  unfoldable pub write_header : Label → Exec (State W) (Unit {0})
  write_header label = do
    h ← gets (λ s. s.peer.label_message)
    at ← gets (λ s. buffer (s.messages h))
    header_into h at label

  -- SendMessages; the result is the label as it is left.
  unfoldable pub push : Label → List ℕ → Exec (State W) Label
  push label messages = do
    stamped ← gets (λ s. stamp s label)
    write_header stamped
    h ← gets (λ s. s.peer.label_message)
    Hub.send zmq (get_port_id stamped src) (destination stamped) (h ∷ messages)
    pure stamped

  -- The loop over the receipts of a topic, which it changes in place: `sent` are those before the one at
  -- hand.
  unfoldable pub publish_all : ℕ → List Label → List Label → List ℕ → Exec (State W) (Unit {0})
  publish_all topic sent [] messages = pure tt
  publish_all topic sent (label ∷ rest) messages = do
    stamped ← gets (λ s. stamp s label)
    modify (set_receipts topic (sent ++ stamped ∷ rest))
    push stamped messages >>= λ _. publish_all topic (sent ++ stamped ∷ []) rest messages

  abbrev pub publish_to : ℕ → Option (List Label) → List ℕ → Exec (State W) (Unit {0})
  publish_to topic none messages = pure tt
  publish_to topic (some labels) messages = publish_all topic [] labels messages

  unfoldable pub publish : Label → List ℕ → Exec (State W) (Unit {0})
  publish label messages = do
    labels ← gets (λ s. find (get_interface_id label src) s.peer.pub_map)
    publish_to (get_interface_id label src) labels messages

  -- The specification of the sender is compared with the label only for the log, but its hub name is
  -- read as a number when the ports agree, and that may throw.
  unfoldable pub check_sender : PortSpecification → Exec (State W) (Unit {0})
  check_sender spec = do
    contents ← gets load_label
    if contents.src.port_id == spec.port_id
        then lift (hub_name_to_peer_id spec.hub_name) >>= (λ _. pure tt)
        else pure tt

  -- The port number of a default-constructed specification is indeterminate: here 0.
  abbrev pub blank_specification : PortSpecification
  blank_specification = record { hub_name = []; port_id = 0 }

  unfoldable pub receive_messages : ℕ → List ℕ → Exec (State W) (Unit {0})
  receive_messages port messages = do
    h ← gets (λ s. s.peer.label_message)
    spec ← Hub.receive zmq port blank_specification (h ∷ messages)
    check_sender spec

  unfoldable pub poll : List ℕ → ℕ → ℤ → Exec (State W) (Unit {0})
  poll messages flags timeout = do
    event ← Hub.poll zmq flags timeout
    if poll_event_present event.1 pollin
        then receive_messages event.0 messages
        else raise runtime_error

  -- The label is overwritten as a whole.
  unfoldable pub get_pending_package : List ℕ → ℤ → Exec (State W) Label
  get_pending_package messages timeout = do
    poll messages pollin timeout
    gets (λ s. record { contents = load_label s })

  abbrev pub clock : Exec (State W) ℤ
  clock s = done (zmq.now s.world).0 (record s { world = (zmq.now s.world).1 })

  -- The loop of RequestImpl on fuel: `none` means that the fuel ran out. `wait` is the timeout of the
  -- next poll.
  unfoldable pub request_loop :
      ℕ → List ℕ → (start timeout elapsed wait : ℤ) → Exec (State W) (Option Ending)
  request_loop zero messages start timeout elapsed wait = pure none
  request_loop (suc fuel) messages start timeout elapsed wait =
      if leb_ℤ elapsed timeout
      then (do
        polled ← attempt (poll messages pollin wait)
        elim polled [
          | none ↦ pure (some interrupted)
          | some _ ↦ do
            header ← gets load_label
            id ← gets (λ s. s.peer.message_id)
            if header.message_id == id then pure (some matched) else do
              time ← clock
              request_loop fuel messages start timeout (time -ℤ start) (timeout -ℤ (time -ℤ start))
        ])
      else pure (some expired)

  unfoldable pub request_impl : ℕ → List ℕ → ℤ → Exec (State W) (Option Ending)
  request_impl fuel messages timeout = do
    start ← clock
    request_loop fuel messages start timeout timeout timeout

  unfoldable pub request : ℕ → Label → List ℕ → List ℕ → ℤ → Exec (State W) (Option Ending)
  request fuel label send_package recv_package timeout =
      push label send_package >>= λ _. request_impl fuel recv_package timeout

  unfoldable pub add_port : Transport → ℕ → ℕ → ℕ → Exec (State W) (Unit {0})
  add_port transport context flags local_port = Hub.add_port zmq local_port transport context flags

  unfoldable pub remove_port : ℕ → Exec (State W) (Unit {0})
  remove_port local_port = Hub.remove_port zmq local_port

  unfoldable pub close_port : ℕ → Exec (State W) (Unit {0})
  close_port local_port = Hub.close_port zmq local_port

  unfoldable pub connect : ℕ → ℕ → ℕ → Exec (State W) (Unit {0})
  connect peer port local_port =
      Hub.connect zmq local_port (record { hub_name = peer_id_to_hub_name peer; port_id = port })

  -- The hub is asked with the remote port's id; `local_port` is not used.
  unfoldable pub disconnect : ℕ → ℕ → ℕ → Exec (State W) (Unit {0})
  disconnect peer port local_port =
      Hub.disconnect zmq port (record { hub_name = peer_id_to_hub_name peer; port_id = port })
