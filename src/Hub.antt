-- ===== src/Hub.antt =====
-- dpn/hub: a map from port ids to ports, and a poller over their sockets. Ports are reached through the
-- map; the order in which `std::unordered_map` is walked is that of the list. The proofs are in the
-- children.
pub mod Ports
pub mod Polling
pub mod Receive
pub mod Readding
use dpn.Prelude.{ℕ, ◌≡◌, Option, none, some, List, [], ◌∷◌, Bytes, find, insert, erase}
use dpn.Prelude.Int.{ℤ}
use dpn.Exec.{Exec, pure, raise, gets, lift, modify, ◌>>=◌, ◌>>◌, runtime_error, undefined}
use dpn.Names.{Transport, PortSpecification, get_port_name, set_port_name}
use dpn.Zmq.{Zmq}
use dpn.State.{State, Hub, set_hub, on_world}
use dpn.Port

-- The constructor.
unfoldable pub create : Bytes → Hub
create name = record { hub_name = name; ports = []; poll_port_id = 0; poll_event_flags = 0 }

module _ {W : Type 0} (zmq : Zmq W) where
  -- The destructor's body is empty: the ports that AddPort made are not deleted.
  unfoldable pub destroy : Exec (State W) (Unit {0})
  destroy = pure tt

  unfoldable pub find_port : ℕ → Exec (State W) (Option ℕ)
  find_port id = gets (λ s. find id s.hub.ports)

  close_all : List (ℕ × ℕ) → Exec (State W) (Unit {0})
  close_all [] = pure tt
  close_all ((id, p) ∷ rest) = Port.close zmq p >> close_all rest

  unfoldable pub close : Exec (State W) (Unit {0})
  unfolding close_all
  close = do ports ← gets (λ s. s.hub.ports); close_all ports

  -- `if (port == nullptr) { … return; }`, which the methods below share.
  abbrev pub when_found : Option ℕ → (ℕ → Exec (State W) (Unit {0})) → Exec (State W) (Unit {0})
  when_found none call = pure tt
  when_found (some p) call = call p

  unfoldable pub close_port : ℕ → Exec (State W) (Unit {0})
  close_port id = do port ← find_port id; when_found port (Port.close zmq)

  unfoldable pub poll_callback : ℕ → ℕ → Exec (State W) (Unit {0})
  poll_callback id flags =
      modify (λ s. set_hub (record s.hub { poll_port_id = id; poll_event_flags = flags }) s)

  unfoldable pub add_port : ℕ → Transport → ℕ → ℕ → Exec (State W) (Unit {0})
  add_port id transport context flags = do
    name ← gets (λ s. get_port_name (record { hub_name = s.hub.hub_name; port_id = id }))
    p ← Port.create zmq name transport context
    modify (λ s. set_hub (record s.hub { ports = insert id p s.hub.ports }) s)
    socket ← gets (λ s. (s.ports p).socket)
    on_world (zmq.poller_add socket flags id)

  -- `ports_.find(portID)->second` is undefined when there is no such port.
  unfoldable pub remove_port : ℕ → Exec (State W) (Unit {0})
  remove_port id = do
    port ← gets (λ s. find id s.hub.ports)
    elim port [
      | none ↦ raise undefined
      | some p ↦ do
        modify (λ s. set_hub (record s.hub { ports = erase id s.hub.ports }) s)
        socket ← gets (λ s. (s.ports p).socket)
        on_world (zmq.poller_remove socket)
    ]

  unfoldable pub connect : ℕ → PortSpecification → Exec (State W) (Unit {0})
  connect id spec = do
    port ← find_port id
    when_found port (λ p. Port.connect zmq p (get_port_name spec))

  unfoldable pub disconnect : ℕ → PortSpecification → Exec (State W) (Unit {0})
  disconnect id spec = do
    port ← find_port id
    when_found port (λ p. Port.disconnect zmq p (get_port_name spec))

  unfoldable pub unbind : ℕ → PortSpecification → Exec (State W) (Unit {0})
  unbind id spec = do
    port ← find_port id
    when_found port (λ p. Port.unbind zmq p (get_port_name spec))

  -- Send of a package, with the default flags.
  unfoldable pub send : ℕ → PortSpecification → List ℕ → Exec (State W) (Unit {0})
  send id spec messages = do
    port ← find_port id
    when_found port (λ p. Port.send zmq p (get_port_name spec) messages 0)

  -- Send of one message.
  unfoldable pub send_single : ℕ → PortSpecification → ℕ → Exec (State W) (Unit {0})
  send_single id spec message = do
    port ← find_port id
    when_found port (λ p. Port.send_single zmq p (get_port_name spec) message 0)

  abbrev pub receiving :
      Option ℕ → PortSpecification → (ℕ → Exec (State W) Bytes) → Exec (State W) PortSpecification
  receiving none spec call = pure spec
  receiving (some p) spec call = do name ← call p; lift (set_port_name spec.hub_name name)

  -- `spec` is the value of the reference, and the result its new value.
  unfoldable pub receive : ℕ → PortSpecification → List ℕ → Exec (State W) PortSpecification
  receive id spec messages = do
    port ← find_port id
    receiving port spec (λ p. Port.receive zmq p [] messages 0)

  unfoldable pub receive_single : ℕ → PortSpecification → ℕ → Exec (State W) PortSpecification
  receive_single id spec message = do
    port ← find_port id
    receiving port spec (λ p. Port.receive_single zmq p [] message 0)

  unfoldable pub arm : List (ℕ × ℕ) → ℕ → Exec (State W) (Unit {0})
  arm [] flags = pure tt
  arm ((id, p) ∷ rest) flags = do
    socket ← gets (λ s. (s.ports p).socket)
    on_world (zmq.poller_modify socket flags)
    arm rest flags

  -- The handlers that the poller calls.
  unfoldable pub handle_events : List (ℕ × ℕ) → Exec (State W) (Unit {0})
  unfolding poll_callback
  handle_events [] = pure tt
  handle_events ((id, flags) ∷ events) = poll_callback id flags >> handle_events events

  abbrev pub event_seen : List (ℕ × ℕ) → Exec (State W) (ℕ × ℕ)
  event_seen [] = raise runtime_error
  event_seen (e ∷ es) = gets (λ s. (s.hub.poll_port_id, s.hub.poll_event_flags))

  -- Returns the two references, the port id and the flags.
  unfoldable pub poll : ℕ → ℤ → Exec (State W) (ℕ × ℕ)
  unfolding handle_events
  poll flags timeout = do
    ports ← gets (λ s. s.hub.ports)
    arm ports flags
    events ← on_world (zmq.poller_wait timeout)
    handle_events events
    event_seen events
