-- ===== src/Port.antt =====
-- dpn/port: a ZeroMQ router socket with a name. A method takes the place of its port in the heap.
pub mod Receiving
pub mod Send
pub mod Copy
pub mod Gather
pub mod Single
pub mod Receive
pub mod Still
pub mod Links
pub mod Frames
pub mod Overloads
pub mod Leftovers
pub mod Truncation
pub mod Mirroring
pub mod Construction
unfoldable pub use dpn.Port.Receiving.{
  max_frames, collect, store, copy_frame, resize, copy_single, copy_package, accept,
}
use dpn.Prelude.{
  ℕ, zero, suc, ◌+◌, ◌≡◌, Bool, true, false, ◌&&◌, Option, none, some, List, [], ◌∷◌, ◌++◌, Bytes,
  length, take, ltb, ◌==◌, if◌then◌else◌, update,
}
use dpn.Exec.{
  Exec, Outcome, done, raised, pure, raise, gets, lift, modify, state, ◌>>=◌, ◌>>◌, Error,
  out_of_range, runtime_error, undefined,
}
use dpn.Message
use dpn.Message.{Message, payload, write_at, truncate, buffer}
use dpn.Names.{Transport, port_name_to_socket_id, port_name_from_socket_id}
use dpn.Zmq.{Zmq, sent, again, has_more}
use dpn.State.{Port, State, set_message, set_port, on_world}

-- The comparison of `std::string`s.
unfoldable pub same_name : Bytes → Bytes → Bool
same_name [] [] = true
same_name (c ∷ cs) (d ∷ ds) = c == d && same_name cs ds
same_name _ _ = false

-- `std::find` over names.
unfoldable pub has_name : Bytes → List Bytes → Bool
unfolding same_name
has_name name [] = false
has_name name (n ∷ ns) = if same_name n name then true else has_name name ns

-- `erase` at the place that `std::find` gave.
unfoldable pub erase_name : Bytes → List Bytes → List Bytes
unfolding same_name
erase_name name [] = []
erase_name name (n ∷ ns) = if same_name n name then ns else n ∷ erase_name name ns

-- A `zmq::message_t*` of a multipart message: the address frame on the stack, the port's null
-- message, or the contents of a message in the heap.
pub data Frame : Type 0 where
  address : Bytes → Frame
  null_frame : Frame
  content : ℕ → Frame

unfoldable pub frames_of : List ℕ → List Frame
frames_of [] = []
frames_of (h ∷ hs) = content h ∷ frames_of hs

-- LoadMultipart of a package, behind the address frame, and of one message.
unfoldable pub load_multipart : Bytes → List ℕ → List Frame
unfolding frames_of
load_multipart id messages = address id ∷ null_frame ∷ frames_of messages

unfoldable pub load_multipart_single : Bytes → ℕ → List Frame
load_multipart_single id message = address id ∷ null_frame ∷ content message ∷ []

module _ {W : Type 0} (zmq : Zmq W) where
  unfoldable pub close : ℕ → Exec (State W) (Unit {0})
  close p = modify (λ s. record s { world = zmq.close (s.ports p).socket s.world })

  -- The destructor's body.
  unfoldable pub destroy : ℕ → Exec (State W) (Unit {0})
  unfolding close
  destroy p = close p

  unfoldable pub connect : ℕ → Bytes → Exec (State W) (Unit {0})
  connect p name = do
    port ← gets (λ s. s.ports p)
    id ← lift (port_name_to_socket_id name port.transport)
    on_world (zmq.connect port.socket id)
    modify (set_port p (record port { connections = port.connections ++ name ∷ [] }))

  unfoldable pub disconnect : ℕ → Bytes → Exec (State W) (Unit {0})
  unfolding has_name erase_name
  disconnect p name = do
    port ← gets (λ s. s.ports p)
    if has_name name port.connections
        then (do
          id ← lift (port_name_to_socket_id name port.transport)
          on_world (zmq.disconnect port.socket id)
          modify (set_port p (record port { connections = erase_name name port.connections })))
        else pure tt

  -- The address that is bound is made of the port's own name, whatever `name` is.
  unfoldable pub bind : ℕ → Bytes → Exec (State W) (Unit {0})
  bind p name = do
    port ← gets (λ s. s.ports p)
    id ← lift (port_name_to_socket_id port.port_name port.transport)
    on_world (zmq.bind port.socket id)
    modify (set_port p (record port { bindings = port.bindings ++ name ∷ [] }))

  unfoldable pub unbind : ℕ → Bytes → Exec (State W) (Unit {0})
  unfolding has_name erase_name
  unbind p name = do
    port ← gets (λ s. s.ports p)
    if has_name name port.bindings
        then (do
          id ← lift (port_name_to_socket_id name port.transport)
          on_world (zmq.unbind port.socket id)
          modify (set_port p (record port { bindings = erase_name name port.bindings })))
        else pure tt

  -- The body of the constructor.
  unfoldable pub start : ℕ → Exec (State W) (Unit {0})
  start p = do
    port ← gets (λ s. s.ports p)
    id ← lift (port_name_to_socket_id port.port_name port.transport)
    on_world (zmq.set_routing_id port.socket id)
    on_world (zmq.set_router_mandatory port.socket true)
    bind p port.port_name

  -- When the body throws, the socket member is destroyed, which closes it.
  abbrev pub closing : ℕ → ℕ → Outcome (State W) (Unit {0}) → Outcome (State W) ℕ
  closing p socket (done _ s) = done p s
  closing p socket (raised e s) = raised e (record s { world = zmq.close socket s.world })

  -- `new Port(name, transport, context)`: the place of the new object.
  unfoldable pub create : Bytes → Transport → ℕ → Exec (State W) ℕ
  create name transport context = do
    socket ← on_world (zmq.open_router context)
    p ← gets (λ s. s.next_port)
    modify (λ s. record s {
      next_port = suc s.next_port;
      ports = update s.ports p (record {
        port_name = name;
        transport = transport;
        socket = socket;
        null_message = [];
        connections = [];
        bindings = [];
      });
    })
    λ s. closing p socket (start p s)

  unfoldable pub frame_data : ℕ → State W → Frame → Bytes
  unfolding payload
  frame_data p s (address id) = id
  frame_data p s null_frame = (s.ports p).null_message
  frame_data p s (content h) = payload (s.messages h)

  -- The frame after a send that left `n` bytes in it.
  unfoldable pub leave : ℕ → Frame → ℕ → State W → State W
  unfolding truncate
  leave p (address id) n s = s
  leave p null_frame n s =
      set_port p (record (s.ports p) { null_message = take n (s.ports p).null_message }) s
  leave p (content h) n s = set_message h (truncate (s.messages h) n) s

  unfoldable pub send_data : ℕ → List Frame → ℕ → Exec (State W) (Unit {0})
  send_data p [] flags = pure tt
  send_data p (f ∷ fs) flags = do
    port ← gets (λ s. s.ports p)
    frame ← gets (λ s. frame_data p s f)
    result ← on_world (zmq.send port.socket frame (has_more fs) flags)
    elim result [
      | sent n ↦ modify (leave p f n) >> send_data p fs flags
      | again ↦ raise runtime_error
    ]

  -- Send of one message.
  unfoldable pub send_single : ℕ → Bytes → ℕ → ℕ → Exec (State W) (Unit {0})
  send_single p name message flags = do
    port ← gets (λ s. s.ports p)
    id ← lift (port_name_to_socket_id name port.transport)
    send_data p (load_multipart_single id message) flags

  -- Send of a package.
  unfoldable pub send : ℕ → Bytes → List ℕ → ℕ → Exec (State W) (Unit {0})
  send p name messages flags = do
    port ← gets (λ s. s.ports p)
    id ← lift (port_name_to_socket_id name port.transport)
    send_data p (load_multipart id messages) flags

  -- Receive into one message.
  unfoldable pub receive_single : ℕ → Bytes → ℕ → ℕ → Exec (State W) Bytes
  receive_single p name h flags = do
    received ← collect zmq p flags max_frames
    accept zmq name (λ frames. do size ← copy_single zmq h frames 0; resize zmq h size) received.0
        received.1

  -- Receive into a package.
  unfoldable pub receive : ℕ → Bytes → List ℕ → ℕ → Exec (State W) Bytes
  receive p name messages flags = do
    received ← collect zmq p flags max_frames
    accept zmq name (λ frames. copy_package zmq messages frames 0) received.0 received.1
