-- ===== src/Port/Receiving.antt =====
-- The loops of Port::Receive: the frames that come out of the socket, and the messages that they go into.
use dpn.Prelude.{
  ℕ, zero, suc, ◌+◌, Bool, true, false, none, some, List, [], ◌∷◌, Bytes, length, take, ltb,
  if◌then◌else◌,
}
use dpn.Exec.{Exec, done, raised, pure, raise, gets, modify, ◌>>=◌, ◌>>◌, out_of_range, undefined}
use dpn.Message
use dpn.Message.{Message, write_at, buffer}
use dpn.Names.{port_name_from_socket_id}
use dpn.Zmq.{Zmq}
use dpn.State.{State, set_message, on_world}

abbrev is_empty : Bytes → Bool
is_empty [] = true
is_empty (b ∷ bs) = false

-- The vector of ten frames that a receive fills.
abbrev pub max_frames : ℕ
max_frames = 10

module _ {W : Type 0} (zmq : Zmq W) where
  -- The loop that receives the frames of one multipart message into the vector's remaining slots, and
  -- whether it ended with the last frame. `at` throws behind the last slot.
  unfoldable pub collect : ℕ → ℕ → ℕ → Exec (State W) (List Bytes × Bool)
  collect p flags zero = raise out_of_range
  collect p flags (suc slots) = do
    port ← gets (λ s. s.ports p)
    received ← on_world (zmq.recv port.socket flags)
    elim received [
      | none ↦ pure ([], false)
      | some (frame, more) ↦
          if more
          then (do later ← collect p flags slots; pure (frame ∷ later.0, later.1))
          else pure (frame ∷ [], true)
    ]

  -- `memcpy` into a message; past the end of its buffer it is undefined behaviour.
  unfoldable pub store : ℕ → ℕ → Bytes → Exec (State W) (Unit {0})
  store h at bytes s = elim (write_at (s.messages h) at bytes) [
    | none ↦ raised undefined s
    | some m ↦ done tt (set_message h m s)
  ]

  -- One round of the copying loops: the next `bufferOffset`. A frame is cut to the capacity.
  unfoldable pub copy_frame : ℕ → ℕ → Bytes → Exec (State W) ℕ
  copy_frame h offset frame = do
    message ← gets (λ s. s.messages h)
    let size = if ltb message.capacity (length frame) then message.capacity else length frame
    store h (buffer message + offset) (take size frame)
    pure (offset + size)

  unfoldable pub resize : ℕ → ℕ → Exec (State W) (Unit {0})
  resize h size = modify (λ s. set_message h (Message.resize (s.messages h) size 0) s)

  -- All frames go into one message, one behind the other.
  unfoldable pub copy_single : ℕ → List Bytes → ℕ → Exec (State W) ℕ
  copy_single h [] offset = pure offset
  copy_single h (f ∷ fs) offset = do next ← copy_frame h offset f; copy_single h fs next

  -- A frame goes into each message, and the frames that are left over into the last one. The list holds
  -- the messages from `messageIdx` on; `at` throws when it is empty.
  unfoldable pub copy_package : List ℕ → List Bytes → ℕ → Exec (State W) (Unit {0})
  copy_package hs [] offset = pure tt
  copy_package [] (f ∷ fs) offset = raise out_of_range
  copy_package (h ∷ []) (f ∷ fs) offset = do
    next ← copy_frame h offset f
    resize h next
    copy_package (h ∷ []) fs next
  copy_package (h ∷ g ∷ hs) (f ∷ fs) offset = do
    next ← copy_frame h offset f
    resize h next
    copy_package (g ∷ hs) fs 0

  -- What is done with the frames: `name` is the value of the reference `portName`, which is set when
  -- there are an address, a null frame and contents. A second frame that is not null is malformed.
  unfoldable pub accept :
      Bytes → (List Bytes → Exec (State W) (Unit {0})) → List Bytes → Bool → Exec (State W) Bytes
  accept name copy (id ∷ null ∷ frame ∷ frames) true =
      if is_empty null
      then copy (frame ∷ frames) >>= (λ _. pure (port_name_from_socket_id id))
      else pure (port_name_from_socket_id id)
  accept name copy _ _ = pure name
