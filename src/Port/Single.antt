-- ===== src/Port/Single.antt =====
-- Port::Receive into one message.
use native.Mathlib.Nat.{zero-add}
use dpn.Prelude.{ℕ, ◌+◌, ◌≤◌, ◌<◌, ◌≡◌, refl, List, [], ◌∷◌, Bytes, length, arith, All}
use dpn.Exec.{done, raised, undefined}
use dpn.Message
use dpn.Message.{Message, IsValid, payload}
use dpn.Names.{port_name_from_socket_id}
use dpn.Zmq.{Zmq, Delivers}
use dpn.State.{State, set_message}
use dpn.Port.{accept, receive_single, max_frames}
use dpn.Port.Frames.{collect_all}
use dpn.Port.Copy.{IsReady, resize_lem}
use dpn.Port.Gather.{joined, Extends, copy_single_lem, copy_single_past}

module _ {W : Type 0} (zmq : Zmq W) where
  pub payload-resize-Extends :
      (m m' : Message) (bytes : Bytes)
      → IsReady m
      → length bytes ≤ m.capacity
      → Extends m m' 0 bytes
      → payload (Message.resize m' (0 + length bytes) 0) ≡ bytes
  unfolding Message.resize payload
  payload-resize-Extends m m' bytes r fits x =
      ground (arith, x.begins, x.same_capacity, zero-add (length bytes))

  -- The frames of a multipart message that fit into a ready message in all, in no more than ten
  -- slots, arrive one behind the other: a send of the message would transmit their concatenation,
  -- and nothing but this message and the network has changed.
  pub receive_single_lem :
      (p flags h : ℕ) (name id f : Bytes) (fs : List Bytes) (s : State W) (w : W)
      → Delivers zmq (s.ports p).socket flags s.world (id ∷ [] ∷ f ∷ fs) w
      → length (f ∷ fs) + 2 ≤ max_frames
      → IsReady (s.messages h)
      → length (joined (f ∷ fs)) ≤ (s.messages h).capacity
      → (m : Message) × (receive_single zmq p name h flags s
          ≡ done (port_name_from_socket_id id) (set_message h m (record s { world = w })))
        × (payload m ≡ joined (f ∷ fs))
  receive_single_lem p flags h name id f fs s w arrives few r fits =
      let s' = record s { world = w } in
      let bytes = joined (f ∷ fs) in
      let (m, run, x) =
        copy_single_lem zmq h 0 (f ∷ fs) (s.messages h) s' refl r.at_start (omega arith)
          r.valid.allocated in
      (
        Message.resize m (0 + length bytes) 0,
        unfold receive_single accept in
            ground (
              arith,
              collect_all zmq p flags max_frames (id ∷ [] ∷ f ∷ fs) s w arrives (omega arith),
              run,
              resize_lem zmq h (0 + length bytes) m s',
            ),
        payload-resize-Extends (s.messages h) m bytes r fits x,
      )

  -- Frames in no more than ten slots that each fit into a ready message and do not fit together are
  -- copied past the end of its buffer, which is undefined behaviour.
  pub receive_single_past :
      (p flags h : ℕ) (name id f : Bytes) (fs : List Bytes) (s : State W) (w : W)
      → Delivers zmq (s.ports p).socket flags s.world (id ∷ [] ∷ f ∷ fs) w
      → length (f ∷ fs) + 2 ≤ max_frames
      → IsReady (s.messages h)
      → All (λ g. length g ≤ (s.messages h).capacity) (f ∷ fs)
      → (s.messages h).capacity < length (joined (f ∷ fs))
      → (s' : State W) × (receive_single zmq p name h flags s ≡ raised undefined s')
  unfolding receive_single accept
  receive_single_past p flags h name id f fs s w arrives few r each over =
      let (s', run) =
        copy_single_past zmq h 0 (f ∷ fs) (s.messages h) (record s { world = w }) refl r.at_start
          (omega arith) each (omega arith) in
      (
        s',
        ground (
          arith,
          collect_all zmq p flags max_frames (id ∷ [] ∷ f ∷ fs) s w arrives (omega arith),
          run,
        ),
      )
