-- ===== src/Port/Send.antt =====
-- Port::Send: the frames that go to the socket, and what is left in the messages.
use mathlib.Core.Path.{ap₂}
use dpn.Prelude.{
  map, ℕ, ◌≡◌, refl, sym, ap, ◌∙◌, List, [], ◌∷◌, ◌++◌, Bytes, Lacks, arith, update, ==_refl, ==_ne,
}
use dpn.Exec.{done, ◌>>◌, >>=-done}
use dpn.Message.{Message, payload, truncate}
use dpn.Text.{codes}
use dpn.Names.{inproc, port_name_to_socket_id, transport_to_string}
use dpn.Zmq.{Zmq, Takes, has_more, sent}
use dpn.State.{State, set_message, set_port, update_self}
use dpn.Port.{
  send, send_data, load_multipart, frames_of, frame_data, leave, Frame, content, null_frame,
  address,
}
use dpn.Port.Copy.{Distinct}

-- What the messages of a package would transmit.
abbrev pub payloads : (ℕ → Message) → List ℕ → List Bytes
payloads heap [] = []
payloads heap (h ∷ hs) = payload (heap h) ∷ payloads heap hs

-- The heap after each of the messages was sent.
unfoldable pub drained : (ℕ → Message) → List ℕ → ℕ → Message
drained heap [] = heap
drained heap (h ∷ hs) = drained (update heap h (truncate (heap h) 0)) hs

-- The multipart message: the routing id of the receiver, the null frame, the contents.
abbrev pub wire : Bytes → List Bytes → List Bytes
wire name parts = (codes "inproc://" ++ name) ∷ [] ∷ parts

pub payloads-update :
    (heap : ℕ → Message) (h : ℕ) (m : Message) (hs : List ℕ)
    → Lacks h hs
    → payloads (update heap h m) hs ≡ payloads heap hs
payloads-update heap h m [] l = refl
payloads-update heap h m (g ∷ hs) (ne, l) =
    rw (==_ne h g (λ e. ne (sym e))) (ap (◌∷◌ (payload (heap g))) (payloads-update heap h m hs l))

pub drained_other :
    (heap : ℕ → Message) (h : ℕ) (hs : List ℕ) → Lacks h hs → drained heap hs h ≡ heap h
unfolding drained
drained_other heap h [] l = refl
drained_other heap h (g ∷ hs) (ne, l) =
    drained_other (update heap g (truncate (heap g) 0)) h hs l ∙ rw (==_ne g h ne)

-- A drained message transmits nothing.
pub payloads-drained :
    (heap : ℕ → Message) (hs : List ℕ)
    → Distinct hs
    → payloads (drained heap hs) hs ≡ map (λ _. []) hs
unfolding drained payload truncate
payloads-drained heap [] d = refl
payloads-drained heap (h ∷ hs) (l, d) =
    let heap' = update heap h (truncate (heap h) 0) in
    let e : drained heap' hs h ≡ truncate (heap h) 0 =
      drained_other heap' h hs l ∙ rw (==_refl h) in
    ap₂ ◌∷◌ (ap payload e) (payloads-drained heap' hs d)

has_more-frames :
    (heap : ℕ → Message) (hs : List ℕ) → has_more (frames_of hs) ≡ has_more (payloads heap hs)
unfolding frames_of
has_more-frames heap [] = refl
has_more-frames heap (h ∷ hs) = refl

module _ {W : Type 0} (zmq : Zmq W) where
  send_step :
      (p flags : ℕ) (f : Frame) (fs : List Frame) (s : State W) (v : W)
      → zmq.send (s.ports p).socket (frame_data zmq p s f) (has_more fs) flags s.world
        ≡ done (sent 0) v
      → send_data zmq p (f ∷ fs) flags s
        ≡ send_data zmq p fs flags (leave zmq p f 0 (record s { world = v }))
  unfolding send_data
  send_step p flags f fs s v e = ground (arith, e)

  -- The null frame stays as it is.
  leave-null :
      (p : ℕ) (s : State W) → (s.ports p).null_message ≡ [] → leave zmq p null_frame 0 s ≡ s
  unfolding leave
  leave-null p s e =
      ap (λ port. set_port p port s) (λ i. record (s.ports p) { null_message = sym e i })
      ∙ (λ i. record s { ports = update_self s.ports p i })

  send_contents :
      (p flags : ℕ) (hs : List ℕ) (s : State W) (w : W)
      → Distinct hs
      → Takes zmq (s.ports p).socket flags s.world (payloads s.messages hs) w
      → send_data zmq p (frames_of hs) flags s
        ≡ done tt (record s { messages = drained s.messages hs; world = w })
  unfolding frames_of drained frame_data leave
  send_contents p flags [] s w d e = unfold send_data in λ i. done tt (record s { world = e i })
  send_contents p flags (h ∷ hs) s w (l, d) (v, e, t) =
      send_step p flags (content h) (frames_of hs) s v (rw (has_more-frames s.messages hs) e)
      ∙ send_contents p flags hs
          (set_message h (truncate (s.messages h) 0) (record s { world = v })) w d
          (rw (payloads-update s.messages h (truncate (s.messages h) 0) hs l) t)

  send_open :
      (p flags : ℕ) (name : Bytes) (hs : List ℕ) (s : State W)
      → (s.ports p).transport ≡ inproc
      → send zmq p name hs flags s
        ≡ send_data zmq p (load_multipart (codes "inproc://" ++ name) hs) flags s
  unfolding send port_name_to_socket_id transport_to_string
  send_open p flags name hs s e = ground (arith, e)

  -- Sending a package of distinct messages to a name over an inproc port: when the socket takes the
  -- frames, they are exactly the receiver's routing id, an empty frame and the contents of the
  -- messages, in this order and all but the last with ZMQ_SNDMORE; afterwards the messages of the
  -- package are drained, and nothing else but the network has changed.
  pub send_lem :
      (p flags : ℕ) (name : Bytes) (hs : List ℕ) (s : State W) (w : W)
      → (s.ports p).transport ≡ inproc
      → (s.ports p).null_message ≡ []
      → Distinct hs
      → Takes zmq (s.ports p).socket flags s.world (wire name (payloads s.messages hs)) w
      → send zmq p name hs flags s
        ≡ done tt (record s { messages = drained s.messages hs; world = w })
  unfolding load_multipart frame_data
  send_lem p flags name hs s w inp null d (v, e, (v', e', t)) =
      send_open p flags name hs s inp
      ∙ send_step p flags (address (codes "inproc://" ++ name)) (null_frame ∷ frames_of hs) s v e
      ∙ unfold leave in
        (send_step p flags null_frame (frames_of hs) (record s { world = v }) v'
          (rw (null, has_more-frames s.messages hs) e'))
        ∙ ap (send_data zmq p (frames_of hs) flags) (leave-null p (record s { world = v' }) null)
        ∙ send_contents p flags hs (record s { world = v' }) w d t

  -- Sending a package of distinct messages twice over an inproc port: when the socket takes the
  -- frames, those of the second send have empty frames in the place of the contents.
  send_twice :
      (p flags : ℕ) (name other : Bytes) (hs : List ℕ) (s : State W) (v w : W)
      → (s.ports p).transport ≡ inproc
      → (s.ports p).null_message ≡ []
      → Distinct hs
      → Takes zmq (s.ports p).socket flags s.world (wire name (payloads s.messages hs)) v
      → Takes zmq (s.ports p).socket flags v (wire other (map (λ _. []) hs)) w
      → (send zmq p name hs flags >> send zmq p other hs flags) s
        ≡ done tt (record s { messages = drained (drained s.messages hs) hs; world = w })
  send_twice p flags name other hs s v w inp null d t u =
      >>=-done (send zmq p name hs flags) _ s (send_lem p flags name hs s v inp null d t)
      ∙ send_lem p flags other hs (record s { messages = drained s.messages hs; world = v }) w inp
          null d (rw (payloads-drained s.messages hs d) u)
