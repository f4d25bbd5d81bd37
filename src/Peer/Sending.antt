-- ===== src/Peer/Sending.antt =====
-- A package on its way from Peer::Push in one peer to Peer::GetPendingPackage in another.
use dpn.Prelude.{ℕ, ◌≡◌, List, ◌∷◌, ◌++◌, Bytes, drop, arith, take_all, length-append, length-drop}
use dpn.Prelude.Int.{ℤ}
use dpn.Exec.{done}
use dpn.Label.{Label, InRange, src, get_port_id}
use dpn.Label.Layout.{contents_size, field_size, encode, length-encode}
use dpn.Names.{get_port_name}
use dpn.Zmq.{Zmq, Takes}
use dpn.State.{State}
use dpn.Port.Copy.{Distinct, Hold}
use dpn.Port.Send.{payloads, wire}
use dpn.Peer.{get_pending_package, load_label, next_id, poll, pollin, push, stamp, destination}
use dpn.Peer.Header.{HoldsLabel, sent_contents, sent-InRange}
use dpn.Peer.Publishing.{CanSend, header_frame, pushed, push_lem}
use dpn.Peer.Delivery.{source_port}
use dpn.Peer.Arrival.{Arrives, taken, poll-Arrives, get_pending_package-Arrives}

module _ {W : Type 0} (zmq : Zmq W) where
  -- The frames of a pushed package behind its address.
  abbrev pub sent_frames : Label → List ℕ → State W → List Bytes
  sent_frames label hs s = header_frame zmq label s ∷ payloads s.messages hs

  -- A package that the peer can push, with the label message as the constructor makes it, a label in
  -- range and distinct messages, over a port whose socket takes its frames and leaves the world `w`.
  pub record Sends (label : Label) (hs : List ℕ) (p : ℕ) (s : State W) (w : W) : Type 0 where
    pub holds : HoldsLabel (s.messages s.peer.label_message)
    pub whole : (s.messages s.peer.label_message).contents ≡ contents_size
    pub in_range : InRange (stamp zmq s label).contents
    pub can : CanSend zmq (get_port_id label src) p s
    pub distinct : Distinct (s.peer.label_message ∷ hs)
    pub takes :
        Takes zmq
          (s.ports p).socket
          0
          s.world
          (wire (get_port_name (destination zmq (stamp zmq s label))) (sent_frames label hs s))
          w

  pub push-Sends :
      (label : Label) (hs : List ℕ) (p : ℕ) (s : State W) (w : W)
      → Sends label hs p s w
      → push zmq label hs s ≡ done (stamp zmq s label) (pushed zmq label hs w s)
  push-Sends label hs p s w c = push_lem zmq label hs p s w c.holds c.can c.distinct c.takes

  -- The label of a pushed package, as it goes over the wire.
  abbrev pub sent_label : Label → State W → Label
  sent_label label a = record { contents = sent_contents (next_id zmq a) (stamp zmq a label) }

  pub header_whole :
      (label : Label) (a : State W)
      → HoldsLabel (a.messages a.peer.label_message)
      → (a.messages a.peer.label_message).contents ≡ contents_size
      → header_frame zmq label a
        ≡ encode (sent_label label a).contents
          ++ drop field_size (a.messages a.peer.label_message).memory
  header_whole label a v full =
      let m = a.messages a.peer.label_message in
      let c = (sent_label label a).contents in
      let rest = drop field_size m.memory in
      take_all m.contents (encode c ++ rest) (
        omega (
          arith,
          full,
          v.allocated,
          length-append (encode c) rest,
          length-encode c,
          length-drop field_size m.memory,
        ))

  module _ (label : Label) (hs : List ℕ) (p : ℕ) (a : State W) (v : W) (s : Sends label hs p a v)
      (timeout : ℤ) (port q : ℕ) (gs : List ℕ) (b : State W) (x : W)
      (r : Arrives zmq timeout port q
        (source_port (stamp zmq a label).contents)
        (sent_frames label hs a)
        gs
        b
        x) where
    abbrev arrived : State W
    arrived = taken zmq port r.notified.seen gs (sent_frames label hs a) x b

    abbrev padding : Bytes
    padding = drop field_size (a.messages a.peer.label_message).memory

    -- A package that was pushed and that arrives is polled, behind its header.
    pub poll-Sends :
        (poll zmq gs pollin timeout b ≡ done tt arrived)
        × (load_label zmq arrived ≡ (sent_label label a).contents)
        × Hold arrived.messages gs (payloads a.messages hs)
    poll-Sends =
        poll-Arrives zmq timeout port q (sent_label label a).contents (header_frame zmq label a)
          padding gs (payloads a.messages hs) b x
          (sent-InRange zmq (stamp zmq a label) a s.in_range) (header_whole label a s.holds s.whole)
          r

    -- It is taken under the label that was pushed.
    pub get_pending_package-Sends :
        get_pending_package zmq gs timeout b ≡ done (sent_label label a) arrived
    get_pending_package-Sends =
        get_pending_package-Arrives zmq timeout port q (sent_label label a).contents
          (header_frame zmq label a) padding gs (payloads a.messages hs) b x
          (sent-InRange zmq (stamp zmq a label) a s.in_range) (header_whole label a s.holds s.whole)
          r
