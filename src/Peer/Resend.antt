-- ===== src/Peer/Resend.antt =====
-- The header of a push, and what a second push of the same messages transmits.
use mathlib.Core.Path.{ap₂, subst}
use dpn.Prelude.{
  ℕ, ◌≡◌, refl, sym, ap, ◌∙◌, List, [], ◌∷◌, ◌++◌, Bytes, map, drop, take, length, arith, update,
  ==_refl, take_all, length-append, length-drop,
}
use dpn.Exec.{done, pure, ◌>>=◌, >>=-done}
use dpn.Message.{Message, payload, truncate}
use dpn.Label.{Label, Contents, InRange, get_port_id, src}
use dpn.Label.Layout.{contents_size, field_size, encode, decode, decode-encode, length-encode}
use dpn.Names.{get_port_name}
use dpn.Zmq.{Zmq, Takes}
use dpn.State.{State}
use dpn.Port.Copy.{Distinct}
use dpn.Port.Send.{payloads, drained, drained_other, payloads-drained, wire}
use dpn.Hub
use dpn.Peer.{next_id, write_header, push, stamp, destination}
use dpn.Peer.Header.{HoldsLabel, headed, with_header, write_header_lem, sent_contents, sent-InRange}
use dpn.Peer.Publishing.{CanSend, header_frame, pushed, push_lem}

abbrev rest : List Bytes → List Bytes
rest [] = []
rest (f ∷ fs) = fs

headed-length :
    (m : Message) (c : Contents)
    → length m.memory ≡ contents_size
    → length (headed m c).memory ≡ contents_size
headed-length m c e = omega (
  arith,
  length-append (encode c) (drop field_size m.memory),
  length-encode c,
  length-drop field_size m.memory,
)

module _ {W : Type 0} (zmq : Zmq W) where
  decode-header_frame :
      (label : Label) (s : State W)
      → HoldsLabel (s.messages s.peer.label_message)
      → (s.messages s.peer.label_message).contents ≡ contents_size
      → InRange (stamp zmq s label).contents
      → decode (header_frame zmq label s) ≡ sent_contents (next_id zmq s) (stamp zmq s label)
  decode-header_frame label s v e r =
      let m = s.messages s.peer.label_message in
      let c = sent_contents (next_id zmq s) (stamp zmq s label) in
      ap decode (
        ap (λ n. take n (headed m c).memory) e
        ∙ take_all contents_size (headed m c).memory (omega (arith, headed-length m c v.allocated)))
      ∙ decode-encode c (drop field_size m.memory) (sent-InRange zmq (stamp zmq s label) s r)

  -- From a label message that has room for a header and exposes all of it, the header of a push is
  -- written, and for a label in range the label message then exposes bytes from which the label can be
  -- read, with this peer as its source and the next message id; the push of a package goes on with the
  -- send of that message and then the package, in the state that the write left.
  pub decode-write_header :
      (label : Label) (hs : List ℕ) (s : State W)
      → HoldsLabel (s.messages s.peer.label_message)
      → (s.messages s.peer.label_message).contents ≡ contents_size
      → InRange (stamp zmq s label).contents
      → (t : State W) × (write_header zmq (stamp zmq s label) s ≡ done tt t)
        × (decode (payload (t.messages s.peer.label_message))
            ≡ sent_contents (next_id zmq s) (stamp zmq s label))
        × (push zmq label hs s
            ≡ (Hub.send zmq
                    (get_port_id (stamp zmq s label) src)
                    (destination zmq (stamp zmq s label))
                    (s.peer.label_message ∷ hs)
                  >>= λ _. pure (stamp zmq s label))
                t)
  unfolding push payload
  decode-write_header label hs s v e r =
      let h = s.peer.label_message in
      let one = stamp zmq s label in
      let written = write_header_lem zmq one s v in
      (
        with_header zmq one s,
        written,
        rw (==_refl h) (decode-header_frame label s v e r),
        >>=-done (write_header zmq one) _ s written,
      )

  -- A state whose label message and package were sent and not filled again.
  pub record IsDrained (hs : List ℕ) (s : State W) : Type 0 where
    pub header : HoldsLabel (s.messages s.peer.label_message)
    pub header_gone : (s.messages s.peer.label_message).contents ≡ 0
    pub parts_gone : payloads s.messages hs ≡ map (λ _. []) hs

  pub pushed-IsDrained :
      (label : Label) (hs : List ℕ) (w : W) (s : State W)
      → HoldsLabel (s.messages s.peer.label_message)
      → Distinct (s.peer.label_message ∷ hs)
      → IsDrained hs (pushed zmq label hs w s)
  unfolding drained truncate
  pushed-IsDrained label hs w s v d =
      let h = s.peer.label_message in
      let c = sent_contents (next_id zmq s) (stamp zmq s label) in
      let heap = update s.messages h (headed (s.messages h) c) in
      let e : (pushed zmq label hs w s).messages h ≡ truncate (headed (s.messages h) c) 0 =
        drained_other (update heap h (truncate (heap h) 0)) h hs d.0 ∙ rw (==_refl h) in
      record {
        header = subst HoldsLabel (sym e) (record {
          at_start = v.at_start;
          room = v.room;
          allocated = headed-length (s.messages h) c v.allocated;
        });
        header_gone = ap (λ (m : Message). m.contents) e;
        parts_gone = ap rest (payloads-drained heap (h ∷ hs) d);
      }

  pub push_drained :
      (label : Label) (hs : List ℕ) (p : ℕ) (s : State W) (w : W)
      → IsDrained hs s
      → CanSend zmq (get_port_id label src) p s
      → Distinct (s.peer.label_message ∷ hs)
      → Takes zmq
          (s.ports p).socket
          0
          s.world
          (wire (get_port_name (destination zmq (stamp zmq s label))) ([] ∷ map (λ _. []) hs))
          w
      → push zmq label hs s ≡ done (stamp zmq s label) (pushed zmq label hs w s)
  push_drained label hs p s w g c d t = push_lem zmq label hs p s w g.header c d (
      subst
        (λ fs.
          Takes zmq (s.ports p).socket 0 s.world
            (wire (get_port_name (destination zmq (stamp zmq s label))) fs) w)
        (sym (
          ap₂ ◌∷◌
            (ap
              (λ n. take n (
                encode (sent_contents (next_id zmq s) (stamp zmq s label))
                ++ drop field_size (s.messages s.peer.label_message).memory))
              g.header_gone)
            g.parts_gone))
        t)

  -- Two pushes of the same package of distinct messages over ports that can send, from a label
  -- message that has room for a header, with nothing in between: when the sockets take the frames,
  -- the second push hands over an empty header and empty contents.
  pub push_twice :
      (label other : Label) (hs : List ℕ) (p q : ℕ) (s : State W) (v w : W)
      → HoldsLabel (s.messages s.peer.label_message)
      → CanSend zmq (get_port_id label src) p s
      → CanSend zmq (get_port_id other src) q s
      → Distinct (s.peer.label_message ∷ hs)
      → Takes zmq
          (s.ports p).socket
          0
          s.world
          (wire
            (get_port_name (destination zmq (stamp zmq s label)))
            (header_frame zmq label s ∷ payloads s.messages hs))
          v
      → Takes zmq
          (s.ports q).socket
          0
          v
          (wire (get_port_name (destination zmq (stamp zmq s other))) ([] ∷ map (λ _. []) hs))
          w
      → (t : State W) × ((push zmq label hs >>= λ _. push zmq other hs) s
          ≡ done (stamp zmq s other) t)
        × (t.world ≡ w)
  unfolding stamp
  push_twice label other hs p q s v w holds c c' d t u =
      let s' = pushed zmq label hs v s in
      (
        pushed zmq other hs w s',
        >>=-done (push zmq label hs) _ s (push_lem zmq label hs p s v holds c d t)
            ∙ push_drained other hs q s' w (pushed-IsDrained label hs v s holds d)
                (record { found = c'.found; transport = c'.transport; null = c'.null }) d u,
        refl,
      )
