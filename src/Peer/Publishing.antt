-- ===== src/Peer/Publishing.antt =====
-- Push, Publish and Subscribe.
use mathlib.Core.Path.{ap₂, subst}
use dpn.Prelude.{
  ℕ, ◌≡◌, refl, sym, ap, ◌∙◌, none, some, Option, List, [], ◌∷◌, ◌++◌, Bytes, drop, take, Lacks,
  arith, ==_refl, find, assign, insert, find-insert, find-assign, if◌then◌else◌, ◌==◌, Option-cases,
  Bool-cases, ==_iff, inl, inr,
}
use dpn.Exec.{done, >>=-done}
use dpn.Message.{payload}
use dpn.Label.{Label, set_peer_id, get_port_id, get_interface_id, src}
use dpn.Label.Layout.{field_size, encode}
use dpn.Names.{inproc, PortSpecification, get_port_name}
use dpn.Zmq.{Zmq, Takes}
use dpn.State.{State, set_peer}
use dpn.Port
use dpn.Port.Copy.{Distinct}
use dpn.Port.Send.{payloads, payloads-update, drained, wire, send_lem}
use dpn.Hub
use dpn.Hub.{find_port}
use dpn.Peer.{write_header, next_id, push, stamp, destination, subscribe}
use dpn.Peer.Header.{HoldsLabel, headed, sent_contents, with_header, write_header_lem}

-- The labels under a topic, none when the topic is not known.
abbrev pub receipts : Option (List Label) → List Label
receipts none = []
receipts (some labels) = labels

at_topic :
    (i j : ℕ) (o : Option (List Label)) (label : Label) (m : List (ℕ × List Label))
    → find i m ≡ o
    → (if i == j then some (receipts o ++ label ∷ []) else find j m)
      ≡ (if i == j then some (receipts (find j m) ++ label ∷ []) else find j m)
at_topic i j o label m e = elim (Bool-cases (i == j)) [
  | inl same ↦
      rw same (
        ap (λ x. some (receipts x ++ label ∷ []))
          (sym e ∙ ap (λ k. find k m) ((==_iff i j).0 same)))
  | inr differs ↦ rw differs
]

module _ {W : Type 0} (zmq : Zmq W) where
  -- A port that can send: it is found under the id, and its transport is inproc.
  pub record CanSend (id p : ℕ) (s : State W) : Type 0 where
    pub found : find id s.hub.ports ≡ some p
    pub transport : (s.ports p).transport ≡ inproc
    pub null : (s.ports p).null_message ≡ []

  -- The state with another map of publications.
  abbrev pub with_pubs : List (ℕ × List Label) → State W → State W
  with_pubs m s = set_peer (record s.peer { pub_map = m }) s

  -- A subscription puts the label at the end of the receipts of its source interface, the topic, leaves
  -- those of every other topic alone, and changes nothing else.
  pub subscribe-with_pubs :
      (label : Label) (s : State W)
      → (m : List (ℕ × List Label)) × (subscribe zmq label s ≡ done tt (with_pubs m s))
        × ((topic : ℕ)
            → find topic m ≡ (
                if get_interface_id label src == topic
                then some (receipts (find topic s.peer.pub_map) ++ label ∷ [])
                else find topic s.peer.pub_map))
  unfolding subscribe
  subscribe-with_pubs label s =
      let topic = get_interface_id label src in
      elim (Option-cases (find topic s.peer.pub_map)) [
        | inl e ↦ (
          insert topic (label ∷ []) s.peer.pub_map,
          rw e,
          λ j.
              find-insert topic j (label ∷ []) s.peer.pub_map e
              ∙ at_topic topic j none label s.peer.pub_map e,
        )
        | inr (labels, e) ↦ (
          assign topic (labels ++ label ∷ []) s.peer.pub_map,
          rw e,
          λ j.
              find-assign topic j (labels ++ label ∷ []) labels s.peer.pub_map e
              ∙ at_topic topic j (some labels) label s.peer.pub_map e,
        )
      ]

  pub find-subscribe :
      (label : Label) (s : State W)
      → (t : State W) × (subscribe zmq label s ≡ done tt t)
        × ((topic : ℕ)
            → find topic t.peer.pub_map ≡ (
                if get_interface_id label src == topic
                then some (receipts (find topic s.peer.pub_map) ++ label ∷ [])
                else find topic s.peer.pub_map))
  find-subscribe label s =
      let (m, run, topics) = subscribe-with_pubs label s in (with_pubs m s, run, topics)

  -- The label message that goes out, as the push leaves it.
  abbrev pub header_frame : Label → State W → Bytes
  header_frame label s =
      let m = s.messages s.peer.label_message in
      take m.contents
        (encode (sent_contents (next_id zmq s) (stamp zmq s label)) ++ drop field_size m.memory)

  -- The state after a push that the socket took, from the world `s.world` to `w`.
  abbrev pub pushed : Label → List ℕ → W → State W → State W
  pushed label hs w s =
      let t = with_header zmq (stamp zmq s label) s in
      record t { messages = drained t.messages (s.peer.label_message ∷ hs); world = w }

  hub_send_lem :
      (id p : ℕ) (spec : PortSpecification) (hs : List ℕ) (s : State W)
      → find id s.hub.ports ≡ some p
      → Hub.send zmq id spec hs s ≡ Port.send zmq p (get_port_name spec) hs 0 s
  unfolding Hub.send find_port
  hub_send_lem id p spec hs s e = ground (arith, e)

  stamp_port :
      (label : Label) (s : State W) → get_port_id (stamp zmq s label) src ≡ get_port_id label src
  unfolding stamp set_peer_id get_port_id
  stamp_port label s = refl

  frames_out :
      (label : Label) (hs : List ℕ) (s : State W)
      → Lacks s.peer.label_message hs
      → payloads (with_header zmq (stamp zmq s label) s).messages (s.peer.label_message ∷ hs)
        ≡ header_frame label s ∷ payloads s.messages hs
  unfolding payload
  frames_out label hs s l =
      let m = s.messages s.peer.label_message in
      let c = sent_contents (next_id zmq s) (stamp zmq s label) in
      ap₂ ◌∷◌ (rw (==_refl s.peer.label_message))
        (payloads-update s.messages s.peer.label_message (headed m c) hs l)

  pub push_lem :
      (label : Label) (hs : List ℕ) (p : ℕ) (s : State W) (w : W)
      → HoldsLabel (s.messages s.peer.label_message)
      → CanSend (get_port_id label src) p s
      → Distinct (s.peer.label_message ∷ hs)
      → Takes zmq
          (s.ports p).socket
          0
          s.world
          (wire
            (get_port_name (destination zmq (stamp zmq s label)))
            (header_frame label s ∷ payloads s.messages hs))
          w
      → push zmq label hs s ≡ done (stamp zmq s label) (pushed label hs w s)
  unfolding push
  push_lem label hs p s w v c d t =
      let stamped = stamp zmq s label in
      let h = s.peer.label_message in
      let s' = with_header zmq stamped s in
      >>=-done (write_header zmq stamped) _ s (write_header_lem zmq stamped s v)
      ∙ >>=-done (Hub.send zmq (get_port_id stamped src) (destination zmq stamped) (h ∷ hs)) _ s' (
          hub_send_lem (get_port_id stamped src) p (destination zmq stamped) (h ∷ hs) s'
            (rw stamp_port c.found)
          ∙ send_lem zmq p 0 (get_port_name (destination zmq stamped)) (h ∷ hs) s' w c.transport
              c.null d
              (subst
                (λ fs.
                  Takes zmq (s.ports p).socket 0 s.world
                    (wire (get_port_name (destination zmq stamped)) fs) w)
                (sym (frames_out label hs s d.0)) t))
