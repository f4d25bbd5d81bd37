-- ===== src/Peer/Delivery.antt =====
-- Peer::ReceiveMessages on the frames that a push of another peer hands to the network.
use dpn.Prelude.{
  ℕ, zero, suc, ◌+◌, ◌≤◌, ◌≡◌, refl, sym, ap, ◌∙◌, some, List, [], ◌∷◌, ◌++◌, Bytes, length, take,
  drop, find, arith, append_assoc, ==_refl,
}
use dpn.Exec.{done, ◌>>=◌, >>=-done}
use dpn.Message.{Message, payload, buffer}
use dpn.Label.{Contents, InRange}
use dpn.Label.Layout.{encode, decode, decode-encode}
use dpn.Text.{codes}
use dpn.Text.Decimal.{to_string-Lacks}
use dpn.Names.{PortSpecification, get_port_name, peer_id_to_hub_name}
use dpn.Names.RoundTrip.{hub_name-peer_id}
use dpn.Zmq.{Zmq, Delivers}
use dpn.State.{State}
use dpn.Port.{max_frames}
use dpn.Port.Copy.{Fit, Hold, Distinct, fill, Hold-fill}
use dpn.Hub
use dpn.Hub.Receive.{IsPlain, receive_from-fill}
use dpn.Peer.{load_label, check_sender, receive_messages}

-- The port that a label names as its source.
abbrev pub source_port : Contents → PortSpecification
source_port c = record { hub_name = peer_id_to_hub_name c.src.peer_id; port_id = c.src.port_id }

source_port-IsPlain : (c : Contents) → InRange c → IsPlain (source_port c)
unfolding peer_id_to_hub_name
source_port-IsPlain c r = record {
  no_dash = to_string-Lacks b'-' c.src.peer_id (λ k. omega arith);
  no_slash = to_string-Lacks b'/' c.src.peer_id (λ k. omega arith);
  in_range = r.source.port;
}

append-take-drop : (n : ℕ) (xs : Bytes) → take n xs ++ drop n xs ≡ xs
append-take-drop zero xs = refl
append-take-drop (suc n) [] = refl
append-take-drop (suc n) (x ∷ xs) = ap (◌∷◌ x) (append-take-drop n xs)

-- The label in a message that would transmit it.
decode-payload :
    (m : Message) (c : Contents) (padding : Bytes)
    → InRange c
    → m.offset ≡ 0
    → payload m ≡ encode c ++ padding
    → decode (drop m.offset m.memory) ≡ c
unfolding payload
decode-payload m c padding r start e =
    let rest = drop m.contents m.memory in
    let whole : encode c ++ (padding ++ rest) ≡ m.memory =
      sym (append_assoc (encode c) padding rest)
      ∙ ap (λ xs. xs ++ rest) (sym e)
      ∙ append-take-drop m.contents m.memory in
    ap (λ n. decode (drop n m.memory)) start
    ∙ ap decode (sym whole)
    ∙ decode-encode c (padding ++ rest) r

-- The state after the frames of a header and of a package were taken.
abbrev pub received : {W : Type 0} → List ℕ → List Bytes → W → State W → State W
received hs fs w s = record s {
  messages = fill s.messages (s.peer.label_message ∷ hs) fs;
  world = w;
}

module _ {W : Type 0} (zmq : Zmq W) where
  check_sender-source :
      (c : Contents) (s : State W)
      → InRange c
      → load_label zmq s ≡ c
      → check_sender zmq (source_port c) s ≡ done tt s
  unfolding check_sender
  check_sender-source c s r e =
      rw (e, ==_refl c.src.port_id, hub_name-peer_id c.src.peer_id r.source.peer, ◌>>=◌) refl

  -- What the reception leaves: only the messages of the package and the network have changed.
  pub receive_messages-fill :
      (port p : ℕ) (c : Contents) (padding : Bytes) (hs : List ℕ) (fs : List Bytes) (s : State W)
      (w : W)
      → find port s.hub.ports ≡ some p
      → InRange c
      → Delivers zmq
          (s.ports p).socket
          0
          s.world
          ((codes "inproc://" ++ get_port_name (source_port c)) ∷ [] ∷ (encode c ++ padding) ∷ fs)
          w
      → length fs + 3 ≤ max_frames
      → Distinct (s.peer.label_message ∷ hs)
      → Fit s.messages (s.peer.label_message ∷ hs) ((encode c ++ padding) ∷ fs)
      → (receive_messages zmq port hs s ≡ done tt (received hs ((encode c ++ padding) ∷ fs) w s))
        × (load_label zmq (received hs ((encode c ++ padding) ∷ fs) w s) ≡ c)
        × Hold (received hs ((encode c ++ padding) ∷ fs) w s).messages hs fs
  unfolding receive_messages
  receive_messages-fill port p c padding hs fs s w e r d few dist fit =
      let h = s.peer.label_message in
      let frame = encode c ++ padding in
      let blank : PortSpecification = record { hub_name = []; port_id = 0 } in
      let run =
        receive_from-fill zmq port p blank (source_port c) (h ∷ hs) frame fs s w e
          (source_port-IsPlain c r) d (omega arith) dist fit in
      let (header, size, start, hold) = Hold-fill zmq s.messages (h ∷ hs) (frame ∷ fs) dist fit in
      let t = received hs (frame ∷ fs) w s in
      let read : load_label zmq t ≡ c =
        unfold load_label buffer in decode-payload (t.messages h) c padding r start header in
      (
        >>=-done (Hub.receive zmq port blank (h ∷ hs)) (check_sender zmq) s run
            ∙ check_sender-source c t r read,
        read,
        hold,
      )

  -- A label in range, sent as the first frame of a package by the port that it names as its source, each
  -- frame with a message of its own that is ready and large enough and in no more than ten slots, is read
  -- back as it was, and the messages of the package hold the frames behind it.
  pub load-receive_messages :
      (port p : ℕ) (c : Contents) (padding : Bytes) (hs : List ℕ) (fs : List Bytes) (s : State W)
      (w : W)
      → find port s.hub.ports ≡ some p
      → InRange c
      → Delivers zmq
          (s.ports p).socket
          0
          s.world
          ((codes "inproc://" ++ get_port_name (source_port c)) ∷ [] ∷ (encode c ++ padding) ∷ fs)
          w
      → length fs + 3 ≤ max_frames
      → Distinct (s.peer.label_message ∷ hs)
      → Fit s.messages (s.peer.label_message ∷ hs) ((encode c ++ padding) ∷ fs)
      → (t : State W) × (receive_messages zmq port hs s ≡ done tt t)
        × (load_label zmq t ≡ c)
        × Hold t.messages hs fs
        × (t.world ≡ w)
  load-receive_messages port p c padding hs fs s w e r d few dist fit =
      let (run, read, hold) = receive_messages-fill port p c padding hs fs s w e r d few dist fit in
      (received hs ((encode c ++ padding) ∷ fs) w s, run, read, hold, refl)
