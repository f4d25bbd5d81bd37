-- ===== src/Peer/Header.antt =====
-- What a push puts into the label message, and what of it goes out.
use dpn.Prelude.{ℕ, ◌≡◌, refl, ap, ◌∙◌, some, ◌++◌, Bytes, drop, length, arith, ==_refl}
use dpn.Exec.{done, >>=-done}
use dpn.Message.{Message, write_at, buffer}
use dpn.Label.{Label, Contents, InRange}
use dpn.Label.Layout.{contents_size, field_size, encode, encode_id, decode-encode}
use dpn.Zmq.{Zmq}
use dpn.State.{State, set_message, set_peer, set_message_twice}
use dpn.Port
use dpn.Port.Copy.{store_lem}
use dpn.Peer.{write_header, header_into, load_label, next_id}

-- The label message as the constructor makes it: room for the contents, and offset 0.
pub record HoldsLabel (m : Message) : Type 0 where
  pub at_start : m.offset ≡ 0
  pub room : m.capacity ≡ contents_size
  pub allocated : length m.memory ≡ contents_size

-- The contents that go out: those of the label, under the next message id.
abbrev pub sent_contents : ℕ → Label → Contents
sent_contents id label = record label.contents { message_id = id }

-- The label message after the header was written.
abbrev pub headed : Message → Contents → Message
headed m c = record m { memory = encode c ++ drop field_size m.memory }

rewrite_id :
    (c : Contents) (id : ℕ) (rest : Bytes)
    → encode_id id ++ drop 4 (encode c ++ rest) ≡ encode (record c { message_id = id }) ++ rest
unfolding encode encode_id
rewrite_id c id rest = refl

write_contents :
    (m : Message) (c : Contents)
    → m.capacity ≡ contents_size
    → write_at m 0 (encode c) ≡ some (headed m c)
unfolding write_at encode
write_contents m c room = rw room

write_id :
    (m : Message) (c : Contents) (id : ℕ)
    → m.capacity ≡ contents_size
    → write_at (headed m c) 0 (encode_id id) ≡ some (headed m (record c { message_id = id }))
unfolding write_at encode encode_id
write_id m c id room = rw room

module _ {W : Type 0} (zmq : Zmq W) where
  abbrev pub with_header : Label → State W → State W
  with_header label s =
      set_message s.peer.label_message
        (headed (s.messages s.peer.label_message) (sent_contents (next_id zmq s) label))
        (set_peer (record s.peer { message_id = next_id zmq s }) s)

  pub write_header_lem :
      (label : Label) (s : State W)
      → HoldsLabel (s.messages s.peer.label_message)
      → write_header zmq label s ≡ done tt (with_header label s)
  unfolding write_header buffer header_into next_id
  write_header_lem label s v =
      let h = s.peer.label_message in
      let m = s.messages h in
      let first = set_message h (headed m label.contents) s in
      let second = set_peer (record s.peer { message_id = next_id zmq s }) first in
      ap (λ at. header_into zmq h at label s) v.at_start
      ∙ >>=-done (Port.store zmq h 0 (encode label.contents)) _ s (
          store_lem zmq h 0 (encode label.contents) s (headed m label.contents)
            (write_contents m label.contents v.room))
      ∙ store_lem zmq h 0 (encode_id (next_id zmq s)) second
          (headed m (sent_contents (next_id zmq s) label))
          (rw (==_refl h) (write_id m label.contents (next_id zmq s) v.room))
      ∙ ap (done tt) (
          set_message_twice h (headed m label.contents)
            (headed m (sent_contents (next_id zmq s) label))
            (set_peer (record s.peer { message_id = next_id zmq s }) s))

  pub sent-InRange :
      (label : Label) (s : State W)
      → InRange label.contents
      → InRange (sent_contents (next_id zmq s) label)
  unfolding next_id
  sent-InRange label s r = record {
    message = omega arith;
    kind = r.kind;
    source = r.source;
    target = r.target;
  }

  -- The header that the peer finds in its label message afterwards.
  load-with_header :
      (label : Label) (s : State W)
      → HoldsLabel (s.messages s.peer.label_message)
      → InRange label.contents
      → load_label zmq (with_header label s) ≡ sent_contents (next_id zmq s) label
  unfolding load_label buffer
  load-with_header label s v r =
      let c = sent_contents (next_id zmq s) label in
      rw (==_refl s.peer.label_message, v.at_start)
        (decode-encode c (drop field_size (s.messages s.peer.label_message).memory)
          (sent-InRange label s r))

  -- The header in the label message of a peer after it wrote one.
  pub load-write_header :
      (label : Label) (s : State W)
      → HoldsLabel (s.messages s.peer.label_message)
      → InRange label.contents
      → (t : State W) × (write_header zmq label s ≡ done tt t)
        × (load_label zmq t ≡ sent_contents (next_id zmq s) label)
        × (t.peer.message_id ≡ next_id zmq s)
  load-write_header label s v r =
      (with_header label s, write_header_lem label s v, load-with_header label s v r, refl)
