-- ===== src/Process/Reachable.antt =====
-- Every state that calls lead to is sound.
use dpn.Prelude.{ℕ, ◌^◌, ◌<◌, ◌≡◌, ◌≢◌, refl, Bytes, length, arith, update, ==_refl, ==_ne}
use dpn.Exec.{Exec, state, pure}
use dpn.Exec.Keeps.{Keeps, >>=-Keeps}
use dpn.Message
use dpn.Message.{Message, IsValid, buffer}
use dpn.Message.Bounds.{create-IsValid, resize-IsValid, reset-IsValid}
use dpn.Label.Layout.{contents_size}
use dpn.Zmq.{Zmq}
use dpn.State.{State, set_message}
use dpn.Peer
use dpn.Hub
use dpn.Peer.Header.{HoldsLabel}
use dpn.Process.{
  IsSound, Conforms, Respectful, Call, push, publish, request, get_pending_package,
  service_interfaces, subscribe, add_interface, add_port, remove_port, close_port, connect,
  disconnect, resize, reset, fill, create_message, perform, Allowed, Reach, here, next, interfere,
  ignore,
}
use dpn.Process.Messages.{at_update, set_message-IsSound, store-Keeps}
use dpn.Process.Hubs.{hub_close_port-Keeps, hub_connect-Keeps, hub_disconnect-Keeps}
use dpn.Process.Membership.{hub_add_port-Keeps, hub_remove_port-Keeps}
use dpn.Interface.{Handlers}
use dpn.Process.Services.{service_interfaces-Keeps}
use dpn.Process.Peers.{
  subscribe-Keeps, push-Keeps, publish-Keeps, get_pending_package-Keeps, request-Keeps,
}

resize_capacity :
    (m : Message) (size offset : ℕ) → (Message.resize m size offset).capacity ≡ m.capacity
unfolding Message.resize
resize_capacity m size offset = ground arith

second_counted :
    (size : ℕ) (memory : Bytes) → size < 2 ^ 64 → (Message.create size memory).capacity < 2 ^ 64
unfolding Message.create
second_counted size memory h = h

-- A message other than the label message may be replaced.
other-IsSound :
    {W : Type 0} (h : ℕ) (m : Message) (s : State W)
    → IsValid m
    → m.capacity < 2 ^ 64
    → h ≢ s.peer.label_message
    → IsSound s
    → IsSound (set_message h m s)
other-IsSound h m s v counted other i = record {
  valid = λ j. at_update s.messages IsValid h j m v (i.valid j);
  counted = λ j. at_update s.messages (λ n. n.capacity < 2 ^ 64) h j m counted (i.counted j);
  header = rw (==_ne h s.peer.label_message other) i.header;
  made = i.made;
  named = i.named;
  null = i.null;
  hub_named = i.hub_named;
  id_range = i.id_range;
}

module _ {W : Type 0} (zmq : Zmq W) (conforms : Conforms zmq) (user : Handlers W)
    (respectful : Respectful user) where
  ignore-Keeps :
      {A : Type 0} (m : Exec (State W) A) → Keeps IsSound m → Keeps IsSound (ignore zmq user m)
  ignore-Keeps m k = >>=-Keeps IsSound m (λ _. pure tt) k (λ _ t i. i)

  perform-IsSound :
      (call : Call) (s : State W)
      → Allowed zmq user s call
      → IsSound s
      → IsSound (state (perform zmq user call s))
  unfolding perform
  perform-IsSound (push label hs) s a i =
      ignore-Keeps (Peer.push zmq label hs) (push-Keeps zmq conforms label hs) s i
  perform-IsSound (publish label hs) s a i = publish-Keeps zmq conforms label hs s i
  perform-IsSound (request fuel label hs gs timeout) s a i =
      ignore-Keeps (Peer.request zmq fuel label hs gs timeout)
        (request-Keeps zmq conforms fuel label hs gs timeout) s i
  perform-IsSound (get_pending_package hs timeout) s a i =
      ignore-Keeps (Peer.get_pending_package zmq hs timeout)
        (get_pending_package-Keeps zmq conforms hs timeout) s i
  perform-IsSound (service_interfaces timeout) s a i =
      service_interfaces-Keeps zmq conforms user respectful timeout s i
  perform-IsSound (subscribe label) s a i = subscribe-Keeps zmq label s i
  perform-IsSound (add_interface id interface) s a i = unfold Peer.add_interface in i
  perform-IsSound (add_port transport context flags id) s a i =
      unfold Peer.add_port in hub_add_port-Keeps zmq id transport context flags s i
  perform-IsSound (remove_port id) s a i =
      unfold Peer.remove_port in hub_remove_port-Keeps zmq id s i
  perform-IsSound (close_port id) s a i =
      unfold Peer.close_port in hub_close_port-Keeps zmq conforms id s i
  perform-IsSound (connect peer port id) s a i =
      unfold Peer.connect in hub_connect-Keeps zmq conforms id _ s i
  perform-IsSound (disconnect peer port id) s a i =
      unfold Peer.disconnect in hub_disconnect-Keeps zmq conforms port _ s i
  perform-IsSound (resize h size offset) s (other, small) i =
      set_message-IsSound h _ s (resize-IsValid (s.messages h) size offset (i.valid h) small)
        (resize_capacity (s.messages h) size offset) (λ e. absurd (other e)) i
  perform-IsSound (reset h) s other i =
      set_message-IsSound h _ s (reset-IsValid (s.messages h) (i.valid h))
        (unfold Message.reset in refl) (λ e. absurd (other e)) i
  perform-IsSound (fill h bytes) s other i = store-Keeps zmq h (buffer (s.messages h)) bytes s i
  perform-IsSound (create_message h capacity fresh) s (other, given, small) i =
      other-IsSound h _ s (create-IsValid capacity fresh given)
        (second_counted capacity fresh small) other i

  Reach-IsSound : {s t : State W} → IsSound s → Reach zmq user s t → IsSound t
  Reach-IsSound i here = i
  Reach-IsSound i (next {t = u} r call a) = perform-IsSound call u a (Reach-IsSound i r)
  Reach-IsSound i (interfere {t = u} r w) =
      let j = Reach-IsSound i r in
      record {
        valid = j.valid;
        counted = j.counted;
        header = j.header;
        made = j.made;
        named = j.named;
        null = j.null;
        hub_named = j.hub_named;
        id_range = j.id_range;
      }

first-HoldsLabel :
    (memory : Bytes)
    → length memory ≡ contents_size
    → HoldsLabel (Message.resize (Message.create contents_size memory) contents_size 0)
unfolding Message.resize Message.create
first-HoldsLabel memory e = record { at_start = refl; room = refl; allocated = e }

first_counted :
    (memory : Bytes)
    → (Message.resize (Message.create contents_size memory) contents_size 0).capacity < 2 ^ 64
unfolding Message.resize Message.create
first_counted memory = omega arith

-- A heap before the peer is made: its messages, if any, are valid.
pub record IsFresh {W : Type 0} (s : State W) : Type 0 where
  pub valid : (h : ℕ) → IsValid (s.messages h)
  pub counted : (h : ℕ) → (s.messages h).capacity < 2 ^ 64

module _ {W : Type 0} (zmq : Zmq W) where
  create-IsSound :
      (id size label recv : ℕ) (label_memory recv_memory : Bytes) (s : State W)
      → IsFresh s
      → recv ≢ label
      → length label_memory ≡ contents_size
      → length recv_memory ≡ size
      → size < 2 ^ 64
      → IsSound (Peer.create zmq id size label recv label_memory recv_memory s)
  unfolding Peer.create Hub.create
  create-IsSound id size label recv label_memory recv_memory s f ne e e' small =
      let first = Message.resize (Message.create contents_size label_memory) contents_size 0 in
      let second = Message.create size recv_memory in
      let heap = update s.messages label first in
      record {
        valid = λ h. at_update heap IsValid recv h second (create-IsValid size recv_memory e') (
            at_update s.messages IsValid label h first
              (resize-IsValid (Message.create contents_size label_memory) contents_size 0
                (create-IsValid contents_size label_memory e) (omega arith))
              (f.valid h));
        counted = λ h.
            at_update heap (λ m. m.capacity < 2 ^ 64) recv h second
              (second_counted size recv_memory small)
              (at_update s.messages (λ m. m.capacity < 2 ^ 64) label h first
                (first_counted label_memory) (f.counted h));
        header = rw (==_ne recv label ne, ==_refl label) (first-HoldsLabel label_memory e);
        made = λ i p k. cc;
        named = λ i p k. cc;
        null = λ i p k. cc;
        hub_named = refl;
        id_range = omega arith;
      }

  -- A peer is made, with two messages of its own, in a process whose messages are valid and of sizes that
  -- a size_t counts, and its user makes calls, in any order, that return or throw, and makes, writes to,
  -- resizes and resets messages other than the label message, with sizes that do not wrap. Whatever the
  -- network does, during the calls and between them, as long as a send leaves no more of a frame than was
  -- given, and whatever the handlers of the
  -- interfaces do, as long as each of them keeps what follows: in every state on the way no message
  -- claims, exposes or has more than its capacity, the label message is at its start with room for a
  -- header, every port that the hub lists was made and goes by the name of the peer's hub and of its id
  -- with an empty null message, and the message id has 32 bits. A call that runs into undefined
  -- behaviour counts as one that throws, in the state before the write.
  pub create-Reach-IsSound :
      (user : Handlers W) (id size label recv : ℕ) (label_memory recv_memory : Bytes)
      (s t : State W)
      → Conforms zmq
      → Respectful user
      → IsFresh s
      → recv ≢ label
      → length label_memory ≡ contents_size
      → length recv_memory ≡ size
      → size < 2 ^ 64
      → Reach zmq user (Peer.create zmq id size label recv label_memory recv_memory s) t
      → IsSound t
  create-Reach-IsSound user id size label recv label_memory recv_memory s t conforms respectful f ne
        e e' small r =
      Reach-IsSound zmq conforms user respectful
        (create-IsSound id size label recv label_memory recv_memory s f ne e e' small) r
