-- ===== src/Process/Peers.antt =====
-- The methods of a peer keep a process sound.
use mathlib.Core.Path.{subst}
use dpn.Prelude.{
  ℕ, zero, suc, ◌≡◌, none, some, Option, List, [], ◌∷◌, ◌++◌, arith, Bool-cases, inl, inr, ◌==◌,
  find,
}
use dpn.Prelude.Int.{ℤ, leb_ℤ, ◌-ℤ◌}
use dpn.Exec.{Outcome, is_caught, state, pure, raise, lift, runtime_error}
use dpn.Exec.{Outcome-cases}
use dpn.Exec.Keeps.{Keeps, >>=-Keeps, lift-Keeps, run-Keeps, if-state}
use dpn.Message.{buffer}
use dpn.Label.{Label, get_interface_id, src}
use dpn.Label.Layout.{encode, encode_id}
use dpn.Names.{PortSpecification, hub_name_to_peer_id}
use dpn.Zmq.{Zmq}
use dpn.State.{State, set_peer}
use dpn.Port
use dpn.Hub
use dpn.Peer
use dpn.Peer.{
  Ending, matched, interrupted, expired, stamp, destination, next_id, load_label,
  poll_event_present, pollin, header_into, blank_specification,
}
use dpn.Peer.Requests.{loop_expired, loop_interrupted, loop_faulted, loop_matched, loop_again}
use dpn.Process.{IsSound, Conforms}
use dpn.Process.Messages.{store-Keeps}
use dpn.Process.Hubs.{hub_send-Keeps, hub_receive-Keeps, hub_poll-Keeps}

module _ {W : Type 0} (zmq : Zmq W) where
  counted-IsSound :
      (s : State W)
      → IsSound s
      → IsSound (set_peer (record s.peer { message_id = next_id zmq s }) s)
  unfolding next_id
  counted-IsSound s i = record {
    valid = i.valid;
    counted = i.counted;
    header = i.header;
    made = i.made;
    named = i.named;
    null = i.null;
    hub_named = i.hub_named;
    id_range = omega arith;
  }

  header_into-Keeps : (h at : ℕ) (label : Label) → Keeps IsSound (header_into zmq h at label)
  unfolding header_into
  header_into-Keeps h at label =
      >>=-Keeps IsSound (Port.store zmq h at (encode label.contents)) _ (store-Keeps zmq h at _)
        (λ _ t i. store-Keeps zmq h at (encode_id (next_id zmq t)) _ (counted-IsSound t i))

  write_header-Keeps : (label : Label) → Keeps IsSound (Peer.write_header zmq label)
  unfolding Peer.write_header
  write_header-Keeps label s i =
      header_into-Keeps s.peer.label_message (buffer (s.messages s.peer.label_message)) label s i

  pub subscribe-Keeps : (label : Label) → Keeps IsSound (Peer.subscribe zmq label)
  unfolding Peer.subscribe
  subscribe-Keeps label s i = go (find (get_interface_id label src) s.peer.pub_map)
    where
      go :
          (o : Option (List Label))
          → IsSound (Peer.subscribed zmq label (get_interface_id label src) o s)
      go none = i
      go (some labels) = i

module _ {W : Type 0} (zmq : Zmq W) (conforms : Conforms zmq) where
  pub push-Keeps : (label : Label) (hs : List ℕ) → Keeps IsSound (Peer.push zmq label hs)
  unfolding Peer.push
  push-Keeps label hs s i =
      >>=-Keeps IsSound (Peer.write_header zmq (stamp zmq s label)) _ (write_header-Keeps zmq _)
        (λ _ t j.
          >>=-Keeps IsSound (Hub.send zmq _ _ _) (λ _. pure (stamp zmq s label))
            (hub_send-Keeps zmq conforms _ _ _) (λ _ u k. k) t j)
        s i

  publish_all-Keeps :
      (topic : ℕ) (before labels : List Label) (hs : List ℕ)
      → Keeps IsSound (Peer.publish_all zmq topic before labels hs)
  unfolding Peer.publish_all
  publish_all-Keeps topic before [] hs s i = i
  publish_all-Keeps topic before (label ∷ labels) hs s i =
      let one = stamp zmq s label in
      >>=-Keeps IsSound (Peer.push zmq one hs) _ (push-Keeps one hs)
        (λ _. publish_all-Keeps topic (before ++ one ∷ []) labels hs) _ i

  publish_to-Keeps :
      (topic : ℕ) (o : Option (List Label)) (hs : List ℕ)
      → Keeps IsSound (Peer.publish_to zmq topic o hs)
  publish_to-Keeps topic none hs s i = i
  publish_to-Keeps topic (some labels) hs s i = publish_all-Keeps topic [] labels hs s i

  pub publish-Keeps : (label : Label) (hs : List ℕ) → Keeps IsSound (Peer.publish zmq label hs)
  unfolding Peer.publish
  publish-Keeps label hs s i =
      publish_to-Keeps (get_interface_id label src)
        (find (get_interface_id label src) s.peer.pub_map) hs s i

  check_sender-Keeps : (spec : PortSpecification) → Keeps IsSound (Peer.check_sender zmq spec)
  unfolding Peer.check_sender
  check_sender-Keeps spec s i =
      if-state IsSound ((load_label zmq s).src.port_id == spec.port_id) _ _ s
        (>>=-Keeps IsSound (lift (hub_name_to_peer_id spec.hub_name)) (λ _. pure tt)
          (lift-Keeps IsSound _) (λ _ t j. j) s i)
        i

  receive_messages-Keeps : (id : ℕ) (hs : List ℕ) → Keeps IsSound (Peer.receive_messages zmq id hs)
  unfolding Peer.receive_messages
  receive_messages-Keeps id hs s i =
      >>=-Keeps IsSound (Hub.receive zmq id _ _) (Peer.check_sender zmq)
        (hub_receive-Keeps zmq conforms id _ _) check_sender-Keeps s i

  poll-Keeps :
      (hs : List ℕ) (flags : ℕ) (timeout : ℤ) → Keeps IsSound (Peer.poll zmq hs flags timeout)
  unfolding Peer.poll
  poll-Keeps hs flags timeout =
      >>=-Keeps IsSound (Hub.poll zmq flags timeout) _ (hub_poll-Keeps zmq conforms flags timeout)
        (λ event t i.
          if-state IsSound (poll_event_present event.1 pollin)
            (Peer.receive_messages zmq event.0 hs) (raise runtime_error) t
            (receive_messages-Keeps event.0 hs t i) i)

  pub get_pending_package-Keeps :
      (hs : List ℕ) (timeout : ℤ) → Keeps IsSound (Peer.get_pending_package zmq hs timeout)
  unfolding Peer.get_pending_package
  get_pending_package-Keeps hs timeout =
      >>=-Keeps IsSound (Peer.poll zmq hs pollin timeout) _ (poll-Keeps hs pollin timeout)
        (λ _ t i. i)

  request_loop-Keeps :
      (fuel : ℕ) (hs : List ℕ) (start timeout elapsed wait : ℤ)
      → Keeps IsSound (Peer.request_loop zmq fuel hs start timeout elapsed wait)
  unfolding Peer.request_loop
  request_loop-Keeps zero hs start timeout elapsed wait s i = i
  request_loop-Keeps (suc fuel) hs start timeout elapsed wait s i =
      let run = Peer.request_loop zmq (suc fuel) hs start timeout elapsed wait in
      let polled = poll-Keeps hs pollin wait s i in
      elim (Bool-cases (leb_ℤ elapsed timeout)) [
        | inr late ↦
            run-Keeps IsSound run s (loop_expired zmq fuel hs start timeout elapsed wait s s late) i
        | inl early ↦ elim (Outcome-cases (Peer.poll zmq hs pollin wait s)) [
          | inr (e, t, p) ↦ elim (Bool-cases (is_caught e)) [
            | inl caught ↦
                run-Keeps IsSound run s
                  (loop_interrupted zmq fuel hs start timeout elapsed wait s t e early p caught)
                  (ended s p polled)
            | inr fault ↦
                run-Keeps IsSound run s
                  (loop_faulted zmq fuel hs start timeout elapsed wait s t e early p fault)
                  (ended s p polled)
          ]
          | inl (a, t, p) ↦ elim (Bool-cases ((load_label zmq t).message_id == t.peer.message_id)) [
            | inl same ↦
                run-Keeps IsSound run s
                  (loop_matched zmq fuel hs start timeout elapsed wait s t early p same)
                  (ended s p polled)
            | inr other ↦
                let time = (zmq.now t.world).0 -ℤ start in
                let later : State W = record t { world = (zmq.now t.world).1 } in
                run-Keeps IsSound run s
                  (loop_again zmq fuel hs start timeout elapsed wait s t early p other)
                  (request_loop-Keeps fuel hs start timeout time (timeout -ℤ time) later
                    (ended s p polled))
          ]
        ]
      ]
    where
      ended :
          {o : Outcome (State W) (Unit {0})} (u : State W)
          → Peer.poll zmq hs pollin wait u ≡ o
          → IsSound (state (Peer.poll zmq hs pollin wait u))
          → IsSound (state o)
      ended u e k = subst (λ o. IsSound (state o)) e k

  request_impl-Keeps :
      (fuel : ℕ) (hs : List ℕ) (timeout : ℤ) → Keeps IsSound (Peer.request_impl zmq fuel hs timeout)
  unfolding Peer.request_impl
  request_impl-Keeps fuel hs timeout s i =
      request_loop-Keeps fuel hs (zmq.now s.world).0 timeout timeout timeout
        (record s { world = (zmq.now s.world).1 }) i

  pub request-Keeps :
      (fuel : ℕ) (label : Label) (hs gs : List ℕ) (timeout : ℤ)
      → Keeps IsSound (Peer.request zmq fuel label hs gs timeout)
  unfolding Peer.request
  request-Keeps fuel label hs gs timeout =
      >>=-Keeps IsSound (Peer.push zmq label hs) (λ _. Peer.request_impl zmq fuel gs timeout)
        (push-Keeps label hs) (λ _. request_impl-Keeps fuel gs timeout)
