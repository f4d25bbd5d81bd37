-- ===== src/Interface/Enrolling.antt =====
-- A subscription and a publication: Peer::Push and Peer::ServiceInterfaces in the subscriber,
-- Peer::ServiceInterfaces, SubscriptionInterface and Peer::Publish in the publisher.
use dpn.Prelude.{ℕ, ◌≡◌, refl, ◌∙◌, none, some, List, [], ◌∷◌, find, insert, find-insert, ==_refl}
use dpn.Prelude.Int.{ℤ}
use dpn.Exec.{done, >>=-done}
use dpn.Label.{
  Label, swap, src, dest, get_interface_id, get_endpoint, get_peer_id, set_peer_id, set_description,
}
use dpn.Zmq.{Zmq}
use dpn.State.{State, Interface, set_peer, subscription}
use dpn.Port.Copy.{Hold}
use dpn.Port.Send.{payloads}
use dpn.Peer.{publish, publish_all, push, set_receipts, stamp, subscribe}
use dpn.Peer.Publishing.{pushed}
use dpn.Peer.Sending.{
  Sends, sent_frames, sent_label, push-Sends, poll-Sends, get_pending_package-Sends,
}
use dpn.Peer.Delivery.{source_port}
use dpn.Peer.Arrival.{Arrives, taken}
use dpn.Interface.{Handlers, pass, handle_incoming_message, service_interfaces}
use dpn.Interface.Delivery.{push-service_interfaces, service_pending}

module _ {W : Type 0} (zmq : Zmq W) where
  -- A peer whose handler accepted a subscription, the first of its topic.
  abbrev pub enrolled : Label → State W → State W
  enrolled handled s =
      set_peer
        (record s.peer {
          pub_map = insert (get_interface_id handled dest) (swap handled ∷ []) s.peer.pub_map;
        })
        s

  -- The label that a publication to that subscriber goes out with, and the peer that sends it.
  abbrev pub receipt : Label → State W → Label
  receipt handled s = stamp zmq s (swap handled)

  abbrev pub publishing : Label → State W → W → State W
  publishing handled s y =
      set_receipts zmq (get_interface_id handled dest) (receipt handled s ∷ [])
        (record (enrolled handled s) { world = y })

  subscribe-enrolled :
      (handled : Label) (s : State W)
      → find (get_interface_id handled dest) s.peer.pub_map ≡ none
      → subscribe zmq (swap handled) s ≡ done tt (enrolled handled s)
  unfolding subscribe swap get_interface_id get_endpoint
  subscribe-enrolled handled s e = rw e refl

  publish_first :
      (label handled : Label) (gs : List ℕ) (p : ℕ) (s : State W) (y v : W)
      → get_interface_id label src ≡ get_interface_id handled dest
      → find (get_interface_id handled dest) s.peer.pub_map ≡ none
      → Sends zmq (receipt handled s) gs p (publishing handled s y) v
      → publish zmq label gs (record (enrolled handled s) { world = y })
        ≡ done tt (pushed zmq (receipt handled s) gs v (publishing handled s y))
  unfolding publish publish_all stamp
  publish_first label handled gs p s y v topic fresh c =
      let t = get_interface_id handled dest in
      let listed : find t (insert t (swap handled ∷ []) s.peer.pub_map) ≡ some (swap handled ∷ []) =
        find-insert t t (swap handled ∷ []) s.peer.pub_map fresh ∙ rw (==_refl t) refl in
      rw (topic, listed)
        (>>=-done (push zmq (receipt handled s) gs) _ (publishing handled s y)
          (push-Sends zmq (receipt handled s) gs p (publishing handled s y) v c))

  -- A subscription that a peer `a` pushes to a subscription interface of a peer `b`, and what `b` then
  -- publishes, when both packages can be pushed and arrive, no peer has subscribed to the topic before,
  -- and the handler of `b` accepts the subscription: `b` services it, the publication, under a label whose
  -- source interface is the topic, returns, and when `a` services next, its interface that the handler left
  -- as the source of the subscription is called on a package that holds what was published, under a
  -- label that is addressed to that endpoint and names `b` as its source.
  pub publish-service_interfaces :
      (near user : Handlers W) (request handled label : Label) (hs gs : List ℕ) (p p' q q' : ℕ)
      (a b b' : State W) (i : Interface) (object : ℕ) (patience wait : ℤ) (port port' : ℕ)
      (v x y v' x' : W)
      → Sends zmq request hs p a v
      → (r : Arrives zmq patience port q
          (source_port (stamp zmq a request).contents)
          (sent_frames zmq request hs a)
          b.peer.recv_package
          (record b { world = v })
          x)
      → find (get_interface_id request dest) b.peer.interface_map
        ≡ some (record { kind = subscription; object = object })
      → user.handle_subscription object
          (sent_label zmq request a)
          b.peer.recv_package
          (taken zmq port r.notified.seen b.peer.recv_package (sent_frames zmq request hs a) x b)
        ≡ done (handled, pass) b'
      → find (get_interface_id handled dest) b'.peer.pub_map ≡ none
      → find (get_interface_id handled src) a.peer.interface_map ≡ some i
      → get_interface_id label src ≡ get_interface_id handled dest
      → Sends zmq (receipt handled b') gs p' (publishing handled b' y) v'
      → Arrives zmq wait port' q'
          (source_port (stamp zmq (publishing handled b' y) (receipt handled b')).contents)
          (sent_frames zmq (receipt handled b') gs (publishing handled b' y))
          a.peer.recv_package
          (record (pushed zmq request hs v a) { world = v' })
          x'
      → (t : State W) × (l : Label) × (push zmq request hs a
          ≡ done (stamp zmq a request) (pushed zmq request hs v a))
        × (service_interfaces zmq user patience (record b { world = v })
            ≡ done tt (enrolled handled b'))
        × (publish zmq label gs (record (enrolled handled b') { world = y })
            ≡ done tt (pushed zmq (receipt handled b') gs v' (publishing handled b' y)))
        × (service_interfaces zmq near wait (record (pushed zmq request hs v a) { world = v' })
            ≡ handle_incoming_message zmq near i l a.peer.recv_package t)
        × Hold t.messages a.peer.recv_package (payloads b'.messages gs)
        × (get_endpoint l dest ≡ get_endpoint handled src)
        × (get_peer_id l src ≡ b'.peer.peer_id)
  unfolding handle_incoming_message stamp swap get_interface_id get_endpoint get_peer_id set_peer_id
      set_description
  publish-service_interfaces near user request handled label hs gs p p' q q' a b b' i object
        patience wait port port' v x y v' x' s r known handles fresh reader topic s' r' =
      let (sent, serviced, _) =
        push-service_interfaces zmq user request hs p a b
          (record { kind = subscription; object = object }) patience port q v x s r known in
      let c = publishing handled b' y in
      let l = receipt handled b' in
      let asker = record (pushed zmq request hs v a) { world = v' } in
      let parts = sent_frames zmq l gs c in
      (
        taken zmq port' r'.notified.seen a.peer.recv_package parts x' asker,
        sent_label zmq l c,
        sent,
        serviced
            ∙ >>=-done
                (user.handle_subscription object (sent_label zmq request a) b.peer.recv_package) _
                (taken zmq port r.notified.seen b.peer.recv_package (sent_frames zmq request hs a) x
                  b)
                handles
            ∙ subscribe-enrolled handled b' fresh,
        publish_first label handled gs p' b' y v' topic fresh s',
        service_pending zmq near wait (sent_label zmq l c) i asker
            (taken zmq port' r'.notified.seen a.peer.recv_package parts x' asker)
            (get_pending_package-Sends zmq l gs p' c v' s' wait port' q' a.peer.recv_package asker
              x' r')
            reader,
        (poll-Sends zmq l gs p' c v' s' wait port' q' a.peer.recv_package asker x' r').2,
        refl,
        refl,
      )
