-- ===== src/Interface/Dispatch.antt =====
-- Peer::ServiceInterfaces: what a message does at the interface that it is for.
use dpn.Prelude.{ℕ, ◌≡◌, refl, none, some, List, [], ◌∷◌, ◌++◌, arith, find, if◌then◌else◌, ◌==◌}
use dpn.Prelude.Int.{ℤ}
use dpn.Exec.{done, raised, ◌>>=◌, attempt, Error, is_caught}
use dpn.Label.{
  Label, src, dest, swap, get_interface_id, get_endpoint, get_peer_id, get_port_id, set_peer_id,
}
use dpn.Zmq.{Zmq}
use dpn.State.{State, reply, subscription}
use dpn.Peer.{get_pending_package, push, stamp, destination}
use dpn.Peer.Publishing.{find-subscribe, receipts}
use dpn.Interface.{Handlers, pass, handle_incoming_message, service_interfaces}

module _ {W : Type 0} (zmq : Zmq W) (user : Handlers W) where
  -- A message that does not come, or whose reception throws an exception, is not an error of the service:
  -- it returns, with the state that the reception left. A reception that runs into undefined behaviour
  -- is not caught.
  service_raised :
      (timeout : ℤ) (e : Error) (s t : State W)
      → get_pending_package zmq s.peer.recv_package timeout s ≡ raised e t
      → service_interfaces zmq user timeout s ≡ (if is_caught e then done tt t else raised e t)
  unfolding service_interfaces
  service_raised timeout e s t h = ground (arith, h)

  -- A message for an interface that was not added is dropped.
  service_unknown :
      (timeout : ℤ) (label : Label) (s t : State W)
      → get_pending_package zmq s.peer.recv_package timeout s ≡ done label t
      → find (get_interface_id label dest) t.peer.interface_map ≡ none
      → service_interfaces zmq user timeout s ≡ done tt t
  unfolding service_interfaces
  service_unknown timeout label s t h k = ground (arith, h, k)

  -- Servicing a message for a subscription interface whose handler accepts it enrols the sender: under
  -- the topic that is the destination interface of the handled label, a label addressed to that label's
  -- source stands behind the receipts that were there; other topics are unchanged.
  pub service-subscription :
      (timeout : ℤ) (object : ℕ) (label handled : Label) (s t u : State W)
      → get_pending_package zmq s.peer.recv_package timeout s ≡ done label t
      → find (get_interface_id label dest) t.peer.interface_map
        ≡ some (record { kind = subscription; object = object })
      → user.handle_subscription object label t.peer.recv_package t ≡ done (handled, pass) u
      → (x : State W) × (receipt : Label) × (service_interfaces zmq user timeout s ≡ done tt x)
        × (get_endpoint receipt dest ≡ get_endpoint handled src)
        × ((topic : ℕ)
            → find topic x.peer.pub_map ≡ (
                if get_interface_id handled dest == topic
                then some (receipts (find topic u.peer.pub_map) ++ receipt ∷ [])
                else find topic u.peer.pub_map))
  unfolding service_interfaces handle_incoming_message swap get_interface_id get_endpoint
  service-subscription timeout object label handled s t u p i h =
      let (x, run, topics) = find-subscribe zmq (swap handled) u in
      (x, swap handled, rw (p, ◌>>=◌, attempt, i, h) run, refl, topics)

  -- Servicing a message for a reply interface whose handler accepts it is the push of the handler's
  -- answer under the swapped label: to the peer and the port that are the source of the handled
  -- label, from the port that is its destination.
  service-reply :
      (timeout : ℤ) (object : ℕ) (label handled sent : Label) (answer : List ℕ) (s t u x : State W)
      → get_pending_package zmq s.peer.recv_package timeout s ≡ done label t
      → find (get_interface_id label dest) t.peer.interface_map
        ≡ some (record { kind = reply; object = object })
      → user.handle_reply object label t.peer.recv_package t ≡ done (handled, pass, answer) u
      → push zmq (swap handled) answer u ≡ done sent x
      → (service_interfaces zmq user timeout s ≡ done tt x)
        × ((destination zmq (stamp zmq u (swap handled))).hub_name
            ≡ dpn.Names.peer_id_to_hub_name (get_peer_id handled src))
        × ((destination zmq (stamp zmq u (swap handled))).port_id ≡ get_port_id handled src)
        × (get_port_id (stamp zmq u (swap handled)) src ≡ get_port_id handled dest)
  unfolding service_interfaces handle_incoming_message swap get_endpoint get_peer_id get_port_id
      destination stamp set_peer_id
  service-reply timeout object label handled sent answer s t u x p i h k =
      (rw (p, ◌>>=◌, attempt, i, h, k), refl, refl, refl)
