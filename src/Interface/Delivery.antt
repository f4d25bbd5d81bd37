-- ===== src/Interface/Delivery.antt =====
-- From Peer::Push in one peer to the interface of another: the components together.
use dpn.Prelude.{ℕ, ◌≡◌, some, List, find, arith}
use dpn.Prelude.Int.{ℤ}
use dpn.Exec.{done}
use dpn.Label.{Label, dest, get_endpoint, get_interface_id, set_peer_id, set_description}
use dpn.Zmq.{Zmq}
use dpn.State.{State, Interface}
use dpn.Port.Copy.{Hold}
use dpn.Port.Send.{payloads}
use dpn.Peer.{get_pending_package, push, stamp}
use dpn.Peer.Publishing.{pushed}
use dpn.Peer.Delivery.{source_port}
use dpn.Peer.Sending.{
  Sends, sent_frames, sent_label, push-Sends, poll-Sends, get_pending_package-Sends,
}
use dpn.Peer.Arrival.{Arrives, taken}
use dpn.Interface.{Handlers, handle_incoming_message, service_interfaces}

module _ {W : Type 0} (zmq : Zmq W) where
  -- A package that was taken goes to the interface that its label names.
  pub service_pending :
      (user : Handlers W) (timeout : ℤ) (label : Label) (i : Interface) (s t : State W)
      → get_pending_package zmq s.peer.recv_package timeout s ≡ done label t
      → find (get_interface_id label dest) t.peer.interface_map ≡ some i
      → service_interfaces zmq user timeout s
        ≡ handle_incoming_message zmq user i label t.peer.recv_package t
  unfolding service_interfaces
  service_pending user timeout label i s t e k = ground (arith, e, k)

  -- What a peer `a` pushes, a label in range and a package of distinct messages, over a port that can
  -- send and from a label message as the constructor makes it, reaches the interface of a peer `b` that
  -- the label names, when the socket of `a` takes the frames, the poller of `b` reports input at a port
  -- last, the socket of that port hands the frames over behind the socket id of the port of `a`, they are
  -- no more than ten, and they fit into distinct ready messages of `b`: the push returns, and servicing
  -- is the call of that interface with the label that was pushed, with `a` as its source and the next
  -- message id of `a`, on messages that hold the contents of the package of `a`.
  pub push-service_interfaces :
      (user : Handlers W) (label : Label) (hs : List ℕ) (p : ℕ) (a b : State W) (i : Interface)
      (timeout : ℤ) (port q : ℕ) (v x : W)
      → Sends zmq label hs p a v
      → (r : Arrives zmq timeout port q
          (source_port (stamp zmq a label).contents)
          (sent_frames zmq label hs a)
          b.peer.recv_package
          (record b { world = v })
          x)
      → find (get_interface_id label dest) b.peer.interface_map ≡ some i
      → (push zmq label hs a ≡ done (stamp zmq a label) (pushed zmq label hs v a))
        × (service_interfaces zmq user timeout (record b { world = v })
            ≡ handle_incoming_message zmq user i (sent_label zmq label a) b.peer.recv_package (
                taken zmq port r.notified.seen b.peer.recv_package
                  (sent_frames zmq label hs a)
                  x
                  b))
        × Hold
            (taken zmq port r.notified.seen b.peer.recv_package
              (sent_frames zmq label hs a)
              x
              b).messages
            b.peer.recv_package
            (payloads a.messages hs)
  push-service_interfaces user label hs p a b i timeout port q v x s r known =
      let start = record b { world = v } in
      let gs = b.peer.recv_package in
      (
        push-Sends zmq label hs p a v s,
        service_pending user timeout (sent_label zmq label a) i start
            (taken zmq port r.notified.seen gs (sent_frames zmq label hs a) x b)
            (get_pending_package-Sends zmq label hs p a v s timeout port q gs start x r)
            (unfold get_interface_id get_endpoint stamp set_peer_id set_description in known),
        (poll-Sends zmq label hs p a v s timeout port q gs start x r).2,
      )
