-- ===== src/Peer/Ordering.antt =====
-- Peer::GetPendingPackage after two pushes of one peer.
use dpn.Prelude.{ℕ, Option, List, Bytes}
use dpn.Label.{Label}
use dpn.Names.{get_port_name}
use dpn.Zmq.{Zmq}
use dpn.State.{State}
use dpn.Port.Send.{wire}
use dpn.Peer.{stamp}
use dpn.Peer.Delivery.{source_port}
use dpn.Peer.Sending.{sent_frames}
use dpn.Peer.Routing.{Routed}

module _ {W : Type 0} (zmq : Zmq W) (waiting : ℕ → ℕ → W → List (List Bytes)) (after : ℕ → W → W)
    (identity : ℕ → W → Bytes) (target : ℕ → Bytes → W → Option ℕ)
    (routed : Routed zmq waiting after identity target) where
  -- The message that arrives of a pushed package.
  abbrev message_of : Label → List ℕ → State W → List Bytes
  message_of label hs a =
      wire (get_port_name (source_port (stamp zmq a label).contents)) (sent_frames zmq label hs a)
