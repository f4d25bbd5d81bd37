-- ===== src/Peer/Defaults.antt =====
-- dpn/peer/inc/Peer.hpp: the calls with the arguments that they have when they are left out.
use dpn.Prelude.{ℕ, ◌≡◌, false, some, List, Bytes, ◌++◌, Option, find}
use dpn.Prelude.Int.{pos}
use dpn.Exec.{Exec, done, ◌>>◌}
use dpn.Text.{codes}
use dpn.Label.{Label, peer_port_id_default}
use dpn.Names.{Transport, inproc}
use dpn.Zmq.{Zmq}
use dpn.State.{State}
use dpn.Port.{has_name}
use dpn.Peer
use dpn.Peer.{Ending}
use dpn.Peer.Links.{port_of, disconnect-connect_same}

-- recvMessageSize
abbrev default_recv_message_size : ℕ
default_recv_message_size = 0x2000

module _ {W : Type 0} (zmq : Zmq W) where
  abbrev create_default : ℕ → (label recv : ℕ) → Bytes → Bytes → State W → State W
  create_default id label recv label_memory recv_memory =
      Peer.create zmq id default_recv_message_size label recv label_memory recv_memory

  -- A request that gives no timeout waits for 0 milliseconds.
  abbrev request_default : ℕ → Label → List ℕ → List ℕ → Exec (State W) (Option Ending)
  request_default fuel label send_package recv_package =
      Peer.request zmq fuel label send_package recv_package (pos 0)

  abbrev add_port_default : Transport → ℕ → ℕ → Exec (State W) (Unit {0})
  add_port_default transport context flags =
      Peer.add_port zmq transport context flags peer_port_id_default

  abbrev remove_port_default : Exec (State W) (Unit {0})
  remove_port_default = Peer.remove_port zmq peer_port_id_default

  abbrev close_port_default : Exec (State W) (Unit {0})
  close_port_default = Peer.close_port zmq peer_port_id_default

  abbrev pub connect_default : ℕ → Exec (State W) (Unit {0})
  connect_default peer = Peer.connect zmq peer peer_port_id_default peer_port_id_default

  abbrev pub disconnect_default : ℕ → Exec (State W) (Unit {0})
  disconnect_default peer = Peer.disconnect zmq peer peer_port_id_default peer_port_id_default

  -- With the default ports on both sides, the local one inproc, disconnecting from a peer that was not
  -- connected before undoes the connection to it, when the library takes both calls: the process is as
  -- it was, but for the network.
  pub disconnect-connect_default :
      (peer p : ℕ) (s : State W) (v w : W)
      → find peer_port_id_default s.hub.ports ≡ some p
      → (s.ports p).transport ≡ inproc
      → has_name (port_of peer peer_port_id_default) (s.ports p).connections ≡ false
      → zmq.connect
          (s.ports p).socket
          (codes "inproc://" ++ port_of peer peer_port_id_default)
          s.world
        ≡ done tt v
      → zmq.disconnect (s.ports p).socket (codes "inproc://" ++ port_of peer peer_port_id_default) v
        ≡ done tt w
      → (connect_default peer >> disconnect_default peer) s ≡ done tt (record s { world = w })
  disconnect-connect_default peer = disconnect-connect_same zmq peer peer_port_id_default
