-- ===== src/Peer/Links.antt =====
-- Peer::Connect and Peer::Disconnect.
use dpn.Prelude.{ℕ, ◌≡◌, refl, sym, ◌∙◌, false, none, some, Bytes, ◌++◌, arith, find}
use dpn.Exec.{done, ◌>>◌, >>=-done}
use dpn.Text.{codes}
use dpn.Names.{inproc, get_port_name, peer_id_to_hub_name}
use dpn.Zmq.{Zmq}
use dpn.State.{State}
use dpn.Port
use dpn.Port.{has_name}
use dpn.Port.Links.{disconnect-connect}
use dpn.Hub
use dpn.Hub.{find_port}
use dpn.Peer.{connect, disconnect}

-- The name of a port of a peer.
abbrev pub port_of : ℕ → ℕ → Bytes
port_of peer port = get_port_name (record { hub_name = peer_id_to_hub_name peer; port_id = port })

module _ {W : Type 0} (zmq : Zmq W) where
  pub connect_lem :
      (peer port local p : ℕ) (s : State W)
      → find local s.hub.ports ≡ some p
      → connect zmq peer port local s ≡ Port.connect zmq p (port_of peer port) s
  unfolding connect Hub.connect find_port
  connect_lem peer port local p s e = ground (arith, e)

  disconnect_lem :
      (peer port local p : ℕ) (s : State W)
      → find port s.hub.ports ≡ some p
      → disconnect zmq peer port local s ≡ Port.disconnect zmq p (port_of peer port) s
  unfolding disconnect Hub.disconnect find_port
  disconnect_lem peer port local p s e = ground (arith, e)

  -- When the local and the remote port have the same id, the local port is inproc and the library
  -- takes both calls, disconnecting undoes a connection to a peer that was not connected: the ports
  -- are as they were.
  pub disconnect-connect_same :
      (peer port p : ℕ) (s : State W) (v w : W)
      → find port s.hub.ports ≡ some p
      → (s.ports p).transport ≡ inproc
      → has_name (port_of peer port) (s.ports p).connections ≡ false
      → zmq.connect (s.ports p).socket (codes "inproc://" ++ port_of peer port) s.world ≡ done tt v
      → zmq.disconnect (s.ports p).socket (codes "inproc://" ++ port_of peer port) v ≡ done tt w
      → (connect zmq peer port port >> disconnect zmq peer port port) s
        ≡ done tt (record s { world = w })
  disconnect-connect_same peer port p s v w found inp fresh c d =
      let name = port_of peer port in
      let linked = Port.Links.connect_lem zmq p name s (s.ports p) v refl inp c in
      >>=-done (connect zmq peer port port) _ s (connect_lem peer port port p s found ∙ linked)
      ∙ disconnect_lem peer port port p _ found
      ∙ sym (>>=-done (Port.connect zmq p name) (λ _. Port.disconnect zmq p name) s linked)
      ∙ disconnect-connect zmq p s name v w inp fresh c d

  -- When no local port has the id of the remote port, a disconnect does nothing, whatever local port
  -- is named, and raises no error.
  disconnect_lost :
      (peer port local : ℕ) (s : State W)
      → find port s.hub.ports ≡ none
      → disconnect zmq peer port local s ≡ done tt s
  unfolding disconnect Hub.disconnect find_port
  disconnect_lost peer port local s e = ground (arith, e)
