-- ===== src/Peer/Reaching.antt =====
-- Peer::AddPort and Peer::Connect: what a delivery between two peers rests on.
use dpn.Prelude.{ℕ, ◌≡◌, refl, sym, ap, ◌∙◌, none, some, Option, ◌++◌, Bytes, find, ==_refl}
use mathlib.Core.Path.{subst}
use dpn.Exec.{done, ok, lift}
use dpn.Exec.Ends.{Ends, Ends-done, >>=-Ends}
use dpn.Text.{codes}
use dpn.Label.{
  Label, src, dest, get_peer_id, get_port_id, get_endpoint, set_peer_id, set_description,
}
use dpn.Names.{inproc, peer_id_to_hub_name, port_name_to_socket_id}
use dpn.Zmq.{Zmq}
use dpn.State.{State, set_hub, on_world}
use dpn.Port
use dpn.Port.Construction.{From, Same, on_world-Ends}
use dpn.Hub
use dpn.Peer
use dpn.Peer.{destination, stamp}
use dpn.Peer.Links.{port_of, connect_lem}
use dpn.Peer.Routing.{Directed}
use dpn.Peer.Naming.{
  Known, Naming, Listed, in_port, address_of, first-Ends, second-Ends, inproc_address,
}

module _ {W : Type 0} (identity : ℕ → W → Bytes) (owner : Bytes → W → Option ℕ)
    (target : ℕ → Bytes → W → Option ℕ) (zmq : Zmq W) where
  -- A connection is recorded in the port, and leaves its socket and the peer as they are.
  connect-Ends :
      (p to : ℕ) (name me : Bytes) (s : State W)
      → Naming identity owner target zmq
      → (s.ports p).transport ≡ inproc
      → identity (s.ports p).socket s.world ≡ me
      → Known identity owner target to (codes "inproc://" ++ name) s.world
      → Ends
          (λ _ t.
            (target (t.ports p).socket (codes "inproc://" ++ name) t.world ≡ some to)
            × (identity (t.ports p).socket t.world ≡ me)
            × Same s t)
          (Port.connect zmq p name)
          s
  unfolding Port.connect
  connect-Ends p to name me s n inp e k =
      let id = codes "inproc://" ++ name in
      let sk = (s.ports p).socket in
      let lifted : port_name_to_socket_id name (s.ports p).transport ≡ ok id =
        ap (port_name_to_socket_id name) inp ∙ inproc_address name in
      >>=-Ends (λ a u. (a ≡ id) × (u ≡ s)) _
        (lift (port_name_to_socket_id name (s.ports p).transport)) _ s (rw lifted (refl, refl))
        (λ a u (is_id, same).
          >>=-Ends (λ _ t. From s (λ v. (target sk id v ≡ some to) × (identity sk v ≡ me)) t) _
            (on_world (zmq.connect sk a)) _ u
            (on_world-Ends (λ w. (identity sk w ≡ me) × Known identity owner target to id w)
              (λ _ v. (target sk id v ≡ some to) × (identity sk v ≡ me)) (zmq.connect sk a) s u
              (rw same ((refl, refl), refl, (e, k)))
              (λ w (e', k'). rw is_id (n.connects sk to me id w e' k')))
            (λ _ t (same', ports, (r, e')). rw (==_refl p) (r, e', same')))

  -- Over a library that keeps routing ids, addresses and connections as ZeroMQ documents it: when a peer
  -- `b` adds an inproc port under an id that it does not use, then a peer `a` does, and then `a` connects
  -- that port to the one of `b`, the hubs named for their peers and all three calls returning, then `a`
  -- has a port under its id from which every label that names it as the source port, and the port of
  -- `b` as the destination, reaches the socket of a port that `b` has under its id.
  pub Directed-connect :
      (label : Label) (context context' flags flags' local port : ℕ) (a a' a'' b b' : State W)
      → Naming identity owner target zmq
      → find port b.hub.ports ≡ none
      → find local a.hub.ports ≡ none
      → b.hub.hub_name ≡ peer_id_to_hub_name b.peer.peer_id
      → a.hub.hub_name ≡ peer_id_to_hub_name a.peer.peer_id
      → get_peer_id label dest ≡ b.peer.peer_id
      → get_port_id label dest ≡ port
      → get_port_id label src ≡ local
      → Peer.add_port zmq inproc context flags port b ≡ done tt b'
      → Peer.add_port zmq inproc context' flags' local (record a { world = b'.world }) ≡ done tt a'
      → Peer.connect zmq b.peer.peer_id port local a' ≡ done tt a''
      → (p q : ℕ) × (find local a''.hub.ports ≡ some p)
        × (find port b'.hub.ports ≡ some q)
        × Directed zmq identity target label p a'' (b'.ports q).socket
  unfolding Peer.add_port Listed destination stamp get_peer_id get_port_id get_endpoint set_peer_id
      set_description
  Directed-connect label context context' flags flags' local port a a' a'' b b' n free free' named
        named' to_peer to_port from_port made made' connected =
      let (q, found, _, known, _) =
        Ends-done _ (Hub.add_port zmq port inproc context flags) b
          (first-Ends identity owner target zmq port context flags b n free) made in
      let s = record a { world = b'.world } in
      let (p, found', inp, (known', (mine, _)), peer) =
        Ends-done _ (Hub.add_port zmq local inproc context' flags') s
          (second-Ends identity owner target zmq local context' flags' (b'.ports q).socket
            (address_of identity owner target zmq b port) s n free' known)
          made' in
      let there : address_of identity owner target zmq b port
          ≡ codes "inproc://" ++ port_of b.peer.peer_id port =
        ap (λ name. in_port identity owner target zmq name port) named in
      let (reaches, named_as, (hub, peer')) =
        Ends-done _ (Port.connect zmq p (port_of b.peer.peer_id port)) a'
          (connect-Ends p (b'.ports q).socket (port_of b.peer.peer_id port)
            (address_of identity owner target zmq s local) a' n inp mine
            (subst (λ x. Known identity owner target (b'.ports q).socket x a'.world) there known'))
          (sym (connect_lem zmq b.peer.peer_id port local p a' found') ∙ connected) in
      (
        p,
        q,
        ap (λ (h : dpn.State.Hub). find local h.ports) hub ∙ found',
        found,
        record {
          reaches = rw (to_peer, to_port) reaches;
          named =
              named_as
              ∙ ap (λ name. in_port identity owner target zmq name local)
                  (named'
                    ∙ ap (λ (x : dpn.State.Peer). peer_id_to_hub_name x.peer_id)
                        (sym (peer' ∙ peer)))
              ∙ ap (in_port identity owner target zmq (peer_id_to_hub_name a''.peer.peer_id))
                  (sym from_port);
        },
      )
