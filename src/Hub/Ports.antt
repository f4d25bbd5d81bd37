-- ===== src/Hub/Ports.antt =====
-- The map of ports of a hub.
use dpn.Prelude.{
  ℕ, suc, ◌≡◌, refl, ap, ◌∙◌, true, none, some, List, [], ◌∷◌, ◌++◌, Bytes, update, ==_refl, arith,
  find, insert, erase, insert_taken, find-insert, find-erase, if◌then◌else◌, ◌==◌,
}
use dpn.Exec.{done, raised, undefined, ◌>>=◌, ◌>>◌, >>=-done}
use dpn.Text.{codes}
use dpn.Names.{
  inproc, PortSpecification, get_port_name, port_name_to_socket_id, transport_to_string,
}
use dpn.Zmq.{Zmq}
use dpn.State.{State, update-update}
use dpn.Port
use dpn.Hub.{
  find_port, close_port, add_port, remove_port, connect, disconnect, unbind, send, receive,
  receive_single, send_single,
}

module _ {W : Type 0} (zmq : Zmq W) where
  -- On an id that has no port every method but one does nothing and returns normally, with a reference
  -- left as it was; RemovePort dereferences the end iterator.
  missing_port :
      (id : ℕ) (spec : PortSpecification) (hs : List ℕ) (h : ℕ) (s : State W)
      → find id s.hub.ports ≡ none
      → (connect zmq id spec s ≡ done tt s)
        × (disconnect zmq id spec s ≡ done tt s)
        × (unbind zmq id spec s ≡ done tt s)
        × (close_port zmq id s ≡ done tt s)
        × (send zmq id spec hs s ≡ done tt s)
        × (send_single zmq id spec h s ≡ done tt s)
        × (receive zmq id spec hs s ≡ done spec s)
        × (receive_single zmq id spec h s ≡ done spec s)
        × (remove_port zmq id s ≡ raised undefined s)
  unfolding connect disconnect unbind close_port send send_single receive receive_single remove_port
      find_port
  missing_port id spec hs h s e = (
    ground (arith, e),
    ground (arith, e),
    ground (arith, e),
    ground (arith, e),
    ground (arith, e),
    ground (arith, e),
    ground (arith, e),
    ground (arith, e),
    ground (arith, e),
  )

  -- The calls of the transport library that a new port makes, each of which succeeds: a router socket is
  -- opened, named and made mandatory, its address is bound, and the poller takes it under the port's id.
  pub record Opens (context flags id socket : ℕ) (address : Bytes) (w w' : W) : Type 0 where
    pub fresh : W
    pub opened : zmq.open_router context w ≡ done socket fresh
    pub named_world : W
    pub named : zmq.set_routing_id socket address fresh ≡ done tt named_world
    pub mandatory_world : W
    pub mandatory : zmq.set_router_mandatory socket true named_world ≡ done tt mandatory_world
    pub bound_world : W
    pub bound : zmq.bind socket address mandatory_world ≡ done tt bound_world
    pub polled : zmq.poller_add socket flags id bound_world ≡ done tt w'

  -- The name of a hub's port.
  abbrev pub name_of : ℕ → State W → Bytes
  name_of id s = get_port_name (record { hub_name = s.hub.hub_name; port_id = id })

  -- A port that has been made and not used.
  abbrev pub new_port : Bytes → ℕ → dpn.State.Port
  new_port name socket = record {
    port_name = name;
    transport = inproc;
    socket = socket;
    null_message = [];
    connections = [];
    bindings = name ∷ [];
  }

  -- The state with the new object.
  abbrev with_port : Bytes → ℕ → State W → State W
  with_port name socket s = record s {
    ports = update s.ports s.next_port (new_port name socket);
    next_port = suc s.next_port;
  }

  start_lem :
      (context flags id socket p : ℕ) (name : Bytes) (s : State W) (v w : W)
      → (o : Opens context flags id socket (codes "inproc://" ++ name) v w)
      → s.ports p ≡ record (new_port name socket) { bindings = [] }
      → Port.start zmq p (record s { world = o.fresh })
        ≡ done tt
            (record s { ports = update s.ports p (new_port name socket); world = o.bound_world })
  unfolding Port.start Port.bind port_name_to_socket_id transport_to_string
  start_lem context flags id socket p name s v w o e =
      ground (arith, e, o.named, o.mandatory, o.bound)

  create_lem :
      (context flags id socket : ℕ) (name : Bytes) (s : State W) (w : W)
      → (o : Opens context flags id socket (codes "inproc://" ++ name) s.world w)
      → Port.create zmq name inproc context s
        ≡ done s.next_port (record (with_port name socket s) { world = o.bound_world })
  unfolding Port.create
  create_lem context flags id socket name s w o =
      let p = s.next_port in
      let blank = record (new_port name socket) { bindings = [] } in
      let s' : State W = record s { ports = update s.ports p blank; next_port = suc p } in
      rw (◌>>=◌, ◌>>◌, o.opened)
        (ap (Port.closing zmq p socket)
            (start_lem context flags id socket p name s' s.world w o (rw (==_refl p)))
          ∙ ap
              (λ ports.
                done p (record s { ports = ports; next_port = suc p; world = o.bound_world }))
              (update-update s.ports p blank (new_port name socket)))

  add_port_lem :
      (id context flags socket : ℕ) (s : State W) (w : W)
      → (o : Opens context flags id socket (codes "inproc://" ++ name_of id s) s.world w)
      → add_port zmq id inproc context flags s
        ≡ done tt (record (with_port (name_of id s) socket s) {
          hub = record s.hub { ports = insert id s.next_port s.hub.ports };
          world = w;
        })
  unfolding add_port
  add_port_lem id context flags socket s w o =
      >>=-done (Port.create zmq (name_of id s) inproc context) _ s
        (create_lem context flags id socket (name_of id s) s w o)
      ∙ rw (==_refl s.next_port, o.polled)

  -- When the calls of the transport library succeed, an inproc port that is added under a fresh id is
  -- found under it, at a new place; every other id finds what it found before the call; the object at the
  -- new place has the port's name and the socket that was opened, and is bound under its name; and the
  -- objects at other places are unchanged.
  pub find-add_port :
      (id context flags socket : ℕ) (s : State W) (w : W)
      → Opens context flags id socket (codes "inproc://" ++ name_of id s) s.world w
      → find id s.hub.ports ≡ none
      → (u : State W) × (add_port zmq id inproc context flags s ≡ done tt u)
        × ((j : ℕ)
            → find j u.hub.ports ≡ (if id == j then some s.next_port else find j s.hub.ports))
        × (u.ports ≡ update s.ports s.next_port (new_port (name_of id s) socket))
        × (u.world ≡ w)
  find-add_port id context flags socket s w o fresh = (
    _,
    add_port_lem id context flags socket s w o,
    λ j. find-insert id j s.next_port s.hub.ports fresh,
    refl,
    refl,
  )

  -- Under an id that is taken, when the calls of the transport library succeed, as after the old port was
  -- closed or over another context, the call returns, and the hub is what it was before the call: the new
  -- port stands at the next place of the heap, bound under its name, in the world in which the poller has
  -- taken its socket under the id.
  pub add_port_again :
      (id context flags socket q : ℕ) (s : State W) (w : W)
      → Opens context flags id socket (codes "inproc://" ++ name_of id s) s.world w
      → find id s.hub.ports ≡ some q
      → (u : State W) × (add_port zmq id inproc context flags s ≡ done tt u)
        × (u.hub ≡ s.hub)
        × (u.ports ≡ update s.ports s.next_port (new_port (name_of id s) socket))
        × (u.next_port ≡ suc s.next_port)
        × (u.world ≡ w)
  add_port_again id context flags socket q s w o taken = (
    _,
    add_port_lem id context flags socket s w o,
    ap (λ ps. record s.hub { ports = ps }) (insert_taken id s.next_port q s.hub.ports taken),
    refl,
    refl,
    refl,
  )

  -- A port that is removed, when the poller lets go of its socket, leaves the map, and the ports
  -- under other ids stay.
  find-remove_port :
      (id p : ℕ) (s : State W) (w : W)
      → find id s.hub.ports ≡ some p
      → zmq.poller_remove (s.ports p).socket s.world ≡ done tt w
      → (u : State W) × (remove_port zmq id s ≡ done tt u)
        × ((j : ℕ) → find j u.hub.ports ≡ (if id == j then none else find j s.hub.ports))
        × (u.world ≡ w)
  unfolding remove_port
  find-remove_port id p s w e r = (
    record s { hub = record s.hub { ports = erase id s.hub.ports }; world = w },
    ground (arith, e, r),
    λ j. find-erase id j s.hub.ports,
    refl,
  )
