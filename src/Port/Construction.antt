-- ===== src/Port/Construction.antt =====
-- Port's constructor over what the calls of the transport library do to its world.
use dpn.Prelude.{ℕ, ◌≡◌, refl, ap, ◌∙◌, Bool, true, Bytes, [], suc, update, ==_refl}
use dpn.Exec.{Exec, Outcome, ok, done, raised, lift}
use dpn.Exec.Ends.{Ends, Returns, Returns-map, >>=-Ends}
use dpn.Names.{Transport, port_name_to_socket_id}
use dpn.Zmq.{Zmq}
use dpn.State.{State, Port, on_world, with_world}
use dpn.Port

module _ {W : Type 0} where
  -- The hub and the peer of a state are those of another.
  abbrev pub Same : State W → State W → Type 0
  Same s t = (t.hub ≡ s.hub) × (t.peer ≡ s.peer)

  -- The state has the hub, the peer and the ports of `s`, and `R` holds of its world.
  abbrev pub From : State W → (W → Type 0) → State W → Type 0
  From s R t = Same s t × (t.ports ≡ s.ports) × R t.world

  pub on_world-Ends :
      {A : Type 0} (R : W → Type 0) (Q : A → W → Type 0) (m : Exec W A) (s t : State W)
      → From s R t
      → ((w : W) → R w → Ends Q m w)
      → Ends (λ a u. From s (Q a) u) (on_world m) t
  on_world-Ends {A = A} R Q m s t (same, ports, r) k = go (m t.world) (k t.world r)
    where
      go : (o : Outcome W A) → Returns Q o → Returns (λ a u. From s (Q a) u) (with_world t o)
      go (done a w) q = (same, ports, q)
      go (raised e w) q = tt

  -- The constructor of a port, with what holds of the world before, when the socket is there, when it
  -- has its name, and when it has its address.
  module _ (zmq : Zmq W) (address : Bytes) (P : W → Type 0) (O N Q : ℕ → W → Type 0)
      (opens : (context : ℕ) (w : W)
        → P w
        → Ends (λ socket v. O socket v) (zmq.open_router context) w)
      (names : (socket : ℕ) (w : W)
        → O socket w
        → Ends (λ _ v. N socket v) (zmq.set_routing_id socket address) w)
      (mandatory : (socket : ℕ) (b : Bool) (w : W)
        → N socket w
        → Ends (λ _ v. N socket v) (zmq.set_router_mandatory socket b) w)
      (binds : (socket : ℕ) (w : W)
        → N socket w
        → Ends (λ _ v. Q socket v) (zmq.bind socket address) w) where
    -- The address that the port's name makes.
    lift-Ends :
        (R : W → Type 0) (port : Port) (s t : State W)
        → port_name_to_socket_id port.port_name port.transport ≡ ok address
        → From s R t
        → Ends
            (λ a u. (a ≡ address) × From s R u)
            (lift (port_name_to_socket_id port.port_name port.transport))
            t
    lift-Ends R port s t e i = rw e (refl, i)

    -- A port that is bound.
    Made : ℕ → State W → State W → Type 0
    Made p s u =
        Same s u × ((u.ports p).transport ≡ (s.ports p).transport) × Q (u.ports p).socket u.world

    bind-Ends :
        (p : ℕ) (name : Bytes) (s t : State W)
        → port_name_to_socket_id (s.ports p).port_name (s.ports p).transport ≡ ok address
        → From s (N (s.ports p).socket) t
        → Ends (λ _ u. Made p s u) (Port.bind zmq p name) t
    unfolding Port.bind Made
    bind-Ends p name s t e (same, ports, i) =
        let sk = (s.ports p).socket in
        let its : (t.ports p).socket ≡ sk = ap (λ f. (f p).socket) ports in
        >>=-Ends (λ a u. (a ≡ address) × From s (N sk) u) _ (lift _) _ t
          (lift-Ends (N sk) (t.ports p) s t (rw ports e) (same, ports, i))
          (λ id u (is_address, j).
            >>=-Ends (λ _ v. From s (Q sk) v) _ (on_world (zmq.bind (t.ports p).socket id)) _ u
              (on_world-Ends (N sk) (λ _ v. Q sk v) (zmq.bind (t.ports p).socket id) s u j
                (λ w k. rw (is_address, its) (binds sk w k)))
              (λ _ v (same, ports', q).
                (same, rw (==_refl p) (ap (λ f. (f p).transport) ports), rw (==_refl p, its) q)))

    start-Ends :
        (p : ℕ) (s : State W)
        → port_name_to_socket_id (s.ports p).port_name (s.ports p).transport ≡ ok address
        → O (s.ports p).socket s.world
        → Ends (λ _ t. Made p s t) (Port.start zmq p) s
    unfolding Port.start
    start-Ends p s e i =
        let sk = (s.ports p).socket in
        >>=-Ends (λ a u. (a ≡ address) × From s (O sk) u) _ (lift _) _ s
          (lift-Ends (O sk) (s.ports p) s s e ((refl, refl), refl, i))
          (λ id t (is_address, j).
            >>=-Ends (λ _ u. From s (N sk) u) _ (on_world (zmq.set_routing_id sk id)) _ t
              (on_world-Ends (O sk) (λ _ v. N sk v) (zmq.set_routing_id sk id) s t j
                (λ w k. rw is_address (names sk w k)))
              (λ _ u k.
                >>=-Ends (λ _ v. From s (N sk) v) _ (on_world (zmq.set_router_mandatory sk true)) _
                  u (on_world-Ends (N sk) (λ _ v. N sk v) _ s u k (mandatory sk true))
                  (λ _ v l. bind-Ends p (s.ports p).port_name s v e l)))

    closing-Ends :
        (p socket : ℕ) (R : ℕ → State W → Type 0) (o : Outcome (State W) (Unit {0}))
        → Returns (λ _ t. R p t) o
        → Returns R (Port.closing zmq p socket o)
    closing-Ends p socket R (done a t) r = r
    closing-Ends p socket R (raised e t) r = tt

    pub create-Ends :
        (name : Bytes) (transport : Transport) (context : ℕ) (s : State W)
        → port_name_to_socket_id name transport ≡ ok address
        → P s.world
        → Ends
            (λ p t. Same s t × ((t.ports p).transport ≡ transport) × Q (t.ports p).socket t.world)
            (Port.create zmq name transport context)
            s
    unfolding Port.create Made
    create-Ends name transport context s e i =
        >>=-Ends (λ socket u. From s (O socket) u) _ (on_world (zmq.open_router context)) _ s
          (on_world-Ends P O (zmq.open_router context) s s ((refl, refl), refl, i) (opens context))
          (λ socket t ((hub, peer), ports, j).
            let t' = record t {
              next_port = suc t.next_port;
              ports = update t.ports t.next_port (record {
                port_name = name;
                transport = transport;
                socket = socket;
                null_message = [];
                connections = [];
                bindings = [];
              });
            } in
            closing-Ends t.next_port socket
              (λ p u. Same s u × ((u.ports p).transport ≡ transport) × Q (u.ports p).socket u.world)
              _
              (Returns-map (λ _ u. Made t.next_port t' u)
                (λ _ u.
                  Same s u
                  × ((u.ports t.next_port).transport ≡ transport)
                  × Q (u.ports t.next_port).socket u.world)
                _
                (λ _ u ((hub', peer'), tr, q).
                  ((hub' ∙ hub, peer' ∙ peer), tr ∙ rw (==_refl t.next_port) refl, q))
                (start-Ends t.next_port t' (rw (==_refl t.next_port) e)
                  (rw (==_refl t.next_port) j))))
