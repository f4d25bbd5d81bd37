-- ===== src/Peer/Naming.antt =====
-- Hub::AddPort over a library that keeps routing ids and addresses as ZeroMQ documents it.
use dpn.Prelude.{
  ℕ, ◌≡◌, refl, ap, ◌∙◌, Bool, none, some, Option, ◌++◌, Bytes, find, insert, find-insert, ==_refl,
}
use dpn.Exec.{ok}
use dpn.Exec.Ends.{Ends, Ends-any, Ends-both, Returns-map, >>=-Ends}
use dpn.Text.{codes}
use dpn.Names.{inproc, get_port_name, port_name_to_socket_id, transport_to_string}
use dpn.Zmq.{Zmq}
use dpn.State.{State, set_hub, on_world}
use dpn.Port
use dpn.Port.Construction.{From, Same, on_world-Ends, create-Ends}
use dpn.Hub

pub inproc_address :
    (name : Bytes) → port_name_to_socket_id name inproc ≡ ok (codes "inproc://" ++ name)
unfolding port_name_to_socket_id transport_to_string
inproc_address name = refl

module _ {W : Type 0} (identity : ℕ → W → Bytes) (owner : Bytes → W → Option ℕ)
    (target : ℕ → Bytes → W → Option ℕ) where
  -- A socket that goes by its address and is bound to it.
  abbrev pub Known : ℕ → Bytes → W → Type 0
  Known s id w = (identity s w ≡ id) × (owner id w ≡ some s)

  module _ (zmq : Zmq W) where
    -- What ZeroMQ's manual says of the calls that set up a router: a new socket is another one than those
    -- that are there, a socket goes by the routing id that it was given last, it is bound to the address
    -- that it binds, a connection to the address of a router that goes by it reaches that router, and
    -- a call for one socket leaves the others as they are.
    pub record Naming : Type 0 where
      pub opens :
          (s : ℕ) (id : Bytes) (context : ℕ) (w : W)
          → Known s id w
          → Ends (λ socket v. (¬ (socket ≡ s)) × Known s id v) (zmq.open_router context) w
      pub names :
          (socket : ℕ) (id : Bytes) (w : W)
          → Ends (λ _ v. identity socket v ≡ id) (zmq.set_routing_id socket id) w
      pub names_other :
          (s socket : ℕ) (id other : Bytes) (w : W)
          → ¬ (socket ≡ s)
          → Known s id w
          → Ends (λ _ v. Known s id v) (zmq.set_routing_id socket other) w
      pub mandatory :
          (s socket : ℕ) (b : Bool) (id : Bytes) (w : W)
          → identity s w ≡ id
          → Ends (λ _ v. identity s v ≡ id) (zmq.set_router_mandatory socket b) w
      pub mandatory_other :
          (s socket : ℕ) (b : Bool) (id : Bytes) (w : W)
          → Known s id w
          → Ends (λ _ v. Known s id v) (zmq.set_router_mandatory socket b) w
      pub binds :
          (socket : ℕ) (id : Bytes) (w : W)
          → identity socket w ≡ id
          → Ends (λ _ v. Known socket id v) (zmq.bind socket id) w
      pub binds_other :
          (s socket : ℕ) (id other : Bytes) (w : W)
          → ¬ (socket ≡ s)
          → Known s id w
          → Ends (λ _ v. Known s id v) (zmq.bind socket other) w
      pub polls :
          (s : ℕ) (id : Bytes) (socket flags port : ℕ) (w : W)
          → Known s id w
          → Ends (λ _ v. Known s id v) (zmq.poller_add socket flags port) w
      pub connects :
          (socket to : ℕ) (me id : Bytes) (w : W)
          → identity socket w ≡ me
          → Known to id w
          → Ends
              (λ _ v. (target socket id v ≡ some to) × (identity socket v ≡ me))
              (zmq.connect socket id)
              w

    -- An inproc port that the hub lists under an id, and its socket, in a state with the peer and the
    -- hub's name of another.
    unfoldable pub Listed : ℕ → (ℕ → W → Type 0) → State W → State W → Type 0
    Listed id Q s t =
        (p : ℕ) × (find id t.hub.ports ≡ some p)
        × ((t.ports p).transport ≡ inproc)
        × Q (t.ports p).socket t.world
        × (t.peer ≡ s.peer)

    -- The address of a port of a hub.
    abbrev pub in_port : Bytes → ℕ → Bytes
    in_port name id = codes "inproc://" ++ get_port_name (record { hub_name = name; port_id = id })

    abbrev pub address_of : State W → ℕ → Bytes
    address_of s id = in_port s.hub.hub_name id

    add_port-Ends :
        (id context flags : ℕ) (s : State W) (P : W → Type 0) (O N Q : ℕ → W → Type 0)
        → ((c : ℕ) (w : W) → P w → Ends (λ socket v. O socket v) (zmq.open_router c) w)
        → ((socket : ℕ) (w : W)
            → O socket w
            → Ends (λ _ v. N socket v) (zmq.set_routing_id socket (address_of s id)) w)
        → ((socket : ℕ) (b : Bool) (w : W)
            → N socket w
            → Ends (λ _ v. N socket v) (zmq.set_router_mandatory socket b) w)
        → ((socket : ℕ) (w : W)
            → N socket w
            → Ends (λ _ v. Q socket v) (zmq.bind socket (address_of s id)) w)
        → ((socket : ℕ) (w : W)
            → Q socket w
            → Ends (λ _ v. Q socket v) (zmq.poller_add socket flags id) w)
        → find id s.hub.ports ≡ none
        → P s.world
        → Ends (λ _ t. Listed id Q s t) (Hub.add_port zmq id inproc context flags) s
    unfolding Hub.add_port Listed
    add_port-Ends id context flags s P O N Q opens names mandatory binds polls fresh i =
        >>=-Ends (λ p t. Same s t × ((t.ports p).transport ≡ inproc) × Q (t.ports p).socket t.world)
          _ (Port.create zmq _ inproc context) _ s
          (create-Ends zmq (address_of s id) P O N Q opens names mandatory binds _ inproc context s
            (inproc_address _) i)
          (λ p t ((hub, peer), inp, q).
            let listed : find id (insert id p t.hub.ports) ≡ some p =
              find-insert id id p t.hub.ports
                (ap (λ (h : dpn.State.Hub). find id h.ports) hub ∙ fresh)
              ∙ rw (==_refl id) refl in
            let t' = set_hub (record t.hub { ports = insert id p t.hub.ports }) t in
            Returns-map (λ _ u. From t' (Q (t.ports p).socket) u) _ _
              (λ _ u ((hub', peer'), ports, q'). (
                p,
                ap (λ (h : dpn.State.Hub). find id h.ports) hub' ∙ listed,
                ap (λ f. (f p).transport) ports ∙ inp,
                rw ports q',
                peer' ∙ peer,
              ))
              (on_world-Ends (Q (t.ports p).socket) (λ _ v. Q (t.ports p).socket v)
                (zmq.poller_add (t.ports p).socket flags id) t' t' ((refl, refl), refl, q)
                (polls (t.ports p).socket)))

    -- A port that is made goes by its address and is bound to it, and so do those that were made before.
    pub first-Ends :
        (id context flags : ℕ) (s : State W)
        → Naming
        → find id s.hub.ports ≡ none
        → Ends
            (λ _ t. Listed id (λ sk w. Known sk (address_of s id) w) s t)
            (Hub.add_port zmq id inproc context flags)
            s
    first-Ends id context flags s n fresh =
        add_port-Ends id context flags s (λ w. Unit {0}) (λ sk w. Unit {0})
          (λ sk w. identity sk w ≡ address_of s id) (λ sk w. Known sk (address_of s id) w)
          (λ c w i. Ends-any (zmq.open_router c) w) (λ sk w i. n.names sk (address_of s id) w)
          (λ sk b w i. n.mandatory sk sk b (address_of s id) w i)
          (λ sk w i. n.binds sk (address_of s id) w i)
          (λ sk w i. n.polls sk (address_of s id) sk flags id w i) fresh tt

    pub second-Ends :
        (id context flags other : ℕ) (there : Bytes) (s : State W)
        → Naming
        → find id s.hub.ports ≡ none
        → Known other there s.world
        → Ends
            (λ _ t. Listed id (λ sk w. Known other there w × Known sk (address_of s id) w) s t)
            (Hub.add_port zmq id inproc context flags)
            s
    second-Ends id context flags other there s n fresh i =
        let here = address_of s id in
        add_port-Ends id context flags s (λ w. Known other there w)
          (λ sk w. (¬ (sk ≡ other)) × Known other there w)
          (λ sk w. ((¬ (sk ≡ other)) × Known other there w) × (identity sk w ≡ here))
          (λ sk w. Known other there w × Known sk here w) (λ c w k. n.opens other there c w k)
          (λ sk w (ne, k).
            Ends-both (λ _ v. (¬ (sk ≡ other)) × Known other there v) (λ _ v. identity sk v ≡ here)
              (zmq.set_routing_id sk here) w
              (Returns-map (λ _ v. Known other there v) _ _ (λ _ v j. (ne, j))
                (n.names_other other sk there here w ne k))
              (n.names sk here w))
          (λ sk b w ((ne, k), e).
            Ends-both (λ _ v. (¬ (sk ≡ other)) × Known other there v) (λ _ v. identity sk v ≡ here)
              (zmq.set_router_mandatory sk b) w
              (Returns-map (λ _ v. Known other there v) _ _ (λ _ v j. (ne, j))
                (n.mandatory_other other sk b there w k))
              (n.mandatory sk sk b here w e))
          (λ sk w ((ne, k), e).
            Ends-both (λ _ v. Known other there v) (λ _ v. Known sk here v) (zmq.bind sk here) w
              (n.binds_other other sk there here w ne k) (n.binds sk here w e))
          (λ sk w (k, e).
            Ends-both (λ _ v. Known other there v) (λ _ v. Known sk here v)
              (zmq.poller_add sk flags id) w (n.polls other there sk flags id w k)
              (n.polls sk here sk flags id w e))
          fresh i
