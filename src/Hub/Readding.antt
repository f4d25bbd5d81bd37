-- ===== src/Hub/Readding.antt =====
-- Hub::RemovePort and Hub::AddPort one after the other, over a transport library that binds an address
-- once, as ZeroMQ's manual has it.
use dpn.Prelude.{ℕ, ◌≡◌, refl, ap, ◌∙◌, Bool, Bytes, find, insert, erase, none, some, Option}
use dpn.Exec.{Exec, Error, ok, done, raised, raise, undefined, zmq_error, gets, modify, ◌>>=◌, ◌>>◌}
use dpn.Exec.Ends.{Ends, Ends-done, Ends-raised, Ends-any, Returns-map, >>=-Ends}
use dpn.Names.{Transport, get_port_name, port_name_to_socket_id}
use dpn.Zmq.{Zmq}
use dpn.State.{State, Hub, set_hub, on_world, with_world}
use dpn.Port
use dpn.Port.Construction.{From, Same, on_world-Ends, create-Ends}
use dpn.Hub

-- EADDRINUSE
abbrev pub address_in_use : ℕ
address_in_use = 98

-- In a process whose sockets all come of one context, a socket binds an address that no socket has, and
-- the address stays bound until that socket lets go of it.
pub record Exclusive {W : Type 0} (zmq : Zmq W) (bound : Bytes → W → Type 0) : Type 0 where
  pub binds : (socket : ℕ) (id : Bytes) (w : W) → Ends (λ _ v. bound id v) (zmq.bind socket id) w
  pub in_use :
      (socket : ℕ) (id : Bytes) (w : W)
      → bound id w
      → zmq.bind socket id w ≡ raised (zmq_error address_in_use) w
  pub opened :
      (id : Bytes) (context : ℕ) (w : W)
      → bound id w
      → Ends (λ _ v. bound id v) (zmq.open_router context) w
  pub named :
      (id : Bytes) (socket : ℕ) (name : Bytes) (w : W)
      → bound id w
      → Ends (λ _ v. bound id v) (zmq.set_routing_id socket name) w
  pub made_mandatory :
      (id : Bytes) (socket : ℕ) (b : Bool) (w : W)
      → bound id w
      → Ends (λ _ v. bound id v) (zmq.set_router_mandatory socket b) w
  pub polled :
      (id : Bytes) (socket flags port : ℕ) (w : W)
      → bound id w
      → Ends (λ _ v. bound id v) (zmq.poller_add socket flags port) w
  pub unpolled :
      (id : Bytes) (socket : ℕ) (w : W)
      → bound id w
      → Ends (λ _ v. bound id v) (zmq.poller_remove socket) w

module _ {W : Type 0} (zmq : Zmq W) (bound : Bytes → W → Type 0)
    (exclusive : Exclusive zmq bound) where
  -- The socket address of a port of the hub.
  abbrev pub AddressOf : State W → ℕ → Transport → Bytes → Type 0
  AddressOf s id transport address =
      port_name_to_socket_id (get_port_name (record { hub_name = s.hub.hub_name; port_id = id }))
        transport
      ≡ ok address

  -- The address is bound, and the hub is named as that of `s`.
  abbrev Bound : State W → Bytes → State W → Type 0
  Bound s address t = (t.hub.hub_name ≡ s.hub.hub_name) × bound address t.world

  kept :
      (address : Bytes) (s t : State W) (m : Exec W (Unit {0}))
      → t.hub.hub_name ≡ s.hub.hub_name
      → bound address t.world
      → ((w : W) → bound address w → Ends (λ _ v. bound address v) m w)
      → Ends (λ _ u. Bound s address u) (on_world m) t
  kept address s t m named b k =
      Returns-map (λ _ u. From t (bound address) u) (λ _ u. Bound s address u)
        (with_world t (m t.world))
        (λ _ u ((hub, _), ports, c). (ap (λ (h : Hub). h.hub_name) hub ∙ named, c))
        (on_world-Ends (bound address) (λ _ v. bound address v) m t t ((refl, refl), refl, b) k)

  add_port-Ends :
      (id context flags : ℕ) (transport : Transport) (address : Bytes) (s : State W)
      → AddressOf s id transport address
      → Ends (λ _ t. Bound s address t) (Hub.add_port zmq id transport context flags) s
  unfolding Hub.add_port
  add_port-Ends id context flags transport address s e =
      >>=-Ends (λ p t. Same s t × ((t.ports p).transport ≡ transport) × bound address t.world) _
        (Port.create zmq _ transport context) _ s
        (create-Ends zmq address (λ w. Unit {0}) (λ _ w. Unit {0}) (λ _ w. Unit {0})
          (λ _ w. bound address w) (λ c w i. Ends-any (zmq.open_router c) w)
          (λ socket w i. Ends-any (zmq.set_routing_id socket address) w)
          (λ socket b w i. Ends-any (zmq.set_router_mandatory socket b) w)
          (λ socket w i. exclusive.binds socket address w) _ transport context s e tt)
        (λ p t ((hub, _), _, b).
          kept address s (set_hub (record t.hub { ports = insert id p t.hub.ports }) t)
            (zmq.poller_add (t.ports p).socket flags id) (ap (λ (h : Hub). h.hub_name) hub) b
            (exclusive.polled address (t.ports p).socket flags id))

  add_port-Bound :
      (id context flags : ℕ) (transport : Transport) (address : Bytes) (s : State W)
      → AddressOf s id transport address
      → bound address s.world
      → Ends (λ _ t. ⊥) (Hub.add_port zmq id transport context flags) s
  unfolding Hub.add_port
  add_port-Bound id context flags transport address s e b =
      >>=-Ends (λ p t. Same s t × ((t.ports p).transport ≡ transport) × ⊥) _
        (Port.create zmq _ transport context) _ s
        (create-Ends zmq address (bound address) (λ _ w. bound address w) (λ _ w. bound address w)
          (λ _ w. ⊥) (exclusive.opened address)
          (λ socket w i. exclusive.named address socket address w i)
          (exclusive.made_mandatory address)
          (λ socket w i. rw (exclusive.in_use socket address w i) tt) _ transport context s e b)
        (λ p t (_, _, never). absurd never)

  remove_port-Ends :
      (id : ℕ) (address : Bytes) (s : State W)
      → bound address s.world
      → Ends (λ _ t. Bound s address t) (Hub.remove_port zmq id) s
  unfolding Hub.remove_port
  remove_port-Ends id address s b = go (find id s.hub.ports)
    where
      go :
          (o : Option ℕ)
          → Ends {A = Unit {0}}
              (λ _ t. Bound s address t)
              (elim o [
                | none ↦ raise undefined
                | some p ↦
                    (modify
                        (λ (u : State W). set_hub (record u.hub { ports = erase id u.hub.ports }) u)
                      >> (gets (λ u. (u.ports p).socket) >>= λ socket.
                          on_world (zmq.poller_remove socket)))
              ])
              s
      go none = tt
      go (some p) =
          kept address s (set_hub (record s.hub { ports = erase id s.hub.ports }) s)
            (zmq.poller_remove (s.ports p).socket) refl b
            (exclusive.unpolled address (s.ports p).socket)

  -- In a process with one context, over a library that binds an address once, when a port whose id and
  -- transport make an address was added and removed again, to add one under the same id and transport
  -- throws, whatever the flags.
  pub add-remove-add_port :
      (id context flags flags' : ℕ) (transport : Transport) (address : Bytes) (s t u : State W)
      → AddressOf s id transport address
      → Hub.add_port zmq id transport context flags s ≡ done tt t
      → Hub.remove_port zmq id t ≡ done tt u
      → (e : Error) × (v : State W) × (Hub.add_port zmq id transport context flags' u ≡ raised e v)
  add-remove-add_port id context flags flags' transport address s t u e added removed =
      let (named, b) =
        Ends-done (λ _ v. Bound s address v) (Hub.add_port zmq id transport context flags) s
          (add_port-Ends id context flags transport address s e) added in
      let (named', b') =
        Ends-done (λ _ v. Bound t address v) (Hub.remove_port zmq id) t
          (remove_port-Ends id address t b) removed in
      Ends-raised (Hub.add_port zmq id transport context flags') u
        (add_port-Bound id context flags' transport address u (rw (named', named) e) b')
