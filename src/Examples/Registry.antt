-- ===== src/Examples/Registry.antt =====
-- Two peers that are set up and connected, in a network that keeps a register of its sockets.
use dpn.Prelude.{
  ℕ, suc, ◌<◌, ◌≡◌, refl, Option, none, some, [], Bytes, arith, ltb, if◌then◌else◌, ◌==◌, ==_refl,
  ==_ne, update, find, Bool-cases, inl, inr, ap, ◌∙◌,
}
use dpn.Prelude.Int.{pos}
use dpn.Exec.{Outcome, done, raised, state, zmq_error}
use dpn.Exec.Ends.{Returns}
use dpn.Text.{to_string}
use dpn.Zmq.{Zmq, sent}
use dpn.Port.{same_name}
use dpn.Port.Links.{same_name_iff, same_name_refl}
use dpn.Label.{get_endpoint, get_peer_id, get_port_id}
use dpn.Names.{
  inproc, get_port_name, peer_id_to_hub_name, port_name_to_socket_id, transport_to_string,
}
use dpn.State.{State}
use dpn.Port
use dpn.Hub
use dpn.Peer
use dpn.Peer.Routing.{Directed}
use dpn.Peer.Naming.{Naming}
use dpn.Peer.Reaching.{Directed-connect}
use dpn.Examples.{Net, quiet, start}
use dpn.Examples.Composed.{label_to, far_peer}

-- How many sockets there are, their routing ids, who is bound to an address, and which socket a socket
-- reaches by an address.
record Register : Type 0 where
  next : ℕ
  names : ℕ → Bytes
  owners : Bytes → Option ℕ
  links : ℕ → Bytes → Option ℕ

abbrev identity : ℕ → Register → Bytes
identity s w = w.names s

abbrev below : ℕ → Option ℕ → Option ℕ
below n none = none
below n (some s) = if ltb s n then some s else none

abbrev owner : Bytes → Register → Option ℕ
owner id w = below w.next (w.owners id)

abbrev target : ℕ → Bytes → Register → Option ℕ
target s id w = w.links s id

abbrev bound_to : ℕ → Bytes → Register → Option ℕ → Outcome Register (Unit {0})
unfolding same_name
bound_to s id w (some other) = raised (zmq_error 98) w
bound_to s id w none =
    if ltb s w.next
    then done tt (record w { owners = λ x. if same_name x id then some s else w.owners x })
    else raised (zmq_error 88) w

abbrev linked_to : ℕ → Bytes → Register → Option ℕ → Outcome Register (Unit {0})
unfolding same_name
linked_to s id w none = raised (zmq_error 111) w
linked_to s id w (some to) = done tt (record w {
  links = λ q x. if q == s then (if same_name x id then some to else w.links q x) else w.links q x;
})

abbrev register : Zmq Register
register = record {
  open_router = λ context w. done w.next (record w { next = suc w.next });
  set_routing_id = λ socket id w. done tt (record w { names = update w.names socket id });
  set_router_mandatory = λ socket b w. done tt w;
  bind = λ socket id w. bound_to socket id w (owner id w);
  unbind = λ socket id w. done tt w;
  connect = λ socket id w. linked_to socket id w (owner id w);
  disconnect = λ socket id w. done tt w;
  close = λ socket w. w;
  send = λ socket frame more flags w. done (sent 0) w;
  recv = λ socket flags w. done none w;
  poller_add = λ socket flags id w. done tt w;
  poller_modify = λ socket flags w. done tt w;
  poller_remove = λ socket w. done tt w;
  poller_wait = λ timeout w. done [] w;
  now = λ w. (pos 0, w);
}

below_next : (n s : ℕ) (o : Option ℕ) → below n o ≡ some s → (s < n) × (o ≡ some s)
below_next n s none e = cc
below_next n s (some q) e = ground arith

below_suc : (n s : ℕ) (o : Option ℕ) → below n o ≡ some s → below (suc n) o ≡ some s
below_suc n s none e = e
below_suc n s (some q) e = ground arith

bound_own :
    (socket : ℕ) (id : Bytes) (w : Register) (o : Option ℕ)
    → identity socket w ≡ id
    → Returns
        (λ _ v. (identity socket v ≡ id) × (owner id v ≡ some socket))
        (bound_to socket id w o)
unfolding bound_to
bound_own socket id w (some other) e = tt
bound_own socket id w none e = elim (Bool-cases (ltb socket w.next)) [
  | inl lt ↦ rw (lt, same_name_refl id, lt) (e, refl)
  | inr ge ↦ rw ge tt
]

bound_other :
    (s socket : ℕ) (id other : Bytes) (w : Register) (o : Option ℕ)
    → owner other w ≡ o
    → identity s w ≡ id
    → owner id w ≡ some s
    → Returns (λ _ v. (identity s v ≡ id) × (owner id v ≡ some s)) (bound_to socket other w o)
unfolding bound_to
bound_other s socket id other w (some q) f e k = tt
bound_other s socket id other w none f e k = elim (Bool-cases (ltb socket w.next)) [
  | inr ge ↦ rw ge tt
  | inl lt ↦ elim (Bool-cases (same_name id other)) [
    | inl same ↦
        let eq = (same_name_iff id other).0 same in
        let clash : owner id w ≡ none = ap (λ x. owner x w) eq ∙ f in absurd cc
    | inr differs ↦ rw (lt, differs) (e, k)
  ]
]

register-Naming : Naming identity owner target register
unfolding linked_to
register-Naming = record {
  opens = λ s id context w (e, k). (
    λ same. omega (arith, (below_next w.next s (w.owners id) k).0),
    (e, below_suc w.next s (w.owners id) k),
  );
  names = λ socket id w. rw (==_refl socket) refl;
  names_other = λ s socket id other w ne (e, k). (rw (==_ne socket s ne) e, k);
  mandatory = λ s socket b id w e. e;
  mandatory_other = λ s socket b id w k. k;
  binds = λ socket id w e. bound_own socket id w (owner id w) e;
  binds_other =
      λ s socket id other w ne (e, k). bound_other s socket id other w (owner other w) refl e k;
  polls = λ s id socket flags port w k. k;
  connects = λ socket to me id w e (_, k). rw k (rw (==_refl socket, same_name_refl id) refl, e);
}

abbrev registered : State Net → Register → State Register
registered s w = record {
  messages = s.messages;
  ports = s.ports;
  next_port = s.next_port;
  hub = s.hub;
  peer = s.peer;
  world = w;
}

abbrev nobody : Register
nobody = record { next = 5; names = λ s. []; owners = λ id. none; links = λ s id. none }

-- Peers 3 and 4 without ports.
abbrev a : State Register
a = registered (record (start quiet) { hub = record (start quiet).hub { ports = [] } }) nobody

abbrev b : State Register
b = registered (record far_peer { hub = record far_peer.hub { ports = [] } }) nobody

abbrev b' : State Register
b' = state (Peer.add_port register inproc 0 1 2 b)

abbrev a' : State Register
a' = state (Peer.add_port register inproc 0 1 1 (record a { world = b'.world }))

abbrev a'' : State Register
a'' = state (Peer.connect register 4 2 1 a')

b_made : Peer.add_port register inproc 0 1 2 b ≡ done tt b'
unfolding Peer.add_port Hub.add_port Port.create Port.start Port.bind port_name_to_socket_id
    transport_to_string get_port_name to_string same_name bound_to
b_made = refl

a_made : Peer.add_port register inproc 0 1 1 (record a { world = b'.world }) ≡ done tt a'
unfolding Peer.add_port Hub.add_port Port.create Port.start Port.bind port_name_to_socket_id
    transport_to_string get_port_name to_string same_name bound_to
a_made = refl

connected : Peer.connect register 4 2 1 a' ≡ done tt a''
unfolding Peer.connect Hub.connect Hub.find_port Port.connect Peer.add_port Hub.add_port Port.create
    Port.start Port.bind port_name_to_socket_id transport_to_string get_port_name
    peer_id_to_hub_name to_string same_name bound_to linked_to
connected = refl

Directed-connect_example :
    (p q : ℕ) × (find 1 a''.hub.ports ≡ some p)
    × (find 2 b'.hub.ports ≡ some q)
    × Directed register identity target (label_to 9) p a'' (b'.ports q).socket
unfolding get_peer_id get_port_id get_endpoint peer_id_to_hub_name to_string
Directed-connect_example =
    Directed-connect identity owner target register (label_to 9) 0 0 1 1 1 2 a a' a'' b b'
      register-Naming refl refl refl refl refl refl refl b_made a_made connected
