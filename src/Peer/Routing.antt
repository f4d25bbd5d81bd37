-- ===== src/Peer/Routing.antt =====
-- Packages between peers over routers that behave as ZeroMQ documents it.
use mathlib.Core.Path.{subst}
use dpn.Prelude.{
  ℕ, inl, inr, ◌≡◌, ap, ◌∙◌, some, Option, List, [], ◌∷◌, ◌++◌, Bytes, append_assoc, arith, false,
  ◌==◌,
}
use dpn.Prelude.Int.{ℤ}
use dpn.Exec.{done, Outcome-cases}
use dpn.Zmq.{Zmq, Delivers, Takes}
use dpn.State.{State}
use dpn.Hub
use dpn.Text.{codes}
use dpn.Label.{Label}
use dpn.Names.{get_port_name}
use dpn.Peer.{pollin, destination, stamp}
use dpn.Peer.Delivery.{source_port}
use dpn.Peer.Arrival.{Notified}

module _ {W : Type 0} (zmq : Zmq W) where
  -- A label under which a peer `a` reaches the socket `to` from its port `p`: the socket of the port is
  -- connected to the address of the label's destination, at which that socket is, and goes by the name
  -- of the port that the label has as its source.
  pub record Directed (identity : ℕ → W → Bytes) (target : ℕ → Bytes → W → Option ℕ) (label : Label)
      (p : ℕ) (a : State W) (to : ℕ) : Type 0 where
    pub reaches :
        target
          (a.ports p).socket
          (codes "inproc://" ++ get_port_name (destination zmq (stamp zmq a label)))
          a.world
        ≡ some to
    pub named :
        identity (a.ports p).socket a.world
        ≡ codes "inproc://" ++ get_port_name (source_port (stamp zmq a label).contents)

  -- What ZeroMQ's manual says of router sockets and pollers, where `waiting to from` are the messages of the
  -- socket `from` that wait at the socket `to`: a message that is taken is put behind those of its sender,
  -- at the socket which its first frame is the routing id of, with the routing id of the sender in the
  -- place of that frame. Messages are fair-queued over the senders, so which sender's turn it is stays
  -- open, but those of one sender come in order: when no other sender's message waits, the first of the
  -- sender's is handed over, whole. A poller takes no message away, while others may arrive.
  pub record Routed (waiting : ℕ → ℕ → W → List (List Bytes)) (after : ℕ → W → W)
      (identity : ℕ → W → Bytes) (target : ℕ → Bytes → W → Option ℕ) : Type 0 where
    pub routes :
        (socket to flags : ℕ) (id f : Bytes) (fs : List Bytes) (w w' : W)
        → target socket id w ≡ some to
        → Takes zmq socket flags w (id ∷ f ∷ fs) w'
        → waiting to socket w' ≡ waiting to socket w ++ (identity socket w ∷ f ∷ fs) ∷ []
    pub hands :
        (socket from flags : ℕ) (f : Bytes) (fs : List Bytes) (later : List (List Bytes)) (w : W)
        → waiting socket from w ≡ (f ∷ fs) ∷ later
        → ((other : ℕ) → (other == from) ≡ false → waiting socket other w ≡ [])
        → Delivers zmq socket flags w (f ∷ fs) (after socket w)
          × (waiting socket from (after socket w) ≡ later)
    pub modifies :
        (socket flags q from : ℕ) (w w' : W)
        → zmq.poller_modify socket flags w ≡ done tt w'
        → (new : List (List Bytes)) × (waiting q from w' ≡ waiting q from w ++ new)
    pub waits :
        (timeout : ℤ) (events : List (ℕ × ℕ)) (q from : ℕ) (w w' : W)
        → zmq.poller_wait timeout w ≡ done events w'
        → (new : List (List Bytes)) × (waiting q from w' ≡ waiting q from w ++ new)

  module _ (waiting : ℕ → ℕ → W → List (List Bytes)) (after : ℕ → W → W) (identity : ℕ → W → Bytes)
      (target : ℕ → Bytes → W → Option ℕ) (routed : Routed waiting after identity target) where
    -- Only messages of one sender wait at the socket.
    abbrev pub Alone : (socket from : ℕ) → W → Type 0
    Alone socket from w = (other : ℕ) → (other == from) ≡ false → waiting socket other w ≡ []

    -- Messages that are the first of a sender to wait at a socket.
    abbrev pub Front : ℕ → ℕ → W → List (List Bytes) → Type 0
    Front q from w ms = (later : List (List Bytes)) × (waiting q from w ≡ ms ++ later)

    more-Front :
        (q from : ℕ) (w w' : W) (ms : List (List Bytes))
        → Front q from w ms
        → (new : List (List Bytes)) × (waiting q from w' ≡ waiting q from w ++ new)
        → Front q from w' ms
    more-Front q from w w' ms (later, e) (new, k) =
        (later ++ new, k ∙ ap (λ xs. xs ++ new) e ∙ append_assoc ms later new)

    arm-Front :
        (q from : ℕ) (ms : List (List Bytes)) (ports : List (ℕ × ℕ)) (flags : ℕ) (s t : State W)
        → Front q from s.world ms
        → Hub.arm zmq ports flags s ≡ done tt t
        → Front q from t.world ms
    unfolding Hub.arm
    arm-Front q from ms [] flags s t f e =
        let same : s ≡ t = cc in subst (λ (u : State W). Front q from u.world ms) same f
    arm-Front q from ms ((id, p) ∷ ports) flags s t f e =
        elim (Outcome-cases (zmq.poller_modify (s.ports p).socket flags s.world)) [
          | inl (_, w, run) ↦
              arm-Front q from ms ports flags (record s { world = w }) t
                (more-Front q from s.world w ms f
                  (routed.modifies (s.ports p).socket flags q from s.world w run))
                (ground (arith, e, run))
          | inr (x, w, run) ↦ absurd (ground (arith, e, run))
        ]

    -- A message that is the first of the only sender whose messages wait at the port that a peer is
    -- notified of is handed over.
    pub Front-Delivers :
        (timeout : ℤ) (port p from : ℕ) (f : Bytes) (fs : List Bytes) (later : List (List Bytes))
        (b : State W) (polled : W)
        → Front (b.ports p).socket from b.world ((f ∷ fs) ∷ later)
        → Notified zmq timeout port p b polled
        → Alone (b.ports p).socket from polled
        → Delivers zmq (b.ports p).socket 0 polled (f ∷ fs) (after (b.ports p).socket polled)
          × Front (b.ports p).socket from (after (b.ports p).socket polled) later
    Front-Delivers timeout port p from f fs later b polled front n alone =
        let q = (b.ports p).socket in
        let m = f ∷ fs in
        let armed : Front q from n.armed_world (m ∷ later) =
          arm-Front q from (m ∷ later) b.hub.ports pollin b (record b { world = n.armed_world })
            front n.armed in
        let (new, e) : Front q from polled (m ∷ later) =
          more-Front q from n.armed_world polled (m ∷ later) armed (
            routed.waits timeout (n.earlier ++ (port, n.seen) ∷ []) q from n.armed_world polled
              n.reported) in
        let (handed, rest) = routed.hands q from 0 f fs (later ++ new) polled e alone in
        (handed, (new, rest))
