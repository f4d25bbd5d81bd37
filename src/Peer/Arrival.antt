-- ===== src/Peer/Arrival.antt =====
-- Peer::Poll and Peer::GetPendingPackage, when a package has arrived at a port.
use dpn.Prelude.{
  ℕ, ◌+◌, ◌≤◌, ◌≡◌, refl, sym, ap, ◌∙◌, true, some, List, [], ◌∷◌, ◌++◌, Bytes, length, find, arith,
}
use mathlib.Core.Path.{subst}
use dpn.Prelude.Int.{ℤ}
use dpn.Exec.{done, >>=-done}
use dpn.Label.{Contents, InRange}
use dpn.Label.Layout.{encode}
use dpn.Names.{PortSpecification, get_port_name}
use dpn.Port.Send.{wire}
use dpn.Zmq.{Zmq, Delivers}
use dpn.State.{State}
use dpn.Port.{max_frames}
use dpn.Port.Copy.{Fit, Hold, Distinct}
use dpn.Hub
use dpn.Hub.Polling.{saw, poll_last}
use dpn.Peer
use dpn.Peer.{get_pending_package, load_label, pollin, poll_event_present}
use dpn.Peer.Delivery.{source_port, received, receive_messages-fill}

module _ {W : Type 0} (zmq : Zmq W) where
  -- A poll that ends with an event of the flags asked for is the reception at that event's port.
  poll-receive_messages :
      (messages : List ℕ) (timeout : ℤ) (events : List (ℕ × ℕ)) (port seen : ℕ) (s t : State W)
      (w : W)
      → Hub.arm zmq s.hub.ports pollin s ≡ done tt t
      → zmq.poller_wait timeout t.world ≡ done (events ++ (port, seen) ∷ []) w
      → poll_event_present seen pollin ≡ true
      → Peer.poll zmq messages pollin timeout s
        ≡ Peer.receive_messages zmq port messages (saw zmq port seen (record t { world = w }))
  unfolding Peer.poll
  poll-receive_messages messages timeout events port seen s t w armed e ready =
      >>=-done (Hub.poll zmq pollin timeout) _ s
        (poll_last zmq pollin timeout events port seen s t w armed e)
      ∙ rw ready refl

  -- A peer whose poller reports the input of a port last, and leaves the world `w`.
  pub record Notified (timeout : ℤ) (port p : ℕ) (b : State W) (w : W) : Type 0 where
    pub armed_world : W
    pub armed : Hub.arm zmq b.hub.ports pollin b ≡ done tt (record b { world = armed_world })
    pub earlier : List (ℕ × ℕ)
    pub seen : ℕ
    pub reported : zmq.poller_wait timeout armed_world ≡ done (earlier ++ (port, seen) ∷ []) w
    pub ready : poll_event_present seen pollin ≡ true
    pub found : find port b.hub.ports ≡ some p

  -- The state after a package was taken at the port that was notified.
  abbrev pub taken : ℕ → ℕ → List ℕ → List Bytes → W → State W → State W
  taken port seen hs fs x b = received hs fs x (saw zmq port seen b)

  -- A package from the port `source` that arrives at a port of a peer, where there is a place for it:
  -- the port is notified of it, the socket hands the frames over and leaves the world `x`, and they fit
  -- into the label message and the messages of the peer.
  pub record Arrives (timeout : ℤ) (port p : ℕ) (source : PortSpecification) (frames : List Bytes)
      (hs : List ℕ) (b : State W) (x : W) : Type 0 where
    pub polled : W
    pub notified : Notified timeout port p b polled
    pub delivered : Delivers zmq (b.ports p).socket 0 polled (wire (get_port_name source) frames) x
    pub few : length frames + 2 ≤ max_frames
    pub distinct : Distinct (b.peer.label_message ∷ hs)
    pub fit : Fit b.messages (b.peer.label_message ∷ hs) frames

  module _ (timeout : ℤ) (port p : ℕ) (c : Contents) (f padding : Bytes) (hs : List ℕ)
      (fs : List Bytes) (b : State W) (x : W) (r : InRange c) (e : f ≡ encode c ++ padding)
      (a : Arrives timeout port p (source_port c) (f ∷ fs) hs b x) where
    abbrev arrived : State W
    arrived = taken port a.notified.seen hs (f ∷ fs) x b

    pub poll-Arrives :
        (Peer.poll zmq hs pollin timeout b ≡ done tt arrived)
        × (load_label zmq arrived ≡ c)
        × Hold arrived.messages hs fs
    poll-Arrives =
        let n = a.notified in
        let s = saw zmq port n.seen (record b { world = a.polled }) in
        let (run, read, hold) =
          subst
            (λ g.
              Delivers zmq (b.ports p).socket 0 a.polled
                (wire (get_port_name (source_port c)) (g ∷ fs)) x
              → Fit b.messages (b.peer.label_message ∷ hs) (g ∷ fs)
              → (Peer.receive_messages zmq port hs s ≡ done tt (received hs (g ∷ fs) x s))
                × (load_label zmq (received hs (g ∷ fs) x s) ≡ c)
                × Hold (received hs (g ∷ fs) x s).messages hs fs)
            (sym e)
            (λ d fit.
              receive_messages-fill zmq port p c padding hs fs s x n.found r d
                (omega (arith, a.few)) a.distinct fit)
            a.delivered a.fit in
        (
          poll-receive_messages hs timeout n.earlier port n.seen b
                (record b { world = n.armed_world }) a.polled n.armed n.reported n.ready
              ∙ run,
          read,
          hold,
        )

    -- The package is taken, with the label that its header holds.
    pub get_pending_package-Arrives :
        get_pending_package zmq hs timeout b ≡ done (record { contents = c }) arrived
    unfolding get_pending_package
    get_pending_package-Arrives =
        >>=-done (Peer.poll zmq hs pollin timeout) _ b poll-Arrives.0
        ∙ ap (λ k. done (record { contents = k }) arrived) poll-Arrives.1
