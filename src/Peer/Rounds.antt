-- ===== src/Peer/Rounds.antt =====
-- Peer::Poll in the wait of a request: the frames that a poll uses up, and the ports that it may report.
use mathlib.Core.Path.{subst}
use dpn.Prelude.{
  ℕ, ◌≤◌, ◌≡◌, refl, ap, ◌∙◌, Bool-cases, some, inl, inr, List, [], ◌∷◌, All, arith, find, ◌==◌,
}
use dpn.Prelude.Int.{ℤ}
use dpn.Exec.{Result, ok, err, Outcome-cases, done, pure, lift, ◌>>=◌, >>=-returns}
use dpn.Names.{PortSpecification, hub_name_to_peer_id}
use dpn.Zmq.{Zmq}
use dpn.State.{State, set_hub}
use dpn.Hub
use dpn.Peer
use dpn.Peer.{poll, load_label, pollin}
use dpn.Peer.Budget.{Deadline, Used, receive-Used}

module _ {W : Type 0} (zmq : Zmq W) where
  lifted :
      {A : Type 0} (x : Result A) (s t : State W) → (lift x >>= λ _. pure tt) s ≡ done tt t → s ≡ t
  lifted (ok a) s t e = cc
  lifted (err x) s t e = absurd cc

  check_sender_same :
      (spec : PortSpecification) (s t : State W) → Peer.check_sender zmq spec s ≡ done tt t → s ≡ t
  unfolding Peer.check_sender
  check_sender_same spec s t e =
      elim (Bool-cases ((load_label zmq s).src.port_id == spec.port_id)) [
        | inl same ↦ lifted (hub_name_to_peer_id spec.hub_name) s t (ground (arith, e, same))
        | inr differs ↦ ground (arith, e, differs)
      ]

  module _ (budget : W → ℕ) (registered : ℕ → Type 0) (start timeout : ℤ)
      (deadline : Deadline zmq budget registered start timeout) where
    -- The hub has the ports that are registered with the poller.
    abbrev pub HasPorts : State W → Type 0
    HasPorts s = (id : ℕ) → registered id → (p : ℕ) × (find id s.hub.ports ≡ some p)

    arm_kept :
        (ports : List (ℕ × ℕ)) (flags : ℕ) (s t : State W)
        → Hub.arm zmq ports flags s ≡ done tt t
        → (t.hub ≡ s.hub) × (budget t.world ≤ budget s.world)
    unfolding Hub.arm
    arm_kept [] flags s t e =
        let same : s ≡ t = cc in
        subst (λ (u : State W). (u.hub ≡ s.hub) × (budget u.world ≤ budget s.world)) same
          (refl, omega arith)
    arm_kept ((id, p) ∷ ports) flags s t e =
        elim (Outcome-cases (zmq.poller_modify (s.ports p).socket flags s.world)) [
          | inl (_, w, run) ↦
              let first = deadline.modifies (s.ports p).socket flags s.world w run in
              let (hub, rest) =
                arm_kept ports flags (record s { world = w }) t (ground (arith, e, run)) in
              (hub, omega arith)
          | inr (x, w, run) ↦ absurd (ground (arith, e, run))
        ]

    -- The handlers leave the id of a registered port.
    events_kept :
        (events : List (ℕ × ℕ)) (s t : State W)
        → registered s.hub.poll_port_id
        → All (λ e. registered e.0) events
        → Hub.handle_events zmq events s ≡ done tt t
        → (t.hub.ports ≡ s.hub.ports) × (t.world ≡ s.world) × registered t.hub.poll_port_id
    unfolding Hub.handle_events Hub.poll_callback
    events_kept [] s t r all e =
        let same : s ≡ t = cc in
        subst
          (λ (u : State W).
            (u.hub.ports ≡ s.hub.ports) × (u.world ≡ s.world) × registered u.hub.poll_port_id)
          same (refl, refl, r)
    events_kept ((id, flags) ∷ events) s t r (one, all) e =
        events_kept events
          (set_hub (record s.hub { poll_port_id = id; poll_event_flags = flags }) s) t one all e

    hub_poll_kept :
        (flags : ℕ) (wait : ℤ) (s t : State W) (event : ℕ × ℕ)
        → Hub.poll zmq flags wait s ≡ done event t
        → (t.hub.ports ≡ s.hub.ports) × (budget t.world ≤ budget s.world) × registered event.0
    unfolding Hub.poll Hub.handle_events Hub.poll_callback
    hub_poll_kept flags wait s t event e =
        let (_, u, armed, rest) = >>=-returns (Hub.arm zmq s.hub.ports flags) _ s t event e in
        let (hub, fewer) = arm_kept s.hub.ports flags s u armed in
        let ports = ap (λ (h : dpn.State.Hub). h.ports) hub in
        elim (Outcome-cases (zmq.poller_wait wait u.world)) [
          | inr (x, w, run) ↦ absurd (ground (arith, rest, run))
          | inl ([], w, run) ↦ absurd (ground (arith, rest, run))
          | inl ((id, seen) ∷ events, w, run) ↦
              let (less, (one, all)) = deadline.waits wait ((id, seen) ∷ events) u.world w run in
              let first : State W =
                set_hub (record u.hub { poll_port_id = id; poll_event_flags = seen })
                  (record u { world = w }) in
              let handling : (Hub.handle_events zmq events >>= λ _ v.
              done (v.hub.poll_port_id, v.hub.poll_event_flags) v)
                    first
                  ≡ done event t =
                ground (arith, rest, run) in
              let (_, v, handled, last) =
                >>=-returns (Hub.handle_events zmq events) _ first t event handling in
              let (ports', world, r) = events_kept events first v one all handled in
              let same : v ≡ t = cc in
              let its : v.hub.poll_port_id ≡ event.0 = cc in
              subst
                (λ (x : State W).
                  (x.hub.ports ≡ s.hub.ports)
                  × (budget x.world ≤ budget s.world)
                  × registered event.0)
                same (ports' ∙ ports, omega (arith, ap budget world), subst registered its r)
        ]

    -- A poll that returns has received a frame.
    pub poll-Used :
        (hs : List ℕ) (wait : ℤ) (s t : State W)
        → HasPorts s
        → poll zmq hs pollin wait s ≡ done tt t
        → Used zmq budget registered start timeout deadline s t
    unfolding poll Peer.receive_messages
    poll-Used hs wait s t has e =
        let (event, u, polled, rest) = >>=-returns (Hub.poll zmq pollin wait) _ s t tt e in
        let (ports, fewer, r) = hub_poll_kept pollin wait s u event polled in
        let (p, found) = has event.0 r in
        elim (Bool-cases (Peer.poll_event_present event.1 pollin)) [
          | inr other ↦ absurd (ground (arith, rest, other))
          | inl readable ↦
              let receiving : Peer.receive_messages zmq event.0 hs u ≡ done tt t =
                ground (arith, rest, readable) in
              let (spec, v, received, checked) =
                >>=-returns (Hub.receive zmq event.0 _ (u.peer.label_message ∷ hs)) _ u t tt
                  receiving in
              let (ports', used) =
                receive-Used zmq budget registered start timeout deadline event.0 p _ spec
                  (u.peer.label_message ∷ hs) u v (ap (find event.0) ports ∙ found) received in
              subst (λ (x : State W). Used zmq budget registered start timeout deadline s x)
                (check_sender_same spec v t checked) (ports' ∙ ports, omega arith)
        ]
