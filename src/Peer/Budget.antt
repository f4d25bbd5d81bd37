-- ===== src/Peer/Budget.antt =====
-- Hub::Receive in the wait of a request: the frames that may still come before the deadline.
use mathlib.Core.Path.{subst}
use dpn.Prelude.{
  ℕ, zero, suc, ◌-◌, ◌≤◌, ◌≡◌, refl, sym, ap, ◌∙◌, Bool, true, false, none, some, ◌⊎◌, inl, inr,
  List, [], ◌∷◌, Bytes, All, arith, find,
}
use dpn.Prelude.Int.{ℤ, leb_ℤ, ◌-ℤ◌}
use dpn.Exec.{Outcome, done, raised, pure, lift, ◌>>=◌, ◌>>◌, >>=-returns}
use dpn.Names.{PortSpecification}
use dpn.Zmq.{Zmq}
use dpn.State.{State, set_hub, on_world, with_world}
use dpn.Port
use dpn.Port.Receive.{collect_only}
use dpn.Port.Still.{accept-Stays}
use dpn.Hub
use dpn.Hub.Receive.{set_port_name-nil}

module _ {W : Type 0} (zmq : Zmq W) where
  -- `budget` bounds the frames that sockets can hand over before the clock is past the deadline: a frame
  -- that is handed over uses one up, no other call of a wait adds to it, and when nothing is left the
  -- clock reads a time that is more than `timeout` after `start`. The poller reports ports that are
  -- registered.
  pub record Deadline (budget : W → ℕ) (registered : ℕ → Type 0) (start timeout : ℤ) : Type 0 where
    pub hands_over :
        (socket flags : ℕ) (frame : Bytes × Bool) (w v : W)
        → zmq.recv socket flags w ≡ done (some frame) v
        → budget v ≤ budget w - 1
    pub would_block :
        (socket flags : ℕ) (w v : W) → zmq.recv socket flags w ≡ done none v → budget v ≤ budget w
    pub modifies :
        (socket flags : ℕ) (w v : W)
        → zmq.poller_modify socket flags w ≡ done tt v
        → budget v ≤ budget w
    pub waits :
        (timeout : ℤ) (events : List (ℕ × ℕ)) (w v : W)
        → zmq.poller_wait timeout w ≡ done events v
        → (budget v ≤ budget w) × All (λ e. registered e.0) events
    pub reads : (w : W) → budget (zmq.now w).1 ≤ budget w
    pub late : (w : W) → budget w ≡ 0 → leb_ℤ ((zmq.now w).0 -ℤ start) timeout ≡ false

  module _ (budget : W → ℕ) (registered : ℕ → Type 0) (start timeout : ℤ)
      (deadline : Deadline budget registered start timeout) where
    -- The frames that are left to a state that came of another: no more than before, and fewer when a
    -- frame was handed over.
    abbrev Left : List Bytes → State W → State W → Type 0
    Left frames s t =
        (budget t.world ≤ budget s.world) × ((frames ≡ []) ⊎ (budget t.world ≤ budget s.world - 1))

    abbrev LeftAfter : State W → Outcome (State W) (List Bytes × Bool) → Type 0
    LeftAfter s (done r t) = Left r.0 s t
    LeftAfter s (raised e t) = Unit

    collect-Left :
        (p flags slots : ℕ) (s t : State W) (r : List Bytes × Bool)
        → Port.collect zmq p flags slots s ≡ done r t
        → Left r.0 s t
    unfolding Port.collect
    collect-Left p flags zero s t r e = absurd cc
    collect-Left p flags (suc slots) s t r e =
        elim (dpn.Exec.Outcome-cases (zmq.recv (s.ports p).socket flags s.world)) [
          | inr (x, w, k) ↦ absurd (ground (arith, e, k))
          | inl (none, w, k) ↦
              let same : done ([], false) (record s { world = w }) ≡ done r t =
                ground (arith, e, k) in
              subst (LeftAfter s) same
                (deadline.would_block (s.ports p).socket flags s.world w k, inl refl)
          | inl (some (frame, false), w, k) ↦
              let same : done (frame ∷ [], true) (record s { world = w }) ≡ done r t =
                ground (arith, e, k) in
              let used = deadline.hands_over (s.ports p).socket flags (frame, false) s.world w k in
              subst (LeftAfter s) same (omega arith, inr used)
          | inl (some (frame, true), w, k) ↦
              let used = deadline.hands_over (s.ports p).socket flags (frame, true) s.world w k in
              let rest : (Port.collect zmq p flags slots >>= λ later.
              pure (frame ∷ later.0, later.1))
                    (record s { world = w })
                  ≡ done r t =
                ground (arith, e, k) in
              let (later, u, run, back) =
                >>=-returns (Port.collect zmq p flags slots) _ (record s { world = w }) t r rest in
              let (fewer, _) = collect-Left p flags slots (record s { world = w }) u later run in
              subst (LeftAfter s) back (omega arith, inr (omega arith))
        ]

    -- A state with the ports of another, and no more frames to come.
    abbrev Kept : State W → State W → Type 0
    Kept s t = (t.hub.ports ≡ s.hub.ports) × (budget t.world ≤ budget s.world)

    -- A state with the ports of another, and fewer frames to come.
    abbrev pub Used : State W → State W → Type 0
    Used s t = (t.hub.ports ≡ s.hub.ports) × (budget t.world ≤ budget s.world - 1)

    accept_nothing :
        (name : Bytes) (hs : List ℕ) (frames : List Bytes) (more : Bool) (s t : State W)
        (out : Bytes)
        → Port.accept zmq name (λ fs. Port.copy_package zmq hs fs 0) frames more s ≡ done out t
        → frames ≡ []
        → out ≡ name
    unfolding Port.accept
    accept_nothing name hs [] more s t out e k = cc
    accept_nothing name hs (f ∷ fs) more s t out e k = absurd cc

    -- A hub that receives at a port that it has, and returns, has received a frame.
    pub receive-Used :
        (id p : ℕ) (spec out : PortSpecification) (hs : List ℕ) (s t : State W)
        → find id s.hub.ports ≡ some p
        → Hub.receive zmq id spec hs s ≡ done out t
        → Used s t
    unfolding Hub.receive Hub.find_port Port.receive
    receive-Used id p spec out hs s t found e =
        let run : (Port.receive zmq p [] hs 0 >>= λ name.
        lift (dpn.Names.set_port_name spec.hub_name name))
              s
            ≡ done out t =
          ground (arith, e, found) in
        let (name, u, got, rest) = >>=-returns (Port.receive zmq p [] hs 0) _ s t out run in
        let (r, v, collected, accepted) =
          >>=-returns (Port.collect zmq p 0 Port.max_frames) _ s u name got in
        let only = collect_only zmq p 0 Port.max_frames s collected in
        let (hub, world) = accept-Stays zmq [] hs r.0 r.1 v u name accepted in
        let same : u ≡ t = lifted (dpn.Names.set_port_name spec.hub_name name) u t out rest in
        let ports : t.hub.ports ≡ s.hub.ports =
          ap (λ (x : State W). x.hub.ports) (sym same)
          ∙ ap (λ (h : dpn.State.Hub). h.ports) hub
          ∙ ap (λ (x : State W). x.hub.ports) only in
        let at : budget t.world ≡ budget v.world =
          ap (λ (x : State W). budget x.world) (sym same) ∙ ap budget world in
        elim ((collect-Left p 0 Port.max_frames s v r collected).1) [
          | inr used ↦ (ports, omega arith)
          | inl nothing ↦
              let blank = accept_nothing [] hs r.0 r.1 v u name accepted nothing in
              let refused =
                ap (dpn.Names.set_port_name spec.hub_name) blank
                ∙ set_port_name-nil spec.hub_name in
              absurd (ground (arith, rest, refused))
        ]
      where
        lifted :
            {A : Type 0} (x : dpn.Exec.Result A) (u t : State W) (a : A)
            → lift x u ≡ done a t
            → u ≡ t
        lifted (dpn.Exec.ok b) u t a e = cc
        lifted (dpn.Exec.err b) u t a e = absurd cc
