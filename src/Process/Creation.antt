-- ===== src/Process/Creation.antt =====
-- A port that is made is ready to be listed in the hub.
use dpn.Prelude.{ℕ, suc, ◌<◌, ◌≡◌, refl, [], Bytes, arith, update, ==_refl, ==_ne}
use dpn.Exec.{Outcome, done, raised, state}
use dpn.Names.{Transport}
use dpn.Zmq.{Zmq}
use dpn.State.{with_world, State, Port, Hub}
use dpn.Port
use dpn.Port.{Frame, address, null_frame, content, has_name}
use dpn.Process.{IsSound}
use dpn.Process.Ports.{port_name-update, null_message-update, set_port-IsSound, start-Keeps, Stable}

-- A sound state with the port `p` under a name, ready to be listed in the hub.
pub record Holds {W : Type 0} (p : ℕ) (name : Bytes) (hub : Hub) (s : State W) : Type 0 where
  pub sound : IsSound s
  pub below : p < s.next_port
  pub port_named : (s.ports p).port_name ≡ name
  pub empty : (s.ports p).null_message ≡ []
  pub same_hub : s.hub ≡ hub

module _ {W : Type 0} (p : ℕ) (name : Bytes) (hub : Hub) where
  Holds-Stable : Stable (Holds {W = W} p name hub)
  Holds-Stable = record {
    world = λ s w i. record {
      sound = i.sound;
      below = i.below;
      port_named = i.port_named;
      empty = i.empty;
      same_hub = i.same_hub;
    };
    port = λ q port s n e i. record {
      sound = set_port-IsSound q port s n e i.sound;
      below = i.below;
      port_named = port_name-update s.ports q p port n i.port_named;
      empty = null_message-update s.ports q p port e i.empty;
      same_hub = i.same_hub;
    };
  }

-- A port that was made: the hub and what it lists are as they were, and the new port has the name.
abbrev pub Created : {W : Type 0} → Bytes → Hub → Outcome (State W) ℕ → Type 0
Created name hub (done p t) = Holds p name hub t
Created name hub (raised e t) = IsSound t

module _ {W : Type 0} (zmq : Zmq W) where
  -- The new object at its place, before the constructor's body.
  placed : (port : Port) (s : State W) → State W
  placed port s = record s { next_port = suc s.next_port; ports = update s.ports s.next_port port }

  placed-Holds :
      (port : Port) (s : State W)
      → port.null_message ≡ []
      → IsSound s
      → Holds s.next_port port.port_name s.hub (placed port s)
  unfolding placed
  placed-Holds port s null i = record {
    sound = record {
      valid = i.valid;
      counted = i.counted;
      header = i.header;
      made = λ id q e. omega (arith, i.made id q e);
      named = λ id q e. rw (==_ne s.next_port q (omega (arith, i.made id q e))) (i.named id q e);
      null = λ id q e. rw (==_ne s.next_port q (omega (arith, i.made id q e))) (i.null id q e);
      hub_named = i.hub_named;
      id_range = i.id_range;
    };
    below = omega arith;
    port_named = rw (==_refl s.next_port) refl;
    empty = rw (==_refl s.next_port) null;
    same_hub = refl;
  }

  pub create-Created :
      (name : Bytes) (transport : Transport) (context : ℕ) (s : State W)
      → IsSound s
      → Created name s.hub (Port.create zmq name transport context s)
  unfolding Port.create placed
  create-Created name transport context s i = opened (zmq.open_router context s.world)
    where
      new : ℕ → Port
      new socket = record {
        port_name = name;
        transport = transport;
        socket = socket;
        null_message = [];
        connections = [];
        bindings = [];
      }

      finished :
          (socket : ℕ) (o : Outcome (State W) (Unit {0}))
          → Holds s.next_port name s.hub (state o)
          → Created name s.hub (Port.closing zmq s.next_port socket o)
      finished socket (done a t) h = h
      finished socket (raised e t) h = h.sound

      opened :
          (o : Outcome W ℕ)
          → Created name s.hub (elim (with_world s o) [
            | done socket t ↦
                Port.closing zmq t.next_port socket
                  (Port.start zmq t.next_port (placed (new socket) t))
            | raised e t ↦ raised e t
          ])
      opened (done socket w) =
          finished socket
            (Port.start zmq s.next_port (placed (new socket) (record s { world = w })))
            (start-Keeps (Holds s.next_port name s.hub) (Holds-Stable s.next_port name s.hub) zmq
              s.next_port (placed (new socket) (record s { world = w }))
              (placed-Holds (new socket) (record s { world = w }) refl i))
      opened (raised e w) = i
