-- ===== src/Examples/Processes.antt =====
-- A peer that is made in the small network, and used.
use dpn.Prelude.{◌≢◌, refl, [], ◌∷◌, arith, replicate}
use dpn.Prelude.Int.{pos}
use dpn.Exec.{state}
use dpn.Names.{inproc, port_name_to_socket_id, transport_to_string, get_port_name}
use dpn.State.{State}
use dpn.Peer
use dpn.Hub
use dpn.Port
use dpn.Examples.Services.{user}
use dpn.Process.{
  Conforms, Respectful, IsSound, here, next, perform, push, add_port, fill, create_message,
  interfere, service_interfaces,
}
use dpn.Process.Reachable.{IsFresh, create-Reach-IsSound}
use dpn.Examples.{Net, net, quiet, multipart, part, start}
use dpn.Text.{codes}
use dpn.Examples.Data.{label}

net-Conforms : Conforms net
unfolding net
net-Conforms = record { left = λ socket frame more flags n w w' e. ground arith }

user-Respectful : Respectful user
user-Respectful = record {
  pull = λ object label hs s i. i;
  reply = λ object label hs s i. i;
  subscription = λ object label hs s i. i;
}

-- A heap in which every message is the same, and no port was made.
abbrev empty : State Net
empty = record (start quiet) { messages = λ h. part }

empty-IsFresh : IsFresh empty
empty-IsFresh = record {
  valid = λ h. record { in_bounds = omega arith; exposed = omega arith; allocated = refl };
  counted = λ h. omega arith;
}

abbrev new_peer : State Net
new_peer = Peer.create net 3 4 0 1 (replicate 20 7) (replicate 4 7) empty

abbrev with_port : State Net
with_port = state (perform net user (add_port inproc 0 0 1) new_peer)

other_message : 2 ≢ with_port.peer.label_message
unfolding perform net Peer.create Peer.add_port Hub.add_port Port.create Port.start Port.bind
    port_name_to_socket_id transport_to_string get_port_name
other_message = λ e. omega arith

abbrev with_message : State Net
with_message = state (perform net user (create_message 2 2 (0 ∷ 0 ∷ [])) with_port)

fill_allowed : 2 ≢ with_message.peer.label_message
unfolding perform
fill_allowed = other_message

abbrev filled : State Net
filled = state (perform net user (fill 2 (5 ∷ 6 ∷ [])) with_message)

abbrev pushed : State Net
pushed = state (perform net user (push label (2 ∷ [])) filled)

-- A frame that some other process sent in the meantime.
abbrev disturbed : State Net
disturbed = record pushed {
  world = record pushed.world { incoming = multipart (codes "inproc://4-2" ∷ [] ∷ []) };
}

create-Reach-IsSound_example :
    IsSound (state (perform net user (service_interfaces (pos 5)) disturbed))
create-Reach-IsSound_example =
    create-Reach-IsSound net user 3 4 0 1 (replicate 20 7) (replicate 4 7) empty
      (state (perform net user (service_interfaces (pos 5)) disturbed)) net-Conforms user-Respectful
      empty-IsFresh (λ e. omega arith) refl refl (omega arith)
      (next
        (interfere
          (next
            (next
              (next (next here (add_port inproc 0 0 1) tt) (create_message 2 2 (0 ∷ 0 ∷ []))
                (other_message, refl, omega arith))
              (fill 2 (5 ∷ 6 ∷ [])) fill_allowed)
            (push label (2 ∷ [])) tt)
          disturbed.world)
        (service_interfaces (pos 5)) tt)
