-- ===== src/Examples/Hubs.antt =====
-- A hub at work in the small network.
use dpn.Prelude.{
  ℕ, ◌≡◌, update, refl, false, some, [], ◌∷◌, ◌++◌, arith, find, if◌then◌else◌, ◌==◌, inl,
}
use dpn.Prelude.Int.{pos}
use dpn.Exec.{done, raised, invalid_argument}
use dpn.Message.{Message}
use dpn.Text.{codes}
use dpn.Names.{inproc, PortSpecification, get_port_name}
use dpn.Zmq.{Delivers}
use dpn.State.{State}
use dpn.Port
use dpn.Port.Copy.{Hold}
use dpn.Hub.{receive, add_port, arm}
use dpn.Hub.Ports.{Opens, name_of, new_port, find-add_port, add_port_again}
use dpn.Hub.Receive.{IsPlain, receive_from, receive_incomplete}
use dpn.Examples.{Net, net, quiet, multipart, start, label_message}
use dpn.Examples.Ports.{part-IsReady, one_two-Distinct}

abbrev sender : PortSpecification
sender = record { hub_name = codes "4"; port_id = 2 }

abbrev blank : PortSpecification
blank = record { hub_name = []; port_id = 0 }

sender-IsPlain : IsPlain sender
sender-IsPlain = record {
  no_dash = (omega arith, tt);
  no_slash = (omega arith, tt);
  in_range = omega arith;
}

abbrev full : Net
full = record quiet {
  incoming =
      multipart ((codes "inproc://" ++ get_port_name sender) ∷ [] ∷ codes "xyz" ∷ codes "uv" ∷ []);
}

two_parts_arrive :
    Delivers net 5 0 full
      ((codes "inproc://" ++ get_port_name sender) ∷ [] ∷ codes "xyz" ∷ codes "uv" ∷ [])
      quiet
unfolding net
two_parts_arrive = (_, refl, (_, refl, (_, refl, refl)))

receive_from_example :
    (heap : ℕ → Message) × (receive net 1 blank (1 ∷ 2 ∷ []) (start full)
      ≡ done sender (record (start quiet) { messages = heap }))
    × Hold heap (1 ∷ 2 ∷ []) (codes "xyz" ∷ codes "uv" ∷ [])
    × (heap 0 ≡ label_message)
receive_from_example =
    receive_from net 1 0 blank sender (1 ∷ 2 ∷ []) (codes "xyz") (codes "uv" ∷ []) (start full)
      quiet 0 refl sender-IsPlain two_parts_arrive (omega arith) one_two-Distinct
      (part-IsReady, omega arith, (part-IsReady, omega arith, tt)) (omega arith, (omega arith, tt))

nothing_arrives :
    Port.collect net 0 0 Port.max_frames (start quiet) ≡ done ([], false) (start quiet)
unfolding Port.collect net
nothing_arrives = refl

receive_incomplete_example :
    receive net 1 blank (1 ∷ 2 ∷ []) (start quiet) ≡ raised invalid_argument (start quiet)
receive_incomplete_example =
    receive_incomplete net 1 0 blank (1 ∷ 2 ∷ []) [] false (start quiet) (start quiet) refl
      nothing_arrives (inl (omega arith))

abbrev ready : Net
ready = record quiet { events = (1, 1) ∷ [] }

armed : (w : Net) → arm net ((1, 0) ∷ []) 1 (start w) ≡ done tt (start w)
unfolding arm net
armed w = refl

one_event : net.poller_wait (pos 9) ready ≡ done ((1, 1) ∷ []) quiet
unfolding net
one_event = refl

abbrev bound_world : ℕ → Net
bound_world id = record quiet { bound = (codes "inproc://" ++ name_of net id (start quiet)) ∷ [] }

-- A new port of the hub, whose old ones have bound nothing in this network.
port-Opens :
    (id : ℕ)
    → Opens net 0 0 id 5 (codes "inproc://" ++ name_of net id (start quiet)) quiet (bound_world id)
unfolding net
port-Opens id = record {
  fresh = quiet;
  opened = refl;
  named_world = quiet;
  named = refl;
  mandatory_world = quiet;
  mandatory = refl;
  bound_world = bound_world id;
  bound = refl;
  polled = refl;
}

find-add_port_example :
    (u : State Net) × (add_port net 2 inproc 0 0 (start quiet) ≡ done tt u)
    × ((j : ℕ) → find j u.hub.ports ≡ (if 2 == j then some 1 else find j (start quiet).hub.ports))
    × (u.ports ≡ update (start quiet).ports 1 (new_port net (name_of net 2 (start quiet)) 5))
    × (u.world ≡ bound_world 2)
find-add_port_example = find-add_port net 2 0 0 5 (start quiet) (bound_world 2) (port-Opens 2) refl

add_port_again_example :
    (u : State Net) × (add_port net 1 inproc 0 0 (start quiet) ≡ done tt u)
    × (u.hub ≡ (start quiet).hub)
    × (u.ports ≡ update (start quiet).ports 1 (new_port net (name_of net 1 (start quiet)) 5))
    × (u.next_port ≡ 2)
    × (u.world ≡ bound_world 1)
add_port_again_example =
    add_port_again net 1 0 0 5 0 (start quiet) (bound_world 1) (port-Opens 1) refl
