-- ===== src/Examples/Links.antt =====
-- A port that is connected and disconnected, in a network that keeps a list of its connections.
use dpn.Prelude.{ℕ, ◌≡◌, refl, Bool, false, List, [], ◌∷◌, Bytes, arith, if◌then◌else◌}
use dpn.Exec.{done, raised, zmq_error, state, ◌>>◌}
use dpn.Text.{codes}
use dpn.Names.{port_name_to_socket_id, transport_to_string}
use dpn.Zmq.{Zmq}
use dpn.State.{State}
use dpn.Port.{has_name, same_name, connect, disconnect}
use dpn.Port.Links.{count_name, same_name_iff}
use dpn.Port.Mirroring.{Keeping, unchanged, connected, disconnected, Linking-counted}
use dpn.Peer.Defaults.{connect_default, disconnect_default, disconnect-connect_default}
use dpn.Examples.{Net, net, quiet, start}

-- The names but one.
abbrev without : Bytes → List Bytes → List Bytes
unfolding same_name
without name [] = []
without name (n ∷ ns) = if same_name n name then without name ns else n ∷ without name ns

has_name-without :
    (name other : Bytes) (ns : List Bytes)
    → has_name other (without name ns) ≡ (if same_name name other then false else has_name other ns)
unfolding has_name
has_name-without name other [] = ground arith
has_name-without name other (n ∷ ns) =
    ground (arith, has_name-without name other ns, same_name_iff n name, same_name_iff name other)

-- A network in which `bound` lists what the socket is connected to.
abbrev linking : Zmq Net
unfolding net has_name
linking = record net {
  connect = λ socket id w. done tt (record w { bound = id ∷ w.bound });
  disconnect = λ socket id w.
      if has_name id w.bound
      then done tt (record w { bound = without id w.bound })
      else raised (zmq_error 2) w;
}

abbrev is_linked : ℕ → Net → Bytes → Bool
is_linked socket w other = has_name other w.bound

linking-Keeping : Keeping linking is_linked
unfolding net has_name
linking-Keeping = record {
  connects = λ socket id other w w' e. ground (arith, e);
  connect_fails = λ socket id other w w' x e. ground (arith, e);
  disconnects = λ socket id other w w' e. ground (arith, e, has_name-without id other w.bound);
  disconnect_fails = λ socket id other w w' x e. ground (arith, e);
}

abbrev first : State Net
first = state (connect linking 0 (codes "4-1") (start quiet))

abbrev second : State Net
second = state (connect linking 0 (codes "4-2") first)

abbrev last : State Net
last = state (disconnect linking 0 (codes "4-1") second)

second_fresh : has_name (codes "4-2") (first.ports 0).connections ≡ false
unfolding connect port_name_to_socket_id transport_to_string net has_name
second_fresh = refl

Linking-counted_example :
    count_name (codes "4-2") (last.ports 0).connections
    ≡ (if is_linked (last.ports 0).socket last.world (codes "inproc://4-2") then 1 else 0)
unfolding has_name
Linking-counted_example =
    Linking-counted linking is_linked linking-Keeping 0 (start quiet) last refl refl (λ name. refl)
      (disconnected (connected (connected unchanged (codes "4-1") refl) (codes "4-2") second_fresh)
        (codes "4-1"))
      (codes "4-2")

-- A peer whose port has the default number.
abbrev plain : State Net
plain = record (start quiet) { hub = record (start quiet).hub { ports = (0, 0) ∷ [] } }

disconnect-connect_default_example :
    (connect_default net 4 >> disconnect_default net 4) plain ≡ done tt plain
unfolding has_name net
disconnect-connect_default_example =
    disconnect-connect_default net 4 0 plain quiet quiet refl refl refl refl refl
