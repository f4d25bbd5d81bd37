-- ===== src/Names.antt =====
-- How ports, hubs and peers are named: the texts that Port.hpp, Port.cpp, Hub.hpp and Peer.hpp build
-- and take apart. The proofs are in the children.
pub mod RoundTrip
use dpn.Prelude.{ℕ, ◌≡◌, [], ◌∷◌, ◌++◌, Bool, true, false, Bytes, Option, none, some}
use dpn.Prelude.Int.{ℤ, to_u16}
use dpn.Exec.{Result, ok, err, aborted}
use dpn.Text.{codes, open_stream, getline, to_string, stoi}

pub data Transport : Type 0 where
  inproc ipc tcp : Transport

-- The default case of the switch is `assert(0)`, in a build that keeps assertions.
unfoldable pub transport_to_string : Transport → Result Bytes
transport_to_string inproc = ok (codes "inproc://")
transport_to_string _ = err aborted

abbrev prepend : Result Bytes → Bytes → Result Bytes
prepend (ok prefix) name = ok (prefix ++ name)
prepend (err e) name = err e

unfoldable pub port_name_to_socket_id : Bytes → Transport → Result Bytes
unfolding transport_to_string
port_name_to_socket_id name transport = prepend (transport_to_string transport) name

-- The text between the second and the third slash.
unfoldable pub port_name_from_socket_id : Bytes → Bytes
port_name_from_socket_id id =
    let first = getline (open_stream id) [] b'/' in
    let second = getline first.1 first.0 b'/' in (getline second.1 second.0 b'/').0

-- Hub::PortSpecification
pub record PortSpecification : Type 0 where
  pub hub_name : Bytes
  pub port_id : ℕ

unfoldable pub get_port_name : PortSpecification → Bytes
get_port_name spec = spec.hub_name ++ b'-' ∷ to_string spec.port_id

-- `portID_ = stoi(temp)` narrows the `int` to 16 bits.
abbrev with_port : Bytes → Result ℤ → Result PortSpecification
with_port hub (ok n) = ok (record { hub_name = hub; port_id = to_u16 n })
with_port hub (err e) = err e

-- SetPortName, on a specification whose `hubName_` is `old`.
unfoldable pub set_port_name : Bytes → Bytes → Result PortSpecification
set_port_name old name =
    let hub = getline (open_stream name) old b'-' in
    let port = getline hub.1 [] b'-' in with_port hub.0 (stoi port.0)

unfoldable pub peer_id_to_hub_name : ℕ → Bytes
peer_id_to_hub_name id = to_string id

abbrev narrow : Result ℤ → Result ℕ
narrow (ok n) = ok (to_u16 n)
narrow (err e) = err e

unfoldable pub hub_name_to_peer_id : Bytes → Result ℕ
hub_name_to_peer_id name = narrow (stoi name)
