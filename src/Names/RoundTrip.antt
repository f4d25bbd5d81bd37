-- ===== src/Names/RoundTrip.antt =====
-- Names that are built are taken apart again.
use native.Mathlib.Nat.{mod-eq_of_lt}
use dpn.Prelude.{ℕ, ◌^◌, ◌<◌, ◌≡◌, ◌≢◌, ap, [], ◌∷◌, ◌++◌, Bytes, Lacks, All-append, arith}
use dpn.Exec.{ok}
use dpn.Text.{codes, open_stream, getline, to_string}
use dpn.Text.Getline.{getline_found, getline_last, getline-Lacks}
use dpn.Text.Decimal.{IsDigit, to_string-Lacks, stoi-to_string}
use dpn.Names.{
  inproc, port_name_to_socket_id, port_name_from_socket_id, PortSpecification, get_port_name,
  set_port_name, peer_id_to_hub_name, hub_name_to_peer_id,
}

pub from_socket_id_inproc :
    (name : Bytes) → Lacks b'/' name → port_name_from_socket_id (codes "inproc://" ++ name) ≡ name
unfolding port_name_from_socket_id
from_socket_id_inproc name h = rw (
  getline_found b'/' (codes "inproc:") (b'/' ∷ name) [] (omega arith),
  getline_found b'/' [] name (codes "inproc:") tt,
  getline_last b'/' name [] h,
  port_name_from_socket_id,
)

-- A name is read back from its inproc socket id, if no slash stands in it.
from-to_socket_id :
    (name : Bytes) (id : Bytes)
    → Lacks b'/' name
    → port_name_to_socket_id name inproc ≡ ok id
    → port_name_from_socket_id id ≡ name
unfolding port_name_to_socket_id
from-to_socket_id name id h e =
    let eq : codes "inproc://" ++ name ≡ id = cc in rw (← eq) (from_socket_id_inproc name h)

-- A specification is read back from its port name, if the hub's name has no dash and the port's number
-- is one of 16 bits, whatever the specification that is overwritten held.
pub set-get_port_name :
    (spec : PortSpecification) (old : Bytes)
    → Lacks b'-' spec.hub_name
    → spec.port_id < 2 ^ 16
    → set_port_name old (get_port_name spec) ≡ ok spec
unfolding set_port_name get_port_name
set-get_port_name spec old h lt =
    rw
      (
        getline_found b'-' spec.hub_name (to_string spec.port_id) old h,
        getline_last b'-' (to_string spec.port_id) []
            (to_string-Lacks b'-' spec.port_id (λ k. omega arith)),
        stoi-to_string spec.port_id (omega arith),
      )
      (λ i. ok (record { hub_name = spec.hub_name; port_id = mod-eq_of_lt lt i }))

-- No hub name with a dash comes out of a port name, so such a hub is never read back.
set_port_name-Lacks :
    (old name : Bytes) {spec : PortSpecification}
    → set_port_name old name ≡ ok spec
    → Lacks b'-' spec.hub_name
unfolding set_port_name
set_port_name-Lacks old name {spec = spec} h =
    let e : (getline (open_stream name) old b'-').0 ≡ spec.hub_name = ground arith in
    rw (← e) (getline-Lacks b'-' name old)

-- A peer id of 16 bits is read back from the name of its hub.
pub hub_name-peer_id : (id : ℕ) → id < 2 ^ 16 → hub_name_to_peer_id (peer_id_to_hub_name id) ≡ ok id
unfolding hub_name_to_peer_id peer_id_to_hub_name
hub_name-peer_id id h = rw (stoi-to_string id (omega arith)) (ap ok (mod-eq_of_lt h))

-- A character that is no digit, is not the dash and is not in the hub's name is not in the port name.
pub get_port_name-Lacks :
    (d : ℕ) (spec : PortSpecification)
    → ¬ IsDigit d
    → b'-' ≢ d
    → Lacks d spec.hub_name
    → Lacks d (get_port_name spec)
unfolding get_port_name
get_port_name-Lacks d spec h k l =
    All-append (λ x. x ≢ d) spec.hub_name (b'-' ∷ to_string spec.port_id) l
      (k, to_string-Lacks d spec.port_id h)
