-- ===== src/Label.antt =====
-- dpn/label/inc: the header of every message. Fields are numbers of 16 or 32 bits.
pub mod Layout
pub mod Laws
pub mod Memory
use dpn.Prelude.{ℕ, ◌^◌, ◌<◌}

pub record InterfaceDescription : Type 0 where
  pub peer_id : ℕ
  pub port_id : ℕ
  pub interface_id : ℕ

-- An `enum class` over `uint16_t` holds any 16-bit number when it is read from memory.
pub record Contents : Type 0 where
  pub message_id : ℕ
  pub type : ℕ
  pub src : InterfaceDescription
  pub dest : InterfaceDescription

pub record Label : Type 0 where
  pub contents : Contents

pub data LabelEndpoint : Type 0 where
  src dest : LabelEndpoint

abbrev pub peer_port_id_default : ℕ
peer_port_id_default = 0

abbrev default_description : InterfaceDescription
default_description = record { peer_id = 0; port_id = peer_port_id_default; interface_id = 0 }

unfoldable pub reset : Label → Label
reset l = record {
  contents = record l.contents { src = default_description; dest = default_description };
}

-- Both constructors: `contents` is the argument, or what the uninitialised object holds.
unfoldable pub create : Contents → Label
unfolding reset
create contents = reset (record { contents = contents })

unfoldable pub get_endpoint : Label → LabelEndpoint → InterfaceDescription
get_endpoint l src = l.contents.src
get_endpoint l dest = l.contents.dest

unfoldable pub set_description : Label → InterfaceDescription → LabelEndpoint → Label
set_description l d src = record { contents = record l.contents { src = d } }
set_description l d dest = record { contents = record l.contents { dest = d } }

unfoldable pub get_interface_id : Label → LabelEndpoint → ℕ
unfolding get_endpoint
get_interface_id l e = (get_endpoint l e).interface_id

unfoldable pub get_port_id : Label → LabelEndpoint → ℕ
unfolding get_endpoint
get_port_id l e = (get_endpoint l e).port_id

unfoldable pub get_peer_id : Label → LabelEndpoint → ℕ
unfolding get_endpoint
get_peer_id l e = (get_endpoint l e).peer_id

unfoldable pub set_port_id : Label → ℕ → LabelEndpoint → Label
unfolding get_endpoint set_description
set_port_id l id e = set_description l (record (get_endpoint l e) { port_id = id }) e

unfoldable pub set_peer_id : Label → ℕ → LabelEndpoint → Label
unfolding get_endpoint set_description
set_peer_id l id e = set_description l (record (get_endpoint l e) { peer_id = id }) e

unfoldable pub set_interface_id : Label → ℕ → LabelEndpoint → Label
unfolding get_endpoint set_description
set_interface_id l id e = set_description l (record (get_endpoint l e) { interface_id = id }) e

unfoldable pub swap : Label → Label
swap l = record { contents = record l.contents { src = l.contents.dest; dest = l.contents.src } }

-- PushLabel::Write: the remote peer, interface and port, and the local port.
unfoldable pub write_push : Label → ℕ → ℕ → ℕ → ℕ → Label
unfolding reset
write_push l peer interface port local_port = record {
  contents = record (reset l).contents {
    dest = record { peer_id = peer; port_id = port; interface_id = interface };
    src = record (reset l).contents.src { port_id = local_port };
  };
}

-- RequestLabel::WriteRequest
unfoldable pub write_request : Label → ℕ → ℕ → ℕ → ℕ → Label
unfolding reset
write_request l peer interface port local_port = record {
  contents = record (reset l).contents {
    dest = record { peer_id = peer; port_id = port; interface_id = interface };
    src = record (reset l).contents.src { port_id = local_port };
  };
}

-- PublishLabel::Write: the local interface and port.
unfoldable pub write_publish : Label → ℕ → ℕ → Label
unfolding reset
write_publish l interface port = record {
  contents = record (reset l).contents {
    src = record (reset l).contents.src { interface_id = interface; port_id = port };
  };
}

pub record DescriptionInRange (d : InterfaceDescription) : Type 0 where
  pub peer : d.peer_id < 2 ^ 16
  pub port : d.port_id < 2 ^ 16
  pub interface : d.interface_id < 2 ^ 16

-- Every field holds a value of its C++ type.
pub record InRange (c : Contents) : Type 0 where
  pub message : c.message_id < 2 ^ 32
  pub kind : c.type < 2 ^ 16
  pub source : DescriptionInRange c.src
  pub target : DescriptionInRange c.dest
