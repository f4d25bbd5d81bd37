-- ===== src/Examples/Data.antt =====
-- Labels, messages and names at concrete values.
use dpn.Prelude.{◌≡◌, refl, some, [], ◌∷◌, ◌++◌, Lacks, arith}
use dpn.Exec.{ok}
use dpn.Message.{Message, IsValid, buffer, payload, resize, write_at}
use dpn.Message.Offsets.{payload-write_at}
use dpn.Label.{Label, Contents, InRange, InterfaceDescription}
use dpn.Label.Layout.{encode, decode, decode-encode}
use dpn.Text.{codes}
use dpn.Names.{PortSpecification, get_port_name, set_port_name}
use dpn.Names.RoundTrip.{set-get_port_name}
use dpn.Examples.{part}

part-IsValid : IsValid part
part-IsValid = record { in_bounds = omega arith; exposed = omega arith; allocated = refl }

-- With an offset of 1 the second of the two bytes is not sent.
payload-write_at_example :
    (m : Message) × (write_at (resize part 2 1) (buffer (resize part 2 1)) (codes "xy") ≡ some m)
    × (payload m ≡ codes "ax")
payload-write_at_example =
    payload-write_at part 2 1 (codes "xy") part-IsValid (omega arith) (omega arith) refl

abbrev pub near : InterfaceDescription
near = record { peer_id = 3; port_id = 1; interface_id = 8 }

abbrev pub far : InterfaceDescription
far = record { peer_id = 4; port_id = 2; interface_id = 9 }

abbrev pub header : Contents
header = record { message_id = 77; type = 1; src = near; dest = far }

abbrev pub label : Label
label = record { contents = header }

pub header-InRange : InRange header
header-InRange = record {
  message = omega arith;
  kind = omega arith;
  source = record { peer = omega arith; port = omega arith; interface = omega arith };
  target = record { peer = omega arith; port = omega arith; interface = omega arith };
}

decode-encode_example : decode (encode header ++ (0 ∷ 0 ∷ [])) ≡ header
decode-encode_example = decode-encode header (0 ∷ 0 ∷ []) header-InRange

abbrev pub spec : PortSpecification
spec = record { hub_name = codes "3"; port_id = 12 }

no_slash : Lacks b'/' (codes "3-12")
no_slash = (omega arith, (omega arith, (omega arith, (omega arith, tt))))

set-get_port_name_example : set_port_name (codes "old") (get_port_name spec) ≡ ok spec
set-get_port_name_example = set-get_port_name spec (codes "old") (omega arith, tt) (omega arith)
