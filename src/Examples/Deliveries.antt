-- ===== src/Examples/Deliveries.antt =====
-- A package of peer 4 that reaches peer 3 in the small network.
use dpn.Prelude.{◌≡◌, ◌≤◌, refl, [], ◌∷◌, ◌++◌, List, Bytes, arith, length}
use dpn.Exec.{done}
use dpn.Label.{Contents, InRange}
use dpn.Label.Layout.{encode}
use dpn.Text.{codes}
use dpn.Names.{get_port_name}
use dpn.Zmq.{Delivers}
use dpn.State.{State}
use dpn.Port.Copy.{Fit, Hold, Distinct}
use dpn.Peer.{receive_messages, load_label}
use dpn.Peer.Delivery.{source_port, load-receive_messages}
use dpn.Examples.{Net, net, quiet, multipart, start}
use dpn.Examples.Data.{header, near, far, header-InRange}
use dpn.Examples.Ports.{part-IsReady, label-IsReady}

abbrev from_far : Contents
from_far = record header { src = far; dest = near }

from_far-InRange : InRange from_far
from_far-InRange = record {
  message = header-InRange.message;
  kind = header-InRange.kind;
  source = header-InRange.target;
  target = header-InRange.source;
}

abbrev frames : List Bytes
frames =
    (codes "inproc://" ++ get_port_name (source_port from_far))
    ∷ []
    ∷ (encode from_far ++ (0 ∷ 0 ∷ []))
    ∷ codes "xyz"
    ∷ []

abbrev full : Net
full = record quiet { incoming = multipart frames }

frames_arrive : Delivers net 5 0 full frames quiet
unfolding net
frames_arrive = (_, refl, (_, refl, (_, refl, refl)))

header_fits : length (encode from_far ++ (0 ∷ 0 ∷ [])) ≤ 20
unfolding encode
header_fits = omega arith

frames-Fit :
    Fit (start full).messages (0 ∷ 1 ∷ []) ((encode from_far ++ (0 ∷ 0 ∷ [])) ∷ codes "xyz" ∷ [])
frames-Fit = (label-IsReady, header_fits, (part-IsReady, omega arith, tt))

package-IsDistinct : Distinct (0 ∷ 1 ∷ [])
package-IsDistinct = ((omega arith, tt), (tt, tt))

load-receive_messages_example :
    (t : State Net) × (receive_messages net 1 (1 ∷ []) (start full) ≡ done tt t)
    × (load_label net t ≡ from_far)
    × Hold t.messages (1 ∷ []) (codes "xyz" ∷ [])
    × (t.world ≡ quiet)
load-receive_messages_example =
    load-receive_messages net 1 0 from_far (0 ∷ 0 ∷ []) (1 ∷ []) (codes "xyz" ∷ []) (start full)
      quiet refl from_far-InRange frames_arrive (omega arith) package-IsDistinct frames-Fit
