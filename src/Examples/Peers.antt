-- ===== src/Examples/Peers.antt =====
-- Peers at work in the small network.
use dpn.Prelude.{◌≡◌, ◌↔◌, refl, [], ◌∷◌, ◌++◌, List, Bytes, arith}
use dpn.Exec.{done, pure, ◌>>=◌}
use dpn.Message.{payload}
use dpn.Hub
use dpn.Label.{InRange, src, get_endpoint, get_port_id, set_peer_id, set_description}
use dpn.Label.Layout.{decode}
use dpn.Names.{get_port_name}
use dpn.Zmq.{Takes}
use dpn.State.{State}
use dpn.Port.Copy.{Distinct}
use dpn.Port.Send.{payloads, wire}
use dpn.Peer.{push, stamp, destination, next_id, write_header, load_label}
use dpn.Peer.Header.{HoldsLabel, sent_contents}
use dpn.Peer.Publishing.{CanSend, header_frame}
use dpn.Peer.Resend.{decode-write_header, push_twice}
use dpn.Peer.Requests.{reply_id_iff}
use dpn.Examples.{Net, net, quiet, start, label_message}
use dpn.Examples.Data.{label, header-InRange}

pub label_message-HoldsLabel : HoldsLabel label_message
label_message-HoldsLabel = record { at_start = refl; room = refl; allocated = refl }

port-CanSend : CanSend net (get_port_id label src) 0 (start quiet)
unfolding get_port_id get_endpoint
port-CanSend = record { found = refl; transport = refl; null = refl }

pub package-Distinct : Distinct (0 ∷ 1 ∷ 2 ∷ [])
package-Distinct = ((omega arith, (omega arith, tt)), ((omega arith, tt), (tt, tt)))

abbrev taken : List Bytes → Net
taken frames = record quiet { outgoing = frames }

-- The frames of a push of the package.
abbrev first : List Bytes
first =
    wire (get_port_name (destination net (stamp net (start quiet) label)))
      (header_frame net label (start quiet) ∷ payloads (start quiet).messages (1 ∷ 2 ∷ []))

abbrev second : List Bytes
second = wire (get_port_name (destination net (stamp net (start quiet) label))) ([] ∷ [] ∷ [] ∷ [])

first-Takes : Takes net 5 0 quiet first (taken first)
unfolding net
first-Takes = (_, refl, (_, refl, (_, refl, (_, refl, (_, refl, refl)))))

second-Takes : Takes net 5 0 (taken first) second (taken (first ++ second))
unfolding net
second-Takes = (_, refl, (_, refl, (_, refl, (_, refl, (_, refl, refl)))))

push_twice_example :
    (t : State Net) × ((push net label (1 ∷ 2 ∷ []) >>= λ _. push net label (1 ∷ 2 ∷ []))
        (start quiet)
      ≡ done (stamp net (start quiet) label) t)
    × (t.world ≡ taken (first ++ second))
push_twice_example =
    push_twice net label label (1 ∷ 2 ∷ []) 0 0 (start quiet) (taken first)
      (taken (first ++ second)) label_message-HoldsLabel port-CanSend port-CanSend package-Distinct
      first-Takes second-Takes

stamped-InRange : InRange (stamp net (start quiet) label).contents
unfolding stamp set_peer_id set_description get_endpoint
stamped-InRange = record {
  message = header-InRange.message;
  kind = header-InRange.kind;
  source = record { peer = omega arith; port = omega arith; interface = omega arith };
  target = header-InRange.target;
}

decode-write_header_example :
    (t : State Net) × (write_header net (stamp net (start quiet) label) (start quiet) ≡ done tt t)
    × (decode (payload (t.messages 0))
        ≡ sent_contents (next_id net (start quiet)) (stamp net (start quiet) label))
    × (push net label (1 ∷ 2 ∷ []) (start quiet)
        ≡ (Hub.send net
                (get_port_id (stamp net (start quiet) label) src)
                (destination net (stamp net (start quiet) label))
                (0 ∷ 1 ∷ 2 ∷ [])
              >>= λ _. pure (stamp net (start quiet) label))
            t)
decode-write_header_example =
    decode-write_header net label (1 ∷ 2 ∷ []) (start quiet) label_message-HoldsLabel refl
      stamped-InRange

-- A peer that has sent five messages.
abbrev replier : State Net
replier = record (start quiet) { peer = record (start quiet).peer { message_id = 5 } }

reply_id_iff_example :
    (a r : State Net) × (write_header net label (start quiet) ≡ done tt a)
    × (write_header net label replier ≡ done tt r)
    × (((load_label net r).message_id ≡ a.peer.message_id)
        ↔ (replier.peer.message_id ≡ (start quiet).peer.message_id))
reply_id_iff_example =
    reply_id_iff net label label (start quiet) replier label_message-HoldsLabel
      label_message-HoldsLabel header-InRange header-InRange (omega arith) (omega arith)
