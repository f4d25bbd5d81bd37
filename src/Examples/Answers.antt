-- ===== src/Examples/Answers.antt =====
-- A request and its answer between two peers.
use dpn.Prelude.{◌<◌, ◌^◌, ℕ, ◌⊎◌, some, refl, ◌≡◌, [], ◌∷◌, Bytes, List, arith}
use dpn.Prelude.Int.{pos}
use dpn.Exec.{done}
use dpn.Message.{payload, truncate}
use dpn.Label.{
  Label, swap, get_endpoint, get_port_id, get_interface_id, set_peer_id, set_description,
}
use dpn.Label.Layout.{encode}
use dpn.Text.{codes, to_string}
use dpn.Names.{get_port_name, peer_id_to_hub_name}
use dpn.Zmq.{Delivers, Takes}
use dpn.State.{State}
use dpn.Port.Copy.{Fit, Hold, fill}
use dpn.Port.Send.{payloads, wire, drained}
use dpn.Hub
use dpn.Peer.{destination, next_id, poll_event_present, stamp, push, request_loop, matched}
use dpn.Peer.Publishing.{pushed}
use dpn.Peer.Sending.{Sends, sent_frames, sent_label}
use dpn.Peer.Delivery.{source_port}
use dpn.Peer.Arrival.{Notified, Arrives, taken}
use dpn.Peer.Requests.{ticked}
use dpn.Interface.{service_interfaces}
use dpn.Interface.Answering.{request-service_interfaces}
use dpn.Examples.Services.{user}
use dpn.Examples.{Net, net, quiet, multipart}
use dpn.Examples.Ports.{part-IsReady}
use dpn.Examples.Composed.{
  ring, label_to, near_peer, far_peer, full, later, package-Sends, package-Arrives,
  zero_one-Distinct, zero_two-Distinct,
}

module _ (i : ℕ) (m : List (ℕ × List Label)) where
  -- Peer 4 after it took a package for its interface, with some receipts.
  abbrev pub asked : State Net
  asked =
      record (taken ring 2 (package-Arrives i).notified.seen (1 ∷ [])
        (sent_frames ring (label_to i) (2 ∷ []) near_peer) later far_peer) {
          peer = record far_peer.peer { pub_map = m };
        }

  -- The label of the answer.
  abbrev pub back : Label
  back = swap (sent_label ring (label_to i) near_peer)

  abbrev answer_frames : List Bytes
  answer_frames = sent_frames ring back (2 ∷ []) asked

  abbrev pub answered : Net
  answered = record later { incoming = multipart (codes "inproc://4-2" ∷ [] ∷ answer_frames) }

  answer_taken :
      Takes ring 6 0 later
        (wire (get_port_name (destination ring (stamp ring asked back))) answer_frames)
        answered
  unfolding net payload fill
  answer_taken = (_, refl, (_, refl, (_, refl, (_, refl, refl))))

  answer_arrives :
      Delivers ring 5 0
        (record answered { events = [] })
        (wire (get_port_name (source_port (stamp ring asked back).contents)) answer_frames)
        quiet
  unfolding net get_port_name peer_id_to_hub_name to_string stamp set_peer_id payload swap fill
  answer_arrives = (_, refl, (_, refl, (_, refl, refl)))

  -- Peer 3 after its request was taken, and the answer was sent.
  abbrev pub asker : State Net
  asker = record (pushed ring (label_to i) (2 ∷ []) (full i) near_peer) { world = answered }

  notified_asker : Notified ring (pos 9) 1 0 asker (record answered { events = [] })
  unfolding net Hub.arm poll_event_present
  notified_asker = record {
    armed_world = answered;
    armed = refl;
    earlier = [];
    seen = 1;
    reported = refl;
    ready = refl;
    found = refl;
  }

  asker-Fit : Fit asker.messages (0 ∷ 1 ∷ []) answer_frames
  unfolding encode payload fill truncate drained
  asker-Fit = (
    record {
      valid = record { in_bounds = omega arith; exposed = omega arith; allocated = refl };
      at_start = refl;
      counted = omega arith;
    },
    omega arith,
    (part-IsReady, omega arith, tt),
  )

  pub answer-Sends : i < 2 ^ 16 → Sends ring back (2 ∷ []) 0 asked answered
  unfolding stamp set_peer_id set_description get_endpoint swap get_port_id fill encode next_id
  answer-Sends small = record {
    holds = record { at_start = refl; room = refl; allocated = refl };
    whole = refl;
    in_range = record {
      message = omega arith;
      kind = omega arith;
      source = record { peer = omega arith; port = omega arith; interface = omega arith };
      target = record { peer = omega arith; port = omega arith; interface = omega arith };
    };
    can = record { found = refl; transport = refl; null = refl };
    distinct = zero_two-Distinct;
    takes = answer_taken;
  }

  pub answer-Arrives :
      Arrives ring
        (pos 9)
        1
        0
        (source_port (stamp ring asked back).contents)
        answer_frames
        (1 ∷ [])
        asker
        quiet
  answer-Arrives = record {
    polled = record answered { events = [] };
    notified = notified_asker;
    delivered = answer_arrives;
    few = omega arith;
    distinct = zero_one-Distinct;
    fit = asker-Fit;
  }

request-service_interfaces_example :
    (t : State Net) × (push ring (label_to 9) (2 ∷ []) near_peer
      ≡ done
          (stamp ring near_peer (label_to 9))
          (pushed ring (label_to 9) (2 ∷ []) (full 9) near_peer))
    × (service_interfaces ring user (pos 9) (record far_peer { world = full 9 })
        ≡ done tt (pushed ring (back 9 []) (2 ∷ []) (answered 9 []) (asked 9 [])))
    × Hold t.messages (1 ∷ []) (payloads (asked 9 []).messages (2 ∷ []))
    × (((near_peer.peer.message_id ≡ far_peer.peer.message_id)
          × (request_loop ring 1 (1 ∷ []) (pos 0) (pos 9) (pos 9) (pos 9) (asker 9 [])
              ≡ done (some matched) t))
        ⊎ ((¬ (near_peer.peer.message_id ≡ far_peer.peer.message_id))
            × (request_loop ring 1 (1 ∷ []) (pos 0) (pos 9) (pos 9) (pos 9) (asker 9 [])
                ≡ request_loop ring 0 (1 ∷ []) (pos 0) (pos 9) (pos 0) (pos 9) (ticked ring t))))
unfolding get_interface_id get_endpoint answer-Arrives net
request-service_interfaces_example =
    request-service_interfaces ring user (label_to 9) (sent_label ring (label_to 9) near_peer)
      (2 ∷ []) (2 ∷ []) (1 ∷ []) 0 0 0 0 near_peer far_peer (asked 9 []) 2 (pos 9) 2 1 (full 9)
      later (answered 9 []) quiet 0 (pos 0) (pos 9) (pos 9) (pos 9) (package-Sends 9 (omega arith))
      (package-Arrives 9) refl refl refl (answer-Sends 9 [] (omega arith)) (answer-Arrives 9 [])
      refl (omega arith) (omega arith)
