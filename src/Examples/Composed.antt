-- ===== src/Examples/Composed.antt =====
-- Two peers in a network that hands over what one of them sends.
use dpn.Prelude.{
  ℕ, ◌<◌, ◌^◌, ◌≡◌, refl, true, false, [], ◌∷◌, ◌++◌, List, Bytes, arith, if◌then◌else◌, ◌==◌,
}
use dpn.Prelude.Int.{pos}
use dpn.Exec.{done}
use dpn.Message.{payload}
use dpn.Label.{
  InRange, Label, src, get_endpoint, get_port_id, get_interface_id, set_peer_id, set_description,
}
use dpn.Label.Layout.{encode}
use dpn.Text.{codes, to_string}
use dpn.Names.{get_port_name, peer_id_to_hub_name}
use dpn.Zmq.{Zmq, Delivers, Takes, sent}
use dpn.State.{State, reply}
use dpn.Port.Copy.{Distinct, Fit, Hold}
use dpn.Port.Send.{payloads, wire}
use dpn.Hub
use dpn.Peer.{destination, poll_event_present, push, stamp}
use dpn.Peer.Publishing.{CanSend, header_frame, pushed}
use dpn.Peer.Sending.{Sends, sent_frames, sent_label}
use dpn.Peer.Arrival.{Notified, Arrives, taken}
use dpn.Peer.Delivery.{source_port}
use dpn.Interface.{handle_incoming_message, service_interfaces}
use dpn.Interface.Delivery.{push-service_interfaces}
use dpn.Examples.{Net, net, quiet, start, port}
use dpn.Examples.Data.{header, far, header-InRange}
use dpn.Examples.Ports.{part-IsReady, label-IsReady}
use dpn.Examples.Peers.{label_message-HoldsLabel}
use dpn.Examples.Services.{user}

-- The frames that are sent wait to be received, the first of them replaced by the socket id of the
-- sender: socket 5 is that of port 1 of peer 3, any other that of port 2 of peer 4.
abbrev pub ring : Zmq Net
unfolding net
ring = record net {
  send = λ socket frame more flags w. done (sent 0) (record w {
    incoming =
        w.incoming
        ++ (
          elim w.incoming [
            | [] ↦ if socket == 5 then codes "inproc://3-1" else codes "inproc://4-2"
            | f ∷ fs ↦ frame
          ],
          more,
        )
          ∷ [];
  });
}

abbrev pub near_peer : State Net
near_peer = start (record quiet { events = (2, 1) ∷ (1, 1) ∷ [] })

-- Peer 4, with a port number 2.
abbrev pub far_peer : State Net
far_peer = record (start quiet) {
  ports = λ p. record port { socket = 6 };
  hub = record {
    hub_name = codes "4";
    ports = (2, 0) ∷ [];
    poll_port_id = 0;
    poll_event_flags = 0;
  };
  peer = record (start quiet).peer { peer_id = 4 };
}

-- A label for an interface of peer 4.
abbrev pub label_to : ℕ → Label
label_to i = record { contents = record header { dest = record far { interface_id = i } } }

pub zero_two-Distinct : Distinct (0 ∷ 2 ∷ [])
zero_two-Distinct = ((omega arith, tt), (tt, tt))

pub zero_one-Distinct : Distinct (0 ∷ 1 ∷ [])
zero_one-Distinct = ((omega arith, tt), (tt, tt))

-- Port 1 of peer 3 will have input.
abbrev pub later : Net
later = record quiet { events = (1, 1) ∷ [] }

module _ (i : ℕ) where
  abbrev out_frames : List Bytes
  out_frames =
      wire (get_port_name (destination ring (stamp ring near_peer (label_to i))))
        (header_frame ring (label_to i) near_peer ∷ payloads near_peer.messages (2 ∷ []))

  abbrev back_frames : List Bytes
  back_frames =
      wire (get_port_name (source_port (stamp ring near_peer (label_to i)).contents))
        (header_frame ring (label_to i) near_peer ∷ payloads near_peer.messages (2 ∷ []))

  abbrev pub full : Net
  full = record quiet {
    incoming =
        (codes "inproc://3-1", true)
        ∷ ([], true)
        ∷ (header_frame ring (label_to i) near_peer, true)
        ∷ (codes "abc", false)
        ∷ [];
    events = (2, 1) ∷ (1, 1) ∷ [];
  }

  out_taken : Takes ring 5 0 near_peer.world out_frames full
  unfolding net payload
  out_taken = (_, refl, (_, refl, (_, refl, (_, refl, refl))))

  back_arrives : Delivers ring 6 0 (record full { events = (1, 1) ∷ [] }) back_frames later
  unfolding net get_port_name peer_id_to_hub_name to_string stamp set_peer_id payload
  back_arrives = (_, refl, (_, refl, (_, refl, refl)))

  notified :
      Notified ring
        (pos 9)
        2
        0
        (record far_peer { world = full })
        (record full { events = (1, 1) ∷ [] })
  unfolding net Hub.arm poll_event_present
  notified = record {
    armed_world = full;
    armed = refl;
    earlier = [];
    seen = 1;
    reported = refl;
    ready = refl;
    found = refl;
  }

  near-CanSend : CanSend ring (get_port_id (label_to i) src) 0 near_peer
  unfolding get_port_id get_endpoint
  near-CanSend = record { found = refl; transport = refl; null = refl }

  stamped-InRange : i < 2 ^ 16 → InRange (stamp ring near_peer (label_to i)).contents
  unfolding stamp set_peer_id set_description get_endpoint
  stamped-InRange small = record {
    message = header-InRange.message;
    kind = header-InRange.kind;
    source = record { peer = omega arith; port = omega arith; interface = omega arith };
    target = record { peer = omega arith; port = omega arith; interface = omega arith };
  }

  frames-Fit : Fit far_peer.messages (0 ∷ 1 ∷ []) (sent_frames ring (label_to i) (2 ∷ []) near_peer)
  unfolding encode payload
  frames-Fit = (label-IsReady, omega arith, (part-IsReady, omega arith, tt))

  pub package-Sends : i < 2 ^ 16 → Sends ring (label_to i) (2 ∷ []) 0 near_peer full
  package-Sends small = record {
    holds = label_message-HoldsLabel;
    whole = refl;
    in_range = stamped-InRange small;
    can = near-CanSend;
    distinct = zero_two-Distinct;
    takes = out_taken;
  }

  pub package-Arrives :
      Arrives ring
        (pos 9)
        2
        0
        (source_port (stamp ring near_peer (label_to i)).contents)
        (sent_frames ring (label_to i) (2 ∷ []) near_peer)
        (1 ∷ [])
        (record far_peer { world = full })
        later
  package-Arrives = record {
    polled = record full { events = (1, 1) ∷ [] };
    notified = notified;
    delivered = back_arrives;
    few = omega arith;
    distinct = zero_one-Distinct;
    fit = frames-Fit;
  }

push-service_interfaces_example :
    (push ring (label_to 9) (2 ∷ []) near_peer
      ≡ done
          (stamp ring near_peer (label_to 9))
          (pushed ring (label_to 9) (2 ∷ []) (full 9) near_peer))
    × (service_interfaces ring user (pos 9) (record far_peer { world = (full 9) })
        ≡ handle_incoming_message ring user
            (record { kind = reply; object = 2 })
            (sent_label ring (label_to 9) near_peer)
            (1 ∷ [])
            (taken ring 2 1
              (1 ∷ [])
              (sent_frames ring (label_to 9) (2 ∷ []) near_peer)
              later
              far_peer))
    × Hold
        (taken ring 2 1
          (1 ∷ [])
          (sent_frames ring (label_to 9) (2 ∷ []) near_peer)
          later
          far_peer).messages
        (1 ∷ [])
        (payloads near_peer.messages (2 ∷ []))
unfolding get_interface_id get_endpoint package-Arrives notified
push-service_interfaces_example =
    push-service_interfaces ring user (label_to 9) (2 ∷ []) 0 near_peer far_peer
      (record { kind = reply; object = 2 }) (pos 9) 2 0 (full 9) later
      (package-Sends 9 (omega arith)) (package-Arrives 9) refl
