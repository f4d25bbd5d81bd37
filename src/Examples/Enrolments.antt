-- ===== src/Examples/Enrolments.antt =====
-- A subscription and a publication between two peers.
use dpn.Prelude.{◌≡◌, refl, [], ◌∷◌, arith}
use dpn.Prelude.Int.{pos}
use dpn.Exec.{done}
use dpn.Label.{
  Label, src, dest, swap, get_endpoint, get_interface_id, get_peer_id, set_peer_id, set_description,
}
use dpn.State.{State, subscription}
use dpn.Port.Copy.{Hold}
use dpn.Port.Send.{payloads}
use dpn.Peer.{next_id, publish, push, stamp}
use dpn.Peer.Publishing.{pushed}
use dpn.Peer.Sending.{sent_label}
use dpn.Interface.{handle_incoming_message, service_interfaces}
use dpn.Interface.Enrolling.{enrolled, publishing, receipt, publish-service_interfaces}
use dpn.Examples.{Net, quiet}
use dpn.Examples.Services.{user}
use dpn.Examples.Composed.{
  ring, label_to, near_peer, far_peer, full, later, package-Sends, package-Arrives,
}
use dpn.Examples.Answers.{asked, answered, asker, answer-Sends, answer-Arrives}

-- The label of the subscription, as its handler leaves it.
abbrev handled : Label
handled = sent_label ring (label_to 8) near_peer

-- Peer 4 when it has enrolled peer 3, and as it publishes.
abbrev accepting : State Net
accepting = asked 8 []

abbrev listed : State Net
listed = publishing ring handled accepting later

-- A label of the topic.
abbrev topic : Label
topic = swap handled

publish-service_interfaces_example :
    (t : State Net) × (l : Label) × (push ring (label_to 8) (2 ∷ []) near_peer
      ≡ done
          (stamp ring near_peer (label_to 8))
          (pushed ring (label_to 8) (2 ∷ []) (full 8) near_peer))
    × (service_interfaces ring user (pos 9) (record far_peer { world = full 8 })
        ≡ done tt (enrolled ring handled accepting))
    × (publish ring topic (2 ∷ []) (record (enrolled ring handled accepting) { world = later })
        ≡ done tt (pushed ring (receipt ring handled accepting) (2 ∷ []) (answered 8 []) listed))
    × (service_interfaces ring user (pos 9) (asker 8 [])
        ≡ handle_incoming_message ring user
            (record { kind = subscription; object = 1 })
            l
            (1 ∷ [])
            t)
    × Hold t.messages (1 ∷ []) (payloads accepting.messages (2 ∷ []))
    × (get_endpoint l dest ≡ get_endpoint handled src)
    × (get_peer_id l src ≡ 4)
unfolding get_interface_id get_endpoint get_peer_id swap stamp set_peer_id set_description next_id
publish-service_interfaces_example =
    publish-service_interfaces ring user user (label_to 8) handled topic (2 ∷ []) (2 ∷ []) 0 0 0 0
      near_peer far_peer accepting (record { kind = subscription; object = 1 }) 1 (pos 9) (pos 9) 2
      1 (full 8) later later (answered 8 []) quiet (package-Sends 8 (omega arith))
      (package-Arrives 8) refl refl refl refl refl
      (answer-Sends 8 listed.peer.pub_map (omega arith)) (answer-Arrives 8 listed.peer.pub_map)
