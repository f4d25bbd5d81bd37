-- ===== src/Examples/Broadcasts.antt =====
-- A publication to two subscribers in the small network.
use dpn.Prelude.{◌≡◌, refl, [], ◌∷◌, ◌++◌, List, Bytes, find, some}
use dpn.Exec.{done}
use dpn.Label.{Label, get_port_id, get_interface_id, get_endpoint, src}
use dpn.Names.{get_port_name}
use dpn.Zmq.{Takes}
use dpn.State.{State}
use dpn.Port.Send.{payloads, wire}
use dpn.Peer.{publish, stamp, destination, next_id}
use dpn.Peer.Publishing.{CanSend, header_frame}
use dpn.Peer.Broadcast.{TakesEmpty, publish_many}
use dpn.Peer.Subscriptions.{subscribe_all, with_topic, topic_receipts, publish-subscribe_all}
use dpn.Examples.{Net, net, quiet, start}
use dpn.Examples.Data.{label, header, near}
use dpn.Examples.Peers.{label_message-HoldsLabel, package-Distinct}

-- A second subscriber, peer 5.
abbrev second : Label
second = record { contents = record header { dest = record near { peer_id = 5 } } }

abbrev subscribed_to : State Net
subscribed_to = record (start quiet) {
  peer = record (start quiet).peer { pub_map = (8, label ∷ second ∷ []) ∷ [] };
}

subscribers :
    find (get_interface_id label src) subscribed_to.peer.pub_map ≡ some (label ∷ second ∷ [])
unfolding get_interface_id get_endpoint
subscribers = refl

can_send : (l : Label) → get_port_id l src ≡ 1 → CanSend net (get_port_id l src) 0 subscribed_to
can_send l e = record { found = rw e refl; transport = refl; null = refl }

port_of_label : get_port_id label src ≡ 1
unfolding get_port_id get_endpoint
port_of_label = refl

port_of_second : get_port_id second src ≡ 1
unfolding get_port_id get_endpoint
port_of_second = refl

abbrev to_label : List Bytes
to_label =
    wire (get_port_name (destination net (stamp net subscribed_to label)))
      (header_frame net label subscribed_to ∷ payloads subscribed_to.messages (1 ∷ 2 ∷ []))

abbrev to_second : List Bytes
to_second =
    wire (get_port_name (destination net (stamp net subscribed_to second))) ([] ∷ [] ∷ [] ∷ [])

abbrev taken : List Bytes → Net
taken frames = record quiet { outgoing = frames }

to_label-Takes : Takes net 5 0 quiet to_label (taken to_label)
unfolding net
to_label-Takes = (_, refl, (_, refl, (_, refl, (_, refl, (_, refl, refl)))))

to_second-Takes : Takes net 5 0 (taken to_label) to_second (taken (to_label ++ to_second))
unfolding net
to_second-Takes = (_, refl, (_, refl, (_, refl, (_, refl, (_, refl, refl)))))

publish_many_example :
    (t : State Net) × (publish net label (1 ∷ 2 ∷ []) subscribed_to ≡ done tt t)
    × (t.world ≡ taken (to_label ++ to_second))
publish_many_example =
    publish_many net label label (second ∷ []) (1 ∷ 2 ∷ []) 0 subscribed_to (taken to_label)
      (taken (to_label ++ to_second)) subscribers label_message-HoldsLabel
      (can_send label port_of_label) package-Distinct to_label-Takes
      (0, _, can_send second port_of_second, to_second-Takes, refl)

-- The same two subscribe to a peer that has none, and then it publishes.
start-CanSend :
    (l : Label) → get_port_id l src ≡ 1 → CanSend net (get_port_id l src) 0 (start quiet)
start-CanSend l e = record { found = rw e refl; transport = refl; null = refl }

both_served :
    topic_receipts net (get_interface_id label src) (start quiet)
      ++ with_topic (get_interface_id label src) (label ∷ second ∷ [])
    ≡ label ∷ second ∷ []
unfolding get_interface_id get_endpoint with_topic
both_served = refl

start-Takes :
    Takes net 5 0 quiet
      (wire
        (get_port_name (destination net (stamp net (start quiet) label)))
        (header_frame net label (start quiet) ∷ payloads (start quiet).messages (1 ∷ 2 ∷ [])))
      (taken to_label)
unfolding stamp next_id
start-Takes = to_label-Takes

start-TakesEmpty :
    TakesEmpty net
      (1 ∷ 2 ∷ [])
      (start quiet)
      (second ∷ [])
      (taken to_label)
      (taken (to_label ++ to_second))
unfolding stamp
start-TakesEmpty = (0, _, start-CanSend second port_of_second, to_second-Takes, refl)

publish-subscribe_all_example :
    (t u : State Net) × (subscribe_all net (label ∷ second ∷ []) (start quiet) ≡ done tt t)
    × (publish net label (1 ∷ 2 ∷ []) t ≡ done tt u)
    × (u.world ≡ taken (to_label ++ to_second))
publish-subscribe_all_example =
    publish-subscribe_all net (label ∷ second ∷ []) label label (second ∷ []) (1 ∷ 2 ∷ []) 0
      (start quiet) (taken to_label) (taken (to_label ++ to_second)) both_served
      label_message-HoldsLabel (start-CanSend label port_of_label) package-Distinct start-Takes
      start-TakesEmpty
