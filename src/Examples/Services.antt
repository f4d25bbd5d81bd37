-- ===== src/Examples/Services.antt =====
-- A request that is waited for, and messages that are serviced, in the small network.
use dpn.Prelude.{ℕ, ◌≡◌, refl, some, [], ◌∷◌, ◌++◌, find, if◌then◌else◌, ◌==◌}
use dpn.Prelude.Int.{pos}
use dpn.Exec.{done, state}
use dpn.Message.{resize, write_at, buffer}
use dpn.Label.{Label, src, dest, get_endpoint, get_interface_id}
use dpn.Label.Layout.{encode, decode}
use dpn.Text.{codes, getline, stoi, to_string}
use dpn.Names.{set_port_name, port_name_from_socket_id, hub_name_to_peer_id}
use dpn.State.{State, subscription}
use dpn.Port
use dpn.Hub
use dpn.Peer
use dpn.Peer.{get_pending_package, load_label, request_loop, Ending, push, stamp, destination}
use dpn.Peer.Publishing.{receipts}
use dpn.Interface.{Handlers, pass, service_interfaces}
use dpn.Interface.Dispatch.{service-subscription}
use dpn.Examples.{Net, net, quiet, multipart, start}
use dpn.Examples.Data.{header, near, far}

-- A message for one interface of peer 3 has arrived.
abbrev pub arrived : ℕ → Net
arrived interface = record quiet {
  incoming = multipart (
      codes "inproc://4-2"
      ∷ []
      ∷ (encode (record header { src = far; dest = record near { interface_id = interface } })
          ++ (0 ∷ 0 ∷ []))
      ∷ codes "xyz"
      ∷ []);
  events = (1, 1) ∷ [];
}

-- Handlers that accept what they are given, and answer with one message.
abbrev pub user : Handlers Net
user = record {
  handle_pull = λ object label messages s. done label s;
  handle_reply = λ object label messages s. done (label, pass, 2 ∷ []) s;
  handle_subscription = λ object label messages s. done (label, pass) s;
}

-- The state after the message was taken, and the label that was read.
abbrev taken : ℕ → State Net
taken interface = state (get_pending_package net (1 ∷ []) (pos 9) (start (arrived interface)))

abbrev read : ℕ → Label
read interface = record { contents = load_label net (taken interface) }

package_taken :
    (interface : ℕ)
    → get_pending_package net (1 ∷ []) (pos 9) (start (arrived interface))
      ≡ done (read interface) (taken interface)
unfolding get_pending_package net Peer.poll Hub.poll Hub.arm Peer.poll_event_present
    Peer.receive_messages Hub.receive Hub.find_port Port.receive Port.collect Port.accept
    Port.copy_package Port.copy_frame Port.store write_at buffer encode Port.resize
    Hub.handle_events Hub.poll_callback decode resize hub_name_to_peer_id port_name_from_socket_id
    set_port_name Peer.check_sender load_label Port.has_name Port.same_name dpn.Text.digits_from
    getline dpn.Text.number dpn.Text.signed_number dpn.Text.split_at stoi
package_taken interface = refl

subscription_found :
    find (get_interface_id (read 8) dest) (taken 8).peer.interface_map
    ≡ some (record { kind = subscription; object = 1 })
unfolding get_pending_package net Peer.poll Hub.poll Hub.arm Peer.poll_event_present
    Peer.receive_messages Hub.receive Hub.find_port Port.receive Port.collect Port.accept
    Port.copy_package Port.copy_frame Port.store write_at buffer encode Port.resize
    Hub.handle_events Hub.poll_callback decode resize hub_name_to_peer_id port_name_from_socket_id
    set_port_name Peer.check_sender load_label Port.has_name Port.same_name dpn.Text.digits_from
    getline dpn.Text.number dpn.Text.signed_number dpn.Text.split_at stoi get_interface_id
    get_endpoint
subscription_found = refl

service-subscription_example :
    (x : State Net) × (receipt : Label) × (service_interfaces net user (pos 9) (start (arrived 8))
      ≡ done tt x)
    × (get_endpoint receipt dest ≡ get_endpoint (read 8) src)
    × ((topic : ℕ)
        → find topic x.peer.pub_map ≡ (
            if get_interface_id (read 8) dest == topic
            then some (receipts (find topic (taken 8).peer.pub_map) ++ receipt ∷ [])
            else find topic (taken 8).peer.pub_map))
service-subscription_example =
    service-subscription net user (pos 9) 1 (read 8) (read 8) (start (arrived 8)) (taken 8)
      (taken 8) (package_taken 8) subscription_found refl
