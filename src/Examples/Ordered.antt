-- ===== src/Examples/Ordered.antt =====
-- A peer that pushes twice to another, over routers with queues.
use dpn.Prelude.{ℕ, ◌+◌, refl, [], ◌∷◌}
use dpn.Prelude.Int.{pos}
use dpn.Names.{get_port_name}
use dpn.State.{State}
use dpn.Port.Send.{wire}
use dpn.Hub
use dpn.Peer.{destination, poll_event_present, stamp}
use dpn.Peer.Arrival.{Notified, taken}
use dpn.Peer.Sending.{sent_frames}
use dpn.Examples.{Net, quiet, start}
use dpn.Examples.Composed.{label_to, far_peer}
use dpn.Examples.Mailing.{Mail, mail, after, posted}

-- A process over those routers.
abbrev mailed : State Net → Mail → State Mail
mailed s w = record {
  messages = s.messages;
  ports = s.ports;
  next_port = s.next_port;
  hub = s.hub;
  peer = s.peer;
  world = w;
}

abbrev calm : Mail
calm = record { out = []; boxes = λ q. []; events = (2, 1) ∷ (2, 1) ∷ [] }

-- Peer 3, with a port number 1, as it is in some world.
abbrev third : Mail → State Mail
third w = mailed (start quiet) w

-- Peer 3 later, when its label message holds a header again.
abbrev third_later : Mail → State Mail
third_later w = record (third w) {
  peer = record (third w).peer { message_id = (third w).peer.message_id + 1 };
}

-- The world after a peer has pushed a message to interface 9 of peer 4.
abbrev later : ℕ → State Mail → Mail
later socket s = record s.world {
  boxes =
      posted socket
        (wire (get_port_name (destination mail (stamp mail s (label_to 9))))
          (sent_frames mail (label_to 9) (2 ∷ []) s))
        s.world.boxes;
}

abbrev a : State Mail
a = third calm

abbrev c : State Mail
c = third_later (later 5 a)

abbrev b : State Mail
b = mailed far_peer (later 5 c)

abbrev polled : Mail
polled = record b.world { events = (2, 1) ∷ [] }

first_notified : Notified mail (pos 9) 2 0 b polled
unfolding Hub.arm poll_event_present
first_notified = record {
  armed_world = b.world;
  armed = refl;
  earlier = [];
  seen = 1;
  reported = refl;
  ready = refl;
  found = refl;
}

-- Peer 4 after the first package.
abbrev t : State Mail
t =
    taken mail 2 first_notified.seen (1 ∷ []) (sent_frames mail (label_to 9) (2 ∷ []) a)
      (after 6 polled) b

abbrev polled_again : Mail
polled_again = record t.world { events = [] }
