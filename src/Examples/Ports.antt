-- ===== src/Examples/Ports.antt =====
-- A port at work in the small network.
use dpn.Prelude.{ℕ, ◌≡◌, refl, false, [], ◌∷◌, List, Bytes, arith}
use dpn.Exec.{done, raised, undefined, out_of_range, zmq_error, ◌>>◌}
use dpn.Message.{Message, payload}
use dpn.Text.{codes}
use dpn.Names.{port_name_from_socket_id}
use dpn.Zmq.{Takes, Delivers, Overflows}
use dpn.State.{State, set_message, set_port}
use dpn.Port.{receive, receive_single, send, bind, unbind, has_name, max_frames, same_name}
use dpn.Port.Copy.{IsReady, Fit, Hold, Distinct}
use dpn.Port.Receive.{receive_too_many}
use dpn.Port.Truncation.{cut, receive-cut}
use dpn.Port.Single.{receive_single_lem, receive_single_past}
use dpn.Port.Send.{drained, wire, send_lem}
use dpn.Port.Links.{unbind-bind}
use dpn.Examples.{Net, net, quiet, multipart, part, port, start, label_message}

pub part-IsReady : IsReady part
part-IsReady = record {
  valid = record { in_bounds = omega arith; exposed = omega arith; allocated = refl };
  at_start = refl;
  counted = omega arith;
}

pub label-IsReady : IsReady label_message
label-IsReady = record {
  valid = record { in_bounds = omega arith; exposed = omega arith; allocated = refl };
  at_start = refl;
  counted = omega arith;
}

abbrev sender : Bytes
sender = codes "inproc://4-2"

-- A network in which a message of two parts has arrived.
abbrev pub full : Net
full = record quiet { incoming = multipart (sender ∷ [] ∷ codes "xyz" ∷ codes "uv" ∷ []) }

two_parts_arrive : Delivers net 5 0 full (sender ∷ [] ∷ codes "xyz" ∷ codes "uv" ∷ []) quiet
unfolding net
two_parts_arrive = (_, refl, (_, refl, (_, refl, refl)))

two_parts-Fit : Fit (start full).messages (1 ∷ 2 ∷ []) (codes "xyz" ∷ codes "uv" ∷ [])
two_parts-Fit = (part-IsReady, omega arith, (part-IsReady, omega arith, tt))

pub one_two-Distinct : Distinct (1 ∷ 2 ∷ [])
one_two-Distinct = ((omega arith, tt), (tt, tt))

-- A network in which a part of six bytes has arrived.
abbrev large : Net
large = record quiet { incoming = multipart (sender ∷ [] ∷ codes "xyzuvw" ∷ codes "uv" ∷ []) }

large_arrives : Delivers net 5 0 large (sender ∷ [] ∷ codes "xyzuvw" ∷ codes "uv" ∷ []) quiet
unfolding net
large_arrives = (_, refl, (_, refl, (_, refl, refl)))

-- Of it, four bytes fit.
receive-cut_example :
    (heap : ℕ → Message) × (receive net 0 [] (1 ∷ 2 ∷ []) 0 (start large)
      ≡ done (port_name_from_socket_id sender) (record (start quiet) { messages = heap }))
    × Hold heap (1 ∷ 2 ∷ []) (codes "xyzu" ∷ codes "uv" ∷ [])
    × (heap 0 ≡ label_message)
unfolding cut
receive-cut_example =
    receive-cut net 0 0 [] sender (1 ∷ 2 ∷ []) (codes "xyzuvw") (codes "uv" ∷ []) (start large)
      quiet 0 large_arrives (omega arith) one_two-Distinct (part-IsReady, (part-IsReady, tt))
      (omega arith, (omega arith, tt))

-- Into the label message, with room for twenty bytes, both parts fit.
receive_single_lem_example :
    (m : Message) × (receive_single net 0 [] 0 0 (start full)
      ≡ done (port_name_from_socket_id sender) (set_message 0 m (start quiet)))
    × (payload m ≡ codes "xyzuv")
receive_single_lem_example =
    receive_single_lem net 0 0 0 [] sender (codes "xyz") (codes "uv" ∷ []) (start full) quiet
      two_parts_arrive (omega arith) label-IsReady (omega arith)

-- Into a message of four bytes they do not.
receive_single_past_example :
    (s : State Net) × (receive_single net 0 [] 1 0 (start full) ≡ raised undefined s)
receive_single_past_example =
    receive_single_past net 0 0 1 [] sender (codes "xyz") (codes "uv" ∷ []) (start full) quiet
      two_parts_arrive (omega arith) part-IsReady (omega arith, (omega arith, tt)) (omega arith)

abbrev eleven : Net
eleven = record quiet {
  incoming = multipart ([] ∷ [] ∷ [] ∷ [] ∷ [] ∷ [] ∷ [] ∷ [] ∷ [] ∷ [] ∷ [] ∷ []);
}

abbrev one_left : Net
one_left = record quiet { incoming = ([], false) ∷ [] }

eleven-Overflows : Overflows net 5 0 eleven max_frames one_left
unfolding net
eleven-Overflows = (
  [],
  _,
  refl,
  (
    [],
    _,
    refl,
    (
      [],
      _,
      refl,
      (
        [],
        _,
        refl,
        (
          [],
          _,
          refl,
          ([], _, refl, ([], _, refl, ([], _, refl, ([], _, refl, ([], _, refl, refl))))),
        ),
      ),
    ),
  ),
)

receive_too_many_example :
    receive net 0 [] (1 ∷ []) 0 (start eleven) ≡ raised out_of_range (start one_left)
receive_too_many_example =
    receive_too_many net 0 0 [] (1 ∷ []) (start eleven) one_left eleven-Overflows

abbrev taken : List Bytes → Net
taken frames = record quiet { outgoing = frames }

two_parts_taken :
    Takes net 5 0 quiet
      (wire (codes "4-2") (codes "abc" ∷ codes "abc" ∷ []))
      (taken (sender ∷ [] ∷ codes "abc" ∷ codes "abc" ∷ []))
unfolding net
two_parts_taken = (_, refl, (_, refl, (_, refl, (_, refl, refl))))

send_lem_example :
    send net 0 (codes "4-2") (1 ∷ 2 ∷ []) 0 (start quiet)
    ≡ done tt (record (start quiet) {
      messages = drained (start quiet).messages (1 ∷ 2 ∷ []);
      world = taken (sender ∷ [] ∷ codes "abc" ∷ codes "abc" ∷ []);
    })
unfolding payload
send_lem_example =
    send_lem net 0 0 (codes "4-2") (1 ∷ 2 ∷ []) (start quiet)
      (taken (sender ∷ [] ∷ codes "abc" ∷ codes "abc" ∷ [])) refl refl one_two-Distinct
      two_parts_taken

abbrev again_taken : Net
again_taken = taken (sender ∷ [] ∷ codes "abc" ∷ codes "abc" ∷ sender ∷ [] ∷ [] ∷ [] ∷ [])

nothing_taken :
    Takes net 5 0
      (taken (sender ∷ [] ∷ codes "abc" ∷ codes "abc" ∷ []))
      (wire (codes "4-2") ([] ∷ [] ∷ []))
      again_taken
unfolding net
nothing_taken = (_, refl, (_, refl, (_, refl, (_, refl, refl))))

unbind-bind_example :
    (bind net 0 (codes "4-2") >> unbind net 0 (codes "4-2")) (start quiet)
    ≡ raised (zmq_error 2) (
        set_port 0
          (record port { bindings = codes "3-1" ∷ codes "4-2" ∷ [] })
          (start (record quiet { bound = codes "inproc://3-1" ∷ [] })))
unfolding has_name same_name net
unbind-bind_example =
    unbind-bind net 0 (start quiet) (codes "4-2")
      (record quiet { bound = codes "inproc://3-1" ∷ [] })
      (record quiet { bound = codes "inproc://3-1" ∷ [] }) {e = zmq_error 2} refl refl refl refl
