-- ===== src/Examples/Readings.antt =====
-- Messages and labels that are read, and subscriptions, in the small network.
use dpn.Prelude.{refl, ℕ, zero, suc, ◌≡◌, [], ◌∷◌, arith, take, replicate, List, Bytes}
use dpn.Exec.{done}
use dpn.Label.Layout.{decode, encode, field_size}
use dpn.Label.Memory.{AreBytes, encode-decode}
use dpn.Port.{collect, max_frames, receive, receive_single}
use dpn.Text.{codes}
use dpn.Message.{Message, payload}
use dpn.Names.{port_name_from_socket_id}
use dpn.Zmq.{Delivers}
use dpn.Port.Copy.{Hold}
use dpn.Port.Leftovers.{receive_leftovers}
use dpn.Port.Overloads.{Small, receive_single-receive}
use dpn.Examples.{Net, net, quiet, multipart, start}
use dpn.Examples.Ports.{label-IsReady, part-IsReady, full}

twos-AreBytes : (n : ℕ) → AreBytes (replicate n 2)
twos-AreBytes zero = tt
twos-AreBytes (suc n) = (omega arith, twos-AreBytes n)

encode-decode_example : encode (decode (replicate 20 2)) ≡ take field_size (replicate 20 2)
encode-decode_example = encode-decode (replicate 20 2) (twos-AreBytes 20) (omega arith)

parts-Small : Small net 20 (collect net 0 0 max_frames (start full))
unfolding collect net
parts-Small = omega arith

-- Into the label message, with room for twenty bytes.
receive_single-receive_example :
    receive_single net 0 [] 0 0 (start full) ≡ receive net 0 [] (0 ∷ []) 0 (start full)
receive_single-receive_example =
    receive_single-receive net 0 0 0 [] (start full) label-IsReady parts-Small

abbrev sender : Bytes
sender = codes "inproc://4-2"

abbrev parts : List Bytes
parts = codes "xyz" ∷ codes "uv" ∷ codes "w" ∷ []

-- A multipart message with three parts has arrived, for a package of two messages.
abbrev three_parts : Net
three_parts = record quiet { incoming = multipart (sender ∷ [] ∷ parts) }

parts_arrive : Delivers net 5 0 three_parts (sender ∷ [] ∷ parts) quiet
unfolding net
parts_arrive = (_, refl, (_, refl, (_, refl, (_, refl, refl))))

receive_leftovers_example :
    (heap : ℕ → Message) × (receive net 0 [] (1 ∷ 0 ∷ []) 0 (start three_parts)
      ≡ done (port_name_from_socket_id sender) (record (start quiet) { messages = heap }))
    × Hold heap (1 ∷ []) (codes "xyz" ∷ [])
    × (payload (heap 0) ≡ codes "uvw")
receive_leftovers_example =
    receive_leftovers net 0 0 [] sender (1 ∷ []) 0 (codes "xyz" ∷ []) (codes "uv") (codes "w" ∷ [])
      (start three_parts) quiet parts_arrive (omega arith) refl ((omega arith, tt), (tt, tt))
      (part-IsReady, omega arith, tt) label-IsReady (omega arith)
