-- ===== src/Zmq.antt =====
-- The transport library behind the ports, which is not part of the repository: the calls of ZeroMQ
-- sockets and pollers that Port.cpp and Hub.cpp make, as a parameter of the model. `W` is the state of
-- the library and of the network. A socket is a number; flags are numbers; a call that throws
-- `zmq::error_t` raises `zmq_error`.
use dpn.Prelude.{ℕ, zero, suc, ◌≡◌, Bool, true, false, Option, some, List, [], ◌∷◌, Bytes}
use dpn.Prelude.Int.{ℤ}
use dpn.Exec.{Exec, done}

-- `sent n`: the frame was taken, and the `zmq::message_t` holds `n` bytes after the call; `again`: the
-- call would block (an empty `send_result_t`).
pub data SendResult : Type 0 where
  sent : ℕ → SendResult
  again : SendResult

pub record Zmq (W : Type 0) : Type 0 where
  -- zmq::socket_t(context, zmq::socket_type::router)
  pub open_router : ℕ → Exec W ℕ
  pub set_routing_id : ℕ → Bytes → Exec W (Unit {0})
  pub set_router_mandatory : ℕ → Bool → Exec W (Unit {0})
  pub bind : ℕ → Bytes → Exec W (Unit {0})
  pub unbind : ℕ → Bytes → Exec W (Unit {0})
  pub connect : ℕ → Bytes → Exec W (Unit {0})
  pub disconnect : ℕ → Bytes → Exec W (Unit {0})
  -- close() does not throw.
  pub close : ℕ → W → W
  -- A frame, whether ZMQ_SNDMORE is set, and the other flags.
  pub send : ℕ → Bytes → Bool → ℕ → Exec W SendResult
  -- A frame and its more(); `none` when the call would block.
  pub recv : ℕ → ℕ → Exec W (Option (Bytes × Bool))
  -- active_poller_t: the handler that is registered is known by the port id that it captured.
  pub poller_add : ℕ → ℕ → ℕ → Exec W (Unit {0})
  pub poller_modify : ℕ → ℕ → Exec W (Unit {0})
  pub poller_remove : ℕ → Exec W (Unit {0})
  -- wait(timeout): the handlers that it calls, in order, each with the event flags it is given.
  pub poller_wait : ℤ → Exec W (List (ℕ × ℕ))
  -- system_clock::now() in milliseconds.
  pub now : W → ℤ × W

-- A list with more elements behind the one at hand.
abbrev pub has_more {ℓ} : {A : Type ℓ} → List A → Bool
has_more [] = false
has_more (x ∷ xs) = true

module _ {W : Type 0} (zmq : Zmq W) where
  -- The socket takes these frames, one for each call, all but the last with ZMQ_SNDMORE, from the world
  -- `w` to `w'`; as ZeroMQ's manual has it, a call that succeeds leaves the message empty.
  abbrev pub Takes : ℕ → ℕ → W → List Bytes → W → Type 0
  Takes socket flags w [] w' = w ≡ w'
  Takes socket flags w (f ∷ fs) w' =
      (v : W) × (zmq.send socket f (has_more fs) flags w ≡ done (sent 0) v)
      × Takes socket flags v fs w'

  -- The socket hands over these frames, one for each call, all but the last with more() set.
  abbrev pub Delivers : ℕ → ℕ → W → List Bytes → W → Type 0
  Delivers socket flags w [] w' = ⊥
  Delivers socket flags w (f ∷ []) w' = zmq.recv socket flags w ≡ done (some (f, false)) w'
  Delivers socket flags w (f ∷ g ∷ fs) w' =
      (v : W) × (zmq.recv socket flags w ≡ done (some (f, true)) v)
      × Delivers socket flags v (g ∷ fs) w'

  -- The socket has more frames than `n`: the first `n` of them leave the world `w'`.
  abbrev pub Overflows : ℕ → ℕ → W → ℕ → W → Type 0
  Overflows socket flags w zero w' = w ≡ w'
  Overflows socket flags w (suc n) w' =
      (f : Bytes) × (v : W) × (zmq.recv socket flags w ≡ done (some (f, true)) v)
      × Overflows socket flags v n w'
