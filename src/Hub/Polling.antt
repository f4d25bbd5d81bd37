-- ===== src/Hub/Polling.antt =====
-- Hub::Poll
use dpn.Prelude.{ℕ, ◌≡◌, refl, List, [], ◌∷◌, ◌++◌, arith}
use dpn.Prelude.Int.{ℤ}
use dpn.Exec.{done, raised, runtime_error}
use dpn.Zmq.{Zmq}
use dpn.State.{State, set_hub}
use dpn.Hub.{poll, arm, handle_events}

module _ {W : Type 0} (zmq : Zmq W) where
  -- The hub whose last event is `(id, flags)`.
  abbrev pub saw : ℕ → ℕ → State W → State W
  saw id flags s = set_hub (record s.hub { poll_port_id = id; poll_event_flags = flags }) s

  handle_last :
      (events : List (ℕ × ℕ)) (id flags : ℕ) (s : State W)
      → handle_events zmq (events ++ (id, flags) ∷ []) s ≡ done tt (saw id flags s)
  unfolding handle_events
  handle_last [] id flags s = refl
  handle_last ((i, f) ∷ events) id flags s = handle_last events id flags (saw i f s)

  -- A poll that set the flags of every port and in which the poller reports events returns the last
  -- of them, and the earlier ones leave no trace.
  pub poll_last :
      (flags : ℕ) (timeout : ℤ) (events : List (ℕ × ℕ)) (id seen : ℕ) (s t : State W) (w : W)
      → arm zmq s.hub.ports flags s ≡ done tt t
      → zmq.poller_wait timeout t.world ≡ done (events ++ (id, seen) ∷ []) w
      → poll zmq flags timeout s ≡ done (id, seen) (saw id seen (record t { world = w }))
  unfolding poll
  poll_last flags timeout [] id seen s t w armed e = ground (arith, armed, e)
  poll_last flags timeout (x ∷ events) id seen s t w armed e =
      ground (arith, armed, e, handle_last (x ∷ events) id seen (record t { world = w }))

  -- A poll in which the poller reports no event throws, and the hub keeps the event it saw last.
  poll_timeout :
      (flags : ℕ) (timeout : ℤ) (s t : State W) (w : W)
      → arm zmq s.hub.ports flags s ≡ done tt t
      → zmq.poller_wait timeout t.world ≡ done [] w
      → poll zmq flags timeout s ≡ raised runtime_error (record t { world = w })
  unfolding poll
  poll_timeout flags timeout s t w armed e = ground (arith, armed, e)
