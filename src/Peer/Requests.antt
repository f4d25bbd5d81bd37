-- ===== src/Peer/Requests.antt =====
-- Peer::Request: which message ends the wait.
use dpn.Prelude.{ℕ, suc, ◌^◌, ◌<◌, ◌≡◌, ◌↔◌, ap, true, false, some, List, arith, ◌==◌}
use dpn.Prelude.Int.{ℤ, leb_ℤ, ◌-ℤ◌}
use dpn.Exec.{Error, done, raised, ◌>>=◌, attempt, is_caught}
use dpn.Label.{Label, Contents, InRange}
use dpn.Zmq.{Zmq}
use dpn.State.{State}
use dpn.Peer.{
  matched, interrupted, expired, request_loop, poll, load_label, next_id, write_header, pollin,
}
use dpn.Peer.Header.{HoldsLabel, load-write_header}

module _ {W : Type 0} (zmq : Zmq W) where
  -- The state after the clock was read.
  abbrev pub ticked : State W → State W
  ticked t = record t { world = (zmq.now t.world).1 }

  -- When one peer writes the header of a request and another the header of a reply, with labels in
  -- range and label messages that have room, both headers are written, and the message id in the
  -- reply's header is the one that the first peer waits for exactly when the counters of the two
  -- peers were equal before.
  pub reply_id_iff :
      (request reply : Label) (asker replier : State W)
      → HoldsLabel (asker.messages asker.peer.label_message)
      → HoldsLabel (replier.messages replier.peer.label_message)
      → InRange request.contents
      → InRange reply.contents
      → asker.peer.message_id < 2 ^ 32
      → replier.peer.message_id < 2 ^ 32
      → (a r : State W) × (write_header zmq request asker ≡ done tt a)
        × (write_header zmq reply replier ≡ done tt r)
        × (((load_label zmq r).message_id ≡ a.peer.message_id)
            ↔ (replier.peer.message_id ≡ asker.peer.message_id))
  unfolding next_id
  reply_id_iff request reply asker replier v v' i i' lt lt' =
      let (a, sent_request, _, waits) = load-write_header zmq request asker v i in
      let (r, sent_reply, header, _) = load-write_header zmq reply replier v' i' in
      let id = ap (λ (c : Contents). c.message_id) header in
      (a, r, sent_request, sent_reply, (λ e. omega arith, λ e. omega arith))

  module _ (fuel : ℕ) (hs : List ℕ) (start timeout elapsed wait : ℤ) (s t : State W) where
    pub loop_expired :
        leb_ℤ elapsed timeout ≡ false
        → request_loop zmq (suc fuel) hs start timeout elapsed wait s ≡ done (some expired) s
    unfolding request_loop
    loop_expired late = rw late

    pub loop_interrupted :
        (e : Error)
        → leb_ℤ elapsed timeout ≡ true
        → poll zmq hs pollin wait s ≡ raised e t
        → is_caught e ≡ true
        → request_loop zmq (suc fuel) hs start timeout elapsed wait s ≡ done (some interrupted) t
    unfolding request_loop
    loop_interrupted e early p caught = rw (early, ◌>>=◌, attempt, p, caught)

    pub loop_faulted :
        (e : Error)
        → leb_ℤ elapsed timeout ≡ true
        → poll zmq hs pollin wait s ≡ raised e t
        → is_caught e ≡ false
        → request_loop zmq (suc fuel) hs start timeout elapsed wait s ≡ raised e t
    unfolding request_loop
    loop_faulted e early p fault = rw (early, ◌>>=◌, attempt, p, fault)

    pub loop_matched :
        leb_ℤ elapsed timeout ≡ true
        → poll zmq hs pollin wait s ≡ done tt t
        → ((load_label zmq t).message_id == t.peer.message_id) ≡ true
        → request_loop zmq (suc fuel) hs start timeout elapsed wait s ≡ done (some matched) t
    unfolding request_loop
    loop_matched early p id = ground (arith, early, p, id)

    pub loop_again :
        leb_ℤ elapsed timeout ≡ true
        → poll zmq hs pollin wait s ≡ done tt t
        → ((load_label zmq t).message_id == t.peer.message_id) ≡ false
        → request_loop zmq (suc fuel) hs start timeout elapsed wait s
          ≡ request_loop zmq fuel hs start timeout
              ((zmq.now t.world).0 -ℤ start)
              (timeout -ℤ ((zmq.now t.world).0 -ℤ start))
              (record t { world = (zmq.now t.world).1 })
    unfolding request_loop
    loop_again early p id = rw (early, ◌>>=◌, attempt, p, id)
