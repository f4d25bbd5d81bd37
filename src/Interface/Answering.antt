-- ===== src/Interface/Answering.antt =====
-- A request and its answer: Peer::Push and Peer::RequestImpl in one peer, Peer::ServiceInterfaces and
-- ReplyInterface in the other.
use dpn.Prelude.{
  ℕ, suc, ◌+◌, ◌%◌, ◌^◌, ◌<◌, ◌≡◌, ap, ◌∙◌, ◌⊎◌, inl, inr, true, false, some, List, find, arith,
  ◌==◌, ==_iff, Bool-cases,
}
use dpn.Prelude.Int.{ℤ, leb_ℤ, ◌-ℤ◌}
use dpn.Exec.{done, >>=-done}
use dpn.Label.{Label, swap, src, dest, get_interface_id}
use dpn.Zmq.{Zmq}
use dpn.State.{State, reply}
use dpn.Port.Copy.{Hold}
use dpn.Port.Send.{payloads}
use dpn.Peer.{next_id, push, stamp, request_loop, matched}
use dpn.Peer.Publishing.{pushed}
use dpn.Peer.Sending.{Sends, sent_frames, sent_label, push-Sends, poll-Sends}
use dpn.Peer.Delivery.{source_port}
use dpn.Peer.Arrival.{Arrives, taken}
use dpn.Peer.Requests.{loop_matched, loop_again, ticked}
use dpn.Interface.{Handlers, pass, handle_incoming_message, service_interfaces}
use dpn.Interface.Delivery.{push-service_interfaces}

module _ {W : Type 0} (zmq : Zmq W) where
  -- A header that was sent after one increment of a counter, against another counter after one.
  same_id :
      (m n : ℕ)
      → m < 2 ^ 32
      → n < 2 ^ 32
      → (((m ≡ n) × (((m + 1) % 2 ^ 32) == ((n + 1) % 2 ^ 32) ≡ true))
          ⊎ ((¬ (m ≡ n)) × (((m + 1) % 2 ^ 32) == ((n + 1) % 2 ^ 32) ≡ false)))
  same_id m n lt lt' = elim (Bool-cases (((m + 1) % 2 ^ 32) == ((n + 1) % 2 ^ 32))) [
    | inl e ↦ inl (let k = (==_iff _ _).0 e in omega arith, e)
    | inr e ↦ inr (λ k. ground (arith, e, k), e)
  ]

  -- One round of the wait for an answer, in which a package from another peer arrives in time.
  loop-Arrives :
      (fuel : ℕ) (gs : List ℕ) (start timeout elapsed wait : ℤ) (label : Label) (hs : List ℕ)
      (p : ℕ) (v : W) (b a : State W) (port q : ℕ) (x : W)
      → leb_ℤ elapsed timeout ≡ true
      → Sends zmq label hs p b v
      → (r : Arrives zmq wait port q
          (source_port (stamp zmq b label).contents)
          (sent_frames zmq label hs b)
          gs
          a
          x)
      → ((next_id zmq b == a.peer.message_id ≡ true)
          → request_loop zmq (suc fuel) gs start timeout elapsed wait a
            ≡ done
                (some matched)
                (taken zmq port r.notified.seen gs (sent_frames zmq label hs b) x a))
        × ((next_id zmq b == a.peer.message_id ≡ false)
            → request_loop zmq (suc fuel) gs start timeout elapsed wait a
              ≡ request_loop zmq fuel gs start timeout
                  ((zmq.now x).0 -ℤ start)
                  (timeout -ℤ ((zmq.now x).0 -ℤ start))
                  (ticked zmq (taken zmq port r.notified.seen gs (sent_frames zmq label hs b) x a)))
        × Hold
            (taken zmq port r.notified.seen gs (sent_frames zmq label hs b) x a).messages
            gs
            (payloads b.messages hs)
  loop-Arrives fuel gs start timeout elapsed wait label hs p v b a port q x early s r =
      let t = taken zmq port r.notified.seen gs (sent_frames zmq label hs b) x a in
      let (run, read, hold) = poll-Sends zmq label hs p b v s wait port q gs a x r in
      let id = ap (λ (c : dpn.Label.Contents). c.message_id == a.peer.message_id) read in
      (
        λ e. loop_matched zmq fuel gs start timeout elapsed wait a t early run (id ∙ e),
        λ e. loop_again zmq fuel gs start timeout elapsed wait a t early run (id ∙ e),
        hold,
      )

  -- A request that a peer `a` pushes to a reply interface of a peer `b`, and its answer, when both
  -- packages can be pushed and arrive: `b` services the request, its handler, which accepts it and leaves
  -- the message id alone, is given the label of the request and its package, and what it answers is
  -- pushed; and when `a`, which waits and whose time is not up, polls next, its messages hold the answer.
  -- If the message ids of `a` and `b` were equal before, then the wait ends with a match; if they were
  -- not, then the answer is dropped and the wait goes on.
  pub request-service_interfaces :
      (user : Handlers W) (label handled : Label) (hs answer gs : List ℕ) (p p' q q' : ℕ)
      (a b b' : State W) (object : ℕ) (patience : ℤ) (port port' : ℕ) (v x v' x' : W) (fuel : ℕ)
      (start timeout elapsed wait : ℤ)
      → Sends zmq label hs p a v
      → (r : Arrives zmq patience port q
          (source_port (stamp zmq a label).contents)
          (sent_frames zmq label hs a)
          b.peer.recv_package
          (record b { world = v })
          x)
      → find (get_interface_id label dest) b.peer.interface_map
        ≡ some (record { kind = reply; object = object })
      → user.handle_reply object
          (sent_label zmq label a)
          b.peer.recv_package
          (taken zmq port r.notified.seen b.peer.recv_package (sent_frames zmq label hs a) x b)
        ≡ done (handled, pass, answer) b'
      → b'.peer.message_id ≡ b.peer.message_id
      → Sends zmq (swap handled) answer p' b' v'
      → (r' : Arrives zmq wait port' q'
          (source_port (stamp zmq b' (swap handled)).contents)
          (sent_frames zmq (swap handled) answer b')
          gs
          (record (pushed zmq label hs v a) { world = v' })
          x')
      → leb_ℤ elapsed timeout ≡ true
      → a.peer.message_id < 2 ^ 32
      → b.peer.message_id < 2 ^ 32
      → (t : State W) × (push zmq label hs a ≡ done (stamp zmq a label) (pushed zmq label hs v a))
        × (service_interfaces zmq user patience (record b { world = v })
            ≡ done tt (pushed zmq (swap handled) answer v' b'))
        × Hold t.messages gs (payloads b'.messages answer)
        × (((a.peer.message_id ≡ b.peer.message_id)
              × (request_loop zmq
                    (suc fuel)
                    gs
                    start
                    timeout
                    elapsed
                    wait
                    (record (pushed zmq label hs v a) { world = v' })
                  ≡ done (some matched) t))
            ⊎ ((¬ (a.peer.message_id ≡ b.peer.message_id))
                × (request_loop zmq
                      (suc fuel)
                      gs
                      start
                      timeout
                      elapsed
                      wait
                      (record (pushed zmq label hs v a) { world = v' })
                    ≡ request_loop zmq fuel gs start timeout
                        ((zmq.now x').0 -ℤ start)
                        (timeout -ℤ ((zmq.now x').0 -ℤ start))
                        (ticked zmq t))))
  unfolding next_id handle_incoming_message
  request-service_interfaces user label handled hs answer gs p p' q q' a b b' object patience port
        port' v x v' x' fuel start timeout elapsed wait s r known handles kept s' r' early lt lt' =
      let (sent, serviced, _) =
        push-service_interfaces zmq user label hs p a b (record { kind = reply; object = object })
          patience port q v x s r known in
      let asker = record (pushed zmq label hs v a) { world = v' } in
      let (match, again, hold) =
        loop-Arrives fuel gs start timeout elapsed wait (swap handled) answer p' v' b' asker port'
          q' x' early s' r' in
      (
        taken zmq port' r'.notified.seen gs (sent_frames zmq (swap handled) answer b') x' asker,
        sent,
        serviced
            ∙ >>=-done (user.handle_reply object (sent_label zmq label a) b.peer.recv_package) _
                (taken zmq port r.notified.seen b.peer.recv_package (sent_frames zmq label hs a) x
                  b)
                handles
            ∙ >>=-done (push zmq (swap handled) answer) _ b'
                (push-Sends zmq (swap handled) answer p' b' v' s'),
        hold,
        elim (same_id b'.peer.message_id a.peer.message_id (omega arith) lt) [
          | inl (e, k) ↦ inl (omega arith, match k)
          | inr (ne, k) ↦ inr (λ e. ne (omega arith), again k)
        ],
      )
