-- ===== src/Peer/Waiting.antt =====
-- The loop of Peer::RequestImpl and its endings.
use mathlib.Core.Path.{subst}
use dpn.Prelude.{
  ℕ, zero, suc, ◌+◌, ◌-◌, ◌≤◌, ◌≡◌, refl, sym, ap, ◌∙◌, false, Bool-cases, some, Option, ◌⊎◌, inl,
  inr, List, arith, find, ◌==◌, ==_iff,
}
use dpn.Prelude.Int.{ℤ, leb_ℤ, ◌-ℤ◌}
use dpn.Exec.{
  Error, Outcome, Outcome-cases, done, raised, is_caught, undefined, aborted, invalid_argument,
  out_of_range, runtime_error, exception, zmq_error,
}
use dpn.Zmq.{Zmq}
use dpn.State.{State}
use dpn.Peer.{Ending, matched, interrupted, expired, request_loop, poll, load_label, pollin}
use dpn.Peer.Budget.{Deadline}
use dpn.Peer.Requests.{
  ticked, loop_expired, loop_interrupted, loop_faulted, loop_matched, loop_again,
}
use dpn.Peer.Rounds.{HasPorts, poll-Used}

uncaught : (e : Error) → is_caught e ≡ false → (e ≡ undefined) ⊎ (e ≡ aborted)
uncaught undefined k = inl refl
uncaught aborted k = inr refl
uncaught invalid_argument k = cc
uncaught out_of_range k = cc
uncaught runtime_error k = cc
uncaught exception k = cc
uncaught (zmq_error errno) k = cc

module _ {W : Type 0} (zmq : Zmq W) where
  -- What an ending says: after a match the label message holds a header with the peer's message id.
  abbrev pub Explains : Ending → State W → Type 0
  Explains matched t = (load_label zmq t).message_id ≡ t.peer.message_id
  Explains interrupted t = Unit
  Explains expired t = Unit

  module _ (budget : W → ℕ) (registered : ℕ → Type 0) (start timeout : ℤ)
      (deadline : Deadline zmq budget registered start timeout) where
    -- What a wait comes to: an ending, or a fault that nothing catches.
    abbrev pub Concludes : Outcome (State W) (Option Ending) → Type 0
    Concludes o =
        ((ending : Ending) × (t : State W) × (o ≡ done (some ending) t) × Explains ending t)
        ⊎ ((e : Error) × (t : State W) × (o ≡ raised e t) × ((e ≡ undefined) ⊎ (e ≡ aborted)))

    -- Fuel for the frames that are left, or for a round that finds the time is up.
    abbrev Enough : ℕ → ℤ → State W → Type 0
    Enough fuel elapsed s =
        (budget s.world + 2 ≤ fuel) ⊎ ((1 ≤ fuel) × (leb_ℤ elapsed timeout ≡ false))

    next_Enough :
        (fuel : ℕ) (s t : State W)
        → budget s.world + 2 ≤ suc fuel
        → budget t.world ≤ budget s.world - 1
        → Enough fuel ((zmq.now t.world).0 -ℤ start) (ticked zmq t)
    next_Enough fuel s t h used = elim (Bool-cases (budget t.world == 0)) [
      | inl none_left ↦
          inr (omega arith, deadline.late t.world ((==_iff (budget t.world) 0).0 none_left))
      | inr some_left ↦
          let less = deadline.reads t.world in
          let positive : ¬ (budget t.world ≡ 0) = λ k. ground (arith, some_left, k) in
          inl (omega arith)
    ]

    loop-Concludes :
        (fuel : ℕ) (hs : List ℕ) (elapsed wait : ℤ) (s : State W)
        → HasPorts zmq budget registered start timeout deadline s
        → Enough fuel elapsed s
        → Concludes (request_loop zmq fuel hs start timeout elapsed wait s)
    loop-Concludes zero hs elapsed wait s has (inl h) = absurd (omega arith)
    loop-Concludes zero hs elapsed wait s has (inr (h, late)) = absurd (omega arith)
    loop-Concludes (suc fuel) hs elapsed wait s has (inr (h, late)) =
        inl (expired, s, loop_expired zmq fuel hs start timeout elapsed wait s s late, tt)
    loop-Concludes (suc fuel) hs elapsed wait s has (inl h) =
        elim (Bool-cases (leb_ℤ elapsed timeout)) [
          | inr late ↦
              inl (expired, s, loop_expired zmq fuel hs start timeout elapsed wait s s late, tt)
          | inl early ↦ elim (Outcome-cases (poll zmq hs pollin wait s)) [
            | inr (e, t, p) ↦ elim (Bool-cases (is_caught e)) [
              | inl caught ↦ inl (
                interrupted,
                t,
                loop_interrupted zmq fuel hs start timeout elapsed wait s t e early p caught,
                tt,
              )
              | inr fault ↦ inr (
                e,
                t,
                loop_faulted zmq fuel hs start timeout elapsed wait s t e early p fault,
                uncaught e fault,
              )
            ]
            | inl (_, t, p) ↦
                elim (Bool-cases ((load_label zmq t).message_id == t.peer.message_id)) [
                  | inl id ↦ inl (
                    matched,
                    t,
                    loop_matched zmq fuel hs start timeout elapsed wait s t early p id,
                    (==_iff _ _).0 id,
                  )
                  | inr other ↦
                      let (ports, used) =
                        poll-Used zmq budget registered start timeout deadline hs wait s t has p in
                      let left = next_Enough fuel s t h used in
                      let time = (zmq.now t.world).0 -ℤ start in
                      subst Concludes
                        (sym (loop_again zmq fuel hs start timeout elapsed wait s t early p other))
                        (loop-Concludes fuel hs time (timeout -ℤ time) (ticked zmq t)
                          (λ id r. let (q, found) = has id r in (q, ap (find id) ports ∙ found))
                          left)
                ]
          ]
        ]

    -- When the poller reports only ports that the hub has, and no more than `budget` frames can be handed
    -- over before the clock is past the deadline, then fuel for two rounds more than the budget is enough,
    -- whatever arrives: the wait of a request ends, and if it ends by a match then the label message holds
    -- a header with the id of the request; or a reception runs into undefined behaviour or a failed
    -- `assert`, which is not caught.
    pub request_loop_ends :
        (fuel : ℕ) (hs : List ℕ) (elapsed wait : ℤ) (s : State W)
        → HasPorts zmq budget registered start timeout deadline s
        → budget s.world + 2 ≤ fuel
        → Concludes (request_loop zmq fuel hs start timeout elapsed wait s)
    request_loop_ends fuel hs elapsed wait s has h =
        loop-Concludes fuel hs elapsed wait s has (inl h)
