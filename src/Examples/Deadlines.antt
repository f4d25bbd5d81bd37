-- ===== src/Examples/Deadlines.antt =====
-- A request that is waited for until its time is up, in a network whose poller reports one port.
use dpn.Prelude.{
  ℕ, suc, ◌-◌, ◌≤◌, ◌≡◌, refl, ap, Bool, true, false, [], ◌∷◌, List, Bytes, arith, length, ltb,
  Option, none, some, All,
}
use dpn.Prelude.Int.{pos, leb_ℤ, ◌-ℤ◌}
use mathlib.Core.Path.{subst}
use dpn.Exec.{Outcome, done, raised}
use dpn.Zmq.{Zmq}
use dpn.Peer.{request_loop}
use dpn.Peer.Budget.{Deadline}
use dpn.Peer.Rounds.{HasPorts}
use dpn.Peer.Waiting.{Concludes, request_loop_ends}
use dpn.Examples.{Net, net, start}
use dpn.Examples.Services.{arrived}

abbrev reported : List (ℕ × ℕ) → Net → Outcome Net (List (ℕ × ℕ))
reported [] w = done [] w
reported ((id, seen) ∷ es) w = done ((1, seen) ∷ []) (record w { events = es })

abbrev one_port : Zmq Net
one_port = record net { poller_wait = λ timeout w. reported w.events w }

-- The frames that have arrived, and one for the time, which is up after ten readings of the clock.
abbrev budget_at : Bool → Net → ℕ
budget_at true w = 0
budget_at false w = suc (length w.incoming)

abbrev budget : Net → ℕ
budget w = budget_at (ltb 10 w.time) w

abbrev IsOne : ℕ → Type 0
IsOne id = id ≡ 1

budget_same : (b : Bool) (w v : Net) → v.incoming ≡ w.incoming → budget_at b v ≤ budget_at b w
budget_same true w v e = omega arith
budget_same false w v e = omega (arith, ap length e)

budget_fewer :
    (b : Bool) (w : Net) (f : Bytes × Bool) (fs : List (Bytes × Bool))
    → w.incoming ≡ f ∷ fs
    → budget_at b (record w { incoming = fs }) ≤ budget_at b w - 1
budget_fewer true w f fs e = omega arith
budget_fewer false w f fs e = rw e (omega arith)

abbrev UsedAfter : Net → Outcome Net (Option (Bytes × Bool)) → Type 0
UsedAfter w (done none v) = budget v ≤ budget w
UsedAfter w (done (some f) v) = budget v ≤ budget w - 1
UsedAfter w (raised e v) = Unit

recv_uses :
    (fs : List (Bytes × Bool)) (w : Net)
    → w.incoming ≡ fs
    → UsedAfter w (elim fs as (λ _. Outcome Net (Option (Bytes × Bool))) [
      | [] ↦ done none w
      | g ∷ gs ↦ done (some g) (record w { incoming = gs })
    ])
recv_uses [] w e = budget_same (ltb 10 w.time) w w refl
recv_uses (f ∷ fs) w e = budget_fewer (ltb 10 w.time) w f fs e

abbrev ReportedAfter : Net → Outcome Net (List (ℕ × ℕ)) → Type 0
ReportedAfter w (done es u) = (budget u ≤ budget w) × All (λ e. IsOne e.0) es
ReportedAfter w (raised x u) = Unit

reported_one : (es : List (ℕ × ℕ)) (w : Net) → ReportedAfter w (reported es w)
reported_one [] w = (budget_same (ltb 10 w.time) w w refl, tt)
reported_one ((id, seen) ∷ es) w =
    (budget_same (ltb 10 w.time) w (record w { events = es }) refl, (refl, tt))

clock_keeps : (w : Net) → budget (record w { time = suc w.time }) ≤ budget w
clock_keeps w = ground arith

out_of_time : (w : Net) → budget w ≡ 0 → leb_ℤ (pos w.time -ℤ pos 0) (pos 10) ≡ false
out_of_time w e = ground (arith, e)

ten-Deadline : Deadline one_port budget IsOne (pos 0) (pos 10)
unfolding net
ten-Deadline = record {
  hands_over = λ socket flags f w v e. subst (UsedAfter w) e (recv_uses w.incoming w refl);
  would_block = λ socket flags w v e. subst (UsedAfter w) e (recv_uses w.incoming w refl);
  modifies = λ socket flags w v e.
      let same : w ≡ v = cc in
      subst (λ u. budget u ≤ budget w) same (budget_same (ltb 10 w.time) w w refl);
  waits = λ timeout events w v e. subst (ReportedAfter w) e (reported_one w.events w);
  reads = λ w. clock_keeps w;
  late = λ w e. out_of_time w e;
}

port_one : HasPorts one_port budget IsOne (pos 0) (pos 10) ten-Deadline (start (arrived 8))
port_one id e = (0, rw e refl)

request_loop_ends_example :
    Concludes one_port budget IsOne
      (pos 0)
      (pos 10)
      ten-Deadline
      (request_loop one_port 7 (1 ∷ []) (pos 0) (pos 10) (pos 10) (pos 10) (start (arrived 8)))
request_loop_ends_example =
    request_loop_ends one_port budget IsOne (pos 0) (pos 10) ten-Deadline 7 (1 ∷ []) (pos 10)
      (pos 10) (start (arrived 8)) port_one (omega arith)
