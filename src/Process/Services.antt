-- ===== src/Process/Services.antt =====
-- Peer::ServiceInterfaces keeps a process sound when the handlers of the interfaces do.
use dpn.Prelude.{ℕ, Option, none, some, List, find, Bool, true, false, if◌then◌else◌}
use dpn.Prelude.Int.{ℤ}
use dpn.Exec.{Exec, Error, pure, attempt, is_caught, Outcome, done, raised, state}
use dpn.Exec.Keeps.{Keeps, >>=-Keeps}
use dpn.Label.{Label, swap, get_interface_id, dest}
use dpn.Zmq.{Zmq}
use dpn.State.{Interface, InterfaceKind, pull, reply, subscription}
use dpn.Peer
use dpn.Interface.{Handlers, Status, pass, fail, handle_incoming_message, service_interfaces}
use dpn.Process.{IsSound, Conforms, Respectful}
use dpn.Process.Peers.{get_pending_package-Keeps, push-Keeps, subscribe-Keeps}

module _ {S : Type 0} (P : S → Type 0) where
  passed :
      (A : Type 0) (caught : Bool) (e : Error) (t : S)
      → P t
      → P (state {S = S} {A = Option A} (if caught then done none t else raised e t))
  passed A true e t r = r
  passed A false e t r = r

  -- A caught exception leaves the state that it was thrown in.
  attempt-Keeps : {A : Type 0} (m : Exec S A) → Keeps P m → Keeps P (attempt m)
  attempt-Keeps {A = A} m k s p = go (m s) (k s p)
    where
      go : (o : Outcome S A) → P (state o) → P (state (attempt (λ _. o) s))
      go (done a t) r = r
      go (raised e t) r = passed A (is_caught e) e t r

module _ {W : Type 0} (zmq : Zmq W) (conforms : Conforms zmq) (user : Handlers W)
    (respectful : Respectful user) where
  handle-Keeps :
      (i : Interface) (label : Label) (hs : List ℕ)
      → Keeps IsSound (handle_incoming_message zmq user i label hs)
  unfolding handle_incoming_message
  handle-Keeps i label hs = go i.kind
    where
      answered :
          (status : Label × Status × List ℕ) → Keeps IsSound (dpn.Interface.answer zmq user status)
      answered (l, pass, gs) t r =
          >>=-Keeps IsSound (Peer.push zmq (swap l) gs) (λ _. pure tt)
            (push-Keeps zmq conforms (swap l) gs) (λ _ u q. q) t r
      answered (l, fail, gs) t r = r

      enrolled : (status : Label × Status) → Keeps IsSound (dpn.Interface.enrol zmq user status)
      enrolled (l, pass) t r = subscribe-Keeps zmq (swap l) t r
      enrolled (l, fail) t r = r

      go :
          (k : InterfaceKind) → Keeps IsSound (dpn.Interface.handle_as zmq user k i.object label hs)
      go pull =
          >>=-Keeps IsSound (user.handle_pull i.object label hs) (λ _. pure tt)
            (respectful.pull i.object label hs) (λ _ t r. r)
      go reply =
          >>=-Keeps IsSound (user.handle_reply i.object label hs) _
            (respectful.reply i.object label hs) answered
      go subscription =
          >>=-Keeps IsSound (user.handle_subscription i.object label hs) _
            (respectful.subscription i.object label hs) enrolled

  forward-Keeps :
      (o : Option Interface) (label : Label)
      → Keeps IsSound (dpn.Interface.forward zmq user o label)
  forward-Keeps none label s i = i
  forward-Keeps (some j) label s i = handle-Keeps j label s.peer.recv_package s i

  service-Keeps : (o : Option Label) → Keeps IsSound (dpn.Interface.service zmq user o)
  service-Keeps none s i = i
  service-Keeps (some label) s i =
      forward-Keeps (find (get_interface_id label dest) s.peer.interface_map) label s i

  pub service_interfaces-Keeps : (timeout : ℤ) → Keeps IsSound (service_interfaces zmq user timeout)
  unfolding service_interfaces
  service_interfaces-Keeps timeout s i =
      >>=-Keeps IsSound (attempt (Peer.get_pending_package zmq s.peer.recv_package timeout)) _
        (attempt-Keeps IsSound (Peer.get_pending_package zmq s.peer.recv_package timeout)
          (get_pending_package-Keeps zmq conforms s.peer.recv_package timeout))
        service-Keeps s i
