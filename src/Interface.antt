-- ===== src/Interface.antt =====
-- dpn/interface: the three kinds of interfaces, and Peer::ServiceInterfaces, which calls them. What a
-- user's class does in its virtual functions is a parameter.
pub mod Dispatch
pub mod Delivery
pub mod Answering
pub mod Enrolling
use dpn.Prelude.{ℕ, ◌≡◌, Option, none, some, List, find}
use dpn.Prelude.Int.{ℤ}
use dpn.Exec.{Exec, pure, gets, attempt, ◌>>=◌, ◌>>◌}
use dpn.Label.{Label, src, dest, swap, get_interface_id}
use dpn.Zmq.{Zmq}
use dpn.State.{State, Interface, InterfaceKind, pull, reply, subscription}
use dpn.Peer

-- ReplyStatus and SubscriptionStatus
pub data Status : Type 0 where
  pass fail : Status

-- The virtual functions of the object with a number. The label is passed by reference: its new value is
-- returned.
pub record Handlers (W : Type 0) : Type 0 where
  pub handle_pull : ℕ → Label → List ℕ → Exec (State W) Label
  pub handle_reply : ℕ → Label → List ℕ → Exec (State W) (Label × Status × List ℕ)
  pub handle_subscription : ℕ → Label → List ℕ → Exec (State W) (Label × Status)

module _ {W : Type 0} (zmq : Zmq W) (user : Handlers W) where
  -- ReplyInterface: the answer goes back to where the request came from.
  abbrev pub answer : Label × Status × List ℕ → Exec (State W) (Unit {0})
  answer (label, pass, messages) = Peer.push zmq (swap label) messages >>= λ _. pure tt
  answer (label, fail, messages) = pure tt

  -- SubscriptionInterface
  abbrev pub enrol : Label × Status → Exec (State W) (Unit {0})
  enrol (label, pass) = Peer.subscribe zmq (swap label)
  enrol (label, fail) = pure tt

  abbrev pub handle_as : InterfaceKind → ℕ → Label → List ℕ → Exec (State W) (Unit {0})
  handle_as pull object label messages = user.handle_pull object label messages >>= λ _. pure tt
  handle_as reply object label messages = user.handle_reply object label messages >>= answer
  handle_as subscription object label messages =
      user.handle_subscription object label messages >>= enrol

  unfoldable pub handle_incoming_message : Interface → Label → List ℕ → Exec (State W) (Unit {0})
  handle_incoming_message i label messages = handle_as i.kind i.object label messages

  abbrev pub forward : Option Interface → Label → Exec (State W) (Unit {0})
  forward none label = pure tt
  forward (some i) label = do
    messages ← gets (λ s. s.peer.recv_package)
    handle_incoming_message i label messages

  abbrev pub service : Option Label → Exec (State W) (Unit {0})
  service none = pure tt
  service (some label) = do
    interface ← gets (λ s. find (get_interface_id label dest) s.peer.interface_map)
    forward interface label

  unfoldable pub service_interfaces : ℤ → Exec (State W) (Unit {0})
  service_interfaces timeout = do
    messages ← gets (λ s. s.peer.recv_package)
    pending ← attempt (Peer.get_pending_package zmq messages timeout)
    service pending
