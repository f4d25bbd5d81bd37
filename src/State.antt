-- ===== src/State.antt =====
-- The state of one process: the objects of the classes Port, Hub, Peer and Interface, and the heaps of
-- messages and ports that are shared by pointer.
use dpn.Prelude.{ℕ, List, Bytes, ◌≡◌, update, fun_ext, arith}
use dpn.Exec.{Exec, Outcome, done, raised}
use dpn.Message.{Message}
use dpn.Label.{Label}
use dpn.Names.{Transport}

-- Port.hpp. `null_message` is the content of `nullMessage_`.
pub record Port : Type 0 where
  pub port_name : Bytes
  pub transport : Transport
  pub socket : ℕ
  pub null_message : Bytes
  pub connections : List Bytes
  pub bindings : List Bytes

-- Hub.hpp. `ports` maps a port id to the place of the port in the heap.
pub record Hub : Type 0 where
  pub hub_name : Bytes
  pub ports : List (ℕ × ℕ)
  pub poll_port_id : ℕ
  pub poll_event_flags : ℕ

-- The subclasses of Interface, and the user's object whose virtual functions handle the messages.
pub data InterfaceKind : Type 0 where
  pull reply subscription : InterfaceKind

pub record Interface : Type 0 where
  pub kind : InterfaceKind
  pub object : ℕ

-- Peer.hpp. The two messages are places in the heap of messages.
pub record Peer : Type 0 where
  pub peer_id : ℕ
  pub label_message : ℕ
  pub recv_message : ℕ
  pub recv_package : List ℕ
  pub message_id : ℕ
  pub interface_map : List (ℕ × Interface)
  pub pub_map : List (ℕ × List Label)

pub record State (W : Type 0) : Type 0 where
  pub messages : ℕ → Message
  pub ports : ℕ → Port
  pub next_port : ℕ
  pub hub : Hub
  pub peer : Peer
  pub world : W

module _ {W : Type 0} where
  abbrev pub set_message : ℕ → Message → State W → State W
  set_message h m s = record s { messages = update s.messages h m }

  abbrev pub set_port : ℕ → Port → State W → State W
  set_port p port s = record s { ports = update s.ports p port }

  abbrev pub set_hub : Hub → State W → State W
  set_hub hub s = record s { hub = hub }

  abbrev pub set_peer : Peer → State W → State W
  set_peer peer s = record s { peer = peer }

  abbrev pub with_world : {A : Type 0} → State W → Outcome W A → Outcome (State W) A
  with_world s (done a w) = done a (record s { world = w })
  with_world s (raised e w) = raised e (record s { world = w })

  -- A call of the transport library.
  abbrev pub on_world : {A : Type 0} → Exec W A → Exec (State W) A
  on_world m s = with_world s (m s.world)

pub update-update {ℓ} :
    {A : Type ℓ} (f : ℕ → A) (p : ℕ) (a b : A) → update (update f p a) p b ≡ update f p b
update-update f p a b = fun_ext λ q. ground arith

pub update_self {ℓ} : {A : Type ℓ} (f : ℕ → A) (p : ℕ) → update f p (f p) ≡ f
update_self f p = fun_ext λ q. ground arith

module _ {W : Type 0} where
  pub set_message_twice :
      (h : ℕ) (a b : Message) (s : State W)
      → set_message h b (set_message h a s) ≡ set_message h b s
  set_message_twice h a b s = λ i. record s { messages = update-update s.messages h a b i }
