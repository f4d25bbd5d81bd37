-- ===== src/Process/Ports.antt =====
-- The operations of ports and hubs keep a process sound.
use dpn.Prelude.{
  ℕ, zero, suc, ◌≡◌, refl, ap, ◌∙◌, true, false, none, some, Option, List, [], ◌∷◌, Bytes, take,
  update, ==_iff, ◌==◌, Bool, if◌then◌else◌,
}
use dpn.Exec.{Exec, Outcome, done, raised, state, pure, lift, modify, Result, ok, err, ◌>>=◌, ◌>>◌}
use dpn.Exec.Keeps.{Keeps, >>=-Keeps, lift-Keeps, if-state}
use dpn.Names.{port_name_to_socket_id}
use dpn.Zmq.{Zmq}
use dpn.State.{with_world, State, Port, set_port, on_world}
use dpn.Port
use dpn.Port.{Frame, address, null_frame, content, has_name}
use dpn.Process.{IsSound}

pub take-nil : (n : ℕ) → take {A = ℕ} n [] ≡ []
take-nil zero = refl
take-nil (suc n) = refl

-- A port of the heap after another, or it itself, was replaced by one of the same name.
pub port_name-update :
    (ports : ℕ → Port) (p q : ℕ) (port : Port) {n : Bytes}
    → port.port_name ≡ (ports p).port_name
    → (ports q).port_name ≡ n
    → (update ports p port q).port_name ≡ n
port_name-update ports p q port {n = n} name k = go (p == q) refl
  where
    go : (b : Bool) → (p == q) ≡ b → (if b then port else ports q).port_name ≡ n
    go true e = name ∙ ap (λ r. (ports r).port_name) ((==_iff p q).0 e) ∙ k
    go false e = k

pub null_message-update :
    (ports : ℕ → Port) (p q : ℕ) (port : Port)
    → ((ports p).null_message ≡ [] → port.null_message ≡ [])
    → (ports q).null_message ≡ []
    → (update ports p port q).null_message ≡ []
null_message-update ports p q port null k = go (p == q) refl
  where
    go : (b : Bool) → (p == q) ≡ b → (if b then port else ports q).null_message ≡ []
    go true e = null (ap (λ r. (ports r).null_message) ((==_iff p q).0 e) ∙ k)
    go false e = k

module _ {W : Type 0} where
  -- A change of a port that keeps its name, and its null message empty.
  pub set_port-IsSound :
      (p : ℕ) (port : Port) (s : State W)
      → port.port_name ≡ (s.ports p).port_name
      → ((s.ports p).null_message ≡ [] → port.null_message ≡ [])
      → IsSound s
      → IsSound (set_port p port s)
  set_port-IsSound p port s name null i = record {
    valid = i.valid;
    counted = i.counted;
    header = i.header;
    made = i.made;
    named = λ id q e. port_name-update s.ports p q port name (i.named id q e);
    null = λ id q e. null_message-update s.ports p q port null (i.null id q e);
    hub_named = i.hub_named;
    id_range = i.id_range;
  }

-- A predicate that a change of the world does not touch, nor a change of a port that keeps its name, and
-- its null message empty.
pub record Stable {W : Type 0} (P : State W → Type 0) : Type 0 where
  pub world : (s : State W) (w : W) → P s → P (record s { world = w })
  pub port :
      (p : ℕ) (port : Port) (s : State W)
      → port.port_name ≡ (s.ports p).port_name
      → ((s.ports p).null_message ≡ [] → port.null_message ≡ [])
      → P s
      → P (set_port p port s)

module _ {W : Type 0} (P : State W → Type 0) (stable : Stable P) where
  pub on_world-Keeps : {A : Type 0} (m : Exec W A) → Keeps P (on_world m)
  on_world-Keeps {A = A} m s i = go (m s.world)
    where
      go : (o : Outcome W A) → P (state (with_world s o))
      go (done a w) = stable.world s w i
      go (raised e w) = stable.world s w i

  -- A name is made an address, the transport library is called with it, and the port's record is changed.
  linked :
      (p : ℕ) (r : Result Bytes) (call : Bytes → Exec W (Unit {0})) (port : Port) (s : State W)
      → port.port_name ≡ (s.ports p).port_name
      → ((s.ports p).null_message ≡ [] → port.null_message ≡ [])
      → P s
      → P (state ((lift r >>= λ id. (on_world (call id) >> modify (set_port p port))) s))
  linked p (err e) call port s name null i = i
  linked p (ok id) call port s name null i = go (call id s.world)
    where
      go :
          (o : Outcome W (Unit {0}))
          → P (
              state (elim (with_world s o) [
                | done a t ↦ done tt (set_port p port t)
                | raised e t ↦ raised e t
              ]))
      go (done a w) = stable.port p port (record s { world = w }) name null (stable.world s w i)
      go (raised e w) = stable.world s w i

  module _ (zmq : Zmq W) where
    pub close-Keeps : (p : ℕ) → Keeps P (Port.close zmq p)
    unfolding Port.close
    close-Keeps p s i = stable.world s _ i

    pub connect-Keeps : (p : ℕ) (name : Bytes) → Keeps P (Port.connect zmq p name)
    unfolding Port.connect
    connect-Keeps p name s i =
        linked p (port_name_to_socket_id name (s.ports p).transport)
          (zmq.connect (s.ports p).socket) _ s refl (λ n. n) i

    pub disconnect-Keeps : (p : ℕ) (name : Bytes) → Keeps P (Port.disconnect zmq p name)
    unfolding Port.disconnect
    disconnect-Keeps p name s i =
        if-state P (has_name name (s.ports p).connections) _ _ s
          (linked p (port_name_to_socket_id name (s.ports p).transport)
            (zmq.disconnect (s.ports p).socket) _ s refl (λ n. n) i)
          i

    bind-Keeps : (p : ℕ) (name : Bytes) → Keeps P (Port.bind zmq p name)
    unfolding Port.bind
    bind-Keeps p name s i =
        linked p (port_name_to_socket_id (s.ports p).port_name (s.ports p).transport)
          (zmq.bind (s.ports p).socket) _ s refl (λ n. n) i

    pub start-Keeps : (p : ℕ) → Keeps P (Port.start zmq p)
    unfolding Port.start
    start-Keeps p s i =
        >>=-Keeps P (lift (port_name_to_socket_id (s.ports p).port_name (s.ports p).transport)) _
          (lift-Keeps P _)
          (λ id.
            >>=-Keeps P (on_world (zmq.set_routing_id (s.ports p).socket id)) _ (on_world-Keeps _)
              (λ _.
                >>=-Keeps P (on_world (zmq.set_router_mandatory (s.ports p).socket true)) _
                  (on_world-Keeps _) (λ _. bind-Keeps p (s.ports p).port_name)))
          s i

    pub collect-Keeps : (p flags slots : ℕ) → Keeps P (Port.collect zmq p flags slots)
    unfolding Port.collect
    collect-Keeps p flags zero s i = i
    collect-Keeps p flags (suc slots) s i =
        >>=-Keeps P (on_world (zmq.recv (s.ports p).socket flags)) _ (on_world-Keeps _)
          (λ received. go received (collect-Keeps p flags slots)) s i
      where
        go :
            (o : Option (Bytes × Bool))
            → Keeps P (Port.collect zmq p flags slots)
            → Keeps P {A = List Bytes × Bool} (elim o [
              | none ↦ pure ([], false)
              | some (frame, more) ↦
                  if more
                  then (Port.collect zmq p flags slots >>= λ later. pure (frame ∷ later.0, later.1))
                  else pure (frame ∷ [], true)
            ])
        go none k t j = j
        go (some (frame, true)) k t j =
            >>=-Keeps P (Port.collect zmq p flags slots) _ k (λ later u r. r) t j
        go (some (frame, false)) k t j = j

    pub accept-Keeps :
        (name : Bytes) (copy : List Bytes → Exec (State W) (Unit {0})) (frames : List Bytes)
        (more : Bool)
        → ((fs : List Bytes) → Keeps P (copy fs))
        → Keeps P (Port.accept zmq name copy frames more)
    unfolding Port.accept
    accept-Keeps name copy [] more k s i = i
    accept-Keeps name copy (a ∷ []) more k s i = i
    accept-Keeps name copy (a ∷ b ∷ []) more k s i = i
    accept-Keeps name copy (a ∷ b ∷ c ∷ cs) false k s i = i
    accept-Keeps name copy (a ∷ [] ∷ c ∷ cs) true k s i =
        >>=-Keeps P (copy (c ∷ cs)) _ (k (c ∷ cs)) (λ _ t j. j) s i
    accept-Keeps name copy (a ∷ (b ∷ bs) ∷ c ∷ cs) true k s i = i

module _ {W : Type 0} where
  pub IsSound-Stable : Stable {W = W} IsSound
  IsSound-Stable = record { world = λ s w i. i; port = set_port-IsSound }
