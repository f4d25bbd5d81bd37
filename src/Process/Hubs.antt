-- ===== src/Process/Hubs.antt =====
-- Sending, receiving and the operations of a hub keep a process sound.
use mathlib.Core.Path.{subst}
use dpn.Prelude.{
  ℕ, ◌≤◌, ◌≡◌, refl, sym, ap, ◌∙◌, none, some, Option, List, [], ◌∷◌, Bytes, length, take, Bool,
  find,
}
use dpn.Prelude.Int.{ℤ}
use dpn.Exec.{Exec, Outcome, done, raised, state, raise, lift, modify, ◌>>◌, runtime_error}
use dpn.Exec.Keeps.{Keeps, >>=-Keeps, >>=-Keeps_then, lift-Keeps}
use dpn.Names.{PortSpecification, get_port_name, port_name_to_socket_id, set_port_name}
use dpn.Zmq.{Zmq, SendResult, sent, again, has_more}
use dpn.State.{with_world, State, on_world}
use dpn.Port
use dpn.Port.{Frame, address, null_frame, content, has_name}
use dpn.Hub
use dpn.Process.{IsSound, Conforms}
use dpn.Process.Messages.{truncate-IsSound, copy_package-Keeps}
use dpn.Process.Ports.{
  IsSound-Stable, on_world-Keeps, close-Keeps, connect-Keeps, disconnect-Keeps, collect-Keeps,
  accept-Keeps, set_port-IsSound, take-nil,
}

on_world-done :
    {W A : Type 0} (m : Exec W A) (s : State W) (a : A) (t : State W)
    → on_world m s ≡ done a t
    → (w : W) × (m s.world ≡ done a w) × (t ≡ record s { world = w })
on_world-done {W} {A} m s a t e = go (m s.world) refl e
  where
    go :
        (o : Outcome W A)
        → m s.world ≡ o
        → with_world s o ≡ done a t
        → (w : W) × (m s.world ≡ done a w) × (t ≡ record s { world = w })
    go (done b w) k h = (w, cc, cc)
    go (raised x w) k h = cc

module _ {W : Type 0} (zmq : Zmq W) (conforms : Conforms zmq) where
  -- What a send leaves in a frame.
  leave-IsSound :
      (p n : ℕ) (f : Frame) (s : State W)
      → n ≤ length (Port.frame_data zmq p s f)
      → IsSound s
      → IsSound (Port.leave zmq p f n s)
  unfolding Port.leave Port.frame_data
  leave-IsSound p n (address id) s le i = i
  leave-IsSound p n null_frame s le i =
      set_port-IsSound p _ s refl (λ e. ap (take n) e ∙ take-nil n) i
  leave-IsSound p n (content h) s le i = truncate-IsSound zmq h n s le i

  -- The bound on what a send leaves, which the transport library promises.
  Left : ℕ → Frame → SendResult → State W → Type 0
  Left p f (sent n) t = n ≤ length (Port.frame_data zmq p t f)
  Left p f again t = Unit

  frame_data-world :
      (p : ℕ) (f : Frame) (s : State W) (w : W)
      → Port.frame_data zmq p s f ≡ Port.frame_data zmq p (record s { world = w }) f
  unfolding Port.frame_data
  frame_data-world p (address id) s w = refl
  frame_data-world p null_frame s w = refl
  frame_data-world p (content h) s w = refl

  send-Left :
      (p flags : ℕ) (f : Frame) (more : Bool) (s : State W) (r : SendResult) (t : State W)
      → on_world (zmq.send (s.ports p).socket (Port.frame_data zmq p s f) more flags) s ≡ done r t
      → Left p f r t
  unfolding Left
  send-Left p flags f more s again t e = tt
  send-Left p flags f more s (sent n) t e =
      let (w, run, same) =
        on_world-done (zmq.send (s.ports p).socket (Port.frame_data zmq p s f) more flags) s
          (sent n) t e in
      subst (λ u. n ≤ length (Port.frame_data zmq p u f)) (sym same)
        (subst (λ d. n ≤ length d) (frame_data-world p f s w)
          (conforms.left (s.ports p).socket _ more flags n s.world w run))

  resume-Keeps :
      (p flags : ℕ) (f : Frame) (fs : List Frame)
      → Keeps IsSound (Port.send_data zmq p fs flags)
      → (r : SendResult) (t : State W) → IsSound t
      → Left p f r t
      → IsSound (
          state (
            (elim r as (λ _. Exec (State W) (Unit {0})) [
              | sent n ↦ modify (Port.leave zmq p f n) >> Port.send_data zmq p fs flags
              | again ↦ raise runtime_error
            ])
              t))
  unfolding Left
  resume-Keeps p flags f fs k again t i l = i
  resume-Keeps p flags f fs k (sent n) t i l = k _ (leave-IsSound p n f t l i)

  send_data-Keeps : (p flags : ℕ) (fs : List Frame) → Keeps IsSound (Port.send_data zmq p fs flags)
  unfolding Port.send_data
  send_data-Keeps p flags [] s i = i
  send_data-Keeps p flags (f ∷ fs) s i =
      let call =
        on_world (zmq.send (s.ports p).socket (Port.frame_data zmq p s f) (has_more fs) flags) in
      >>=-Keeps_then IsSound (Left p f) call _ s
        (on_world-Keeps IsSound IsSound-Stable
          (zmq.send (s.ports p).socket (Port.frame_data zmq p s f) (has_more fs) flags) s i)
        (λ r t e. send-Left p flags f (has_more fs) s r t e)
        (λ r t j l. resume-Keeps p flags f fs (send_data-Keeps p flags fs) r t j l)

  send-Keeps :
      (p flags : ℕ) (name : Bytes) (hs : List ℕ) → Keeps IsSound (Port.send zmq p name hs flags)
  unfolding Port.send
  send-Keeps p flags name hs s i =
      >>=-Keeps IsSound (lift (port_name_to_socket_id name (s.ports p).transport)) _
        (lift-Keeps IsSound _) (λ id. send_data-Keeps p flags (Port.load_multipart id hs)) s i

  receive-Keeps :
      (p flags : ℕ) (name : Bytes) (hs : List ℕ) → Keeps IsSound (Port.receive zmq p name hs flags)
  unfolding Port.receive
  receive-Keeps p flags name hs s i =
      >>=-Keeps IsSound (Port.collect zmq p flags Port.max_frames) _
        (collect-Keeps IsSound IsSound-Stable zmq p flags Port.max_frames)
        (λ received.
          accept-Keeps IsSound IsSound-Stable zmq name _ received.0 received.1
            (λ fs. copy_package-Keeps zmq hs fs 0))
        s i

  when_found-Keeps :
      (o : Option ℕ) (call : ℕ → Exec (State W) (Unit {0}))
      → ((p : ℕ) → Keeps IsSound (call p))
      → Keeps IsSound (Hub.when_found zmq o call)
  when_found-Keeps none call k s i = i
  when_found-Keeps (some p) call k s i = k p s i

  pub hub_close_port-Keeps : (id : ℕ) → Keeps IsSound (Hub.close_port zmq id)
  unfolding Hub.close_port Hub.find_port
  hub_close_port-Keeps id s i =
      when_found-Keeps (find id s.hub.ports) _ (close-Keeps IsSound IsSound-Stable zmq) s i

  pub hub_connect-Keeps :
      (id : ℕ) (spec : PortSpecification) → Keeps IsSound (Hub.connect zmq id spec)
  unfolding Hub.connect Hub.find_port
  hub_connect-Keeps id spec s i =
      when_found-Keeps (find id s.hub.ports) _
        (λ p. connect-Keeps IsSound IsSound-Stable zmq p (get_port_name spec)) s i

  pub hub_disconnect-Keeps :
      (id : ℕ) (spec : PortSpecification) → Keeps IsSound (Hub.disconnect zmq id spec)
  unfolding Hub.disconnect Hub.find_port
  hub_disconnect-Keeps id spec s i =
      when_found-Keeps (find id s.hub.ports) _
        (λ p. disconnect-Keeps IsSound IsSound-Stable zmq p (get_port_name spec)) s i

  pub hub_send-Keeps :
      (id : ℕ) (spec : PortSpecification) (hs : List ℕ) → Keeps IsSound (Hub.send zmq id spec hs)
  unfolding Hub.send Hub.find_port
  hub_send-Keeps id spec hs s i =
      when_found-Keeps (find id s.hub.ports) _ (λ p. send-Keeps p 0 (get_port_name spec) hs) s i

  receiving-Keeps :
      (o : Option ℕ) (spec : PortSpecification) (call : ℕ → Exec (State W) Bytes)
      → ((p : ℕ) → Keeps IsSound (call p))
      → Keeps IsSound (Hub.receiving zmq o spec call)
  receiving-Keeps none spec call k s i = i
  receiving-Keeps (some p) spec call k s i =
      >>=-Keeps IsSound (call p) _ (k p)
        (λ name. lift-Keeps IsSound (set_port_name spec.hub_name name)) s i

  pub hub_receive-Keeps :
      (id : ℕ) (spec : PortSpecification) (hs : List ℕ) → Keeps IsSound (Hub.receive zmq id spec hs)
  unfolding Hub.receive Hub.find_port
  hub_receive-Keeps id spec hs s i =
      receiving-Keeps (find id s.hub.ports) spec _ (λ p. receive-Keeps p 0 [] hs) s i

  arm-Keeps : (ps : List (ℕ × ℕ)) (flags : ℕ) → Keeps IsSound (Hub.arm zmq ps flags)
  unfolding Hub.arm
  arm-Keeps [] flags s i = i
  arm-Keeps ((id, p) ∷ rest) flags s i =
      >>=-Keeps IsSound (on_world (zmq.poller_modify (s.ports p).socket flags)) _
        (on_world-Keeps IsSound IsSound-Stable _) (λ _. arm-Keeps rest flags) s i

  handle_events-Keeps : (events : List (ℕ × ℕ)) → Keeps IsSound (Hub.handle_events zmq events)
  unfolding Hub.handle_events
  handle_events-Keeps [] s i = i
  handle_events-Keeps ((id, flags) ∷ events) s i = handle_events-Keeps events _ i

  event_seen-Keeps : (events : List (ℕ × ℕ)) → Keeps IsSound (Hub.event_seen zmq events)
  event_seen-Keeps [] s i = i
  event_seen-Keeps (e ∷ es) s i = i

  pub hub_poll-Keeps : (flags : ℕ) (timeout : ℤ) → Keeps IsSound (Hub.poll zmq flags timeout)
  unfolding Hub.poll
  hub_poll-Keeps flags timeout s i =
      >>=-Keeps IsSound (Hub.arm zmq s.hub.ports flags) _ (arm-Keeps s.hub.ports flags)
        (λ _.
          >>=-Keeps IsSound (on_world (zmq.poller_wait timeout)) _
            (on_world-Keeps IsSound IsSound-Stable _)
            (λ events.
              >>=-Keeps IsSound (Hub.handle_events zmq events) _ (handle_events-Keeps events)
                (λ _. event_seen-Keeps events)))
        s i
