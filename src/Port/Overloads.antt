-- ===== src/Port/Overloads.antt =====
-- Port::Send and Port::Receive for one message against those for a package.
use dpn.Prelude.{
  ℕ, ◌+◌, ◌≤◌, ◌^◌, ◌<◌, ◌≡◌, Bool, refl, sym, ap, ◌∙◌, true, false, List, [], ◌∷◌, Bytes, length,
  drop, arith, length-append,
}
use dpn.Exec.{Exec, Outcome, done, raised, pure, state, ◌>>=◌, ◌>>◌, >>=-done}
use dpn.Message
use dpn.Message.{Message, payload}
use dpn.Names.{port_name_from_socket_id}
use dpn.Zmq.{Zmq}
use dpn.State.{State, set_message, set_message_twice}
use dpn.Port.{
  accept, collect, copy_frame, copy_single, copy_package, frames_of, load_multipart,
  load_multipart_single, max_frames, receive, receive_single, resize, send, send_single,
}
use dpn.Port.Copy.{IsReady, written, copy_frame_fits, resize_lem}
use dpn.Port.Single.{payload-resize-Extends}
use dpn.Port.Gather.{copy_single_lem, joined, copy_single_step, set_message_self, written-set}
use dpn.Process.Ports.{Stable, collect-Keeps}

-- The message after `resize(n, 0)` succeeded.
abbrev sized : Message → ℕ → Message
sized m n = record m { size = n; offset = 0; contents = n }

-- The frames fit into the message of the given capacity, behind `at` bytes.
record Room (m : Message) (at : ℕ) (fs : List Bytes) : Type 0 where
  at_start : m.offset ≡ 0
  counted : m.capacity < 2 ^ 64
  fits : at + length (joined fs) ≤ m.capacity

Room-step :
    (m : Message) (at : ℕ) (f : Bytes) (fs : List Bytes)
    → Room m at (f ∷ fs)
    → (at + length f ≤ m.capacity) × Room (written m at f) (at + length f) fs
Room-step m at f fs r =
    let len = length-append f (joined fs) in
    let fits = r.fits in
    (
      omega (arith, len, fits),
      record { at_start = r.at_start; counted = r.counted; fits = omega (arith, len, fits) },
    )

sized-Room : (m : Message) (at n : ℕ) (fs : List Bytes) → Room m at fs → Room (sized m n) at fs
sized-Room m at n fs r = record { at_start = refl; counted = r.counted; fits = r.fits }

Room-nil : (m : Message) (at : ℕ) (fs : List Bytes) → Room m at fs → Room m at []
Room-nil m at fs r =
    let fits = r.fits in
    record { at_start = r.at_start; counted = r.counted; fits = omega (arith, fits) }

resize-sized : (m : Message) (at : ℕ) → Room m at [] → Message.resize m at 0 ≡ sized m at
unfolding Message.resize
resize-sized m at r = let fits = r.fits in let counted = r.counted in ground arith

module _ {W : Type 0} (zmq : Zmq W) where
  -- The copying into one message with the call of Resize that follows it.
  gather : ℕ → List Bytes → ℕ → Exec (State W) (Unit {0})
  gather h fs at = copy_single zmq h fs at >>= λ size. resize zmq h size

  gather-step :
      (h at : ℕ) (f : Bytes) (fs : List Bytes) (m : Message) (s : State W)
      → Room m at (f ∷ fs)
      → gather h (f ∷ fs) at (set_message h m s)
        ≡ gather h fs (at + length f) (set_message h (written m at f) s)
  unfolding gather
  gather-step h at f fs m s r =
      let (fits, _) = Room-step m at f fs r in
      ap (λ o. ((λ _. o) >>= λ n. resize zmq h n) s)
        (copy_single_step zmq h at f fs m (set_message h m s) (written-set zmq h m s) r.at_start
            fits
          ∙ ap (copy_single zmq h fs (at + length f)) (set_message_twice h m (written m at f) s))

  gather-nil :
      (h at : ℕ) (m : Message) (s : State W)
      → Room m at []
      → gather h [] at (set_message h m s) ≡ done tt (set_message h (sized m at) s)
  unfolding gather copy_single
  gather-nil h at m s r =
      resize_lem zmq h at m s ∙ ap (λ n. done tt (set_message h n s)) (resize-sized m at r)

  -- The size and the contents that the message had do not matter.
  gather-sized :
      (h at n : ℕ) (fs : List Bytes) (m : Message) (s : State W)
      → Room m at fs
      → gather h fs at (set_message h (sized m n) s) ≡ gather h fs at (set_message h m s)
  gather-sized h at n [] m s r =
      gather-nil h at (sized m n) s (sized-Room m at n [] r) ∙ sym (gather-nil h at m s r)
  gather-sized h at n (f ∷ fs) m s r =
      gather-step h at f fs (sized m n) s (sized-Room m at n (f ∷ fs) r)
      ∙ gather-sized h (at + length f) n fs (written m at f) s (Room-step m at f fs r).1
      ∙ sym (gather-step h at f fs m s r)

  -- A frame is copied, the message resized, and the loop goes on.
  copy_resize :
      (h at : ℕ) (f : Bytes) (fs : List Bytes) (m : Message) (s : State W)
      (k : ℕ → Exec (State W) (Unit {0}))
      → Room m at (f ∷ fs)
      → (copy_frame zmq h at f >>= λ next. (resize zmq h next >> k next)) (set_message h m s)
        ≡ k (at + length f) (set_message h (sized (written m at f) (at + length f)) s)
  copy_resize h at f fs m s k r =
      let next = at + length f in
      let w = written m at f in
      let (fits, room) = Room-step m at f fs r in
      let e = written-set zmq h m s in
      >>=-done (copy_frame zmq h at f) _ (set_message h m s) (
        copy_frame_fits zmq h at f (set_message h m s)
          (ap (λ (n : Message). n.offset) e ∙ r.at_start) (rw e fits)
        ∙ ap (λ n. done next (set_message h (written n at f) (set_message h m s))) e
        ∙ ap (done next) (set_message_twice h m w s))
      ∙ >>=-done (resize zmq h next) _ (set_message h w s) (
          resize_lem zmq h next w s
          ∙ ap (λ n. done tt (set_message h n s)) (resize-sized w next (Room-nil w next fs room)))

  -- A package of one message is filled as the message is.
  copy_package-gather :
      (h at : ℕ) (f : Bytes) (fs : List Bytes) (m : Message) (s : State W)
      → Room m at (f ∷ fs)
      → copy_package zmq (h ∷ []) (f ∷ fs) at (set_message h m s)
        ≡ gather h (f ∷ fs) at (set_message h m s)
  unfolding copy_package
  copy_package-gather h at f [] m s r =
      copy_resize h at f [] m s (λ _. pure tt) r
      ∙ sym (gather-nil h (at + length f) (written m at f) s (Room-step m at f [] r).1)
      ∙ sym (gather-step h at f [] m s r)
  copy_package-gather h at f (g ∷ fs) m s r =
      let next = at + length f in
      let room = (Room-step m at f (g ∷ fs) r).1 in
      copy_resize h at f (g ∷ fs) m s (copy_package zmq (h ∷ []) (g ∷ fs)) r
      ∙ copy_package-gather h next g fs (sized (written m at f) next) s
          (sized-Room _ next next (g ∷ fs) room)
      ∙ gather-sized h next next (g ∷ fs) (written m at f) s room
      ∙ sym (gather-step h at f (g ∷ fs) m s r)

  gather-copy_package :
      (h : ℕ) (f : Bytes) (fs : List Bytes) (s : State W)
      → IsReady (s.messages h)
      → length (joined (f ∷ fs)) ≤ (s.messages h).capacity
      → gather h (f ∷ fs) 0 s ≡ copy_package zmq (h ∷ []) (f ∷ fs) 0 s
  gather-copy_package h f fs s r fits =
      let m = s.messages h in
      let self = set_message_self zmq h m s refl in
      ap (gather h (f ∷ fs) 0) self
      ∙ sym (
          copy_package-gather h 0 f fs m s
            (record { at_start = r.at_start; counted = r.counted; fits = omega (arith, fits) }))
      ∙ ap (copy_package zmq (h ∷ []) (f ∷ fs) 0) (sym self)

  -- All frames of a package of one message end up in it, one behind the other.
  pub copy_package-joined :
      (h : ℕ) (f : Bytes) (fs : List Bytes) (s : State W)
      → IsReady (s.messages h)
      → length (joined (f ∷ fs)) ≤ (s.messages h).capacity
      → (m : Message) × (copy_package zmq (h ∷ []) (f ∷ fs) 0 s ≡ done tt (set_message h m s))
        × (payload m ≡ joined (f ∷ fs))
  unfolding gather
  copy_package-joined h f fs s r fits =
      let bytes = joined (f ∷ fs) in
      let (m, run, x) =
        copy_single_lem zmq h 0 (f ∷ fs) (s.messages h) s refl r.at_start (omega (arith, fits))
          r.valid.allocated in
      (
        Message.resize m (0 + length bytes) 0,
        sym (gather-copy_package h f fs s r fits)
            ∙ >>=-done (copy_single zmq h (f ∷ fs) 0) _ s run
            ∙ resize_lem zmq h (0 + length bytes) m s,
        payload-resize-Extends zmq (s.messages h) m bytes r fits x,
      )

  accept-gather :
      (h : ℕ) (name : Bytes) (frames : List Bytes) (more : Bool) (t : State W)
      → IsReady (t.messages h)
      → length (joined (drop 2 frames)) ≤ (t.messages h).capacity
      → accept zmq name (λ fs. gather h fs 0) frames more t
        ≡ accept zmq name (λ fs. copy_package zmq (h ∷ []) fs 0) frames more t
  unfolding accept
  accept-gather h name [] more t r fits = refl
  accept-gather h name (a ∷ []) more t r fits = refl
  accept-gather h name (a ∷ b ∷ []) more t r fits = refl
  accept-gather h name (a ∷ b ∷ c ∷ cs) false t r fits = refl
  accept-gather h name (a ∷ (b ∷ bs) ∷ c ∷ cs) true t r fits = refl
  accept-gather h name (a ∷ [] ∷ c ∷ cs) true t r fits =
      ap (λ o. ((λ _. o) >>= λ _. pure (port_name_from_socket_id a)) t)
        (gather-copy_package h c cs t r fits)

  -- The frames of the message that comes in fit into a message of this capacity.
  abbrev pub Small : ℕ → Outcome (State W) (List Bytes × Bool) → Type 0
  Small capacity (done (frames, more) t) = length (joined (drop 2 frames)) ≤ capacity
  Small capacity (raised e t) = Unit

  -- Whatever the network gives, a receive into a ready message is a receive into the package of that
  -- message, when the frames behind the null frame fit into it together.
  pub receive_single-receive :
      (p flags h : ℕ) (name : Bytes) (s : State W)
      → IsReady (s.messages h)
      → Small (s.messages h).capacity (collect zmq p flags max_frames s)
      → receive_single zmq p name h flags s ≡ receive zmq p name (h ∷ []) flags s
  unfolding receive_single receive gather
  receive_single-receive p flags h name s r small =
      go (collect zmq p flags max_frames s)
        (collect-Keeps (λ u. u.messages ≡ s.messages) keeps zmq p flags max_frames s refl) small
    where
      keeps : Stable (λ (u : State W). u.messages ≡ s.messages)
      keeps = record { world = λ u w e. e; port = λ q port u n l e. e }

      go :
          (o : Outcome (State W) (List Bytes × Bool))
          → (state o).messages ≡ s.messages
          → Small (s.messages h).capacity o
          → ((λ _. o) >>= λ received.
                accept zmq name (λ frames. gather h frames 0) received.0 received.1)
              s
            ≡ ((λ _. o) >>= λ received.
                  accept zmq name
                    (λ frames. copy_package zmq (h ∷ []) frames 0)
                    received.0
                    received.1)
                s
      go (raised e t) k fits = refl
      go (done (frames, more) t) k fits =
          let same = ap (λ (heap : ℕ → Message). heap h) k in
          accept-gather h name frames more t (rw same r) (rw same fits)

  -- A send of one message is a send of the package of that message.
  send_single-send :
      (p flags h : ℕ) (name : Bytes) (s : State W)
      → send_single zmq p name h flags s ≡ send zmq p name (h ∷ []) flags s
  unfolding send_single send load_multipart load_multipart_single frames_of
  send_single-send p flags h name s = refl
