-- ===== src/Port/Leftovers.antt =====
-- Port::Receive of more frames than the package has messages.
use dpn.Prelude.{
  ℕ, ◌+◌, ◌≤◌, ◌≡◌, refl, ap, ◌∙◌, true, List, [], ◌∷◌, ◌++◌, Bytes, length, arith, update, ==_refl,
}
use dpn.Exec.{Exec, done, pure, ◌>>=◌, >>=-done}
use dpn.Message.{Message, payload}
use dpn.Names.{port_name_from_socket_id}
use dpn.Zmq.{Zmq, Delivers}
use dpn.State.{State, set_message}
use dpn.Port.{accept, collect, copy_package, max_frames, receive}
use dpn.Port.Copy.{
  IsReady, Fit, Hold, Distinct, fill, filled, copy_package_step, fill_other, Fit-update, Hold-fill,
  Hold-update,
}
use dpn.Port.Frames.{collect_all}
use dpn.Port.Gather.{joined}
use dpn.Port.Overloads.{copy_package-joined}

module _ {W : Type 0} (zmq : Zmq W) where
  step :
      (g h : ℕ) (hs : List ℕ) (f : Bytes) (fs : List Bytes) (s : State W)
      → IsReady (s.messages g)
      → length f ≤ (s.messages g).capacity
      → copy_package zmq (g ∷ (hs ++ h ∷ [])) (f ∷ fs) 0 s
        ≡ copy_package zmq (hs ++ h ∷ []) fs 0 (set_message g (filled (s.messages g) f) s)
  step g h [] f fs s r fits = copy_package_step zmq g h [] f fs s r fits
  step g h (k ∷ ks) f fs s r fits = copy_package_step zmq g k (ks ++ h ∷ []) f fs s r fits

  -- The messages but the last take a frame each.
  copy_package-front :
      (hs : List ℕ) (h : ℕ) (fs : List Bytes) (rest : List Bytes) (s : State W)
      → length hs ≡ length fs
      → Distinct hs
      → Fit s.messages hs fs
      → copy_package zmq (hs ++ h ∷ []) (fs ++ rest) 0 s
        ≡ copy_package zmq (h ∷ []) rest 0 (record s { messages = fill s.messages hs fs })
  unfolding fill
  copy_package-front [] h [] rest s e d k = refl
  copy_package-front [] h (f ∷ fs) rest s e d k = absurd (omega arith)
  copy_package-front (g ∷ hs) h [] rest s e d k = absurd (omega arith)
  copy_package-front (g ∷ hs) h (f ∷ fs) rest s e (l, d) (r, fits, k) =
      step g h hs f (fs ++ rest) s r fits
      ∙ copy_package-front hs h fs rest (set_message g (filled (s.messages g) f) s) (omega arith) d
          (Fit-update zmq s.messages g (filled (s.messages g) f) hs fs l k)

  accept_frames :
      (name id : Bytes) (copy : List Bytes → Exec (State W) (Unit {0})) (fs : List Bytes)
      (r : Bytes) (rs : List Bytes)
      → accept zmq name copy (id ∷ [] ∷ (fs ++ r ∷ rs)) true
        ≡ (copy (fs ++ r ∷ rs) >>= λ _. pure (port_name_from_socket_id id))
  unfolding accept
  accept_frames name id copy [] r rs = refl
  accept_frames name id copy (f ∷ fs) r rs = refl

  -- A multipart message with more contents than the package has messages, in no more than ten slots: when
  -- the messages are distinct and ready, the frames for all but the last one fit into their messages, and
  -- the frames from there on fit into the last message together, each message but the last holds its
  -- frame, and the last one holds the rest, one frame behind the other. No frame is lost.
  pub receive_leftovers :
      (p flags : ℕ) (name id : Bytes) (hs : List ℕ) (h : ℕ) (fs : List Bytes) (r : Bytes)
      (rs : List Bytes) (s : State W) (w : W)
      → Delivers zmq (s.ports p).socket flags s.world (id ∷ [] ∷ (fs ++ r ∷ rs)) w
      → length (fs ++ r ∷ rs) + 2 ≤ max_frames
      → length hs ≡ length fs
      → Distinct (h ∷ hs)
      → Fit s.messages hs fs
      → IsReady (s.messages h)
      → length (joined (r ∷ rs)) ≤ (s.messages h).capacity
      → (heap : ℕ → Message) × (receive zmq p name (hs ++ h ∷ []) flags s
          ≡ done (port_name_from_socket_id id) (record s { messages = heap; world = w }))
        × Hold heap hs fs
        × (payload (heap h) ≡ joined (r ∷ rs))
  unfolding receive
  receive_leftovers p flags name id hs h fs r rs s w arrives few e (l, d) k ready fits =
      let t = record s { messages = fill s.messages hs fs; world = w } in
      let same : t.messages h ≡ s.messages h = fill_other zmq s.messages h hs fs l in
      let (m, run, bytes) = copy_package-joined zmq h r rs t (rw same ready) (rw same fits) in
      (
        update t.messages h m,
        >>=-done (collect zmq p flags max_frames) _ s (
              collect_all zmq p flags max_frames (id ∷ [] ∷ (fs ++ r ∷ rs)) s w arrives
                (omega arith))
            ∙ ap (λ c. c (record s { world = w }))
                (accept_frames name id (λ frames. copy_package zmq (hs ++ h ∷ []) frames 0) fs r rs)
            ∙ >>=-done (copy_package zmq (hs ++ h ∷ []) (fs ++ r ∷ rs) 0) _ (record s { world = w })
                (copy_package-front hs h fs (r ∷ rs) (record s { world = w }) e d k ∙ run),
        Hold-update zmq t.messages h m hs fs l (Hold-fill zmq s.messages hs fs d k),
        rw (==_refl h) bytes,
      )
