-- ===== src/Port/Truncation.antt =====
-- Port::Receive of frames that are larger than their messages: each is cut to the capacity.
use dpn.Prelude.{
  ℕ, ◌+◌, ◌≤◌, ◌≡◌, refl, sym, ap, ◌∙◌, List, [], ◌∷◌, Bytes, length, take, Lacks, arith, update,
  ==_ne, length-take, take_all,
}
use dpn.Exec.{Exec, done, ◌>>=◌}
use dpn.Message.{Message}
use dpn.Names.{port_name_from_socket_id}
use dpn.Zmq.{Zmq, Delivers}
use dpn.State.{State, set_message}
use dpn.Port.{accept, receive, copy_frame, copy_package, max_frames}
use dpn.Port.Frames.{collect_all}
use dpn.Port.Copy.{
  IsReady, Fit, Hold, Distinct, fill, filled, fill_other, Hold-fill, copy_package_step,
  copy_package-fill, copy_package_last,
}

-- The frames, each cut to the capacity of its message.
unfoldable pub cut : (ℕ → Message) → List ℕ → List Bytes → List Bytes
cut heap hs [] = []
cut heap [] (f ∷ fs) = f ∷ fs
cut heap (h ∷ hs) (f ∷ fs) = take (heap h).capacity f ∷ cut heap hs fs

-- Each frame has a ready message of its own, of any capacity.
abbrev pub Ready : (ℕ → Message) → List ℕ → List Bytes → Type 0
Ready heap hs [] = Unit
Ready heap [] (f ∷ fs) = ⊥
Ready heap (h ∷ hs) (f ∷ fs) = IsReady (heap h) × Ready heap hs fs

cut-Fit :
    (heap : ℕ → Message) (hs : List ℕ) (fs : List Bytes)
    → Ready heap hs fs
    → Fit heap hs (cut heap hs fs)
unfolding cut
cut-Fit heap hs [] r = tt
cut-Fit heap [] (f ∷ fs) r = r
cut-Fit heap (h ∷ hs) (f ∷ fs) (r, rs) =
    (r, omega (arith, length-take (heap h).capacity f), cut-Fit heap hs fs rs)

cut-update :
    (heap : ℕ → Message) (h : ℕ) (m : Message) (hs : List ℕ) (fs : List Bytes)
    → Lacks h hs
    → cut (update heap h m) hs fs ≡ cut heap hs fs
unfolding cut
cut-update heap h m hs [] l = refl
cut-update heap h m [] (f ∷ fs) l = refl
cut-update heap h m (g ∷ hs) (f ∷ fs) (ne, l) =
    rw (==_ne h g (λ e. ne (sym e)))
      (ap (◌∷◌ (take (heap g).capacity f)) (cut-update heap h m hs fs l))

Ready-update :
    (heap : ℕ → Message) (h : ℕ) (m : Message) (hs : List ℕ) (fs : List Bytes)
    → Lacks h hs
    → Ready heap hs fs
    → Ready (update heap h m) hs fs
Ready-update heap h m hs [] l r = tt
Ready-update heap h m [] (f ∷ fs) l r = r
Ready-update heap h m (g ∷ hs) (f ∷ fs) (ne, l) (r, rs) =
    rw (==_ne h g (λ e. ne (sym e))) (r, Ready-update heap h m hs fs l rs)

module _ {W : Type 0} (zmq : Zmq W) where
  copy_frame-take :
      (h : ℕ) (f : Bytes) (s : State W)
      → copy_frame zmq h 0 f s ≡ copy_frame zmq h 0 (take (s.messages h).capacity f) s
  unfolding copy_frame
  copy_frame-take h f s = ground (
    arith,
    length-take (s.messages h).capacity f,
    take_all (s.messages h).capacity (take (s.messages h).capacity f),
    take_all (s.messages h).capacity f,
  )

  >>=-same :
      {A B : Type 0} (m n : Exec (State W) A) (k : A → Exec (State W) B) (s : State W)
      → m s ≡ n s
      → (m >>= k) s ≡ (n >>= k) s
  >>=-same m n k s e = rw (e, ◌>>=◌) refl

  -- The package loop does not see what a frame has behind the capacity of its message.
  copy_package-take :
      (h : ℕ) (hs : List ℕ) (f : Bytes) (fs : List Bytes) (s : State W)
      → copy_package zmq (h ∷ hs) (f ∷ fs) 0 s
        ≡ copy_package zmq (h ∷ hs) (take (s.messages h).capacity f ∷ fs) 0 s
  unfolding copy_package
  copy_package-take h [] f fs s =
      >>=-same (copy_frame zmq h 0 f) (copy_frame zmq h 0 (take (s.messages h).capacity f)) _ s
        (copy_frame-take h f s)
  copy_package-take h (g ∷ hs) f fs s =
      >>=-same (copy_frame zmq h 0 f) (copy_frame zmq h 0 (take (s.messages h).capacity f)) _ s
        (copy_frame-take h f s)

  fits : (m : Message) (f : Bytes) → length (take m.capacity f) ≤ m.capacity
  fits m f = omega (arith, length-take m.capacity f)

  copy_package-cut :
      (hs : List ℕ) (fs : List Bytes) (s : State W)
      → Distinct hs
      → Ready s.messages hs fs
      → copy_package zmq hs fs 0 s
        ≡ done tt (record s { messages = fill s.messages hs (cut s.messages hs fs) })
  unfolding fill cut
  copy_package-cut hs [] s d r = copy_package-fill zmq hs [] s d tt
  copy_package-cut [] (f ∷ fs) s d r = absurd r
  copy_package-cut (h ∷ []) (f ∷ []) s d (r, _) =
      copy_package-take h [] f [] s
      ∙ copy_package_last zmq h (take (s.messages h).capacity f) s r (fits (s.messages h) f)
  copy_package-cut (h ∷ []) (f ∷ g ∷ fs) s d (r, rs) = absurd rs
  copy_package-cut (h ∷ g ∷ hs) (f ∷ fs) s (l, d) (r, rs) =
      let c = take (s.messages h).capacity f in
      let m = filled (s.messages h) c in
      copy_package-take h (g ∷ hs) f fs s
      ∙ copy_package_step zmq h g hs c fs s r (fits (s.messages h) f)
      ∙ copy_package-cut (g ∷ hs) fs (set_message h m s) d
          (Ready-update s.messages h m (g ∷ hs) fs l rs)
      ∙ ap (λ cs. done tt (record s { messages = fill (update s.messages h m) (g ∷ hs) cs }))
          (cut-update s.messages h m (g ∷ hs) fs l)

  -- A multipart message of an address, a null frame and contents, no more than fit into ten slots and
  -- each with a ready message of its own, is received whatever the sizes of its frames are: the name in
  -- the address is returned, each message of the package holds its frame up to the message's capacity,
  -- the rest of the frame is lost, and a message `h` that is not in the package keeps its contents.
  pub receive-cut :
      (p flags : ℕ) (name id : Bytes) (hs : List ℕ) (f : Bytes) (fs : List Bytes) (s : State W)
      (w : W) (h : ℕ)
      → Delivers zmq (s.ports p).socket flags s.world (id ∷ [] ∷ f ∷ fs) w
      → length (f ∷ fs) + 2 ≤ max_frames
      → Distinct hs
      → Ready s.messages hs (f ∷ fs)
      → Lacks h hs
      → (heap : ℕ → Message) × (receive zmq p name hs flags s
          ≡ done (port_name_from_socket_id id) (record s { messages = heap; world = w }))
        × Hold heap hs (cut s.messages hs (f ∷ fs))
        × (heap h ≡ s.messages h)
  unfolding receive accept
  receive-cut p flags name id hs f fs s w h arrives few d r l =
      let cs = cut s.messages hs (f ∷ fs) in
      (
        fill s.messages hs cs,
        ground (
          arith,
          collect_all zmq p flags max_frames (id ∷ [] ∷ f ∷ fs) s w arrives (omega arith),
          copy_package-cut hs (f ∷ fs) (record s { world = w }) d r,
        ),
        Hold-fill zmq s.messages hs cs d (cut-Fit s.messages hs (f ∷ fs) r),
        fill_other zmq s.messages h hs cs l,
      )
