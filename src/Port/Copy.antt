-- ===== src/Port/Copy.antt =====
-- The loop of Port::Receive that copies frames into the messages of a package.
use dpn.Prelude.{
  ℕ, ◌+◌, ◌≤◌, ◌<◌, ◌^◌, ◌≡◌, refl, sym, ap, ◌∙◌, none, some, List, [], ◌∷◌, ◌++◌, Bytes, length,
  take, drop, Lacks, arith, update, take_all, take-append, ==_refl, ==_ne,
}
use dpn.Exec.{done, raised, ◌>>=◌, >>=-done, undefined}
use dpn.Message
use dpn.Message.{Message, payload, write_at, IsValid, buffer}
use dpn.Message.Memory.{write_at_fits}
use dpn.Zmq.{Zmq}
use dpn.State.{State, set_message, set_message_twice}
use dpn.Port.{store, copy_frame, resize, copy_package}

-- A valid message with offset 0, whose allocation a `size_t` can count.
pub record IsReady (m : Message) : Type 0 where
  pub valid : IsValid m
  pub at_start : m.offset ≡ 0
  pub counted : m.capacity < 2 ^ 64

-- A message that holds exactly one frame.
abbrev pub filled : Message → Bytes → Message
filled m frame = record m {
  size = length frame;
  offset = 0;
  memory = frame ++ drop (length frame) m.memory;
  contents = length frame;
}

abbrev pub written : Message → ℕ → Bytes → Message
written m at bytes = record m {
  memory = take at m.memory ++ (bytes ++ drop (at + length bytes) m.memory);
}

payload-filled : (m : Message) (frame : Bytes) → payload (filled m frame) ≡ frame
unfolding payload
payload-filled m frame = take-append frame (drop (length frame) m.memory)

-- The heap after each of the frames was put into its message.
unfoldable pub fill : (ℕ → Message) → List ℕ → List Bytes → ℕ → Message
fill heap [] fs = heap
fill heap (h ∷ hs) [] = heap
fill heap (h ∷ hs) (f ∷ fs) = fill (update heap h (filled (heap h) f)) hs fs

abbrev pub Distinct : List ℕ → Type 0
Distinct [] = Unit
Distinct (h ∷ hs) = Lacks h hs × Distinct hs

-- Each frame has a message of its own, ready and large enough.
abbrev pub Fit : (ℕ → Message) → List ℕ → List Bytes → Type 0
Fit heap hs [] = Unit
Fit heap [] (f ∷ fs) = ⊥
Fit heap (h ∷ hs) (f ∷ fs) = IsReady (heap h) × (length f ≤ (heap h).capacity) × Fit heap hs fs

-- Message by message, a send would transmit the frame, and the buffer starts with it.
abbrev pub Hold : (ℕ → Message) → List ℕ → List Bytes → Type 0
Hold heap hs [] = Unit
Hold heap [] (f ∷ fs) = ⊥
Hold heap (h ∷ hs) (f ∷ fs) =
    (payload (heap h) ≡ f) × ((heap h).size ≡ length f) × ((heap h).offset ≡ 0) × Hold heap hs fs

module _ {W : Type 0} (zmq : Zmq W) where
  pub store_lem :
      (h at : ℕ) (bytes : Bytes) (s : State W) (m : Message)
      → write_at (s.messages h) at bytes ≡ some m
      → store zmq h at bytes s ≡ done tt (set_message h m s)
  unfolding store
  store_lem h at bytes s m e = rw (e, store)

  pub store_past :
      (h at : ℕ) (bytes : Bytes) (s : State W)
      → write_at (s.messages h) at bytes ≡ none
      → store zmq h at bytes s ≡ raised undefined s
  unfolding store
  store_past h at bytes s e = rw (e, store)

  -- A frame that fits behind the frames before it is written there.
  pub copy_frame_fits :
      (h offset : ℕ) (f : Bytes) (s : State W)
      → (s.messages h).offset ≡ 0
      → offset + length f ≤ (s.messages h).capacity
      → copy_frame zmq h offset f s
        ≡ done (offset + length f) (set_message h (written (s.messages h) offset f) s)
  unfolding copy_frame buffer
  copy_frame_fits h offset f s start fits = ground (
    arith,
    take_all (length f) f,
    store_lem h offset f s _ (write_at_fits (s.messages h) offset f fits),
  )

  pub resize_lem :
      (h size : ℕ) (m : Message) (s : State W)
      → resize zmq h size (set_message h m s) ≡ done tt (set_message h (Message.resize m size 0) s)
  unfolding resize
  resize_lem h size m s = rw (==_refl h) (ap (done tt) (set_message_twice h m _ s))

  resize-written :
      (m : Message) (f : Bytes)
      → IsReady m
      → length f ≤ m.capacity
      → Message.resize (written m 0 f) (0 + length f) 0 ≡ filled m f
  unfolding Message.resize
  resize-written m f r fits = ground arith

  -- A frame that fits fills the message.
  copy-resize :
      (h : ℕ) (f : Bytes) (s : State W)
      → IsReady (s.messages h)
      → length f ≤ (s.messages h).capacity
      → (copy_frame zmq h 0 f >>= λ next. resize zmq h next) s
        ≡ done tt (set_message h (filled (s.messages h) f) s)
  copy-resize h f s r fits =
      >>=-done (copy_frame zmq h 0 f) _ s (copy_frame_fits h 0 f s r.at_start (omega arith))
      ∙ resize_lem h (0 + length f) (written (s.messages h) 0 f) s
      ∙ ap (λ m. done tt (set_message h m s)) (resize-written (s.messages h) f r fits)

  -- One round of the package loop.
  pub copy_package_step :
      (h g : ℕ) (hs : List ℕ) (f : Bytes) (fs : List Bytes) (s : State W)
      → IsReady (s.messages h)
      → length f ≤ (s.messages h).capacity
      → copy_package zmq (h ∷ g ∷ hs) (f ∷ fs) 0 s
        ≡ copy_package zmq (g ∷ hs) fs 0 (set_message h (filled (s.messages h) f) s)
  unfolding copy_package
  copy_package_step h g hs f fs s r fits = ground (arith, copy-resize h f s r fits)

  pub copy_package_last :
      (h : ℕ) (f : Bytes) (s : State W)
      → IsReady (s.messages h)
      → length f ≤ (s.messages h).capacity
      → copy_package zmq (h ∷ []) (f ∷ []) 0 s ≡ done tt (set_message h (filled (s.messages h) f) s)
  unfolding copy_package
  copy_package_last h f s r fits = ground (arith, copy-resize h f s r fits)

  pub Fit-update :
      (heap : ℕ → Message) (h : ℕ) (m : Message) (hs : List ℕ) (fs : List Bytes)
      → Lacks h hs
      → Fit heap hs fs
      → Fit (update heap h m) hs fs
  Fit-update heap h m hs [] l k = tt
  Fit-update heap h m [] (f ∷ fs) l k = k
  Fit-update heap h m (g ∷ hs) (f ∷ fs) (ne, l) (r, fits, k) =
      rw (==_ne h g (λ e. ne (sym e))) (r, fits, Fit-update heap h m hs fs l k)

  -- The loop puts every frame into its message.
  pub copy_package-fill :
      (hs : List ℕ) (fs : List Bytes) (s : State W)
      → Distinct hs
      → Fit s.messages hs fs
      → copy_package zmq hs fs 0 s ≡ done tt (record s { messages = fill s.messages hs fs })
  unfolding fill copy_package
  copy_package-fill [] [] s d k = refl
  copy_package-fill (h ∷ []) [] s d k = refl
  copy_package-fill (h ∷ g ∷ hs) [] s d k = refl
  copy_package-fill [] (f ∷ fs) s d k = absurd k
  copy_package-fill (h ∷ []) (f ∷ []) s d (r, fits, k) = copy_package_last h f s r fits
  copy_package-fill (h ∷ []) (f ∷ f' ∷ fs) s d (r, fits, k) = absurd k
  copy_package-fill (h ∷ g ∷ hs) (f ∷ fs) s (l, d) (r, fits, k) =
      copy_package_step h g hs f fs s r fits
      ∙ copy_package-fill (g ∷ hs) fs (set_message h (filled (s.messages h) f) s) d
          (Fit-update s.messages h (filled (s.messages h) f) (g ∷ hs) fs l k)

  -- A message that is not in the package keeps its contents.
  pub fill_other :
      (heap : ℕ → Message) (h : ℕ) (hs : List ℕ) (fs : List Bytes)
      → Lacks h hs
      → fill heap hs fs h ≡ heap h
  unfolding fill
  fill_other heap h [] fs l = refl
  fill_other heap h (g ∷ hs) [] l = refl
  fill_other heap h (g ∷ hs) (f ∷ fs) (ne, l) =
      fill_other (update heap g (filled (heap g) f)) h hs fs l ∙ rw (==_ne g h ne)

  pub Hold-fill :
      (heap : ℕ → Message) (hs : List ℕ) (fs : List Bytes)
      → Distinct hs
      → Fit heap hs fs
      → Hold (fill heap hs fs) hs fs
  unfolding fill
  Hold-fill heap hs [] d k = tt
  Hold-fill heap [] (f ∷ fs) d k = k
  Hold-fill heap (h ∷ hs) (f ∷ fs) (l, d) (r, fits, k) =
      let heap' = update heap h (filled (heap h) f) in
      let e : fill heap' hs fs h ≡ filled (heap h) f =
        fill_other heap' h hs fs l ∙ rw (==_refl h) in
      (
        ap payload e ∙ payload-filled (heap h) f,
        ap (λ (m : Message). m.size) e,
        ap (λ (m : Message). m.offset) e,
        Hold-fill heap' hs fs d (Fit-update heap h (filled (heap h) f) hs fs l k),
      )

  -- A message that is not in the package does not matter.
  pub Hold-update :
      (heap : ℕ → Message) (h : ℕ) (m : Message) (hs : List ℕ) (fs : List Bytes)
      → Lacks h hs
      → Hold heap hs fs
      → Hold (update heap h m) hs fs
  Hold-update heap h m hs [] l k = tt
  Hold-update heap h m [] (f ∷ fs) l k = k
  Hold-update heap h m (g ∷ hs) (f ∷ fs) (ne, l) (bytes, size, start, k) =
      rw (==_ne h g (λ e. ne (sym e))) (bytes, size, start, Hold-update heap h m hs fs l k)
