-- ===== src/Port/Receive.antt =====
-- Port::Receive: what arrives, and what is refused.
use dpn.Prelude.{
  ℕ, zero, suc, none, some, inl, inr, ◌+◌, ◌≤◌, ◌<◌, ◌≡◌, refl, ◌⊎◌, Bool, true, false, List, [],
  ◌∷◌, Bytes, length, Lacks, arith,
}
use dpn.Exec.{done, raised, Outcome-cases, Exec, >>=-raised, out_of_range}
use mathlib.Core.Path.{subst}
use dpn.Message.{Message}
use dpn.Names.{port_name_from_socket_id}
use dpn.Zmq.{Zmq, Delivers, Overflows}
use dpn.State.{State}
use dpn.Port.{accept, receive, collect, max_frames}
use dpn.Port.Frames.{collect_all, collect_too_many}
use dpn.Port.Copy.{Fit, Hold, Distinct, fill, copy_package-fill, fill_other, Hold-fill}

module _ {W : Type 0} (zmq : Zmq W) where
  -- Each frame is put into its message.
  pub receive-fill :
      (p flags : ℕ) (name id : Bytes) (hs : List ℕ) (f : Bytes) (fs : List Bytes) (s : State W)
      (w : W)
      → Delivers zmq (s.ports p).socket flags s.world (id ∷ [] ∷ f ∷ fs) w
      → length (f ∷ fs) + 2 ≤ max_frames
      → Distinct hs
      → Fit s.messages hs (f ∷ fs)
      → receive zmq p name hs flags s
        ≡ done
            (port_name_from_socket_id id)
            (record s { messages = fill s.messages hs (f ∷ fs); world = w })
  unfolding receive accept
  receive-fill p flags name id hs f fs s w arrives few d k = ground (
    arith,
    collect_all zmq p flags max_frames (id ∷ [] ∷ f ∷ fs) s w arrives (omega arith),
    copy_package-fill zmq hs (f ∷ fs) (record s { world = w }) d k,
  )

  -- A multipart message of an address, a null frame and contents, no more than fit into ten slots
  -- and each with a message of its own that is ready and large enough, arrives whole: the name in
  -- the address is returned, each message of the package holds its frame, and a message `h` that is
  -- not in the package keeps its contents.
  receive_lem :
      (p flags : ℕ) (name id : Bytes) (hs : List ℕ) (f : Bytes) (fs : List Bytes) (s : State W)
      (w : W) (h : ℕ)
      → Delivers zmq (s.ports p).socket flags s.world (id ∷ [] ∷ f ∷ fs) w
      → length (f ∷ fs) + 2 ≤ max_frames
      → Distinct hs
      → Fit s.messages hs (f ∷ fs)
      → Lacks h hs
      → (heap : ℕ → Message) × (receive zmq p name hs flags s
          ≡ done (port_name_from_socket_id id) (record s { messages = heap; world = w }))
        × Hold heap hs (f ∷ fs)
        × (heap h ≡ s.messages h)
  receive_lem p flags name id hs f fs s w h arrives few d k l = (
    fill s.messages hs (f ∷ fs),
    receive-fill p flags name id hs f fs s w arrives few d k,
    Hold-fill zmq s.messages hs (f ∷ fs) d k,
    fill_other zmq s.messages h hs (f ∷ fs) l,
  )

  -- Of fewer than three frames, or frames whose end did not come, nothing is taken: the reference to the
  -- port name keeps its value, and every message its contents.
  pub accept_incomplete :
      (name : Bytes) (copy : List Bytes → Exec (State W) (Unit {0})) (frames : List Bytes)
      (more : Bool) (s : State W)
      → (length frames < 3) ⊎ (more ≡ false)
      → accept zmq name copy frames more s ≡ done name s
  unfolding accept
  accept_incomplete name copy [] more s h = refl
  accept_incomplete name copy (a ∷ []) more s h = refl
  accept_incomplete name copy (a ∷ b ∷ []) more s h = refl
  accept_incomplete name copy (a ∷ b ∷ c ∷ cs) true s h = ground arith
  accept_incomplete name copy (a ∷ b ∷ c ∷ cs) false s h = refl

  -- A multipart message of more frames than the vector has slots makes Receive throw `out_of_range`:
  -- no message changes, and the network is as the reading of ten frames left it.
  pub receive_too_many :
      (p flags : ℕ) (name : Bytes) (hs : List ℕ) (s : State W) (w : W)
      → Overflows zmq (s.ports p).socket flags s.world max_frames w
      → receive zmq p name hs flags s ≡ raised out_of_range (record s { world = w })
  unfolding receive
  receive_too_many p flags name hs s w o =
      >>=-raised (collect zmq p flags max_frames) _ s
        (collect_too_many zmq p flags max_frames s w o)

  -- The loop that receives the frames changes nothing but the world.
  abbrev Only : State W → State W → Type 0
  Only s t = t ≡ record s { world = t.world }

  pub collect_only :
      (p flags slots : ℕ) (s : State W) {r : List Bytes × Bool} {t : State W}
      → collect zmq p flags slots s ≡ done r t
      → t ≡ record s { world = t.world }
  unfolding collect
  collect_only p flags zero s c = absurd (ground (arith, c))
  collect_only p flags (suc slots) s {r = r} {t = t} c =
      elim (Outcome-cases (zmq.recv (s.ports p).socket flags s.world)) [
        | inr (e, w, k) ↦ absurd (ground (arith, c, k))
        | inl (none, w, k) ↦
            let same : record s { world = w } ≡ t = ground (arith, c, k) in subst (Only s) same refl
        | inl (some (frame, false), w, k) ↦
            let same : record s { world = w } ≡ t = ground (arith, c, k) in subst (Only s) same refl
        | inl (some (frame, true), w, k) ↦
            elim (Outcome-cases (collect zmq p flags slots (record s { world = w }))) [
              | inr (e, u, k') ↦ absurd (ground (arith, c, k, k'))
              | inl (later, u, k') ↦
                  let same : u ≡ t = ground (arith, c, k, k') in
                  subst (Only s) same (collect_only p flags slots (record s { world = w }) k')
            ]
      ]
