-- ===== src/Port/Frames.antt =====
-- The loop that receives the frames of a multipart message into a vector of ten.
use dpn.Prelude.{ℕ, zero, suc, ◌≤◌, ◌≡◌, ap, true, List, [], ◌∷◌, Bytes, length, arith}
use dpn.Exec.{done, raised, out_of_range}
use dpn.Zmq.{Zmq, Delivers, Overflows}
use dpn.State.{State}
use dpn.Port.{collect}

module _ {W : Type 0} (zmq : Zmq W) where
  -- Frames that fit into the slots are all collected.
  pub collect_all :
      (p flags slots : ℕ) (fs : List Bytes) (s : State W) (w : W)
      → Delivers zmq (s.ports p).socket flags s.world fs w
      → length fs ≤ slots
      → collect zmq p flags slots s ≡ done (fs, true) (record s { world = w })
  unfolding collect
  collect_all p flags zero [] s w d h = absurd d
  collect_all p flags zero (f ∷ fs) s w d h = absurd (omega arith)
  collect_all p flags (suc n) [] s w d h = absurd d
  collect_all p flags (suc n) (f ∷ []) s w d h = ground (arith, d)
  collect_all p flags (suc n) (f ∷ g ∷ fs) s w (v, e, d) h =
      ground (arith, e, collect_all p flags n (g ∷ fs) (record s { world = v }) w d (omega arith))

  -- When the frame in the last slot is followed by another, the loop throws, and the frames that it read
  -- are gone.
  pub collect_too_many :
      (p flags slots : ℕ) (s : State W) (w : W)
      → Overflows zmq (s.ports p).socket flags s.world slots w
      → collect zmq p flags slots s ≡ raised out_of_range (record s { world = w })
  unfolding collect
  collect_too_many p flags zero s w e = ap (λ v. raised out_of_range (record s { world = v })) e
  collect_too_many p flags (suc n) s w (f, v, e, o) =
      ground (arith, e, collect_too_many p flags n (record s { world = v }) w o)
