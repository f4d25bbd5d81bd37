-- ===== src/Port/Still.antt =====
-- The part of Port::Receive that copies frames leaves everything but the messages alone.
use dpn.Prelude.{
  ℕ, ◌≡◌, refl, sym, ◌∙◌, Bool, true, false, Option-cases, List, [], ◌∷◌, Bytes, inl, inr,
}
use mathlib.Core.Path.{subst}
use dpn.Exec.{Exec, Outcome, done, raised, pure, ◌>>=◌, >>=-returns}
use dpn.Message.{write_at}
use dpn.Zmq.{Zmq}
use dpn.State.{State}
use dpn.Port
use dpn.Port.Copy.{store_lem, store_past}

module _ {W : Type 0} where
  -- A state with the hub and the world of another.
  abbrev pub Still : State W → State W → Type 0
  Still s t = (t.hub ≡ s.hub) × (t.world ≡ s.world)

  -- Code that leaves the hub and the world alone when it returns.
  abbrev pub Stays : {A : Type 0} → Exec (State W) A → Type 0
  Stays {A = A} m = (s t : State W) (a : A) → m s ≡ done a t → Still s t

  abbrev StillAfter : {A : Type 0} → State W → Outcome (State W) A → Type 0
  StillAfter s (done a t) = Still s t
  StillAfter s (raised e t) = Unit

  Stays-pure : {A : Type 0} (x : A) → Stays (pure x)
  Stays-pure {A = A} x s t a e = subst (StillAfter {A = A} s) e (refl, refl)

  >>=-Stays :
      {A B : Type 0} (m : Exec (State W) A) (f : A → Exec (State W) B)
      → Stays m
      → ((a : A) → Stays (f a))
      → Stays (m >>= f)
  >>=-Stays m f k l s t b e =
      let (a, u, run, rest) = >>=-returns m f s t b e in
      let (hub, world) = k s u a run in
      let (hub', world') = l a u t b rest in (hub' ∙ hub, world' ∙ world)

module _ {W : Type 0} (zmq : Zmq W) where
  store-Stays : (h at : ℕ) (bytes : Bytes) → Stays (Port.store zmq h at bytes)
  store-Stays h at bytes s t a e = elim (Option-cases (write_at (s.messages h) at bytes)) [
    | inl k ↦ absurd (let r = sym (store_past zmq h at bytes s k) ∙ e in cc)
    | inr (m, k) ↦ subst (StillAfter s) (sym (store_lem zmq h at bytes s m k) ∙ e) (refl, refl)
  ]

  copy_frame-Stays : (h offset : ℕ) (f : Bytes) → Stays (Port.copy_frame zmq h offset f)
  unfolding Port.copy_frame
  copy_frame-Stays h offset f s =
      >>=-Stays (Port.store zmq h _ _) (λ _. pure _) (store-Stays h _ _) (λ _. Stays-pure _) s

  resize-Stays : (h size : ℕ) → Stays (Port.resize zmq h size)
  unfolding Port.resize
  resize-Stays h size s t a e = subst (StillAfter s) e (refl, refl)

  copy_package-Stays :
      (hs : List ℕ) (fs : List Bytes) (offset : ℕ) → Stays (Port.copy_package zmq hs fs offset)
  unfolding Port.copy_package
  copy_package-Stays [] [] offset = Stays-pure tt
  copy_package-Stays (h ∷ []) [] offset = Stays-pure tt
  copy_package-Stays (h ∷ g ∷ hs) [] offset = Stays-pure tt
  copy_package-Stays [] (f ∷ fs) offset = λ s t a e. absurd cc
  copy_package-Stays (h ∷ []) (f ∷ fs) offset =
      >>=-Stays (Port.copy_frame zmq h offset f) _ (copy_frame-Stays h offset f) (λ next.
        >>=-Stays (Port.resize zmq h next) (λ _. Port.copy_package zmq (h ∷ []) fs next)
          (resize-Stays h next) (λ _. copy_package-Stays (h ∷ []) fs next))
  copy_package-Stays (h ∷ g ∷ hs) (f ∷ fs) offset =
      >>=-Stays (Port.copy_frame zmq h offset f) _ (copy_frame-Stays h offset f) (λ next.
        >>=-Stays (Port.resize zmq h next) (λ _. Port.copy_package zmq (g ∷ hs) fs 0)
          (resize-Stays h next) (λ _. copy_package-Stays (g ∷ hs) fs 0))

  pub accept-Stays :
      (name : Bytes) (hs : List ℕ) (frames : List Bytes) (more : Bool)
      → Stays (Port.accept zmq name (λ fs. Port.copy_package zmq hs fs 0) frames more)
  unfolding Port.accept
  accept-Stays name hs [] more = Stays-pure name
  accept-Stays name hs (a ∷ []) more = Stays-pure name
  accept-Stays name hs (a ∷ b ∷ []) more = Stays-pure name
  accept-Stays name hs (a ∷ b ∷ c ∷ cs) false = Stays-pure name
  accept-Stays name hs (a ∷ [] ∷ c ∷ cs) true =
      >>=-Stays (Port.copy_package zmq hs (c ∷ cs) 0) _ (copy_package-Stays hs (c ∷ cs) 0)
        (λ _. Stays-pure _)
  accept-Stays name hs (a ∷ (b ∷ bs) ∷ c ∷ cs) true = Stays-pure _
