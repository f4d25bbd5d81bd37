-- ===== src/Exec/Keeps.antt =====
-- Code that keeps a predicate on its state, whether it returns or throws.
use dpn.Prelude.{◌≡◌, refl, Bool, true, false, if◌then◌else◌}
use dpn.Exec.{Exec, Outcome, done, raised, state, ◌>>=◌, lift, Result, ok, err}
use mathlib.Core.Path.{subst, sym}

module _ {S : Type 0} (P : S → Type 0) where
  abbrev pub Keeps : {A : Type 0} → Exec S A → Type 0
  Keeps m = (s : S) → P s → P (state (m s))

  -- `Q` holds of what the first part returns and of the state that it leaves.
  pub >>=-Keeps_then :
      {A B : Type 0} (Q : A → S → Type 0) (m : Exec S A) (f : A → Exec S B) (s : S)
      → P (state (m s))
      → ((a : A) (t : S) → m s ≡ done a t → Q a t)
      → ((a : A) (t : S) → P t → Q a t → P (state (f a t)))
      → P (state ((m >>= f) s))
  >>=-Keeps_then {A = A} Q m f s p q k = go (m s) refl p
    where
      go :
          (o : Outcome S A)
          → m s ≡ o
          → P (state o)
          → P (state (elim o [ done a t ↦ f a t | raised e t ↦ raised e t ]))
      go (done a t) e r = k a t r (q a t e)
      go (raised x t) e r = r

  pub >>=-Keeps :
      {A B : Type 0} (m : Exec S A) (f : A → Exec S B)
      → Keeps m
      → ((a : A) → Keeps (f a))
      → Keeps (m >>= f)
  >>=-Keeps m f k l s p =
      >>=-Keeps_then (λ a t. Unit {0}) m f s (k s p) (λ a t e. tt) (λ a t r u. l a t r)

  pub lift-Keeps : {A : Type 0} (r : Result A) → Keeps (lift r)
  lift-Keeps (ok a) s p = p
  lift-Keeps (err e) s p = p

  -- A run that is known by an equation.
  pub run-Keeps :
      {A : Type 0} (m : Exec S A) (s : S) {o : Outcome S A}
      → m s ≡ o
      → P (state o)
      → P (state (m s))
  run-Keeps m s e p = subst (λ o. P (state o)) (sym e) p

  pub if-state :
      {A : Type 0} (b : Bool) (m k : Exec S A) (s : S)
      → P (state (m s))
      → P (state (k s))
      → P (state ((if b then m else k) s))
  if-state true m k s p q = p
  if-state false m k s p q = q
