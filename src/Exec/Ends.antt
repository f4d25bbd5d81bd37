-- ===== src/Exec/Ends.antt =====
-- What holds of a run that returns. A run that throws is not spoken of.
use dpn.Prelude.{◌≡◌, inl, inr}
use mathlib.Core.Path.{subst}
use dpn.Exec.{Exec, Outcome, Error, done, raised, ◌>>=◌, Outcome-cases}

module _ {ℓ κ} {S A : Type ℓ} where
  -- The result and the state after a run that returned satisfy `Q`.
  abbrev pub Returns : (A → S → Type κ) → Outcome S A → Type κ
  Returns Q (done a t) = Q a t
  Returns Q (raised e t) = Unit

  abbrev pub Ends : (A → S → Type κ) → Exec S A → S → Type κ
  Ends Q m s = Returns Q (m s)

  pub Returns-map :
      (R Q : A → S → Type κ) (o : Outcome S A)
      → ((a : A) (t : S) → R a t → Q a t)
      → Returns R o
      → Returns Q o
  Returns-map R Q (done a t) k r = k a t r
  Returns-map R Q (raised e t) k r = tt

  pub Ends-done :
      (Q : A → S → Type κ) (m : Exec S A) (s : S) {a : A} {t : S}
      → Ends Q m s
      → m s ≡ done a t
      → Q a t
  Ends-done Q m s q e = subst (Returns Q) e q

module _ {ℓ κ} {S A B : Type ℓ} where
  pub >>=-Ends :
      (R : A → S → Type κ) (Q : B → S → Type κ) (m : Exec S A) (f : A → Exec S B) (s : S)
      → Ends R m s
      → ((a : A) (t : S) → R a t → Ends Q (f a) t)
      → Ends Q (m >>= f) s
  >>=-Ends R Q m f s q k = go (m s) q
    where
      go : (o : Outcome S A) → Returns R o → Returns Q (((λ _. o) >>= f) s)
      go (done a t) r = k a t r
      go (raised e t) r = tt

pub Ends-any {ℓ} : {S A : Type ℓ} (m : Exec S A) (s : S) → Ends (λ _ _. Unit {0}) m s
Ends-any {S = S} {A = A} m s = go (m s)
  where
    go : (o : Outcome S A) → Returns (λ _ _. Unit {0}) o
    go (done a t) = tt
    go (raised e t) = tt

-- A run that cannot return throws.
pub Ends-raised {ℓ} :
    {S A : Type ℓ} (m : Exec S A) (s : S)
    → Ends (λ a t. ⊥) m s
    → (e : Error) × (t : S) × (m s ≡ raised e t)
Ends-raised m s q = elim (Outcome-cases (m s)) [
  | inl (a, t, e) ↦ absurd (Ends-done (λ a t. ⊥) m s q e)
  | inr r ↦ r
]

pub Ends-both {ℓ κ} :
    {S A : Type ℓ} (Q R : A → S → Type κ) (m : Exec S A) (s : S)
    → Ends Q m s
    → Ends R m s
    → Ends (λ a t. Q a t × R a t) m s
Ends-both {S = S} {A = A} Q R m s q r = go (m s) q r
  where
    go : (o : Outcome S A) → Returns Q o → Returns R o → Returns (λ a t. Q a t × R a t) o
    go (done a t) q r = (q, r)
    go (raised e t) q r = tt
