-- ===== src/Exec.antt =====
-- Code that mutates objects and may throw. What was written before a throw stays written, so the
-- state comes back beside the exception.
pub mod Keeps
pub mod Ends
use dpn.Prelude.{
  ℕ, ◌≡◌, refl, sym, ◌∙◌, Option, none, some, ◌⊎◌, inl, inr, Bool, true, false, if◌then◌else◌,
}

-- `undefined` is undefined behaviour of C++ (a write outside a buffer, a dereferenced end iterator);
-- `exception` is a `std::exception` of no class named here; `aborted` is a failed `assert`; `zmq_error`
-- is `zmq::error_t` with its errno.
pub data Error : Type 0 where
  invalid_argument out_of_range runtime_error exception aborted undefined : Error
  zmq_error : ℕ → Error

-- What `catch (...)` catches: undefined behaviour and a failed `assert` are no exceptions.
abbrev pub is_caught : Error → Bool
is_caught undefined = false
is_caught aborted = false
is_caught invalid_argument = true
is_caught out_of_range = true
is_caught runtime_error = true
is_caught exception = true
is_caught (zmq_error errno) = true

-- The result of a pure function that may throw.
pub data Result {ℓ} (A : Type ℓ) : Type ℓ where
  ok : A → Result A
  err : Error → Result A

pub data Outcome {ℓ} (S A : Type ℓ) : Type ℓ where
  done : A → S → Outcome S A
  raised : Error → S → Outcome S A

abbrev pub Exec {ℓ} : Type ℓ → Type ℓ → Type ℓ
Exec S A = S → Outcome S A

module _ {ℓ} {S A : Type ℓ} where
  abbrev pub pure : A → Exec S A
  pure a s = done a s

  abbrev pub raise : Error → Exec S A
  raise e s = raised e s

  abbrev pub gets : (S → A) → Exec S A
  gets f s = done (f s) s

  abbrev pub lift : Result A → Exec S A
  lift (ok a) s = done a s
  lift (err e) s = raised e s

  -- `try { … } catch (...) { … }`: the value, or `none` when an exception was caught.
  abbrev pub attempt : Exec S A → Exec S (Option A)
  attempt m s = elim (m s) [
    | done a s' ↦ done (some a) s'
    | raised e s' ↦ if is_caught e then done none s' else raised e s'
  ]

  -- The state after a run, returned or thrown.
  abbrev pub state : Outcome S A → S
  state (done a s) = s
  state (raised e s) = s

abbrev pub modify : {S : Type 0} → (S → S) → Exec S (Unit {0})
modify f s = done tt (f s)

module _ {ℓ} {S A B : Type ℓ} where
  infixl 5 ◌>>=◌
  abbrev pub ◌>>=◌ : Exec S A → (A → Exec S B) → Exec S B
  ◌>>=◌ m f s = elim (m s) [ done a s' ↦ f a s' | raised e s' ↦ raised e s' ]

  pub >>=-done :
      (m : Exec S A) (f : A → Exec S B) (s : S) {a : A} {s' : S}
      → m s ≡ done a s'
      → (m >>= f) s ≡ f a s'
  >>=-done m f s e = rw (e, ◌>>=◌)

  pub >>=-raised :
      (m : Exec S A) (f : A → Exec S B) (s : S) {e : Error} {s' : S}
      → m s ≡ raised e s'
      → (m >>= f) s ≡ raised e s'
  >>=-raised m f s e = rw (e, ◌>>=◌)

module _ {S B : Type 0} where
  infixl 5 ◌>>◌
  abbrev pub ◌>>◌ : Exec S (Unit {0}) → Exec S B → Exec S B
  m >> k = m >>= λ _. k

-- To split on an outcome and keep the equation.
pub Outcome-cases {ℓ} :
    {S A : Type ℓ} (o : Outcome S A)
    → ((a : A) × (s : S) × (o ≡ done a s)) ⊎ ((e : Error) × (s : S) × (o ≡ raised e s))
Outcome-cases (done a s) = inl (a, s, refl)
Outcome-cases (raised e s) = inr (e, s, refl)

-- The two runs of a composition that returns.
pub >>=-returns {ℓ} :
    {S A B : Type ℓ} (m : Exec S A) (f : A → Exec S B) (s t : S) (b : B)
    → (m >>= f) s ≡ done b t
    → (a : A) × (u : S) × (m s ≡ done a u) × (f a u ≡ done b t)
>>=-returns m f s t b e = elim (Outcome-cases (m s)) [
  | inl (a, u, k) ↦ (a, u, k, sym (>>=-done m f s k) ∙ e)
  | inr (x, u, k) ↦ absurd (let r = sym (>>=-raised m f s k) ∙ e in cc)
]
