-- ===== src/Text/Decimal.antt =====
-- `std::stoi` reads back what `std::to_string` prints.
use mathlib.Core.List.{concat-ne-nil}
use dpn.Prelude.{
  ℕ, zero, suc, ◌+◌, ◌-◌, ◌*◌, ◌/◌, ◌%◌, ◌^◌, ◌≤◌, ◌<◌, ◌≡◌, ◌≢◌, refl, [], ◌∷◌, ◌++◌, Bytes, All,
  All-append, Lacks, arith,
}
use dpn.Prelude.Int.{pos}
use dpn.Exec.{ok}
use dpn.Text.{digits, to_string, digits_from, stoi}

abbrev pub IsDigit : ℕ → Type 0
IsDigit c = (b'0' ≤ c) × (c ≤ b'9')

digits-IsDigit : (fuel n : ℕ) → All IsDigit (digits fuel n)
unfolding digits
digits-IsDigit zero n = tt
digits-IsDigit (suc fuel) n = ground (
  arith,
  digits-IsDigit fuel (n / 10),
  All-append IsDigit (digits fuel (n / 10)) ((b'0' + n % 10) ∷ []),
)

digits_from-append :
    (acc : ℕ) (xs ys : Bytes)
    → All IsDigit xs
    → digits_from acc (xs ++ ys) ≡ digits_from (digits_from acc xs) ys
unfolding digits_from
digits_from-append acc [] ys h = refl
digits_from-append acc (c ∷ cs) ys h =
    ground (arith, digits_from-append (acc * 10 + (c - b'0')) cs ys h.1)

digits_from-digits : (fuel n : ℕ) → n < fuel → digits_from 0 (digits fuel n) ≡ n
unfolding digits digits_from
digits_from-digits zero n h = absurd (omega arith)
digits_from-digits (suc fuel) n h = ground (
  arith,
  digits_from-append 0 (digits fuel (n / 10)) ((b'0' + n % 10) ∷ []) (digits-IsDigit fuel (n / 10)),
  digits_from-digits fuel (n / 10),
)

digits-ne-nil : (fuel n : ℕ) → n < fuel → digits fuel n ≢ []
unfolding digits
digits-ne-nil zero n h = absurd (omega arith)
digits-ne-nil (suc fuel) n h = ground (arith, concat-ne-nil (b'0' + n % 10) (digits fuel (n / 10)))

to_string-IsDigit : (n : ℕ) → All IsDigit (to_string n)
unfolding to_string
to_string-IsDigit n = digits-IsDigit (suc n) n

-- A run of digits is read as a number, without a sign.
stoi_digits :
    (xs : Bytes) (n : ℕ)
    → All IsDigit xs
    → xs ≢ []
    → digits_from 0 xs ≡ n
    → n < 2 ^ 31
    → stoi xs ≡ ok (pos n)
unfolding stoi
stoi_digits [] n h ne e lt = absurd (ne refl)
stoi_digits (c ∷ cs) n h ne e lt = ground arith

-- Numbers below the largest `int` are read back from their print.
pub stoi-to_string : (n : ℕ) → n < 2 ^ 31 → stoi (to_string n) ≡ ok (pos n)
unfolding to_string
stoi-to_string n lt =
    stoi_digits (digits (suc n) n) n (digits-IsDigit (suc n) n)
      (digits-ne-nil (suc n) n (omega arith)) (digits_from-digits (suc n) n (omega arith)) lt

-- No character outside the digits stands in a printed number.
IsDigit-Lacks : (d : ℕ) (xs : Bytes) → ¬ IsDigit d → All IsDigit xs → Lacks d xs
IsDigit-Lacks d [] h k = tt
IsDigit-Lacks d (c ∷ cs) h k = (λ e. h (rw (← e) k.0), IsDigit-Lacks d cs h k.1)

pub to_string-Lacks : (d n : ℕ) → ¬ IsDigit d → Lacks d (to_string n)
to_string-Lacks d n h = IsDigit-Lacks d (to_string n) h (to_string-IsDigit n)
