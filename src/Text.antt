-- ===== src/Text.antt =====
-- The C++ standard library's text functions that the port and hub code calls: `std::getline` on a
-- `std::stringstream`, `std::to_string` and `std::stoi`. A text is the list of its characters' codes.
pub mod Getline
pub mod Decimal
use Prim.Native.Char.{code}
use Prim.Native.String.{String}
use dpn.Prelude.{
  ℕ, zero, suc, ◌+◌, ◌-◌, ◌*◌, ◌/◌, ◌%◌, ◌^◌, ◌≡◌, refl, Bool, true, false, ◌&&◌, ◌||◌, Option,
  none, some, List, [], ◌∷◌, ◌++◌, Bytes, ltb, leb, ◌==◌, if◌then◌else◌,
}
use dpn.Prelude.Int.{ℤ, pos, negsuc}
use dpn.Exec.{Result, ok, err, invalid_argument, out_of_range}

-- The codes of a literal.
abbrev pub codes : String → Bytes
codes String.[] = []
codes (String.◌∷◌ c s) = code c ∷ codes s

-- The unread text, and whether the stream is `good()`.
pub record Stream : Type 0 where
  pub rest : Bytes
  pub good : Bool

-- `ss.str(text)` on a fresh stream.
abbrev pub open_stream : Bytes → Stream
open_stream text = record { rest = text; good = true }

-- The characters before the first delimiter, which is consumed; without one the stream is at its end.
unfoldable pub split_at : ℕ → Bytes → Bytes × Stream
split_at d [] = ([], record { rest = []; good = false })
split_at d (c ∷ cs) =
    let later = split_at d cs in
    if c == d then ([], record { rest = cs; good = true }) else (c ∷ later.0, later.1)

-- `std::getline(ss, text, d)`: on a stream that is not good the text keeps its value.
unfoldable pub getline : Stream → Bytes → ℕ → Bytes × Stream
unfolding split_at
getline s text d = if s.good then split_at d s.rest else (text, s)

-- The digits of `n`, on fuel; any fuel above `n` serves.
unfoldable pub digits : ℕ → ℕ → Bytes
digits zero n = []
digits (suc fuel) n =
    let leading = digits fuel (n / 10) in
    if ltb n 10 then (b'0' + n) ∷ [] else leading ++ (b'0' + n % 10) ∷ []

-- `std::to_string` of an unsigned number.
unfoldable pub to_string : ℕ → Bytes
unfolding digits
to_string n = digits (suc n) n

abbrev pub is_digit : ℕ → Bool
is_digit c = leb b'0' c && leb c b'9'

abbrev is_space : ℕ → Bool
is_space c = c == b' ' || leb 9 c && leb c 13

unfoldable pub digits_from : ℕ → Bytes → ℕ
digits_from acc [] = acc
digits_from acc (c ∷ cs) =
    let more = digits_from (acc * 10 + (c - b'0')) cs in if is_digit c then more else acc

-- The longest run of digits at the front; `none` when there is none.
unfoldable pub number : Bytes → Option ℕ
unfolding digits_from
number [] = none
number (c ∷ cs) = if is_digit c then some (digits_from 0 (c ∷ cs)) else none

abbrev in_int_range : Bool → Option ℕ → Result ℤ
in_int_range negative none = err invalid_argument
in_int_range false (some n) = if ltb n (2 ^ 31) then ok (pos n) else err out_of_range
in_int_range true (some zero) = ok (pos 0)
in_int_range true (some (suc n)) = if ltb n (2 ^ 31) then ok (negsuc n) else err out_of_range

unfoldable pub signed_number : Bytes → Result ℤ
unfolding number
signed_number [] = err invalid_argument
signed_number (c ∷ cs) =
    if c == b'-'
    then in_int_range true (number cs)
    else if c == b'+'
    then in_int_range false (number cs)
    else in_int_range false (number (c ∷ cs))

-- `std::stoi`, of a 32-bit `int`: what follows the number is ignored.
unfoldable pub stoi : Bytes → Result ℤ
unfolding signed_number
stoi [] = err invalid_argument
stoi (c ∷ cs) = let later = stoi cs in if is_space c then later else signed_number (c ∷ cs)
