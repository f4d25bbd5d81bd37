-- ===== src/Label/Memory.antt =====
-- A `Label::Contents` that is read from memory that any sender may have filled.
use dpn.Prelude.{
  ℕ, zero, suc, ◌+◌, ◌*◌, ◌/◌, ◌%◌, ◌^◌, ◌<◌, ◌≤◌, ◌≡◌, refl, ap, ◌∙◌, [], ◌∷◌, Bytes, arith,
  length, take, All,
}
use dpn.Label.Layout.{byte, decode, encode, field_size}

-- What memory holds.
abbrev pub AreBytes : Bytes → Type 0
AreBytes = All (λ x. x < 256)

byte-AreBytes : (i : ℕ) (b : Bytes) → AreBytes b → byte i b < 256
byte-AreBytes zero [] k = omega arith
byte-AreBytes (suc i) [] k = omega arith
byte-AreBytes zero (x ∷ xs) (h, k) = h
byte-AreBytes (suc i) (x ∷ xs) (h, k) = byte-AreBytes i xs k

-- The bytes from the i-th on.
bytes_from : ℕ → ℕ → Bytes → Bytes
bytes_from i zero b = []
bytes_from i (suc n) b = byte i b ∷ bytes_from (suc i) n b

two_back :
    (x y : ℕ) → x < 256 → y < 256 → ((x + 256 * y) % 256 ≡ x) × ((x + 256 * y) / 256 % 256 ≡ y)
two_back x y h k = (omega arith, omega arith)

four_back :
    (x y z w : ℕ)
    → x < 256
    → y < 256
    → z < 256
    → w < 256
    → ((x + 256 * y + 2 ^ 16 * (z + 256 * w)) % 256 ≡ x)
      × ((x + 256 * y + 2 ^ 16 * (z + 256 * w)) / 256 % 256 ≡ y)
      × ((x + 256 * y + 2 ^ 16 * (z + 256 * w)) / 2 ^ 16 % 256 ≡ z)
      × ((x + 256 * y + 2 ^ 16 * (z + 256 * w)) / 2 ^ 16 / 256 % 256 ≡ w)
four_back x y z w h k l m = (omega arith, omega arith, omega arith, omega arith)

encode-decode_bytes : (b : Bytes) → AreBytes b → encode (decode b) ≡ bytes_from 0 18 b
unfolding encode decode bytes_from
encode-decode_bytes b k =
    let at = λ (i : ℕ). byte-AreBytes i b k in
    let two = λ (i : ℕ). two_back (byte i b) (byte (i + 1) b) (at i) (at (i + 1)) in
    let (a, c, d, e) =
      four_back (byte 0 b) (byte 1 b) (byte 2 b) (byte 3 b) (at 0) (at 1) (at 2) (at 3) in
    λ i.
      a i
      ∷ c i
      ∷ d i
      ∷ e i
      ∷ (two 4).0 i
      ∷ (two 4).1 i
      ∷ (two 6).0 i
      ∷ (two 6).1 i
      ∷ (two 8).0 i
      ∷ (two 8).1 i
      ∷ (two 10).0 i
      ∷ (two 10).1 i
      ∷ (two 12).0 i
      ∷ (two 12).1 i
      ∷ (two 14).0 i
      ∷ (two 14).1 i
      ∷ (two 16).0 i
      ∷ (two 16).1 i
      ∷ []

bytes_from_tail : (i n x : ℕ) (xs : Bytes) → bytes_from (suc i) n (x ∷ xs) ≡ bytes_from i n xs
unfolding bytes_from
bytes_from_tail i zero x xs = refl
bytes_from_tail i (suc n) x xs = ap (◌∷◌ (byte i xs)) (bytes_from_tail (suc i) n x xs)

bytes_from_start : (n : ℕ) (b : Bytes) → n ≤ length b → bytes_from 0 n b ≡ take n b
unfolding bytes_from
bytes_from_start zero b h = refl
bytes_from_start (suc n) [] h = absurd (omega arith)
bytes_from_start (suc n) (x ∷ xs) h =
    ap (◌∷◌ x) (bytes_from_tail 0 n x xs ∙ bytes_from_start n xs (omega arith))

-- A label that is read from the memory of a header and stored again is stored as the same bytes: no bit
-- of the fields is lost.
pub encode-decode :
    (b : Bytes) → AreBytes b → field_size ≤ length b → encode (decode b) ≡ take field_size b
encode-decode b k h = encode-decode_bytes b k ∙ bytes_from_start 18 b h
