-- ===== src/Label/Layout.antt =====
-- The bytes of a `Label::Contents`. The code casts the label message's buffer to a `Contents*`, so the
-- object's memory is the wire format: here that of a little-endian machine whose ABI aligns a number
-- to its size, as the x86-64 System V ABI does. Two bytes of padding end the struct.
use dpn.Prelude.{
  ℕ, zero, suc, ◌+◌, ◌*◌, ◌/◌, ◌%◌, ◌^◌, ◌<◌, ◌≡◌, refl, [], ◌∷◌, ◌++◌, Bytes, arith, length,
}
use dpn.Label.{Contents, InRange}

-- sizeof(Label::Contents)
abbrev pub contents_size : ℕ
contents_size = 20

-- The bytes that hold fields.
abbrev pub field_size : ℕ
field_size = 18

abbrev pub byte : ℕ → Bytes → ℕ
byte i [] = 0
byte zero (b ∷ bs) = b
byte (suc i) (b ∷ bs) = byte i bs

abbrev low : ℕ → ℕ
low n = n % 256

abbrev high : ℕ → ℕ
high n = n / 256 % 256

abbrev read16 : ℕ → Bytes → ℕ
read16 i b = byte i b + 256 * byte (i + 1) b

-- `*contents = value`: the bytes of the fields, in the order of their offsets.
unfoldable pub encode : Contents → Bytes
encode c =
    low c.message_id
    ∷ high c.message_id
    ∷ low (c.message_id / 2 ^ 16)
    ∷ high (c.message_id / 2 ^ 16)
    ∷ low c.type
    ∷ high c.type
    ∷ low c.src.peer_id
    ∷ high c.src.peer_id
    ∷ low c.src.port_id
    ∷ high c.src.port_id
    ∷ low c.src.interface_id
    ∷ high c.src.interface_id
    ∷ low c.dest.peer_id
    ∷ high c.dest.peer_id
    ∷ low c.dest.port_id
    ∷ high c.dest.port_id
    ∷ low c.dest.interface_id
    ∷ high c.dest.interface_id
    ∷ []

-- `contents->messageID_ = id`: the first four bytes.
unfoldable pub encode_id : ℕ → Bytes
encode_id id = low id ∷ high id ∷ low (id / 2 ^ 16) ∷ high (id / 2 ^ 16) ∷ []

-- `*contents` as a value.
unfoldable pub decode : Bytes → Contents
decode b = record {
  message_id = read16 0 b + 2 ^ 16 * read16 2 b;
  type = read16 4 b;
  src = record { peer_id = read16 6 b; port_id = read16 8 b; interface_id = read16 10 b };
  dest = record { peer_id = read16 12 b; port_id = read16 14 b; interface_id = read16 16 b };
}

pub length-encode : (c : Contents) → length (encode c) ≡ field_size
unfolding encode
length-encode c = refl

two_bytes : (n : ℕ) → n < 2 ^ 16 → low n + 256 * high n ≡ n
two_bytes n h = omega arith

four_bytes :
    (n : ℕ)
    → n < 2 ^ 32
    → low n + 256 * high n + 2 ^ 16 * (low (n / 2 ^ 16) + 256 * high (n / 2 ^ 16)) ≡ n
four_bytes n h = omega arith

-- Contents in range are read back from the bytes that were stored, whatever the padding behind them.
pub decode-encode : (c : Contents) (padding : Bytes) → InRange c → decode (encode c ++ padding) ≡ c
unfolding encode decode
decode-encode c padding r = λ i. record {
  message_id = four_bytes c.message_id r.message i;
  type = two_bytes c.type r.kind i;
  src = record {
    peer_id = two_bytes c.src.peer_id r.source.peer i;
    port_id = two_bytes c.src.port_id r.source.port i;
    interface_id = two_bytes c.src.interface_id r.source.interface i;
  };
  dest = record {
    peer_id = two_bytes c.dest.peer_id r.target.peer i;
    port_id = two_bytes c.dest.port_id r.target.port i;
    interface_id = two_bytes c.dest.interface_id r.target.interface i;
  };
}
