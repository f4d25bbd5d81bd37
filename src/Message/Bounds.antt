-- ===== src/Message/Bounds.antt =====
-- The size, offset and capacity of a message.
use dpn.Prelude.{
  ℕ, ◌+◌, ◌-◌, ◌^◌, ◌≤◌, ◌<◌, ◌≡◌, some, Bytes, arith, length, take, drop, length-append,
  length-take, length-drop, ◌++◌, ◌⊎◌, inl, inr, Bool-cases, leb,
}
use dpn.Message.{Message, IsValid, create, resize, reset, payload, write_at}

pub create-IsValid :
    (capacity : ℕ) (fresh : Bytes) → length fresh ≡ capacity → IsValid (create capacity fresh)
unfolding create
create-IsValid capacity fresh h = record {
  in_bounds = omega arith;
  exposed = omega arith;
  allocated = h;
}

-- A resize keeps a valid message valid when the sum of its arguments fits in a `size_t`.
pub resize-IsValid :
    (m : Message) (size offset : ℕ)
    → IsValid m
    → size + offset < 2 ^ 64
    → IsValid (resize m size offset)
unfolding resize
resize-IsValid m size offset v h = ground arith

pub reset-IsValid : (m : Message) → IsValid m → IsValid (reset m)
unfolding reset
reset-IsValid m v = ground arith

pub write_at-IsValid :
    (m : Message) (at : ℕ) (bytes : Bytes) {m' : Message}
    → write_at m at bytes ≡ some m'
    → IsValid m
    → IsValid m'
unfolding write_at
write_at-IsValid m at bytes h v = ground (
  arith,
  length-append (take at m.memory) (bytes ++ drop (at + length bytes) m.memory),
  length-append bytes (drop (at + length bytes) m.memory),
  length-take at m.memory,
  length-drop (at + length bytes) m.memory,
)

-- When the sum of size and offset does not wrap, either both fit into the capacity together and a resize
-- sets them and exposes that many bytes, or they do not and it leaves the message as it was.
resize_lem :
    (m : Message) (size offset : ℕ)
    → size + offset < 2 ^ 64
    → ((size + offset ≤ m.capacity)
        × ((resize m size offset).size ≡ size)
        × ((resize m size offset).offset ≡ offset)
        × (payload (resize m size offset) ≡ take size m.memory))
      ⊎ ((m.capacity < size + offset) × (resize m size offset ≡ m))
unfolding resize payload
resize_lem m size offset h = elim (Bool-cases (leb (size + offset) m.capacity)) [
  | inl fits ↦ inl (ground arith)
  | inr over ↦ inr (ground arith)
]

-- The guard of a resize is computed in `size_t`: with an offset that is not 0, the size whose sum
-- with it wraps to 0 passes, and the message claims more bytes than it has.
resize_wraps :
    (m : Message) (offset : ℕ)
    → 0 < offset
    → m.capacity + offset < 2 ^ 64
    → m.capacity < (resize m (2 ^ 64 - offset) offset).size
unfolding resize
resize_wraps m offset h k = ground arith

-- After a resize that took effect and a reset the size is 0, and a send still transmits the old bytes.
payload-reset-resize :
    (m : Message) (size offset : ℕ)
    → size + offset ≤ m.capacity
    → m.capacity < 2 ^ 64
    → ((reset (resize m size offset)).size ≡ 0)
      × (payload (reset (resize m size offset)) ≡ take size m.memory)
unfolding resize reset payload
payload-reset-resize m size offset h k = ground arith
