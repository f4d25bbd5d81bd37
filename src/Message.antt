-- ===== src/Message.antt =====
-- dpn/message/inc/Message.hpp and dpn/message/src/Message.cpp. A `Message*` is a number, the place of
-- the object in the heap of `State`; the proofs are in the children.
pub mod Bounds
pub mod Memory
pub mod Offsets
use dpn.Prelude.{
  ℕ, ◌+◌, ◌%◌, ◌^◌, ◌≤◌, ◌≡◌, Option, none, some, ◌++◌, Bytes, length, take, drop, ltb, leb,
  if◌then◌else◌,
}

-- `memory` is the allocation behind `buffer_`. `contents` is the size of the `zmq::message_t` behind
-- `contents_`: the message exposes that many bytes from the start of the allocation.
pub record Message : Type 0 where
  pub size : ℕ
  pub offset : ℕ
  pub capacity : ℕ
  pub memory : Bytes
  pub contents : ℕ

abbrev pub default_message_capacity : ℕ
default_message_capacity = 0x1000

-- The constructor; `fresh` is what the allocated bytes hold before anything is written.
unfoldable pub create : ℕ → Bytes → Message
create capacity fresh = record {
  size = 0;
  offset = 0;
  capacity = capacity;
  memory = fresh;
  contents = 0;
}

-- `buffer()` is a pointer: its distance from the start of the allocation.
unfoldable pub buffer : Message → ℕ
buffer m = m.offset

-- The sum of two `size_t` wraps.
unfoldable pub resize : Message → ℕ → ℕ → Message
resize m size offset =
    if ltb m.capacity ((size + offset) % 2 ^ 64)
    then m
    else record m { size = size; offset = offset; contents = size }

unfoldable pub reset : Message → Message
reset m = record m { size = 0; offset = 0 }

-- The bytes of `*contents()`, those that a send transmits.
unfoldable pub payload : Message → Bytes
payload m = take m.contents m.memory

-- `memcpy` to a place in the allocation; `none` is a write past its end.
unfoldable pub write_at : Message → ℕ → Bytes → Option Message
write_at m at bytes =
    if leb (at + length bytes) m.capacity
    then some
        (record m { memory = take at m.memory ++ (bytes ++ drop (at + length bytes) m.memory) })
    else none

-- The `zmq::message_t` after a call of the transport that left `left` bytes in it.
unfoldable pub truncate : Message → ℕ → Message
truncate m left = record m { contents = left }

pub record IsValid (m : Message) : Type 0 where
  pub in_bounds : m.size + m.offset ≤ m.capacity
  pub exposed : m.contents ≤ m.capacity
  pub allocated : length m.memory ≡ m.capacity
