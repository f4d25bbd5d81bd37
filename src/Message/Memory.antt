-- ===== src/Message/Memory.antt =====
-- What a write into a message leaves to be read.
use dpn.Prelude.{
  ℕ, ◌+◌, ◌≤◌, ◌≡◌, none, some, List, ◌++◌, Bytes, arith, length, take, drop, length-append,
  take-append, append_assoc,
}
use dpn.Message.{Message, write_at}

-- A write that stays inside succeeds.
pub write_at_fits :
    (m : Message) (at : ℕ) (bytes : Bytes)
    → at + length bytes ≤ m.capacity
    → write_at m at bytes
      ≡ some
          (record m { memory = take at m.memory ++ (bytes ++ drop (at + length bytes) m.memory) })
unfolding write_at
write_at_fits m at bytes h = ground arith

-- A write past the end of the allocation is a fault.
pub write_at_past :
    (m : Message) (at : ℕ) (bytes : Bytes)
    → m.capacity + 1 ≤ at + length bytes
    → write_at m at bytes ≡ none
unfolding write_at
write_at_past m at bytes h = ground arith

-- Behind the first `n` bytes of a list that has them, the first bytes of what follows.
pub take_prefix :
    {A : Type 0} (n : ℕ) (xs ys zs : List A)
    → length xs ≡ n
    → take (n + length ys) (xs ++ (ys ++ zs)) ≡ xs ++ ys
take_prefix n xs ys zs h =
    rw (← h, ← length-append xs ys, ← append_assoc xs ys zs) (take-append (xs ++ ys) zs)
