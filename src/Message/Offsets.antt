-- ===== src/Message/Offsets.antt =====
-- Message::resize with an offset: where buffer() points, and where the bytes that are sent begin.
use dpn.Prelude.{
  ℕ, zero, suc, ◌+◌, ◌^◌, ◌≤◌, ◌<◌, ◌≡◌, refl, sym, ap, ◌∙◌, some, List, [], ◌∷◌, ◌++◌, Bytes,
  arith, length, take, drop, append_assoc, length-append, length-take,
}
use dpn.Message.{Message, IsValid, buffer, payload, resize, write_at}
use dpn.Message.Memory.{write_at_fits}

take_front : {A : Type 0} (n : ℕ) (xs ys : List A) → n ≤ length xs → take n (xs ++ ys) ≡ take n xs
take_front zero xs ys h = refl
take_front (suc n) [] ys h = absurd (omega arith)
take_front (suc n) (x ∷ xs) ys h = ap (◌∷◌ x) (take_front n xs ys (omega arith))

resize_fits :
    (m : Message) (size offset : ℕ)
    → size + offset ≤ m.capacity
    → m.capacity < 2 ^ 64
    → resize m size offset ≡ record m { size = size; offset = offset; contents = size }
unfolding resize
resize_fits m size offset fits counted = ground arith

-- After a resize to a size and an offset that fit into a valid message whose capacity a size_t counts,
-- a write of so many bytes at buffer() succeeds, and what a send transmits are the first bytes, as many
-- as the size, of those that stood before the offset and of those that were written, in this order: all
-- that was written and nothing else when the offset is 0, and less of it the larger the offset is.
pub payload-write_at :
    (m : Message) (size offset : ℕ) (bytes : Bytes)
    → IsValid m
    → size + offset ≤ m.capacity
    → m.capacity < 2 ^ 64
    → length bytes ≡ size
    → (m' : Message) × (write_at (resize m size offset) (buffer (resize m size offset)) bytes
        ≡ some m')
      × (payload m' ≡ take size (take offset m.memory ++ bytes))
unfolding buffer payload
payload-write_at m size offset bytes v fits counted e =
    let n = record m { size = size; offset = offset; contents = size } in
    let rest = drop (offset + length bytes) m.memory in
    let front = take offset m.memory in
    (
      record n { memory = front ++ (bytes ++ rest) },
      ap (λ k. write_at k k.offset bytes) (resize_fits m size offset fits counted)
          ∙ write_at_fits n offset bytes (omega arith),
      ap (take size) (sym (append_assoc front bytes rest))
          ∙ take_front size (front ++ bytes) rest
              (omega (arith, length-append front bytes, length-take offset m.memory, v.allocated)),
    )
