-- ===== src/Port/Gather.antt =====
-- The loop of Port::Receive that copies all frames into one message.
use native.Mathlib.Nat.{add_assoc, add-zero}
use dpn.Prelude.{
  ℕ, zero, suc, ◌+◌, ◌≤◌, ◌<◌, ◌^◌, ◌≡◌, refl, sym, ap, ◌∙◌, true, none, some, List, [], ◌∷◌, ◌++◌,
  append-nil, append_assoc, Bytes, length, take, drop, arith, All, update, take_all, length-append,
  length-take, take-append, fun_ext, Bool-cases, leb, ==_refl, ◌⊎◌, inl, inr,
}
use mathlib.Core.Path.{ap₂}
use dpn.Exec.{done, raised, >>=-done, undefined}
use dpn.Message.{Message, buffer}
use dpn.Message.Memory.{take_prefix, write_at_past}
use dpn.Zmq.{Zmq}
use dpn.State.{State, set_message, set_message_twice, update_self}
use dpn.Port.{copy_frame, copy_single}
use dpn.Port.Copy.{written, copy_frame_fits, store_past}

abbrev pub joined : List Bytes → Bytes
joined [] = []
joined (f ∷ fs) = f ++ joined fs

-- The message in which `bytes` stand behind the first `at` bytes of `m`.
pub record Extends (m m' : Message) (at : ℕ) (bytes : Bytes) : Type 0 where
  pub begins : take (at + length bytes) m'.memory ≡ take at m.memory ++ bytes
  pub same_capacity : m'.capacity ≡ m.capacity
  pub same_offset : m'.offset ≡ m.offset
  pub same_length : length m'.memory ≡ length m.memory

module _ {W : Type 0} (zmq : Zmq W) where
  written-length :
      (m : Message) (at : ℕ) (f : Bytes)
      → at + length f ≤ m.capacity
      → length m.memory ≡ m.capacity
      → length (written m at f).memory ≡ length m.memory
  written-length m at f h e = omega (
    arith,
    length-append (take at m.memory) (f ++ drop (at + length f) m.memory),
    length-append f (drop (at + length f) m.memory),
    length-take at m.memory,
    dpn.Prelude.length-drop (at + length f) m.memory,
  )

  pub copy_single_step :
      (h at : ℕ) (f : Bytes) (fs : List Bytes) (m : Message) (s : State W)
      → s.messages h ≡ m
      → m.offset ≡ 0
      → at + length f ≤ m.capacity
      → copy_single zmq h (f ∷ fs) at s
        ≡ copy_single zmq h fs (at + length f) (set_message h (written m at f) s)
  unfolding copy_single
  copy_single_step h at f fs m s e o fits =
      >>=-done (copy_frame zmq h at f) _ s
        (copy_frame_fits zmq h at f s (ap (λ (n : Message). n.offset) e ∙ o) (rw e fits))
      ∙ ap (λ n. copy_single zmq h fs (at + length f) (set_message h (written n at f) s)) e

  copy_single_over :
      (h at : ℕ) (f : Bytes) (fs : List Bytes) (m : Message) (s : State W)
      → s.messages h ≡ m
      → m.offset ≡ 0
      → length f ≤ m.capacity
      → m.capacity < at + length f
      → copy_single zmq h (f ∷ fs) at s ≡ raised undefined s
  unfolding copy_single copy_frame buffer
  copy_single_over h at f fs m s e o fits over = ground (
    arith,
    take_all (length f) f,
    store_past zmq h at f s (rw e (write_at_past m at f (omega arith))),
  )

  pub set_message_self :
      (h : ℕ) (m : Message) (s : State W) → s.messages h ≡ m → s ≡ set_message h m s
  set_message_self h m s e =
      rw (← e) (λ i. record s { messages = sym (update_self s.messages h) i })

  pub written-set : (h : ℕ) (m : Message) (s : State W) → (set_message h m s).messages h ≡ m
  written-set h m s = rw (==_refl h)

  Extends-written :
      (m m' : Message) (at : ℕ) (f rest : Bytes)
      → at + length f ≤ m.capacity
      → length m.memory ≡ m.capacity
      → Extends (written m at f) m' (at + length f) rest
      → Extends m m' at (f ++ rest)
  Extends-written m m' at f rest fits e x = record {
    begins =
        rw (length-append f rest, ← add_assoc at (length f) (length rest), x.begins)
          (rw
            (take_prefix at (take at m.memory) f (drop (at + length f) m.memory)
              (omega (arith, length-take at m.memory)))
            (append_assoc (take at m.memory) f rest));
    same_capacity = x.same_capacity;
    same_offset = x.same_offset;
    same_length = x.same_length ∙ written-length m at f fits e;
  }

  -- Frames that fit in all are written one behind the other.
  pub copy_single_lem :
      (h at : ℕ) (fs : List Bytes) (m : Message) (s : State W)
      → s.messages h ≡ m
      → m.offset ≡ 0
      → at + length (joined fs) ≤ m.capacity
      → length m.memory ≡ m.capacity
      → (m' : Message) × (copy_single zmq h fs at s
          ≡ done (at + length (joined fs)) (set_message h m' s))
        × Extends m m' at (joined fs)
  copy_single_lem h at [] m s e o fits a = (
    m,
    unfold copy_single in rw add-zero (ap (done at) (set_message_self h m s e)),
    record {
      begins = rw (add-zero, append-nil);
      same_capacity = refl;
      same_offset = refl;
      same_length = refl;
    },
  )
  copy_single_lem h at (f ∷ fs) m s e o fits a =
      let w = written m at f in
      let len = length-append f (joined fs) in
      let (m', run, x) =
        copy_single_lem h (at + length f) fs w (set_message h w s) (written-set h w s) o
          (omega (arith, len)) (written-length m at f (omega (arith, len)) a ∙ a) in
      (
        m',
        copy_single_step h at f fs m s e o (omega (arith, len))
            ∙ run
            ∙ ap₂ done (omega (arith, len)) (set_message_twice h w m' s),
        Extends-written m m' at f (joined fs) (omega (arith, len)) a x,
      )

  -- Frames that each fit and do not fit together are written past the end of the buffer.
  pub copy_single_past :
      (h at : ℕ) (fs : List Bytes) (m : Message) (s : State W)
      → s.messages h ≡ m
      → m.offset ≡ 0
      → at ≤ m.capacity
      → All (λ f. length f ≤ m.capacity) fs
      → m.capacity < at + length (joined fs)
      → (s' : State W) × (copy_single zmq h fs at s ≡ raised undefined s')
  copy_single_past h at [] m s e o below each over = absurd (omega arith)
  copy_single_past h at (f ∷ fs) m s e o below (fits, each) over =
      elim (Bool-cases (leb (at + length f) m.capacity)) [
        | inl inside ↦
            let w = written m at f in
            let (s', run) =
              copy_single_past h (at + length f) fs w (set_message h w s) (written-set h w s) o
                (ground arith) each (omega (arith, length-append f (joined fs))) in
            (s', copy_single_step h at f fs m s e o (ground arith) ∙ run)
        | inr outside ↦ (s, copy_single_over h at f fs m s e o fits (ground arith))
      ]
