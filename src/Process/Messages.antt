-- ===== src/Process/Messages.antt =====
-- Writing into messages keeps a process sound.
use dpn.Prelude.{
  ℕ, ◌+◌, ◌^◌, ◌≤◌, ◌<◌, ◌≡◌, refl, ap, ◌∙◌, true, false, some, List, [], ◌∷◌, Bytes, length, take,
  arith, update, ==_iff, ==_refl, leb, ◌==◌, Bool, Bool-cases, Option-cases, inl, inr, length-take,
  if◌then◌else◌, ltb,
}
use dpn.Exec.{Exec, done, state, pure, ◌>>=◌, ◌>>◌}
use dpn.Exec.Keeps.{Keeps, >>=-Keeps, >>=-Keeps_then, run-Keeps}
use dpn.Message
use dpn.Message.{Message, IsValid, write_at, buffer, truncate, payload}
use dpn.Message.Bounds.{write_at-IsValid, resize-IsValid}
use dpn.Zmq.{Zmq}
use dpn.State.{State, set_message}
use dpn.Port
use dpn.Port.Copy.{store_lem, store_past}
use dpn.Peer.Header.{HoldsLabel}
use dpn.Process.{IsSound}

-- The message `m` after a change that leaves it valid, and at its start if it was there.
pub record Refits (m m' : Message) : Type 0 where
  pub valid : IsValid m'
  pub same : m'.capacity ≡ m.capacity
  pub start : m.offset ≡ 0 → m'.offset ≡ 0

pub at_update :
    (heap : ℕ → Message) (P : Message → Type 0) (h j : ℕ) (m : Message)
    → P m
    → P (heap j)
    → P (update heap h m j)
at_update heap P h j m p q = go (h == j)
  where
    go : (b : Bool) → P (if b then m else heap j)
    go true = p
    go false = q

at_self :
    (heap : ℕ → Message) (P : Message → Type 0) (h j : ℕ) (m : Message)
    → (h ≡ j → P m)
    → P (heap j)
    → P (update heap h m j)
at_self heap P h j m p q = go (h == j) refl
  where
    go : (b : Bool) → (h == j) ≡ b → P (if b then m else heap j)
    go true e = p ((==_iff h j).0 e)
    go false e = q

module _ {W : Type 0} where
  pub set_message-IsSound :
      (h : ℕ) (m : Message) (s : State W)
      → IsValid m
      → m.capacity ≡ (s.messages h).capacity
      → (h ≡ s.peer.label_message → m.offset ≡ 0)
      → IsSound s
      → IsSound (set_message h m s)
  set_message-IsSound h m s v same start i = record {
    valid = λ j. at_update s.messages IsValid h j m v (i.valid j);
    counted = λ j.
        at_update s.messages (λ n. n.capacity < 2 ^ 64) h j m (rw same (i.counted h)) (i.counted j);
    header =
        at_self s.messages HoldsLabel h s.peer.label_message m
          (λ e.
            let room = same ∙ ap (λ j. (s.messages j).capacity) e ∙ i.header.room in
            record { at_start = start e; room = room; allocated = v.allocated ∙ room })
          i.header;
    made = i.made;
    named = i.named;
    null = i.null;
    hub_named = i.hub_named;
    id_range = i.id_range;
  }

  Refits-IsSound :
      (h : ℕ) (m : Message) (s : State W)
      → Refits (s.messages h) m
      → IsSound s
      → IsSound (set_message h m s)
  Refits-IsSound h m s r i =
      set_message-IsSound h m s r.valid r.same
        (λ e. r.start (ap (λ j. (s.messages j).offset) e ∙ i.header.at_start)) i

write_at-Refits :
    (m : Message) (at : ℕ) (bytes : Bytes) {m' : Message}
    → write_at m at bytes ≡ some m'
    → IsValid m
    → Refits m m'
unfolding write_at
write_at-Refits m at bytes h v = record {
  valid = write_at-IsValid m at bytes h v;
  same = ground arith;
  start = λ e. ground arith;
}

resize-Refits :
    (m : Message) (size : ℕ)
    → size ≤ m.capacity
    → m.capacity < 2 ^ 64
    → IsValid m
    → Refits m (Message.resize m size 0)
unfolding Message.resize
resize-Refits m size fits counted v = record {
  valid = resize-IsValid m size 0 v (omega arith);
  same = ground arith;
  start = λ e. ground arith;
}

truncate-Refits :
    (m : Message) (n : ℕ) → n ≤ length (payload m) → IsValid m → Refits m (truncate m n)
unfolding truncate payload
truncate-Refits m n h v = record {
  valid = record {
    in_bounds = v.in_bounds;
    exposed = omega (arith, length-take m.contents m.memory, v.exposed);
    allocated = v.allocated;
  };
  same = refl;
  start = λ e. e;
}

module _ {W : Type 0} (zmq : Zmq W) where
  pub truncate-IsSound :
      (h n : ℕ) (s : State W)
      → n ≤ length (payload (s.messages h))
      → IsSound s
      → IsSound (set_message h (truncate (s.messages h) n) s)
  truncate-IsSound h n s le i =
      Refits-IsSound h _ s (truncate-Refits (s.messages h) n le (i.valid h)) i

  pub store-Keeps : (h at : ℕ) (bytes : Bytes) → Keeps IsSound (Port.store zmq h at bytes)
  store-Keeps h at bytes s i = elim (Option-cases (write_at (s.messages h) at bytes)) [
    | inl e ↦ run-Keeps IsSound (Port.store zmq h at bytes) s (store_past zmq h at bytes s e) i
    | inr (m, e) ↦
        run-Keeps IsSound (Port.store zmq h at bytes) s (store_lem zmq h at bytes s m e)
          (Refits-IsSound h m s (write_at-Refits (s.messages h) at bytes e (i.valid h)) i)
  ]

  stored-le :
      (h offset size : ℕ) (bytes : Bytes) (s t : State W) (next : ℕ)
      → length bytes ≡ size
      → (Port.store zmq h (buffer (s.messages h) + offset) bytes >>= λ _. pure (offset + size)) s
        ≡ done next t
      → next ≤ (t.messages h).capacity
  unfolding Port.store write_at buffer
  stored-le h offset size bytes s t next l e =
      elim (Bool-cases
        (leb ((s.messages h).offset + offset + length bytes) (s.messages h).capacity)) [
          | inl fits ↦ ground (arith, ==_refl h)
          | inr over ↦ ground arith
        ]

  -- What was written is inside the message.
  copy_frame-le :
      (h offset : ℕ) (f : Bytes) (s t : State W) (next : ℕ)
      → Port.copy_frame zmq h offset f s ≡ done next t
      → next ≤ (t.messages h).capacity
  unfolding Port.copy_frame
  copy_frame-le h offset f s t next e =
      let c = (s.messages h).capacity in
      let size : ℕ = if ltb c (length f) then c else length f in
      stored-le h offset size (take size f) s t next (ground (arith, length-take size f)) e

  pub copy_frame-Keeps : (h offset : ℕ) (f : Bytes) → Keeps IsSound (Port.copy_frame zmq h offset f)
  unfolding Port.copy_frame
  copy_frame-Keeps h offset f s i =
      >>=-Keeps IsSound (Port.store zmq h _ _) (λ _. pure _) (store-Keeps h _ _) (λ _ t k. k) s i

  resize-Keeps_fits :
      (h size : ℕ) (s : State W)
      → size ≤ (s.messages h).capacity
      → IsSound s
      → IsSound (state (Port.resize zmq h size s))
  unfolding Port.resize
  resize-Keeps_fits h size s fits i =
      Refits-IsSound h _ s (resize-Refits (s.messages h) size fits (i.counted h) (i.valid h)) i

  -- The copying of a frame, and the resize of the message to what was copied.
  place-Keeps :
      {B : Type 0} (h offset : ℕ) (f : Bytes) (rest : ℕ → Exec (State W) B)
      → ((next : ℕ) → Keeps IsSound (rest next))
      → Keeps IsSound
          (Port.copy_frame zmq h offset f >>= λ next. (Port.resize zmq h next >> rest next))
  place-Keeps h offset f rest k s i =
      >>=-Keeps_then IsSound (λ next t. next ≤ (t.messages h).capacity)
        (Port.copy_frame zmq h offset f) _ s (copy_frame-Keeps h offset f s i)
        (λ next t e. copy_frame-le h offset f s t next e)
        (λ next t j le.
          >>=-Keeps_then IsSound (λ _ u. Unit {0}) (Port.resize zmq h next) (λ _. rest next) t
            (resize-Keeps_fits h next t le j) (λ a u e. tt) (λ a u r q. k next u r))

  pub copy_package-Keeps :
      (hs : List ℕ) (fs : List Bytes) (offset : ℕ)
      → Keeps IsSound (Port.copy_package zmq hs fs offset)
  unfolding Port.copy_package
  copy_package-Keeps [] [] offset s i = i
  copy_package-Keeps (h ∷ []) [] offset s i = i
  copy_package-Keeps (h ∷ g ∷ hs) [] offset s i = i
  copy_package-Keeps [] (f ∷ fs) offset s i = i
  copy_package-Keeps (h ∷ []) (f ∷ fs) offset s i =
      place-Keeps h offset f (λ next. Port.copy_package zmq (h ∷ []) fs next)
        (λ next. copy_package-Keeps (h ∷ []) fs next) s i
  copy_package-Keeps (h ∷ g ∷ hs) (f ∷ fs) offset s i =
      place-Keeps h offset f (λ next. Port.copy_package zmq (g ∷ hs) fs 0)
        (λ next. copy_package-Keeps (g ∷ hs) fs 0) s i
