-- ===== src/Context.antt =====
-- dpn/context-manager: ZeroMQ contexts by name. A context is a number; its creation and deletion are
-- parameters.
pub mod Laws
use dpn.Prelude.{
  ℕ, Bool, true, false, Option, none, some, List, [], ◌∷◌, ◌++◌, Bytes, if◌then◌else◌,
}
use dpn.Prelude.Int.{ℤ}
use dpn.Exec.{
  Exec, done, raised, pure, raise, gets, modify, attempt, ◌>>=◌, ◌>>◌, invalid_argument,
  runtime_error, exception,
}
use dpn.Port.{same_name}

-- `contextMap_`, and the world of the transport library.
pub record Manager (W : Type 0) : Type 0 where
  pub context_map : List (Bytes × ℕ)
  pub world : W

pub record Library (W : Type 0) : Type 0 where
  -- `new zmq::context_t(io_threads, max_sockets)`
  pub make : ℤ → ℤ → Exec W ℕ
  -- `delete context`
  pub destroy : ℕ → W → W

unfoldable pub find_context : Bytes → List (Bytes × ℕ) → Option ℕ
unfolding same_name
find_context name [] = none
find_context name ((n, c) ∷ m) = if same_name n name then some c else find_context name m

-- `insert`: the map, and whether the entry is new.
abbrev insert_new : Bytes → ℕ → List (Bytes × ℕ) → Option ℕ → List (Bytes × ℕ) × Bool
insert_new name c m none = (m ++ (name, c) ∷ [], true)
insert_new name c m (some d) = (m, false)

unfoldable pub insert_context : Bytes → ℕ → List (Bytes × ℕ) → List (Bytes × ℕ) × Bool
unfolding find_context
insert_context name c m = insert_new name c m (find_context name m)

module _ {W : Type 0} (library : Library W) where
  abbrev made : ℤ → ℤ → Exec (Manager W) ℕ
  made threads sockets s = elim (library.make threads sockets s.world) [
    | done c w ↦ done c (record s { world = w })
    | raised e w ↦ raised e (record s { world = w })
  ]

  abbrev destroyed : ℕ → Manager W → Manager W
  destroyed c s = record s { world = library.destroy c s.world }

  abbrev enter : Bytes → ℕ → Option ℕ → Exec (Manager W) ℕ
  enter name c (some d) = modify (destroyed c) >>= λ _. raise invalid_argument
  enter name c none = do
    inserted ← gets (λ s. insert_context name c s.context_map)
    modify (λ s. record s { context_map = inserted.0 })
    if inserted.1 then pure c else (modify (destroyed c) >>= λ _. raise runtime_error)

  abbrev check_free : Bytes → Option ℕ → Exec (Manager W) ℕ
  check_free name none = raise exception
  check_free name (some c) = do
    found ← gets (λ s. find_context name s.context_map)
    enter name c found

  -- What the creation throws is caught by reference and thrown again by value, as a `std::exception`.
  unfoldable pub add_context : Bytes → ℤ → ℤ → Exec (Manager W) ℕ
  add_context name threads sockets = do
    context ← attempt (made threads sockets)
    check_free name context

  abbrev found : Option ℕ → Exec (Manager W) ℕ
  found none = raise invalid_argument
  found (some c) = pure c

  unfoldable pub get_context : Bytes → Exec (Manager W) ℕ
  get_context name = do context ← gets (λ s. find_context name s.context_map); found context
