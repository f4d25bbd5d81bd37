-- ===== src/Context/Laws.antt =====
-- Adding a context and finding it again.
use dpn.Prelude.{ℕ, ◌≡◌, refl, none, some, List, [], ◌∷◌, ◌++◌, Bytes, if◌then◌else◌, arith, false}
use dpn.Prelude.Int.{ℤ}
use dpn.Exec.{done, raised, invalid_argument}
use dpn.Port.{same_name}
use dpn.Port.Links.{same_name_refl}
use dpn.Context.{Manager, Library, find_context, insert_context, add_context, get_context}

find_context-append :
    (name other : Bytes) (c : ℕ) (m : List (Bytes × ℕ))
    → find_context name m ≡ none
    → find_context other (m ++ (name, c) ∷ []) ≡ elim (find_context other m) [
      | none ↦ (if same_name name other then some c else none)
      | some d ↦ some d
    ]
unfolding find_context
find_context-append name other c [] h = refl
find_context-append name other c ((n, d) ∷ m) h = ground (arith, find_context-append name other c m)

module _ {W : Type 0} (library : Library W) where
  unknown :
      (name : Bytes) (s : Manager W)
      → get_context library name s ≡ raised invalid_argument s
      → find_context name s.context_map ≡ none
  unfolding get_context
  unknown name s h = ground (arith, h)

  known :
      (name : Bytes) (d : ℕ) (s : Manager W)
      → get_context library name s ≡ done d s
      → find_context name s.context_map ≡ some d
  unfolding get_context
  known name d s h = ground (arith, h)

  -- A context that can be made and is added under a name that is free is found under it afterwards, and
  -- every other name finds what it found before: the same context, or none.
  pub get-add_context :
      (name : Bytes) (threads sockets : ℤ) (c : ℕ) (s : Manager W) (w : W)
      → library.make threads sockets s.world ≡ done c w
      → get_context library name s ≡ raised invalid_argument s
      → (t : Manager W) × (add_context library name threads sockets s ≡ done c t)
        × (get_context library name t ≡ done c t)
        × ((other : Bytes)
            → same_name name other ≡ false
            → ((d : ℕ)
                → get_context library other s ≡ done d s
                → get_context library other t ≡ done d t)
              × (get_context library other s ≡ raised invalid_argument s
                  → get_context library other t ≡ raised invalid_argument t))
  unfolding add_context insert_context get_context
  get-add_context name threads sockets c s w made free =
      let none_yet = unknown name s free in
      let map = s.context_map ++ (name, c) ∷ [] in
      (
        record s { context_map = map; world = w },
        ground (arith, made, none_yet),
        ground (
          arith,
          none_yet,
          find_context-append name name c s.context_map none_yet,
          same_name_refl name,
        ),
        λ other differs.
            let there = find_context-append name other c s.context_map none_yet in
            (
              λ d found. ground (arith, there, known other d s found),
              λ missing. ground (arith, there, unknown other s missing, differs),
            ),
      )

  -- Under a name that is taken the call throws, the context that was made for it is deleted, and the names
  -- stand for what they stood for.
  pub add_context_taken :
      (name : Bytes) (threads sockets : ℤ) (c d : ℕ) (s : Manager W) (w : W)
      → library.make threads sockets s.world ≡ done c w
      → get_context library name s ≡ done d s
      → add_context library name threads sockets s
        ≡ raised invalid_argument (record s { world = library.destroy c w })
  unfolding add_context
  add_context_taken name threads sockets c d s w made there =
      ground (arith, made, known name d s there)
