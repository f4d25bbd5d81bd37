-- ===== src/Examples/Contexts.antt =====
-- Two contexts.
use dpn.Prelude.{ℕ, suc, ◌≡◌, refl, [], ◌∷◌, List, Bytes, false}
use dpn.Prelude.Int.{pos}
use dpn.Exec.{done, raised, invalid_argument}
use dpn.Text.{codes}
use dpn.Port.{same_name}
use dpn.Context.{Manager, Library, add_context, get_context, find_context}
use dpn.Context.Laws.{get-add_context, add_context_taken}

-- Contexts are numbered as they are made; the world is the list of those that were deleted, and the next
-- number.
abbrev library : Library (ℕ × List ℕ)
library = record {
  make = λ threads sockets w. done w.0 (suc w.0, w.1);
  destroy = λ c w. (w.0, c ∷ w.1);
}

abbrev one_context : Manager (ℕ × List ℕ)
one_context = record { context_map = (codes "main", 4) ∷ []; world = (5, []) }

main_there : get_context library (codes "main") one_context ≡ done 4 one_context
unfolding get_context find_context same_name
main_there = refl

-- The first context of a manager.
abbrev no_context : Manager (ℕ × List ℕ)
no_context = record { context_map = []; world = (4, []) }

main_free : get_context library (codes "main") no_context ≡ raised invalid_argument no_context
unfolding get_context find_context
main_free = refl

get-add_context_example :
    (t : Manager (ℕ × List ℕ)) × (add_context library (codes "main") (pos 1) (pos 8) no_context
      ≡ done 4 t)
    × (get_context library (codes "main") t ≡ done 4 t)
    × ((other : Bytes)
        → same_name (codes "main") other ≡ false
        → ((d : ℕ)
            → get_context library other no_context ≡ done d no_context
            → get_context library other t ≡ done d t)
          × (get_context library other no_context ≡ raised invalid_argument no_context
              → get_context library other t ≡ raised invalid_argument t))
get-add_context_example =
    get-add_context library (codes "main") (pos 1) (pos 8) 4 no_context (5, []) refl main_free

add_context_taken_example :
    add_context library (codes "main") (pos 1) (pos 8) one_context
    ≡ raised invalid_argument (record one_context { world = (6, 5 ∷ []) })
add_context_taken_example =
    add_context_taken library (codes "main") (pos 1) (pos 8) 5 4 one_context (6, []) refl main_there
