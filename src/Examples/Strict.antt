-- ===== src/Examples/Strict.antt =====
-- A network in which an address is bound once.
use dpn.Prelude.{ℕ, ◌≡◌, refl, true, false, ◌∷◌, Bool, Bytes, if◌then◌else◌}
use dpn.Exec.{Error, done, raised, state, zmq_error}
use dpn.Exec.Ends.{Ends, Returns}
use dpn.Text.{codes, to_string}
use dpn.Names.{inproc, get_port_name, port_name_to_socket_id, transport_to_string}
use dpn.Zmq.{Zmq}
use dpn.State.{State}
use dpn.Port
use dpn.Port.{has_name, same_name}
use dpn.Port.Links.{same_name_refl}
use dpn.Hub.{add_port, remove_port}
use dpn.Hub.Readding.{Exclusive, address_in_use, add-remove-add_port}
use dpn.Examples.{Net, net, quiet, start}

abbrev strict : Zmq Net
unfolding has_name net
strict = record net {
  bind = λ socket id w.
      if has_name id w.bound
      then raised (zmq_error address_in_use) w
      else done tt (record w { bound = id ∷ w.bound });
}

abbrev Bound : Bytes → Net → Type 0
unfolding has_name
Bound id w = has_name id w.bound ≡ true

strict-binds :
    (socket : ℕ) (id : Bytes) (w : Net) → Ends (λ _ v. Bound id v) (strict.bind socket id) w
unfolding strict has_name Bound
strict-binds socket id w = go (has_name id w.bound)
  where
    go :
        (b : Bool)
        → Returns {A = Unit {0}}
            (λ _ v. Bound id v)
            (if b
              then raised (zmq_error address_in_use) w
              else done tt (record w { bound = id ∷ w.bound }))
    go true = tt
    go false = rw (same_name_refl id) refl

strict-Exclusive : Exclusive strict Bound
unfolding strict net Bound
strict-Exclusive = record {
  binds = strict-binds;
  in_use = λ socket id w h. rw h refl;
  opened = λ id context w h. h;
  named = λ id socket name w h. h;
  made_mandatory = λ id socket b w h. h;
  polled = λ id socket flags port w h. h;
  unpolled = λ id socket w h. h;
}

abbrev added : State Net
added = state (add_port strict 2 inproc 0 0 (start quiet))

abbrev removed : State Net
removed = state (remove_port strict 2 added)

add-remove-add_port_example :
    (e : Error) × (v : State Net) × (add_port strict 2 inproc 0 1 removed ≡ raised e v)
unfolding add_port remove_port strict net Port.create Port.start Port.bind has_name same_name
    get_port_name port_name_to_socket_id transport_to_string to_string
add-remove-add_port_example =
    add-remove-add_port strict Bound strict-Exclusive 2 0 0 1 inproc (codes "inproc://3-2")
      (start quiet) added removed refl refl refl
