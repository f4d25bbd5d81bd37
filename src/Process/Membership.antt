-- ===== src/Process/Membership.antt =====
-- Adding a port to the hub of a process and removing one keep it sound.
use mathlib.Core.Path.{subst}
use dpn.Prelude.{
  ℕ, ◌<◌, ◌≡◌, refl, sym, ap, ◌∙◌, true, false, none, some, Option, List, [], arith, ==_iff, ◌==◌,
  Bool, Option-cases, inl, inr, if◌then◌else◌, find, insert, erase, find-insert, insert_taken,
  find-erase,
}
use dpn.Exec.{Exec, Outcome, done, raised, state, raise, gets, modify, ◌>>=◌, ◌>>◌, undefined}
use dpn.Exec.Keeps.{Keeps}
use dpn.Names.{Transport, get_port_name}
use dpn.Zmq.{Zmq}
use dpn.State.{State, Hub, set_hub, on_world}
use dpn.Port
use dpn.Port.{Frame, address, null_frame, content, has_name}
use dpn.Hub
use dpn.Process.{Sound, IsSound}
use dpn.Process.Ports.{IsSound-Stable, on_world-Keeps}
use dpn.Process.Creation.{Created, create-Created, Holds}

-- What holds of the entries of a map still holds after a fresh entry of which it holds.
insert-entries :
    (P : ℕ → ℕ → Type 0) (id p : ℕ) (ps : List (ℕ × ℕ))
    → find id ps ≡ none
    → P id p
    → ((j q : ℕ) → find j ps ≡ some q → P j q)
    → (j q : ℕ) → find j (insert id p ps) ≡ some q
    → P j q
insert-entries P id p ps free new old j q e =
    go (id == j) refl (sym (find-insert id j p ps free) ∙ e)
  where
    go : (b : Bool) → (id == j) ≡ b → (if b then some p else find j ps) ≡ some q → P j q
    go true same k =
        let same_id : id ≡ j = (==_iff id j).0 same in
        let same_port : p ≡ q = cc in subst (λ x. P x q) same_id (subst (P id) same_port new)
    go false other k = old j q k

find_erased :
    (id : ℕ) (ps : List (ℕ × ℕ)) (j q : ℕ) → find j (erase id ps) ≡ some q → find j ps ≡ some q
find_erased id ps j q e = ground (arith, find-erase id j ps)

module _ {W : Type 0} (zmq : Zmq W) where
  -- A port that is ready, listed under an id that may be taken.
  listed-IsSound :
      (id p : ℕ) (hub : Hub) (s : State W)
      → Holds p (get_port_name (record { hub_name = hub.hub_name; port_id = id })) hub s
      → IsSound (set_hub (record s.hub { ports = insert id p s.hub.ports }) s)
  listed-IsSound id p hub s h = elim (Option-cases (find id s.hub.ports)) [
    | inr (q, taken) ↦
        subst
          (λ ps.
            Sound s.messages s.ports s.next_port s.hub.hub_name ps s.peer.peer_id
              s.peer.label_message s.peer.message_id)
          (sym (insert_taken id p q s.hub.ports taken)) h.sound
    | inl free ↦ record {
      valid = h.sound.valid;
      counted = h.sound.counted;
      header = h.sound.header;
      made = insert-entries (λ j q. q < s.next_port) id p s.hub.ports free h.below h.sound.made;
      named =
          insert-entries
            (λ j q.
              (s.ports q).port_name
              ≡ get_port_name (record { hub_name = s.hub.hub_name; port_id = j }))
            id p s.hub.ports free
            (h.port_named
              ∙ ap (λ (k : Hub). get_port_name (record { hub_name = k.hub_name; port_id = id }))
                  (sym h.same_hub))
            h.sound.named;
      null =
          insert-entries (λ j q. (s.ports q).null_message ≡ []) id p s.hub.ports free h.empty
            h.sound.null;
      hub_named = h.sound.hub_named;
      id_range = h.sound.id_range;
    }
  ]

  pub hub_add_port-Keeps :
      (id : ℕ) (transport : Transport) (context flags : ℕ)
      → Keeps IsSound (Hub.add_port zmq id transport context flags)
  unfolding Hub.add_port
  hub_add_port-Keeps id transport context flags s i =
      let name = get_port_name (record { hub_name = s.hub.hub_name; port_id = id }) in
      go (Port.create zmq name transport context s) (create-Created zmq name transport context s i)
    where
      go :
          (o : Outcome (State W) ℕ)
          → Created (get_port_name (record { hub_name = s.hub.hub_name; port_id = id })) s.hub o
          → IsSound (
              state (elim o [
                | done p t ↦
                    (modify (λ u. set_hub (record u.hub { ports = insert id p u.hub.ports }) u)
                        >> (gets (λ u. (u.ports p).socket) >>= λ socket.
                            on_world (zmq.poller_add socket flags id)))
                      t
                | raised e t ↦ raised e t
              ]))
      go (done p t) h =
          on_world-Keeps IsSound IsSound-Stable (zmq.poller_add (t.ports p).socket flags id) _
            (listed-IsSound id p s.hub t h)
      go (raised e t) h = h

  -- An entry of the map taken away.
  unlisted-IsSound :
      (id : ℕ) (s : State W)
      → IsSound s
      → IsSound (set_hub (record s.hub { ports = erase id s.hub.ports }) s)
  unlisted-IsSound id s i = record {
    valid = i.valid;
    counted = i.counted;
    header = i.header;
    made = λ j q e. i.made j q (find_erased id s.hub.ports j q e);
    named = λ j q e. i.named j q (find_erased id s.hub.ports j q e);
    null = λ j q e. i.null j q (find_erased id s.hub.ports j q e);
    hub_named = i.hub_named;
    id_range = i.id_range;
  }

  pub hub_remove_port-Keeps : (id : ℕ) → Keeps IsSound (Hub.remove_port zmq id)
  unfolding Hub.remove_port
  hub_remove_port-Keeps id s i = go (find id s.hub.ports)
    where
      go :
          (o : Option ℕ)
          → IsSound (
              state (
                (elim o as (λ _. Exec (State W) (Unit {0})) [
                  | none ↦ raise undefined
                  | some p ↦
                      modify (λ u. set_hub (record u.hub { ports = erase id u.hub.ports }) u)
                      >> (gets (λ u. (u.ports p).socket) >>= λ socket.
                          on_world (zmq.poller_remove socket))
                ])
                  s))
      go none = i
      go (some p) =
          on_world-Keeps IsSound IsSound-Stable (zmq.poller_remove (s.ports p).socket) _
            (unlisted-IsSound id s i)
