-- ===== src/Label/Laws.antt =====
-- The operations on labels related to one another.
use dpn.Prelude.{ℕ, ◌≡◌, refl}
use dpn.Label.{
  Label, Contents, LabelEndpoint, src, dest, create, get_endpoint, get_interface_id, get_port_id,
  get_peer_id, set_port_id, set_peer_id, set_interface_id, swap, peer_port_id_default,
}

abbrev pub other : LabelEndpoint → LabelEndpoint
other src = dest
other dest = src

-- Swapping exchanges the endpoints, keeps the rest, and is its own inverse.
swap_lem :
    (l : Label) (e : LabelEndpoint)
    → (get_endpoint (swap l) e ≡ get_endpoint l (other e)) × (swap (swap l) ≡ l)
unfolding swap get_endpoint
swap_lem l src = (refl, refl)
swap_lem l dest = (refl, refl)

-- Writing one of the three fields of an endpoint is read back, and leaves the endpoint's other fields
-- and the other endpoint alone.
set-get :
    (l : Label) (id : ℕ) (e : LabelEndpoint)
    → (get_peer_id (set_peer_id l id e) e ≡ id)
      × (get_port_id (set_peer_id l id e) e ≡ get_port_id l e)
      × (get_interface_id (set_peer_id l id e) e ≡ get_interface_id l e)
      × (get_endpoint (set_peer_id l id e) (other e) ≡ get_endpoint l (other e))
      × (get_port_id (set_port_id l id e) e ≡ id)
      × (get_peer_id (set_port_id l id e) e ≡ get_peer_id l e)
      × (get_interface_id (set_port_id l id e) e ≡ get_interface_id l e)
      × (get_endpoint (set_port_id l id e) (other e) ≡ get_endpoint l (other e))
      × (get_interface_id (set_interface_id l id e) e ≡ id)
      × (get_peer_id (set_interface_id l id e) e ≡ get_peer_id l e)
      × (get_port_id (set_interface_id l id e) e ≡ get_port_id l e)
      × (get_endpoint (set_interface_id l id e) (other e) ≡ get_endpoint l (other e))
unfolding set_peer_id set_port_id set_interface_id get_endpoint get_peer_id get_port_id
    get_interface_id
set-get l id src = (refl, refl, refl, refl, refl, refl, refl, refl, refl, refl, refl, refl)
set-get l id dest = (refl, refl, refl, refl, refl, refl, refl, refl, refl, refl, refl, refl)

-- The constructor from contents forgets the endpoints that it was given: every address of the new
-- label is 0, whatever the contents were.
create_forgets :
    (c d : Contents) (e : LabelEndpoint)
    → (get_endpoint (create c) e ≡ get_endpoint (create d) e)
      × (get_peer_id (create c) e ≡ 0)
      × (get_port_id (create c) e ≡ peer_port_id_default)
      × (get_interface_id (create c) e ≡ 0)
unfolding create get_endpoint get_peer_id get_port_id get_interface_id
create_forgets c d src = (refl, refl, refl, refl)
create_forgets c d dest = (refl, refl, refl, refl)
