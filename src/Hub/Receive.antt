-- ===== src/Hub/Receive.antt =====
-- Hub::Receive: the sender's specification is read from its socket id.
use dpn.Prelude.{
  ℕ, ◌+◌, ◌^◌, ◌≤◌, ◌<◌, ◌≡◌, ◌⊎◌, refl, ap, ◌∙◌, Bool, false, some, List, [], ◌∷◌, ◌++◌, Bytes,
  length, Lacks, arith, find,
}
use dpn.Exec.{done, raised, err, invalid_argument}
use dpn.Message.{Message}
use dpn.Text.{codes, stoi, getline}
use dpn.Names.{PortSpecification, get_port_name, set_port_name}
use dpn.Names.RoundTrip.{from_socket_id_inproc, set-get_port_name, get_port_name-Lacks}
use dpn.Zmq.{Zmq, Delivers}
use dpn.State.{State}
use dpn.Port
use dpn.Port.{collect, accept, max_frames}
use dpn.Port.Copy.{Fit, Hold, Distinct, fill, Hold-fill, fill_other}
use dpn.Port.Receive.{receive-fill, accept_incomplete, collect_only}
use dpn.Hub.{receive, find_port}

-- A hub name that survives the trip through a socket id and a port name.
pub record IsPlain (spec : PortSpecification) : Type 0 where
  pub no_dash : Lacks b'-' spec.hub_name
  pub no_slash : Lacks b'/' spec.hub_name
  pub in_range : spec.port_id < 2 ^ 16

pub set_port_name-nil : (old : Bytes) → set_port_name old [] ≡ err invalid_argument
unfolding set_port_name stoi getline
set_port_name-nil old = refl

module _ {W : Type 0} (zmq : Zmq W) where
  -- When the frames end early or are fewer than three, as when nothing arrives in time, the port takes
  -- nothing and the hub throws `invalid_argument` over the name that was not set; nothing but the world
  -- changes, and so no message does.
  pub receive_incomplete :
      (id p : ℕ) (spec : PortSpecification) (hs : List ℕ) (frames : List Bytes) (more : Bool)
      (s t : State W)
      → find id s.hub.ports ≡ some p
      → collect zmq p 0 max_frames s ≡ done (frames, more) t
      → (length frames < 3) ⊎ (more ≡ false)
      → receive zmq id spec hs s ≡ raised invalid_argument (record s { world = t.world })
  unfolding receive find_port Port.receive
  receive_incomplete id p spec hs frames more s t e c h =
      let only : t ≡ record s { world = t.world } = collect_only zmq p 0 max_frames s c in
      ground (
        arith,
        e,
        c,
        accept_incomplete zmq [] (λ fs. Port.copy_package zmq hs fs 0) frames more t h,
        set_port_name-nil spec.hub_name,
      )
      ∙ ap (raised invalid_argument) only

  pub receive_from-fill :
      (id p : ℕ) (spec sender : PortSpecification) (hs : List ℕ) (f : Bytes) (fs : List Bytes)
      (s : State W) (w : W)
      → find id s.hub.ports ≡ some p
      → IsPlain sender
      → Delivers zmq
          (s.ports p).socket
          0
          s.world
          ((codes "inproc://" ++ get_port_name sender) ∷ [] ∷ f ∷ fs)
          w
      → length (f ∷ fs) + 2 ≤ max_frames
      → Distinct hs
      → Fit s.messages hs (f ∷ fs)
      → receive zmq id spec hs s
        ≡ done sender (record s { messages = fill s.messages hs (f ∷ fs); world = w })
  unfolding receive find_port
  receive_from-fill id p spec sender hs f fs s w e plain d few dist k = ground (
    arith,
    e,
    receive-fill zmq p 0 [] (codes "inproc://" ++ get_port_name sender) hs f fs s w d few dist k,
    from_socket_id_inproc (get_port_name sender)
        (get_port_name-Lacks b'/' sender (λ k. omega arith) (λ k. omega arith) plain.no_slash),
    set-get_port_name sender spec.hub_name plain.no_dash plain.in_range,
  )

  -- A multipart message in no more than ten slots, from a sender whose hub name has no dash and no
  -- slash, of the sender's socket id, a null frame and contents, each with a message of its own that
  -- is ready and large enough, arrives whole: the sender's specification is returned, each message
  -- holds its frame, and a message `h` that is not in the package keeps its contents.
  pub receive_from :
      (id p : ℕ) (spec sender : PortSpecification) (hs : List ℕ) (f : Bytes) (fs : List Bytes)
      (s : State W) (w : W) (h : ℕ)
      → find id s.hub.ports ≡ some p
      → IsPlain sender
      → Delivers zmq
          (s.ports p).socket
          0
          s.world
          ((codes "inproc://" ++ get_port_name sender) ∷ [] ∷ f ∷ fs)
          w
      → length (f ∷ fs) + 2 ≤ max_frames
      → Distinct hs
      → Fit s.messages hs (f ∷ fs)
      → Lacks h hs
      → (heap : ℕ → Message) × (receive zmq id spec hs s
          ≡ done sender (record s { messages = heap; world = w }))
        × Hold heap hs (f ∷ fs)
        × (heap h ≡ s.messages h)
  receive_from id p spec sender hs f fs s w h e plain d few dist k l = (
    fill s.messages hs (f ∷ fs),
    receive_from-fill id p spec sender hs f fs s w e plain d few dist k,
    Hold-fill zmq s.messages hs (f ∷ fs) dist k,
    fill_other zmq s.messages h hs (f ∷ fs) l,
  )
