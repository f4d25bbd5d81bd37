-- ===== src/Port/Links.antt =====
-- The connections and bindings that a port keeps track of.
use dpn.Prelude.{
  ℕ, ◌≡◌, refl, ap, ◌∙◌, true, false, List, [], ◌∷◌, ◌++◌, Bytes, arith, ==_refl, ◌↔◌, suc,
  if◌then◌else◌, update, sym,
}
use dpn.Exec.{Error, done, raised, ◌>>◌, >>=-done}
use dpn.Text.{codes}
use dpn.Names.{inproc, port_name_to_socket_id, transport_to_string}
use dpn.Zmq.{Zmq}
use dpn.State.{State, Port, set_port, update-update, update_self}
use dpn.Port.{same_name, has_name, erase_name, connect, disconnect, bind, unbind}

pub same_name_refl : (a : Bytes) → same_name a a ≡ true
unfolding same_name
same_name_refl [] = refl
same_name_refl (c ∷ cs) = rw (==_refl c) (same_name_refl cs)

pub same_name_iff : (a b : Bytes) → (same_name a b ≡ true) ↔ (a ≡ b)
unfolding same_name
same_name_iff [] [] = (λ h. refl, λ h. refl)
same_name_iff [] (d ∷ ds) = (λ h. cc, λ h. cc)
same_name_iff (c ∷ cs) [] = (λ h. cc, λ h. cc)
same_name_iff (c ∷ cs) (d ∷ ds) = ground (arith, same_name_iff cs ds)

abbrev pub count_name : Bytes → List Bytes → ℕ
count_name name [] = 0
count_name name (n ∷ ns) = if same_name n name then suc (count_name name ns) else count_name name ns

erase_name-append :
    (name : Bytes) (ns : List Bytes)
    → has_name name ns ≡ false
    → (has_name name (ns ++ name ∷ []) ≡ true) × (erase_name name (ns ++ name ∷ []) ≡ ns)
unfolding has_name erase_name
erase_name-append name [] h = rw (same_name_refl name) (refl, refl)
erase_name-append name (n ∷ ns) h = ground (arith, erase_name-append name ns)

-- Erasing a name takes one entry of it away when there is one, and no entry of another name.
pub count_name-erase :
    (name other : Bytes) (ns : List Bytes)
    → has_name name ns ≡ true
    → count_name other ns ≡ (
        if same_name name other
        then suc (count_name other (erase_name name ns))
        else count_name other (erase_name name ns))
unfolding has_name erase_name
count_name-erase name other [] h = cc
count_name-erase name other (n ∷ ns) h =
    ground (arith, count_name-erase name other ns, same_name_iff n name)

module _ {W : Type 0} (zmq : Zmq W) (p : ℕ) (name : Bytes) (s : State W) (port : Port) (w : W) where
  pub connect_lem :
      s.ports p ≡ port
      → port.transport ≡ inproc
      → zmq.connect port.socket (codes "inproc://" ++ name) s.world ≡ done tt w
      → connect zmq p name s
        ≡ done tt (
            set_port p
              (record port { connections = port.connections ++ name ∷ [] })
              (record s { world = w }))
  unfolding connect port_name_to_socket_id transport_to_string
  connect_lem e inp c = ground (arith, e, inp, c)

  pub disconnect_lem :
      s.ports p ≡ port
      → port.transport ≡ inproc
      → has_name name port.connections ≡ true
      → zmq.disconnect port.socket (codes "inproc://" ++ name) s.world ≡ done tt w
      → disconnect zmq p name s
        ≡ done tt (
            set_port p
              (record port { connections = erase_name name port.connections })
              (record s { world = w }))
  unfolding disconnect port_name_to_socket_id transport_to_string
  disconnect_lem e inp has d = ground (arith, e, inp, has, d)

  bind_lem :
      s.ports p ≡ port
      → port.transport ≡ inproc
      → zmq.bind port.socket (codes "inproc://" ++ port.port_name) s.world ≡ done tt w
      → bind zmq p name s
        ≡ done tt (
            set_port p
              (record port { bindings = port.bindings ++ name ∷ [] })
              (record s { world = w }))
  unfolding bind port_name_to_socket_id transport_to_string
  bind_lem e inp b = ground (arith, e, inp, b)

  unbind_fails :
      {e : Error}
      → s.ports p ≡ port
      → port.transport ≡ inproc
      → has_name name port.bindings ≡ true
      → zmq.unbind port.socket (codes "inproc://" ++ name) s.world ≡ raised e w
      → unbind zmq p name s ≡ raised e (record s { world = w })
  unfolding unbind port_name_to_socket_id transport_to_string
  unbind_fails e inp has u = ground (arith, e, inp, has, u)

module _ {W : Type 0} (zmq : Zmq W) (p : ℕ) (s : State W) where
  restored :
      (port : Port) {ns : List Bytes}
      → s.ports p ≡ port
      → ns ≡ port.connections
      → (linked : Port)
      → update (update s.ports p linked) p (record port { connections = ns }) ≡ s.ports
  restored port e f linked =
      update-update s.ports p linked (record port { connections = _ })
      ∙ ap (λ cs. update s.ports p (record port { connections = cs })) f
      ∙ ap (update s.ports p) (sym e)
      ∙ update_self s.ports p

  -- Over an inproc port, connecting to a name that is not yet connected and disconnecting from it,
  -- both calls with the address of that name and taken by the library, leaves the port as it was.
  pub disconnect-connect :
      (name : Bytes) (v w : W)
      → (s.ports p).transport ≡ inproc
      → has_name name (s.ports p).connections ≡ false
      → zmq.connect (s.ports p).socket (codes "inproc://" ++ name) s.world ≡ done tt v
      → zmq.disconnect (s.ports p).socket (codes "inproc://" ++ name) v ≡ done tt w
      → (connect zmq p name >> disconnect zmq p name) s ≡ done tt (record s { world = w })
  disconnect-connect name v w inp fresh c d =
      let port = s.ports p in
      let linked = record port { connections = port.connections ++ name ∷ [] } in
      let (has, erased) = erase_name-append name port.connections fresh in
      >>=-done (connect zmq p name) _ s (connect_lem zmq p name s port v refl inp c)
      ∙ disconnect_lem zmq p name (set_port p linked (record s { world = v })) linked w
          (rw (==_refl p)) inp has d
      ∙ ap (done tt) (λ i. record s { ports = restored port refl erased linked i; world = w })

  -- Over an inproc port, binding to a name that is not recorded yet binds the port's own address and
  -- records the name, and unbinding it asks the socket for the address of that name: when the
  -- library refuses that, the exception comes out and leaves the name recorded.
  pub unbind-bind :
      (name : Bytes) (v w : W) {e : Error}
      → (s.ports p).transport ≡ inproc
      → has_name name (s.ports p).bindings ≡ false
      → zmq.bind (s.ports p).socket (codes "inproc://" ++ (s.ports p).port_name) s.world ≡ done tt v
      → zmq.unbind (s.ports p).socket (codes "inproc://" ++ name) v ≡ raised e w
      → (bind zmq p name >> unbind zmq p name) s
        ≡ raised e (
            set_port p
              (record (s.ports p) { bindings = (s.ports p).bindings ++ name ∷ [] })
              (record s { world = w }))
  unbind-bind name v w inp fresh b u =
      let port = s.ports p in
      let bound = record port { bindings = port.bindings ++ name ∷ [] } in
      >>=-done (bind zmq p name) _ s (bind_lem zmq p name s port v refl inp b)
      ∙ unbind_fails zmq p name (set_port p bound (record s { world = v })) bound w (rw (==_refl p))
          inp (erase_name-append name port.bindings fresh).0 u
