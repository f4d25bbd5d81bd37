-- ===== src/Port/Mirroring.antt =====
-- Port::Connect and Port::Disconnect, one after the other: what the port remembers of its connections,
-- and what the socket is connected to.
use dpn.Prelude.{
  ℕ, suc, ◌≡◌, refl, ap, ◌∙◌, Bool, true, false, List, [], ◌∷◌, ◌++◌, Bytes, arith, ==_refl,
  if◌then◌else◌, inl, inr, Bool-cases,
}
use dpn.Exec.{done, raised, state, Error, Outcome-cases}
use dpn.Text.{codes}
use dpn.Names.{inproc, port_name_to_socket_id, transport_to_string}
use dpn.Zmq.{Zmq}
use dpn.State.{State}
use dpn.Port.{same_name, has_name, connect, disconnect}
use dpn.Port.Links.{same_name_iff, count_name, count_name-erase, connect_lem, disconnect_lem}

abbrev pub at_inproc : Bytes → Bytes
at_inproc name = codes "inproc://" ++ name

same_name-at_inproc : (a b : Bytes) → same_name (at_inproc a) (at_inproc b) ≡ same_name a b
unfolding same_name
same_name-at_inproc a b = refl

count_name-append :
    (a name : Bytes) (ns : List Bytes)
    → count_name a (ns ++ name ∷ [])
      ≡ (if same_name name a then suc (count_name a ns) else count_name a ns)
count_name-append a name [] = refl
count_name-append a name (n ∷ ns) = ground (arith, count_name-append a name ns)

count_name-has_name :
    (name : Bytes) (ns : List Bytes) → has_name name ns ≡ false → count_name name ns ≡ 0
unfolding has_name
count_name-has_name name [] h = refl
count_name-has_name name (n ∷ ns) h = ground (arith, count_name-has_name name ns)

module _ {W : Type 0} (zmq : Zmq W) where
  -- What ZeroMQ's manual says of zmq_connect and zmq_disconnect, for endpoints that a socket `is_linked`
  -- to: a call that succeeds makes or ends the connection to its endpoint, a call that fails does neither,
  -- and connections to other endpoints stay as they are.
  pub record Keeping (is_linked : ℕ → W → Bytes → Bool) : Type 0 where
    pub connects :
        (socket : ℕ) (id other : Bytes) (w w' : W)
        → zmq.connect socket id w ≡ done tt w'
        → is_linked socket w' other
          ≡ (if same_name id other then true else is_linked socket w other)
    pub connect_fails :
        (socket : ℕ) (id other : Bytes) (w w' : W) (e : Error)
        → zmq.connect socket id w ≡ raised e w'
        → is_linked socket w' other ≡ is_linked socket w other
    pub disconnects :
        (socket : ℕ) (id other : Bytes) (w w' : W)
        → zmq.disconnect socket id w ≡ done tt w'
        → is_linked socket w' other
          ≡ (if same_name id other then false else is_linked socket w other)
    pub disconnect_fails :
        (socket : ℕ) (id other : Bytes) (w w' : W) (e : Error)
        → zmq.disconnect socket id w ≡ raised e w'
        → is_linked socket w' other ≡ is_linked socket w other

  -- The states of a port on which connections to names that it does not list, and disconnections of any
  -- names, are made in any order, those that throw included.
  pub data Linking (p : ℕ) (s : State W) : State W → Type 0 where
    unchanged : Linking p s s
    connected :
        {t : State W}
        → Linking p s t
        → (name : Bytes) → has_name name (t.ports p).connections ≡ false
        → Linking p s (state (connect zmq p name t))
    disconnected :
        {t : State W}
        → Linking p s t
        → (name : Bytes) → Linking p s (state (disconnect zmq p name t))

  module _ (is_linked : ℕ → W → Bytes → Bool) (keeps : Keeping is_linked) (p : ℕ) where
    -- The port lists a name once when its socket is connected to the name's address, and else not.
    record Mirrors (s : State W) : Type 0 where
      transport : (s.ports p).transport ≡ inproc
      counted :
          (name : Bytes)
          → count_name name (s.ports p).connections
            ≡ (if is_linked (s.ports p).socket s.world (at_inproc name) then 1 else 0)

    connect_fails_lem :
        (name : Bytes) (s : State W) (e : Error) (w : W)
        → (s.ports p).transport ≡ inproc
        → zmq.connect (s.ports p).socket (at_inproc name) s.world ≡ raised e w
        → connect zmq p name s ≡ raised e (record s { world = w })
    unfolding connect port_name_to_socket_id transport_to_string
    connect_fails_lem name s e w inp c = ground (arith, inp, c)

    disconnect_fails_lem :
        (name : Bytes) (s : State W) (e : Error) (w : W)
        → (s.ports p).transport ≡ inproc
        → has_name name (s.ports p).connections ≡ true
        → zmq.disconnect (s.ports p).socket (at_inproc name) s.world ≡ raised e w
        → disconnect zmq p name s ≡ raised e (record s { world = w })
    unfolding disconnect port_name_to_socket_id transport_to_string
    disconnect_fails_lem name s e w inp has c = ground (arith, inp, has, c)

    disconnect_unknown :
        (name : Bytes) (s : State W)
        → has_name name (s.ports p).connections ≡ false
        → disconnect zmq p name s ≡ done tt s
    unfolding disconnect
    disconnect_unknown name s has = rw has refl

    connect-Mirrors :
        (name : Bytes) (s : State W)
        → has_name name (s.ports p).connections ≡ false
        → Mirrors s
        → Mirrors (state (connect zmq p name s))
    connect-Mirrors name s fresh m =
        elim (Outcome-cases (zmq.connect (s.ports p).socket (at_inproc name) s.world)) [
          | inl (_, w, run) ↦
              rw (connect_lem zmq p name s (s.ports p) w refl m.transport run) (record {
                transport = rw (==_refl p) m.transport;
                counted = λ a. rw (==_refl p) (
                    ground (
                      arith,
                      count_name-append a name (s.ports p).connections,
                      count_name-has_name name (s.ports p).connections,
                      m.counted a,
                      keeps.connects (s.ports p).socket (at_inproc name) (at_inproc a) s.world w
                          run,
                      same_name-at_inproc name a,
                      same_name_iff name a,
                    ));
              })
          | inr (e, w, run) ↦ rw (connect_fails_lem name s e w m.transport run) (record {
            transport = m.transport;
            counted = λ a.
                m.counted a
                ∙ rw
                    (keeps.connect_fails (s.ports p).socket (at_inproc name) (at_inproc a) s.world w
                      e run)
                    refl;
          })
        ]

    disconnect-Mirrors :
        (name : Bytes) (s : State W) → Mirrors s → Mirrors (state (disconnect zmq p name s))
    disconnect-Mirrors name s m = elim (Bool-cases (has_name name (s.ports p).connections)) [
      | inr lacks ↦ rw (disconnect_unknown name s lacks) m
      | inl has ↦
          elim (Outcome-cases (zmq.disconnect (s.ports p).socket (at_inproc name) s.world)) [
            | inl (_, w, run) ↦
                rw (disconnect_lem zmq p name s (s.ports p) w refl m.transport has run) (record {
                  transport = rw (==_refl p) m.transport;
                  counted = λ a. rw (==_refl p) (
                      ground (
                        arith,
                        count_name-erase name a (s.ports p).connections has,
                        m.counted a,
                        keeps.disconnects (s.ports p).socket (at_inproc name) (at_inproc a) s.world
                            w run,
                        same_name-at_inproc name a,
                      ));
                })
            | inr (e, w, run) ↦ rw (disconnect_fails_lem name s e w m.transport has run) (record {
              transport = m.transport;
              counted = λ a.
                  m.counted a
                  ∙ rw
                      (keeps.disconnect_fails (s.ports p).socket (at_inproc name) (at_inproc a)
                        s.world w e run)
                      refl;
            })
          ]
    ]

    Linking-Mirrors : {s t : State W} → Mirrors s → Linking p s t → Mirrors t
    Linking-Mirrors m unchanged = m
    Linking-Mirrors m (connected {t = t} l name fresh) =
        connect-Mirrors name t fresh (Linking-Mirrors m l)
    Linking-Mirrors m (disconnected {t = t} l name) =
        disconnect-Mirrors name t (Linking-Mirrors m l)

    -- Over a library that keeps the connections of its sockets as ZeroMQ documents it: from an inproc port
    -- without connections, whose socket is connected to nothing, connecting to names that are not listed
    -- at the time and disconnecting from any names, in any order, whether the library takes the calls or
    -- fails them, leads to states in which the port lists a name once when its socket is connected to the
    -- address of the name, and not at all when it is not.
    pub Linking-counted :
        (s t : State W)
        → (s.ports p).transport ≡ inproc
        → (s.ports p).connections ≡ []
        → ((name : Bytes) → is_linked (s.ports p).socket s.world (at_inproc name) ≡ false)
        → Linking p s t
        → (name : Bytes)
        → count_name name (t.ports p).connections
          ≡ (if is_linked (t.ports p).socket t.world (at_inproc name) then 1 else 0)
    Linking-counted s t inp none free l =
        (Linking-Mirrors
          (record {
            transport = inp;
            counted = λ name. ap (count_name name) none ∙ rw (free name) refl;
          })
          l).counted
