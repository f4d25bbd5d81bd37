-- ===== src/Examples/Mailing.antt =====
-- A network of routers in which one socket is connected to another, with a queue for each socket.
use mathlib.Core.Path.{subst}
use dpn.State.{update-update}
use dpn.Prelude.{
  ℕ, ◌≡◌, refl, sym, ap, ◌∙◌, Bool, true, false, Option, none, some, List, [], ◌∷◌, ◌++◌, Bytes,
  if◌then◌else◌, ◌==◌, ==_refl, update, append_assoc, append-nil, arith,
}
use dpn.Prelude.Int.{pos}
use dpn.Exec.{Outcome, done}
use dpn.Text.{codes}
use dpn.Zmq.{Zmq, sent, Delivers, Takes}
use dpn.Port.{same_name}
use dpn.Peer.Routing.{Routed}

-- The frames of a message under way, the messages that wait at each socket, and the events that the
-- poller will report.
pub record Mail : Type 0 where
  pub out : List Bytes
  pub boxes : ℕ → List (List Bytes)
  pub events : List (ℕ × ℕ)

-- Socket 6 is that of port 2 of peer 4.
abbrev pub lookup : Bytes → Option ℕ
unfolding same_name
lookup id = if same_name id (codes "inproc://4-2") then some 6 else none

-- The routing ids: socket 5 is that of port 1 of peer 3, any other that of port 1 of peer 5.
abbrev pub name_of : ℕ → Bytes
name_of socket = if socket == 5 then codes "inproc://3-1" else codes "inproc://5-1"

abbrev pub posted_to : ℕ → List Bytes → (ℕ → List (List Bytes)) → Option ℕ → ℕ → List (List Bytes)
posted_to socket m boxes none = boxes
posted_to socket m boxes (some to) = update boxes to (boxes to ++ (name_of socket ∷ m) ∷ [])

abbrev pub posted : ℕ → List Bytes → (ℕ → List (List Bytes)) → ℕ → List (List Bytes)
posted socket [] boxes = boxes
posted socket (id ∷ m) boxes = posted_to socket m boxes (lookup id)

abbrev pub given : ℕ → List (List Bytes) → Mail → Outcome Mail (Option (Bytes × Bool))
given socket [] w = done none w
given socket ([] ∷ ms) w = done none w
given socket ((f ∷ []) ∷ ms) w =
    done (some (f, false)) (record w { boxes = update w.boxes socket ms })
given socket ((f ∷ g ∷ fs) ∷ ms) w =
    done (some (f, true)) (record w { boxes = update w.boxes socket ((g ∷ fs) ∷ ms) })

abbrev pub mail : Zmq Mail
mail = record {
  open_router = λ context w. done 5 w;
  set_routing_id = λ socket id w. done tt w;
  set_router_mandatory = λ socket b w. done tt w;
  bind = λ socket id w. done tt w;
  unbind = λ socket id w. done tt w;
  connect = λ socket id w. done tt w;
  disconnect = λ socket id w. done tt w;
  close = λ socket w. w;
  send = λ socket frame more flags w.
      if more
      then done (sent 0) (record w { out = w.out ++ frame ∷ [] })
      else done (sent 0)
          (record w { out = []; boxes = posted socket (w.out ++ frame ∷ []) w.boxes });
  recv = λ socket flags w. given socket (w.boxes socket) w;
  poller_add = λ socket flags id w. done tt w;
  poller_modify = λ socket flags w. done tt w;
  poller_remove = λ socket w. done tt w;
  poller_wait = λ timeout w. elim w.events [
    | [] ↦ done [] w
    | e ∷ es ↦ done (e ∷ []) (record w { events = es })
  ];
  now = λ w. (pos 0, w);
}

abbrev box : ℕ → Mail → List (List Bytes)
box q w = w.boxes q

-- Only socket 5 sends.
abbrev pub waiting : ℕ → ℕ → Mail → List (List Bytes)
waiting q from w = if from == 5 then box q w else []

abbrev tail : List (List Bytes) → List (List Bytes)
tail [] = []
tail (m ∷ ms) = ms

abbrev pub after : ℕ → Mail → Mail
after q w = record w { boxes = update w.boxes q (tail (w.boxes q)) }

abbrev pub identity : ℕ → Mail → Bytes
identity socket w = name_of socket

-- The socket that the next message goes to, when none is under way.
abbrev next_target : Bytes → Mail → Option ℕ
next_target id w = elim w.out [ [] ↦ lookup id | f ∷ fs ↦ none ]

abbrev pub target : ℕ → Bytes → Mail → Option ℕ
target socket id w = if socket == 5 then next_target id w else none

-- A socket takes a frame and is left in the world.
abbrev sent_frame : ℕ → Bytes → Bool → Mail → Mail
sent_frame socket f true w = record w { out = w.out ++ f ∷ [] }
sent_frame socket f false w = record w { out = []; boxes = posted socket (w.out ++ f ∷ []) w.boxes }

sent_frame_lem :
    (socket flags : ℕ) (f : Bytes) (more : Bool) (w v : Mail)
    → mail.send socket f more flags w ≡ done (sent 0) v
    → sent_frame socket f more w ≡ v
sent_frame_lem socket flags f true w v e = cc
sent_frame_lem socket flags f false w v e = cc

posted_lem :
    (socket to : ℕ) (id : Bytes) (o os : List Bytes) (boxes : ℕ → List (List Bytes))
    → lookup id ≡ some to
    → o ≡ id ∷ os
    → posted socket o boxes to ≡ boxes to ++ (name_of socket ∷ os) ∷ []
posted_lem socket to id o os boxes l k =
    ap (λ xs. posted socket xs boxes to) k
    ∙ ap (λ x. posted_to socket os boxes x to) l
    ∙ rw (==_refl to) refl

mail_sends :
    (socket to flags : ℕ) (id f : Bytes) (os fs : List Bytes) (w w' : Mail)
    → lookup id ≡ some to
    → w.out ≡ id ∷ os
    → Takes mail socket flags w (f ∷ fs) w'
    → box to w' ≡ box to w ++ (name_of socket ∷ (os ++ f ∷ fs)) ∷ []
mail_sends socket to flags id f os [] w w' l o (v, e, k) =
    ap (λ (u : Mail). u.boxes to) (sym (sent_frame_lem socket flags f false w v e ∙ k))
    ∙ posted_lem socket to id (w.out ++ f ∷ []) (os ++ f ∷ []) w.boxes l (ap (λ xs. xs ++ f ∷ []) o)
mail_sends socket to flags id f os (g ∷ fs) w w' l o (v, e, k) =
    let same = sent_frame_lem socket flags f true w v e in
    mail_sends socket to flags id g (os ++ f ∷ []) fs v w' l
      (ap (λ (u : Mail). u.out) (sym same) ∙ ap (λ xs. xs ++ f ∷ []) o) k
    ∙ ap (λ (u : Mail). u.boxes to ++ (name_of socket ∷ ((os ++ f ∷ []) ++ g ∷ fs)) ∷ []) (sym same)
    ∙ ap (λ xs. w.boxes to ++ (name_of socket ∷ xs) ∷ []) (append_assoc os (f ∷ []) (g ∷ fs))

after-update :
    (socket : ℕ) (ms : List (List Bytes)) (m : List Bytes) (w : Mail)
    → box socket w ≡ m ∷ ms
    → (n : List Bytes)
    → after socket (record w { boxes = update w.boxes socket (n ∷ ms) }) ≡ after socket w
after-update socket ms m w e n =
    let self : update w.boxes socket (n ∷ ms) socket ≡ n ∷ ms = rw (==_refl socket) refl in
    let left : tail (update w.boxes socket (n ∷ ms) socket) ≡ tail (w.boxes socket) =
      ap tail self ∙ ap tail (sym e) in
    ap (λ b. record w { boxes = b })
      (update-update w.boxes socket (n ∷ ms) (tail (update w.boxes socket (n ∷ ms) socket))
        ∙ ap (update w.boxes socket) left)

mail_hands :
    (socket flags : ℕ) (f : Bytes) (fs : List Bytes) (later : List (List Bytes)) (w : Mail)
    → box socket w ≡ (f ∷ fs) ∷ later
    → Delivers mail socket flags w (f ∷ fs) (after socket w)
mail_hands socket flags f [] later w e = rw e refl
mail_hands socket flags f (g ∷ fs) later w e =
    let x = record w { boxes = update w.boxes socket ((g ∷ fs) ∷ later) } in
    (
      x,
      rw e refl,
      subst (Delivers mail socket flags x (g ∷ fs))
          (after-update socket later (f ∷ g ∷ fs) w e (g ∷ fs))
          (mail_hands socket flags g fs later x (rw (==_refl socket) refl)),
    )

target_lem :
    (o : List Bytes) (x : Option ℕ) (to : ℕ)
    → (elim o [ [] ↦ x | f ∷ fs ↦ none ]) ≡ some to
    → (o ≡ []) × (x ≡ some to)
target_lem [] x to e = (refl, e)
target_lem (f ∷ fs) x to e = cc

mail_routes :
    (socket to flags : ℕ) (id f : Bytes) (fs : List Bytes) (w w' : Mail)
    → next_target id w ≡ some to
    → Takes mail socket flags w (id ∷ f ∷ fs) w'
    → box to w' ≡ box to w ++ (identity socket w ∷ f ∷ fs) ∷ []
mail_routes socket to flags id f fs w w' t (v, e, k) =
    let (none_out, found) = target_lem w.out (lookup id) to t in
    let same = sent_frame_lem socket flags id true w v e in
    mail_sends socket to flags id f [] fs v w' found
      (ap (λ (u : Mail). u.out) (sym same) ∙ ap (λ xs. xs ++ id ∷ []) none_out) k
    ∙ ap (λ (u : Mail). u.boxes to ++ (name_of socket ∷ f ∷ fs) ∷ []) (sym same)

mail_waits :
    (es : List (ℕ × ℕ)) (w w' : Mail) (events : List (ℕ × ℕ))
    → (elim es as (λ _. Outcome Mail (List (ℕ × ℕ))) [
      | [] ↦ done [] w
      | x ∷ xs ↦ done (x ∷ []) (record w { events = xs })
    ])
      ≡ done events w'
    → w'.boxes ≡ w.boxes
mail_waits [] w w' events e = cc
mail_waits (x ∷ xs) w w' events e =
    let same : record w { events = xs } ≡ w' = cc in ap (λ (u : Mail). u.boxes) (sym same)

no_new :
    (q from : ℕ) (w w' : Mail) → w'.boxes ≡ w.boxes → waiting q from w' ≡ waiting q from w ++ []
no_new q from w w' e =
    ap (λ (b : ℕ → List (List Bytes)). if from == 5 then b q else []) e
    ∙ sym (append-nil (waiting q from w))

-- Of one sender that is socket 5, and of any other.
routes_by :
    (mine : Bool) (socket to flags : ℕ) (id f : Bytes) (fs : List Bytes) (w w' : Mail)
    → (if mine then next_target id w else none) ≡ some to
    → Takes mail socket flags w (id ∷ f ∷ fs) w'
    → (if mine then box to w' else [])
      ≡ (if mine then box to w else []) ++ (identity socket w ∷ f ∷ fs) ∷ []
routes_by true socket to flags id f fs w w' t k = mail_routes socket to flags id f fs w w' t k
routes_by false socket to flags id f fs w w' t k = absurd (ground (arith, t))

hands_by :
    (mine : Bool) (socket flags : ℕ) (f : Bytes) (fs : List Bytes) (later : List (List Bytes))
    (w : Mail)
    → (if mine then box socket w else []) ≡ (f ∷ fs) ∷ later
    → Delivers mail socket flags w (f ∷ fs) (after socket w)
      × ((if mine then box socket (after socket w) else []) ≡ later)
hands_by true socket flags f fs later w e =
    (mail_hands socket flags f fs later w e, rw (==_refl socket) (ap tail e))
hands_by false socket flags f fs later w e = absurd (ground (arith, e))

pub mail-Routed : Routed mail waiting after identity target
mail-Routed = record {
  routes =
      λ socket to flags id f fs w w' t k. routes_by (socket == 5) socket to flags id f fs w w' t k;
  hands =
      λ socket from flags f fs later w e alone. hands_by (from == 5) socket flags f fs later w e;
  modifies = λ socket flags q from w w' e. ([], no_new q from w w' cc);
  waits =
      λ timeout events q from w w' e. ([], no_new q from w w' (mail_waits w.events w w' events e));
}
