-- ===== src/Peer/Broadcast.antt =====
-- Peer::Publish to any number of subscribers.
use dpn.Prelude.{ℕ, ◌≡◌, refl, sym, ◌∙◌, some, List, [], ◌∷◌, ◌++◌, map, find, ap, arith}
use mathlib.Core.Path.{subst}
use dpn.Exec.{done}
use dpn.Label.{
  Label, get_peer_id, get_port_id, get_interface_id, src, set_peer_id, set_description,
  get_endpoint,
}
use dpn.Names.{get_port_name}
use dpn.Zmq.{Zmq, Takes}
use dpn.State.{State, Port}
use dpn.Port.Copy.{Distinct}
use dpn.Port.Send.{payloads, wire}
use dpn.Peer
use dpn.Peer.{next_id, push, publish, publish_all, stamp, destination, set_receipts}
use dpn.Peer.Header.{HoldsLabel}
use dpn.Peer.Publishing.{CanSend, header_frame, pushed, push_lem}
use dpn.Peer.Resend.{IsDrained, pushed-IsDrained, push_drained}

module _ {W : Type 0} (zmq : Zmq W) where
  -- One receipt of a publication.
  publish_step :
      (topic : ℕ) (before : List Label) (label : Label) (behind : List Label) (hs : List ℕ)
      (s t : State W)
      → push zmq
          (stamp zmq s label)
          hs
          (set_receipts zmq topic (before ++ stamp zmq s label ∷ behind) s)
        ≡ done (stamp zmq s label) t
      → publish_all zmq topic before (label ∷ behind) hs s
        ≡ publish_all zmq topic (before ++ stamp zmq s label ∷ []) behind hs t
  unfolding publish_all
  publish_step topic before label behind hs s t e = ground (arith, e)

  -- A state that sends from the ports and under the name of `s`, and whose messages were sent.
  record After (hs : List ℕ) (s t : State W) : Type 0 where
    same_hub : t.hub.ports ≡ s.hub.ports
    same_ports : t.ports ≡ s.ports
    same_id : t.peer.peer_id ≡ s.peer.peer_id
    same_label : t.peer.label_message ≡ s.peer.label_message
    is_drained : IsDrained zmq hs t

  -- The sockets of the ports that the labels name take, one after the other, an empty header and empty
  -- contents for each label.
  abbrev pub TakesEmpty : List ℕ → State W → List Label → W → W → Type 0
  TakesEmpty hs s [] v w = v ≡ w
  TakesEmpty hs s (l ∷ ls) v w =
      (p : ℕ) × (u : W) × CanSend zmq (get_port_id l src) p s
      × Takes zmq (s.ports p).socket 0 v
          (wire (get_port_name (destination zmq (stamp zmq s l))) ([] ∷ map (λ _. []) hs)) u
      × TakesEmpty hs s ls u w

  After-push :
      (topic : ℕ) (labels : List Label) (label : Label) (hs : List ℕ) (s t : State W) (v : W)
      → Distinct (s.peer.label_message ∷ hs)
      → After hs s t
      → After hs s (pushed zmq label hs v (set_receipts zmq topic labels t))
  unfolding stamp
  After-push topic labels label hs s t v d a =
      let s1 = set_receipts zmq topic labels t in
      let holds = a.is_drained.header in
      record {
        same_hub = a.same_hub;
        same_ports = a.same_ports;
        same_id = a.same_id;
        same_label = a.same_label;
        is_drained =
            pushed-IsDrained zmq label hs v s1 holds
              (subst (λ h. Distinct (h ∷ hs)) (sym a.same_label) d);
      }

  push-After :
      (topic : ℕ) (labels : List Label) (l : Label) (hs : List ℕ) (s t : State W) (p : ℕ) (v : W)
      → Distinct (s.peer.label_message ∷ hs)
      → After hs s t
      → CanSend zmq (get_port_id l src) p s
      → Takes zmq
          (s.ports p).socket
          0
          t.world
          (wire (get_port_name (destination zmq (stamp zmq s l))) ([] ∷ map (λ _. []) hs))
          v
      → push zmq (stamp zmq t l) hs (set_receipts zmq topic labels t)
        ≡ done (stamp zmq t l) (pushed zmq (stamp zmq t l) hs v (set_receipts zmq topic labels t))
  unfolding stamp set_peer_id set_description get_endpoint get_port_id destination get_peer_id
  push-After topic labels l hs s t p v d a can takes =
      push_drained zmq (stamp zmq t l) hs p (set_receipts zmq topic labels t) v
        (record {
          header = a.is_drained.header;
          header_gone = a.is_drained.header_gone;
          parts_gone = a.is_drained.parts_gone;
        })
        (record {
          found = rw a.same_hub can.found;
          transport = rw a.same_ports can.transport;
          null = rw a.same_ports can.null;
        })
        (subst (λ h. Distinct (h ∷ hs)) (sym a.same_label) d)
        (subst
          (λ (ports : ℕ → Port).
            Takes zmq (ports p).socket 0 t.world
              (wire (get_port_name (destination zmq (stamp zmq s l))) ([] ∷ map (λ _. []) hs)) v)
          (sym a.same_ports) takes)

  publish_rest :
      (topic : ℕ) (before labels : List Label) (hs : List ℕ) (s t : State W) (v w : W)
      → Distinct (s.peer.label_message ∷ hs)
      → After hs s t
      → t.world ≡ v
      → TakesEmpty hs s labels v w
      → (u : State W) × (publish_all zmq topic before labels hs t ≡ done tt u) × (u.world ≡ w)
  publish_rest topic before [] hs s t v w d a e k = (t, unfold publish_all in refl, e ∙ k)
  publish_rest topic before (l ∷ ls) hs s t v w d a e (p, x, can, takes, k) =
      let one = stamp zmq t l in
      let s1 = set_receipts zmq topic (before ++ one ∷ ls) t in
      let t' = pushed zmq one hs x s1 in
      let (u, run, world) =
        publish_rest topic (before ++ one ∷ []) ls hs s t' x w d
          (After-push topic (before ++ one ∷ ls) one hs s t x d a) refl k in
      (
        u,
        publish_step topic before l ls hs t t' (
              push-After topic (before ++ one ∷ ls) l hs s t p x d a can (
                subst
                  (λ y.
                    Takes zmq (s.ports p).socket 0 y
                      (wire (get_port_name (destination zmq (stamp zmq s l)))
                        ([] ∷ map (λ _. []) hs))
                      x)
                  (sym e) takes))
            ∙ run,
        world,
      )

  -- A publication of a package of distinct messages over ports that can send, from a label message
  -- that has room for a header, to any number of subscribers: when the sockets take the frames, they
  -- are the header and the contents of the package for the first subscriber, and for each of the
  -- others an empty header and empty contents.
  pub publish_many :
      (label first : Label) (others : List Label) (hs : List ℕ) (p : ℕ) (s : State W) (v w : W)
      → find (get_interface_id label src) s.peer.pub_map ≡ some (first ∷ others)
      → HoldsLabel (s.messages s.peer.label_message)
      → CanSend zmq (get_port_id first src) p s
      → Distinct (s.peer.label_message ∷ hs)
      → Takes zmq
          (s.ports p).socket
          0
          s.world
          (wire
            (get_port_name (destination zmq (stamp zmq s first)))
            (header_frame zmq first s ∷ payloads s.messages hs))
          v
      → TakesEmpty hs s others v w
      → (t : State W) × (publish zmq label hs s ≡ done tt t) × (t.world ≡ w)
  unfolding publish stamp set_peer_id set_description get_endpoint get_port_id next_id
  publish_many label first others hs p s v w e holds c d t k =
      let topic = get_interface_id label src in
      let one = stamp zmq s first in
      let s1 = set_receipts zmq topic (one ∷ others) s in
      let s2 = pushed zmq one hs v s1 in
      let drained = pushed-IsDrained zmq one hs v s1 holds d in
      let (u, run, world) =
        publish_rest topic (one ∷ []) others hs s s2 v w d
          (record {
            same_hub = refl;
            same_ports = refl;
            same_id = refl;
            same_label = refl;
            is_drained = drained;
          })
          refl k in
      (
        u,
        ap (λ ls. Peer.publish_to zmq topic ls hs s) e
            ∙ publish_step topic [] first others hs s s2 (
                push_lem zmq one hs p s1 v holds
                  (record { found = c.found; transport = c.transport; null = c.null }) d t)
            ∙ run,
        world,
      )

  -- A publication of a package of distinct messages to two subscribers over ports that can send,
  -- from a label message that has room for a header: when the socket takes the frames, they are the
  -- header and the contents of the package for the first subscriber, and for the second one an empty
  -- header and empty contents.
  publish_two :
      (label first second : Label) (hs : List ℕ) (p q : ℕ) (s : State W) (v w : W)
      → find (get_interface_id label src) s.peer.pub_map ≡ some (first ∷ second ∷ [])
      → HoldsLabel (s.messages s.peer.label_message)
      → CanSend zmq (get_port_id first src) p s
      → CanSend zmq (get_port_id second src) q s
      → Distinct (s.peer.label_message ∷ hs)
      → Takes zmq
          (s.ports p).socket
          0
          s.world
          (wire
            (get_port_name (destination zmq (stamp zmq s first)))
            (header_frame zmq first s ∷ payloads s.messages hs))
          v
      → Takes zmq
          (s.ports q).socket
          0
          v
          (wire (get_port_name (destination zmq (stamp zmq s second))) ([] ∷ map (λ _. []) hs))
          w
      → (t : State W) × (publish zmq label hs s ≡ done tt t) × (t.world ≡ w)
  publish_two label first second hs p q s v w e holds c c' d t u =
      publish_many label first (second ∷ []) hs p s v w e holds c d t (q, w, c', u, refl)
