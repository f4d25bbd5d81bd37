-- ===== src/Peer/Subscriptions.antt =====
-- Peer::Subscribe and Peer::Publish: who is served after a sequence of subscriptions, and what the sockets
-- are given for them.
use dpn.Prelude.{
  ℕ, ◌≡◌, refl, sym, ap, ◌∙◌, Bool, true, false, none, some, Option, List, [], ◌∷◌, ◌++◌,
  append-nil, append_assoc, find, if◌then◌else◌, ◌==◌,
}
use dpn.Exec.{Exec, done, pure, ◌>>◌, >>=-done}
use dpn.Label.{Label, get_interface_id, get_port_id, src}
use dpn.Zmq.{Zmq, Takes}
use dpn.State.{State}
use dpn.Names.{get_port_name}
use dpn.Port.Copy.{Distinct}
use dpn.Port.Send.{payloads, wire}
use dpn.Peer.{publish, subscribe, stamp, destination, next_id}
use dpn.Peer.Header.{HoldsLabel}
use dpn.Peer.Publishing.{CanSend, header_frame, receipts, with_pubs, subscribe-with_pubs}
use dpn.Peer.Broadcast.{TakesEmpty, publish_many}

-- The labels of a history whose source interface is the topic, in their order.
unfoldable pub with_topic : ℕ → List Label → List Label
with_topic topic [] = []
with_topic topic (l ∷ ls) =
    if get_interface_id l src == topic then l ∷ with_topic topic ls else with_topic topic ls

receipts-some :
    {first : Label} {others : List Label} (o : Option (List Label))
    → receipts o ≡ first ∷ others
    → o ≡ some (first ∷ others)
receipts-some none e = cc
receipts-some (some ls) e = ap some e

module _ {W : Type 0} (zmq : Zmq W) where
  -- One subscription after the other.
  pub subscribe_all : List Label → Exec (State W) (Unit {0})
  subscribe_all [] = pure tt
  subscribe_all (l ∷ ls) = subscribe zmq l >> subscribe_all ls

  -- The receipts of a topic.
  abbrev pub topic_receipts : ℕ → State W → List Label
  topic_receipts topic s = receipts (find topic s.peer.pub_map)

  one_more :
      (same : Bool) (old : Option (List Label)) (l : Label) (rest : List Label)
      → receipts (if same then some (receipts old ++ l ∷ []) else old) ++ rest
        ≡ receipts old ++ (if same then l ∷ rest else rest)
  one_more true old l rest = append_assoc (receipts old) (l ∷ []) rest
  one_more false old l rest = refl

  receipts-subscribe_all :
      (topic : ℕ) (labels : List Label) (s : State W)
      → (m : List (ℕ × List Label)) × (subscribe_all labels s ≡ done tt (with_pubs zmq m s))
        × (receipts (find topic m) ≡ topic_receipts topic s ++ with_topic topic labels)
  unfolding subscribe_all with_topic
  receipts-subscribe_all topic [] s =
      (s.peer.pub_map, refl, sym (append-nil (topic_receipts topic s)))
  receipts-subscribe_all topic (l ∷ ls) s =
      let (u, run, topics) = subscribe-with_pubs zmq l s in
      let (m, rest, all) = receipts-subscribe_all topic ls (with_pubs zmq u s) in
      (
        m,
        >>=-done (subscribe zmq l) _ s run ∙ rest,
        all
            ∙ ap (λ o. receipts o ++ with_topic topic ls) (topics topic)
            ∙ one_more (get_interface_id l src == topic) (find topic s.peer.pub_map) l
                (with_topic topic ls),
      )

  TakesEmpty-with_pubs :
      (m : List (ℕ × List Label)) (hs : List ℕ) (s : State W) (labels : List Label) (v w : W)
      → TakesEmpty zmq hs s labels v w
      → TakesEmpty zmq hs (with_pubs zmq m s) labels v w
  unfolding stamp
  TakesEmpty-with_pubs m hs s [] v w k = k
  TakesEmpty-with_pubs m hs s (l ∷ ls) v w (p, u, can, takes, k) = (
    p,
    u,
    record { found = can.found; transport = can.transport; null = can.null },
    takes,
    TakesEmpty-with_pubs m hs s ls u w k,
  )

  -- A sequence of subscriptions, and then a publication of a package of distinct messages, over ports that
  -- can send and from a label message that has room for a header. Who is served are those who had
  -- subscribed to its topic before and then those of the sequence who subscribed to it, each as often as
  -- they subscribed and in that order. When there is a first of them, the publication returns with the
  -- world that is left when the sockets have taken the header and the contents of the package for the
  -- first, and then an empty header and empty contents for each of the others.
  pub publish-subscribe_all :
      (labels : List Label) (label first : Label) (others : List Label) (hs : List ℕ) (p : ℕ)
      (s : State W) (v w : W)
      → topic_receipts (get_interface_id label src) s
          ++ with_topic (get_interface_id label src) labels
        ≡ first ∷ others
      → HoldsLabel (s.messages s.peer.label_message)
      → CanSend zmq (get_port_id first src) p s
      → Distinct (s.peer.label_message ∷ hs)
      → Takes zmq
          (s.ports p).socket
          0
          s.world
          (wire
            (get_port_name (destination zmq (stamp zmq s first)))
            (header_frame zmq first s ∷ payloads s.messages hs))
          v
      → TakesEmpty zmq hs s others v w
      → (t u : State W) × (subscribe_all labels s ≡ done tt t)
        × (publish zmq label hs t ≡ done tt u)
        × (u.world ≡ w)
  unfolding stamp next_id
  publish-subscribe_all labels label first others hs p s v w served holds can distinct takes rest =
      let topic = get_interface_id label src in
      let (m, run, all) = receipts-subscribe_all topic labels s in
      let (u, published, world) =
        publish_many zmq label first others hs p (with_pubs zmq m s) v w
          (receipts-some (find topic m) (all ∙ served)) holds
          (record { found = can.found; transport = can.transport; null = can.null }) distinct takes
          (TakesEmpty-with_pubs m hs s others v w rest) in
      (with_pubs zmq m s, u, run, published, world)
