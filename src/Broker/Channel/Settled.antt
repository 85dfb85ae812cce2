-- ===== src/Broker/Channel/Settled.antt =====
-- A delivery is settled at most once.
use ganshin_mq.Base.{
  ℕ, ◌≤◌, Bool, true, false, not, ◌&&◌, Bytes, List, [], ◌∷◌, Option, none, some, ◌==◌, nat_eq,
  bytes_eq, if◌then◌else◌, leb, any_of, ◌≡◌, refl, sym, ap, ◌∙◌, subst, arith, Bool-cases,
  Option-cases, inl, inr, nat_beq_iff,
}
use ganshin_mq.Base.Map.{lookup, lookup-erase, lookup-insert_self}
use ganshin_mq.Broker.Message.{Message, is_persistent}
use ganshin_mq.Broker.VirtualHost.State.{VirtualHost}
use ganshin_mq.Broker.VirtualHost.Queues.{find_queue}
use ganshin_mq.Broker.Channel.State.{Channel, UnackedMessage}
use ganshin_mq.Broker.Channel.Consuming.{
  on_deliver, deliver_message, delivery_kept, delivered, kept,
}
use ganshin_mq.Broker.Channel.Settling.{
  release, log_ack, persist_ack, ack_one, ack_each, tags_up_to, settle_ack, nack_one, nack_each,
  settle_nack, settled, Settled, give_back,
}
use ganshin_mq.Broker.Channel.Tags.{TagsInv, lookup-next_tag}

abbrev Unacked : Type 0
Unacked = List (ℕ × UnackedMessage)

-- A tag that is not there need not be erased.
absent :
    (asked tag : ℕ) (l : Unacked)
    → lookup tag l ≡ none
    → lookup asked l ≡ (if tag == asked then none else lookup asked l)
absent asked tag l h = ground (arith, h, nat_beq_iff tag asked)

ack_one-lookup :
    (asked tag : ℕ) (ch : Channel) (v : VirtualHost)
    → lookup asked (ack_one tag ch v).0.unacked_messages
      ≡ (if tag == asked then none else lookup asked ch.unacked_messages)
unfolding ack_one
ack_one-lookup asked tag ch v = elim (Option-cases (lookup tag ch.unacked_messages)) [
  | inl e ↦ rw (e, ack_one) (absent asked tag ch.unacked_messages e)
  | inr (u, e) ↦ rw (e, ack_one) (lookup-erase tag asked ch.unacked_messages)
]

nack_one-lookup :
    (requeue : Bool) (asked tag : ℕ) (ch : Channel) (v : VirtualHost)
    → lookup asked (nack_one requeue tag ch v).0.unacked_messages
      ≡ (if tag == asked then none else lookup asked ch.unacked_messages)
unfolding nack_one
nack_one-lookup requeue asked tag ch v = elim (Option-cases (lookup tag ch.unacked_messages)) [
  | inl e ↦ rw (e, nack_one) (absent asked tag ch.unacked_messages e)
  | inr (u, e) ↦ rw (e, nack_one) (lookup-erase tag asked ch.unacked_messages)
]

-- Whether a tag is among some.
abbrev among : ℕ → List ℕ → Bool
among asked = any_of (λ tag. tag == asked)

ack_each-lookup :
    (asked : ℕ) (tags : List ℕ) (ch : Channel) (v : VirtualHost)
    → lookup asked (ack_each tags ch v).0.unacked_messages
      ≡ (if among asked tags then none else lookup asked ch.unacked_messages)
unfolding ack_each
ack_each-lookup asked [] ch v = refl
ack_each-lookup asked (tag ∷ tags) ch v = ground (
  arith,
  ack_one-lookup asked tag ch v,
  ack_each-lookup asked tags (ack_one tag ch v).0 (ack_one tag ch v).1,
)

nack_each-lookup :
    (requeue : Bool) (asked : ℕ) (tags : List ℕ) (ch : Channel) (v : VirtualHost)
    → lookup asked (nack_each requeue tags ch v).0.unacked_messages
      ≡ (if among asked tags then none else lookup asked ch.unacked_messages)
unfolding nack_each
nack_each-lookup requeue asked [] ch v = refl
nack_each-lookup requeue asked (tag ∷ tags) ch v = ground (
  arith,
  nack_one-lookup requeue asked tag ch v,
  nack_each-lookup requeue asked tags (nack_one requeue tag ch v).0 (nack_one requeue tag ch v).1,
)

among-le : (asked limit : ℕ) (l : Unacked) → among asked (tags_up_to limit l) ≡ true → asked ≤ limit
unfolding tags_up_to
among-le asked limit [] h = absurd (cc)
among-le asked limit ((tag, u) ∷ more) h = elim (Bool-cases (leb tag limit)) [
  | inl e ↦ ground (arith, e, h, among-le asked limit more, nat_beq_iff tag asked)
  | inr e ↦ among-le asked limit more (rw e at h)
]

-- The tags up to a limit are those of the map that are not above it.
among-tags_up_to :
    (asked limit : ℕ) (l : Unacked)
    → (if among asked (tags_up_to limit l) then none else lookup asked l)
      ≡ (if leb asked limit then none else lookup asked l)
unfolding tags_up_to lookup
among-tags_up_to asked limit [] = ground arith
among-tags_up_to asked limit ((tag, u) ∷ more) = elim (Bool-cases (leb tag limit)) [
  | inl e ↦ rw e (
      ground (
        arith,
        e,
        among-tags_up_to asked limit more,
        among-le asked limit more,
        nat_beq_iff tag asked,
      ))
  | inr e ↦ rw e (
      ground (
        arith,
        e,
        among-tags_up_to asked limit more,
        among-le asked limit more,
        nat_beq_iff tag asked,
      ))
]

-- Whether an acknowledgement settles a tag: the tags up to its own, or only its own.
abbrev pub covers : ℕ → Bool → ℕ → Bool
covers tag multiple asked = if multiple then leb asked tag else tag == asked

settle_ack-lookup :
    (tag asked : ℕ) (multiple : Bool) (ch : Channel) (v : VirtualHost)
    → lookup asked (settle_ack tag multiple ch v).0.unacked_messages
      ≡ (if covers tag multiple asked then none else lookup asked ch.unacked_messages)
unfolding settle_ack
settle_ack-lookup tag asked true ch v =
    ack_each-lookup asked (tags_up_to tag ch.unacked_messages) ch v
    ∙ among-tags_up_to asked tag ch.unacked_messages
settle_ack-lookup tag asked false ch v = ack_one-lookup asked tag ch v

settle_nack-lookup :
    (tag asked : ℕ) (multiple requeue : Bool) (ch : Channel) (v : VirtualHost)
    → lookup asked (settle_nack tag multiple requeue ch v).0.unacked_messages
      ≡ (if covers tag multiple asked then none else lookup asked ch.unacked_messages)
unfolding settle_nack
settle_nack-lookup tag asked true requeue ch v =
    nack_each-lookup requeue asked (tags_up_to tag ch.unacked_messages) ch v
    ∙ among-tags_up_to asked tag ch.unacked_messages
settle_nack-lookup tag asked false requeue ch v =
    nack_each-lookup requeue asked (tag ∷ []) ch v ∙ ground arith

-- An acknowledgement, positive or negative, settles exactly the deliveries it covers: with
-- `multiple` those with tags up to its own, else the one with its tag. All others stay as they
-- were.
pub settle_lem :
    (tag asked : ℕ) (multiple requeue : Bool) (ch : Channel) (v : VirtualHost)
    → (lookup asked (settle_ack tag multiple ch v).0.unacked_messages
        ≡ (if covers tag multiple asked then none else lookup asked ch.unacked_messages))
      × (lookup asked (settle_nack tag multiple requeue ch v).0.unacked_messages
          ≡ (if covers tag multiple asked then none else lookup asked ch.unacked_messages))
settle_lem tag asked multiple requeue ch v =
    (settle_ack-lookup tag asked multiple ch v, settle_nack-lookup tag asked multiple requeue ch v)

release-store : (object : Option ℕ) (v : VirtualHost) → (release object v).store ≡ v.store
unfolding release
release-store none v = refl
release-store (some object) v = refl

-- A message without an id in the log is not acknowledged there.
persist_ack-store :
    (u : UnackedMessage) (v : VirtualHost)
    → u.message.wal_id ≡ 0
    → (persist_ack u v).store ≡ v.store
unfolding persist_ack log_ack
persist_ack-store u v h =
    let w = release u.consumer v in
    elim (Option-cases (find_queue u.queue_name w)) [
      | inl e ↦ rw (e, log_ack) (release-store u.consumer v)
      | inr (q, e) ↦ rw (e, log_ack) (rw (nothing_logged q.durable) (release-store u.consumer v))
    ]
  where
    nothing_logged :
        (durable : Bool)
        → (is_persistent u.message && (durable && not (u.message.wal_id == 0))) ≡ false
    nothing_logged durable = ground (arith, h)

settles_nothing :
    (tag : ℕ) (requeue : Bool) (ch : Channel) (v : VirtualHost)
    → lookup tag ch.unacked_messages ≡ none
    → (ack_one tag ch v ≡ (ch, v)) × (nack_one requeue tag ch v ≡ (ch, v, []))
unfolding ack_one nack_one
settles_nothing tag requeue ch v h = (ap acked h, ap nacked h)
  where
    acked : Option UnackedMessage → Channel × VirtualHost
    acked o = elim o [ none ↦ (ch, v) | some u ↦ (settled tag ch, persist_ack u v) ]

    nacked : Option UnackedMessage → Settled
    nacked o = elim o [
      | none ↦ (ch, v, [])
      | some u ↦
          let (v', effects) = give_back requeue u (if requeue then v else persist_ack u v) in
          (settled tag ch, v', effects ∷ [])
    ]

-- No delivery is settled twice: when an acknowledgement has covered a tag, another one or a
-- rejection with this tag changes neither the channel nor the host, so that the message is neither
-- logged nor put back nor dead-lettered again.
pub settled_once :
    (tag asked : ℕ) (multiple requeue : Bool) (ch : Channel) (v w : VirtualHost)
    → covers tag multiple asked ≡ true
    → (ack_one asked (settle_ack tag multiple ch v).0 w ≡ ((settle_ack tag multiple ch v).0, w))
      × (nack_one requeue asked (settle_nack tag multiple requeue ch v).0 w
          ≡ ((settle_nack tag multiple requeue ch v).0, w, []))
settled_once tag asked multiple requeue ch v w h =
    let lem = settle_lem tag asked multiple requeue ch v in
    let gone = λ (b : Bool). if b then none else lookup asked ch.unacked_messages in
    (
      (settles_nothing asked requeue (settle_ack tag multiple ch v).0 w (lem.0 ∙ ap gone h)).0,
      (settles_nothing asked requeue (settle_nack tag multiple requeue ch v).0 w
          (lem.1 ∙ ap gone h)).1,
    )

-- What awaits an acknowledgement under the tag of a delivery has no id in the log.
IsUnlogged : Option UnackedMessage → Type 0
IsUnlogged none = Unit {0}
IsUnlogged (some u) = u.message.wal_id ≡ 0

kept-IsUnlogged :
    (no_ack : Bool) (u : UnackedMessage) (ch : Channel)
    → TagsInv ch
    → u.message.wal_id ≡ 0
    → IsUnlogged (lookup ch.next_delivery_tag (kept no_ack u ch))
unfolding IsUnlogged
kept-IsUnlogged true u ch i h =
    subst IsUnlogged (sym (lookup-next_tag ch.next_delivery_tag ch.unacked_messages i)) tt
kept-IsUnlogged false u ch i h =
    subst IsUnlogged (sym (lookup-insert_self ch.next_delivery_tag u ch.unacked_messages)) h

delivery-IsUnlogged :
    (tag queue : Bytes) (m : Message) (ch : Channel)
    → TagsInv ch
    → IsUnlogged (lookup ch.next_delivery_tag (delivery_kept tag queue (delivered m) ch))
unfolding delivery_kept delivered
delivery-IsUnlogged tag queue m ch i = elim (Option-cases (lookup tag ch.consumers)) [
  | inl e ↦
      rw (e, delivery_kept)
        (kept-IsUnlogged true
          (record { message = delivered m; queue_name = queue; consumer = none }) ch i refl)
  | inr (c, e) ↦
      rw (e, delivery_kept)
        (kept-IsUnlogged c.no_ack
          (record { message = delivered m; queue_name = queue; consumer = some c.object }) ch i
          refl)
]

ack_one-store :
    (tag : ℕ) (ch : Channel) (v : VirtualHost)
    → IsUnlogged (lookup tag ch.unacked_messages)
    → (ack_one tag ch v).1.store ≡ v.store
unfolding ack_one IsUnlogged
ack_one-store tag ch v h = elim (Option-cases (lookup tag ch.unacked_messages)) [
  | inl e ↦ rw (e, ack_one) refl
  | inr (u, e) ↦ rw (e, ack_one) (persist_ack-store u v (subst IsUnlogged e h))
]

-- When a message was pushed to a consumer of an open channel, then acknowledging it writes nothing
-- to the log, whatever the message and the queue: `on_deliver` makes a new message, which has no
-- id in the log. The tags of the channel are assumed to be in order.
pub ack_one-delivered :
    (tag queue : Bytes) (m : Message) (ch : Channel) (v : VirtualHost)
    → TagsInv ch
    → ch.is_open ≡ true
    → (ack_one ch.next_delivery_tag (on_deliver tag queue m ch).0 v).1.store ≡ v.store
unfolding on_deliver deliver_message
ack_one-delivered tag queue m ch v i h =
    ap
      (λ b.
        (ack_one ch.next_delivery_tag
          (if b then deliver_message tag queue (delivered m) ch else (ch, [])).0 v).1.store)
      h
    ∙ ack_one-store ch.next_delivery_tag (deliver_message tag queue (delivered m) ch).0 v
        (delivery-IsUnlogged tag queue m ch i)
