-- ===== src/Broker/Channel/Tags.antt =====
-- The delivery tags of a channel.
use ganshin_mq.Base.{
  ℕ, ◌+◌, ◌^◌, ◌≤◌, ◌<◌, Bool, true, false, Bytes, List, [], ◌∷◌, Option, none, some, ◌==◌, nat_eq,
  bytes_eq, if◌then◌else◌, ◌≡◌, refl, arith, Bool-cases, Option-cases, inl, inr,
}
use ganshin_mq.Base.Map.{lookup, insert, erase}
use ganshin_mq.Broker.Message.{Message}
use ganshin_mq.Broker.Queue
use ganshin_mq.Broker.Queue.{MessageQueue}
use ganshin_mq.Broker.VirtualHost.State.{VirtualHost}
use ganshin_mq.Broker.Channel.State.{Channel, UnackedMessage}
use ganshin_mq.Broker.Channel.Consuming.{
  ConsumeRequest, take_tag, consume_found, cancel, got, get_found, kept, delivery_kept,
  deliver_message, next_tag,
}
use ganshin_mq.Broker.Channel.Settling.{
  ack_one, ack_each, tags_up_to, settle_ack, nack_one, nack_each, settle_nack,
}

-- Every tag in the map is below a number.
abbrev pub TagsBelow : ℕ → List (ℕ × UnackedMessage) → Type 0
TagsBelow n [] = Unit {0}
TagsBelow n ((tag, u) ∷ more) = (tag < n) × TagsBelow n more

-- The tags that are out are below the next one.
abbrev pub TagsInv : Channel → Type 0
TagsInv ch = TagsBelow ch.next_delivery_tag ch.unacked_messages

-- A channel after a step: its tags are as they should be, and no number is given out again.
abbrev pub Follows : Channel → Channel → Type 0
Follows ch ch' = (ch.next_delivery_tag ≤ ch'.next_delivery_tag) × TagsInv ch'

TagsBelow-weaken : (m n : ℕ) (l : List (ℕ × UnackedMessage)) → m ≤ n → TagsBelow m l → TagsBelow n l
TagsBelow-weaken m n [] le h = tt
TagsBelow-weaken m n ((tag, u) ∷ more) le h = (omega arith, TagsBelow-weaken m n more le h.1)

TagsBelow-insert :
    (n tag : ℕ) (u : UnackedMessage) (l : List (ℕ × UnackedMessage))
    → tag < n
    → TagsBelow n l
    → TagsBelow n (insert tag u l)
unfolding insert
TagsBelow-insert n tag u [] lt h = (lt, tt)
TagsBelow-insert n tag u ((t, w) ∷ more) lt h = elim (Bool-cases (t == tag)) [
  | inl e ↦ rw e (lt, h.1)
  | inr e ↦ rw e (h.0, TagsBelow-insert n tag u more lt h.1)
]

TagsBelow-erase :
    (n tag : ℕ) (l : List (ℕ × UnackedMessage)) → TagsBelow n l → TagsBelow n (erase tag l)
unfolding erase
TagsBelow-erase n tag [] h = tt
TagsBelow-erase n tag ((t, w) ∷ more) h = elim (Bool-cases (t == tag)) [
  | inl e ↦ rw e (TagsBelow-erase n tag more h.1)
  | inr e ↦ rw e (h.0, TagsBelow-erase n tag more h.1)
]

-- The next tag is on no message.
pub lookup-next_tag : (n : ℕ) (l : List (ℕ × UnackedMessage)) → TagsBelow n l → lookup n l ≡ none
unfolding lookup
lookup-next_tag n [] h = refl
lookup-next_tag n ((t, w) ∷ more) h = ground (arith, lookup-next_tag n more h.1)

pub Follows-refl : (ch : Channel) → TagsInv ch → Follows ch ch
Follows-refl ch h = (omega arith, h)

-- A tag is given out, and the delivery kept or not.
kept-Follows :
    (no_ack : Bool) (u : UnackedMessage) (ch : Channel)
    → TagsInv ch
    → ch.next_delivery_tag + 1 < 2 ^ 64
    → (ch.next_delivery_tag ≤ next_tag ch) × TagsBelow (next_tag ch) (kept no_ack u ch)
kept-Follows true u ch h small = (
  omega arith,
  TagsBelow-weaken ch.next_delivery_tag (next_tag ch) ch.unacked_messages (omega arith) h,
)
kept-Follows false u ch h small = (
  omega arith,
  TagsBelow-insert (next_tag ch) ch.next_delivery_tag u ch.unacked_messages (omega arith)
      (TagsBelow-weaken ch.next_delivery_tag (next_tag ch) ch.unacked_messages (omega arith) h),
)

pub got-Follows :
    (queue : Bytes) (no_ack : Bool) (ch : Channel) (v : VirtualHost) (q : MessageQueue)
    (m : Option Message)
    → TagsInv ch
    → ch.next_delivery_tag + 1 < 2 ^ 64
    → Follows ch (got queue no_ack ch v q m).0
unfolding got
got-Follows queue no_ack ch v q none h small = Follows-refl ch h
got-Follows queue no_ack ch v q (some m) h small = kept-Follows no_ack _ ch h small

pub get_found-Follows :
    (now : ℕ) (queue : Bytes) (no_ack : Bool) (ch : Channel) (v : VirtualHost)
    (q : Option MessageQueue)
    → TagsInv ch
    → ch.next_delivery_tag + 1 < 2 ^ 64
    → Follows ch (get_found now queue no_ack ch v q).0
unfolding get_found
get_found-Follows now queue no_ack ch v none h small = Follows-refl ch h
get_found-Follows now queue no_ack ch v (some q) h small =
    got-Follows queue no_ack ch v (Queue.get now q).0 (Queue.get now q).1 h small

pub deliver_message-Follows :
    (tag queue : Bytes) (m : Message) (ch : Channel)
    → TagsInv ch
    → ch.next_delivery_tag + 1 < 2 ^ 64
    → Follows ch (deliver_message tag queue m ch).0
unfolding deliver_message delivery_kept
deliver_message-Follows tag queue m ch h small = elim (Option-cases (lookup tag ch.consumers)) [
  | inl e ↦
      rw (e, delivery_kept)
        (kept-Follows true (record { message = m; queue_name = queue; consumer = none }) ch h small)
  | inr (c, e) ↦ rw (e, delivery_kept) (kept-Follows c.no_ack _ ch h small)
]

take_tag-Follows : (tag : Bytes) (ch : Channel) → TagsInv ch → Follows ch (take_tag tag ch).0
unfolding take_tag
take_tag-Follows tag ch h = elim (Bool-cases (tag == [])) [
  | inl e ↦ rw e (Follows-refl ch h)
  | inr e ↦ rw e (Follows-refl ch h)
]

pub consume_found-Follows :
    (object : ℕ) (r : ConsumeRequest) (ch : Channel) (v : VirtualHost) (q : Option MessageQueue)
    → TagsInv ch
    → Follows ch (consume_found object r ch v q).0
unfolding consume_found
consume_found-Follows object r ch v none h = Follows-refl ch h
consume_found-Follows object r ch v (some q) h = take_tag-Follows r.consumer_tag ch h

pub cancel-Follows :
    (tag : Bytes) (ch : Channel) (v : VirtualHost) → TagsInv ch → Follows ch (cancel tag ch v).0
unfolding cancel
cancel-Follows tag ch v h = elim (Option-cases (lookup tag ch.consumers)) [
  | inl e ↦ rw (e, cancel) (Follows-refl ch h)
  | inr (c, e) ↦ rw (e, cancel) (Follows-refl ch h)
]

erase-Follows :
    (tag : ℕ) (ch : Channel)
    → TagsInv ch
    → Follows ch (record ch { unacked_messages = erase tag ch.unacked_messages })
erase-Follows tag ch h =
    (omega arith, TagsBelow-erase ch.next_delivery_tag tag ch.unacked_messages h)

Follows-trans : (a b c : Channel) → Follows a b → Follows b c → Follows a c
Follows-trans a b c h k = (omega arith, k.1)

ack_one-Follows :
    (tag : ℕ) (ch : Channel) (v : VirtualHost) → TagsInv ch → Follows ch (ack_one tag ch v).0
unfolding ack_one
ack_one-Follows tag ch v h = elim (Option-cases (lookup tag ch.unacked_messages)) [
  | inl e ↦ rw (e, ack_one) (Follows-refl ch h)
  | inr (u, e) ↦ rw (e, ack_one) (erase-Follows tag ch h)
]

ack_each-Follows :
    (tags : List ℕ) (ch : Channel) (v : VirtualHost)
    → TagsInv ch
    → Follows ch (ack_each tags ch v).0
unfolding ack_each
ack_each-Follows [] ch v h = Follows-refl ch h
ack_each-Follows (tag ∷ tags) ch v h =
    let first = ack_one-Follows tag ch v h in
    Follows-trans ch (ack_one tag ch v).0
      (ack_each tags (ack_one tag ch v).0 (ack_one tag ch v).1).0 first
      (ack_each-Follows tags (ack_one tag ch v).0 (ack_one tag ch v).1 first.1)

pub settle_ack-Follows :
    (tag : ℕ) (multiple : Bool) (ch : Channel) (v : VirtualHost)
    → TagsInv ch
    → Follows ch (settle_ack tag multiple ch v).0
unfolding settle_ack
settle_ack-Follows tag true ch v h = ack_each-Follows (tags_up_to tag ch.unacked_messages) ch v h
settle_ack-Follows tag false ch v h = ack_one-Follows tag ch v h

pub nack_one-Follows :
    (requeue : Bool) (tag : ℕ) (ch : Channel) (v : VirtualHost)
    → TagsInv ch
    → Follows ch (nack_one requeue tag ch v).0
unfolding nack_one
nack_one-Follows requeue tag ch v h = elim (Option-cases (lookup tag ch.unacked_messages)) [
  | inl e ↦ rw (e, nack_one) (Follows-refl ch h)
  | inr (u, e) ↦ rw (e, nack_one) (erase-Follows tag ch h)
]

nack_each-Follows :
    (requeue : Bool) (tags : List ℕ) (ch : Channel) (v : VirtualHost)
    → TagsInv ch
    → Follows ch (nack_each requeue tags ch v).0
unfolding nack_each
nack_each-Follows requeue [] ch v h = Follows-refl ch h
nack_each-Follows requeue (tag ∷ tags) ch v h =
    let first = nack_one-Follows requeue tag ch v h in
    Follows-trans ch (nack_one requeue tag ch v).0
      (nack_each requeue tags (nack_one requeue tag ch v).0 (nack_one requeue tag ch v).1).0 first
      (nack_each-Follows requeue tags (nack_one requeue tag ch v).0 (nack_one requeue tag ch v).1
        first.1)

pub settle_nack-Follows :
    (tag : ℕ) (multiple requeue : Bool) (ch : Channel) (v : VirtualHost)
    → TagsInv ch
    → Follows ch (settle_nack tag multiple requeue ch v).0
unfolding settle_nack
settle_nack-Follows tag multiple requeue ch v h =
    nack_each-Follows requeue (if multiple then tags_up_to tag ch.unacked_messages else tag ∷ []) ch
      v h
