-- ===== src/Broker/Channel/StepsContent.antt =====
-- What every header and body frame does to the delivery tags of a channel.
use ganshin_mq.Base.{
  ℕ, Bytes, [], Option, none, some, ◌==◌, nat_eq, if◌then◌else◌, leb, ltb, Bool-cases, inl, inr,
}
use ganshin_mq.Amqp.Buffer.{Result, ok}
use ganshin_mq.Amqp.Buffer.Ensures.{Ensures, bind-Ensures, if-Ensures, after_uint16, after_uint64}
use ganshin_mq.Amqp.Content.{decode}
use ganshin_mq.Amqp.Content.Decided.{decode-IsDecided}
use ganshin_mq.Broker.VirtualHost.State.{VirtualHost}
use ganshin_mq.Broker.Channel.State.{Channel, PendingPublish, Handled}
use ganshin_mq.Broker.Channel.Publishing.{
  complete, received, handle_content_body, take_header, read_header, handle_content_header,
  max_body_size,
}
use ganshin_mq.Broker.Channel.Tags.{TagsInv, Follows, Follows-refl}
use ganshin_mq.Broker.Channel.Steps.{Stays, complete-Follows}

body-Follows :
    (ch : Channel) (v : VirtualHost) (h : TagsInv ch) (now : ℕ) (bytes : Bytes)
    (o : Option PendingPublish)
    → Follows ch
        (let r : Handled = elim o [
          | none ↦ (ch, v, [], [])
          | some p ↦
              let p' = received bytes p in
              if leb p'.body_size p'.body_received
              then complete now p' ch v
              else (record ch { pending_publish = some p' }, v, [], [])
        ] in
          r).0
body-Follows ch v h now bytes none = Follows-refl ch h
body-Follows ch v h now bytes (some p) =
    let p' = received bytes p in
    elim (Bool-cases (leb p'.body_size p'.body_received)) [
      | inl e ↦ rw e (complete-Follows ch v h now p')
      | inr e ↦ rw e (Follows-refl ch h)
    ]

pub handle_content_body-Follows :
    (ch : Channel) (v : VirtualHost)
    → TagsInv ch
    → (now : ℕ) (bytes : Bytes) → Follows ch (handle_content_body now bytes ch v).0
unfolding handle_content_body
handle_content_body-Follows ch v h now bytes = body-Follows ch v h now bytes ch.pending_publish

take_header-Stays :
    (ch : Channel) (v : VirtualHost) (h : TagsInv ch) (now size : ℕ) (buf : Bytes)
    (p : PendingPublish)
    → Ensures (Stays ch) (take_header now size buf p ch v)
unfolding take_header
take_header-Stays ch v h now size buf p =
    bind-Ensures (Stays ch) (decode buf) _ (decode-IsDecided buf) (λ a.
      let ch' : Channel = record ch {
        pending_publish = some (record p { body_size = size; properties = a.0 });
      } in
      elim (Bool-cases (size == 0)) [
        | inl e ↦ rw e (handle_content_body-Follows ch' v h now [])
        | inr e ↦ rw e (Follows-refl ch h)
      ])

read_header-Stays :
    (ch : Channel) (v : VirtualHost) (h : TagsInv ch) (now : ℕ) (buf : Bytes) (p : PendingPublish)
    → Ensures (Stays ch) (read_header now buf p ch v)
unfolding read_header
read_header-Stays ch v h now buf p = after_uint16 (Stays ch) buf _ (λ a.
    after_uint16 (Stays ch) a.1 _ (λ b. after_uint64 (Stays ch) b.1 _ (λ c.
      if-Ensures (Stays ch) (ltb max_body_size c.0) _ _ (Follows-refl ch h)
        (take_header-Stays ch v h now c.0 c.1 p))))

header-Stays :
    (ch : Channel) (v : VirtualHost) (h : TagsInv ch) (now : ℕ) (buf : Bytes)
    (o : Option PendingPublish)
    → Ensures (Stays ch) (
        let r : Result Handled = elim o [
          | none ↦ ok (ch, v, [], [])
          | some p ↦ read_header now buf p ch v
        ] in
        r)
header-Stays ch v h now buf none = Follows-refl ch h
header-Stays ch v h now buf (some p) = read_header-Stays ch v h now buf p

pub handle_content_header-Stays :
    (ch : Channel) (v : VirtualHost)
    → TagsInv ch
    → (now : ℕ) (buf : Bytes) → Ensures (Stays ch) (handle_content_header now buf ch v)
unfolding handle_content_header
handle_content_header-Stays ch v h now buf = header-Stays ch v h now buf ch.pending_publish
