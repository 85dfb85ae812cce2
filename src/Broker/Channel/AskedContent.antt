-- ===== src/Broker/Channel/AskedContent.antt =====
-- What the header and body frames of a channel do to the host is asked of it by requests.
use ganshin_mq.Base.{
  ℕ, Bytes, [], Option, none, some, ◌==◌, nat_eq, if◌then◌else◌, leb, ltb, Bool-cases, inl, inr,
}
use ganshin_mq.Amqp.Buffer.{Result, ok}
use ganshin_mq.Amqp.Buffer.Ensures.{Ensures, bind-Ensures, if-Ensures, after_uint16, after_uint64}
use ganshin_mq.Amqp.Content.{decode}
use ganshin_mq.Amqp.Content.Decided.{decode-IsDecided}
use ganshin_mq.Broker.VirtualHost.State.{VirtualHost}
use ganshin_mq.Broker.Channel.State.{Channel, PendingPublish, Handled}
use ganshin_mq.Broker.Channel.Publishing.{
  complete, received, handle_content_body, take_header, read_header, handle_content_header,
  max_body_size,
}
use ganshin_mq.Broker.VirtualHost.Requests.{Ran, at_rest}
use ganshin_mq.Broker.Channel.AskedLoops.{complete-Ran}
use ganshin_mq.Broker.Channel.AskedMethods.{Asks}

body-Asks :
    (ch : Channel) (v : VirtualHost) (now : ℕ) (bytes : Bytes) (o : Option PendingPublish)
    → Ran v
        (let r : Handled = elim o [
          | none ↦ (ch, v, [], [])
          | some p ↦
              let p' = received bytes p in
              if leb p'.body_size p'.body_received
              then complete now p' ch v
              else (record ch { pending_publish = some p' }, v, [], [])
        ] in
          r).1
body-Asks ch v now bytes none = at_rest
body-Asks ch v now bytes (some p) =
    let p' = received bytes p in
    elim (Bool-cases (leb p'.body_size p'.body_received)) [
      | inl e ↦ rw e (complete-Ran now p' ch v)
      | inr e ↦ rw e (at_rest)
    ]

pub handle_content_body-Asks :
    (ch : Channel) (v : VirtualHost)
    → (now : ℕ) (bytes : Bytes) → Ran v (handle_content_body now bytes ch v).1
unfolding handle_content_body
handle_content_body-Asks ch v now bytes = body-Asks ch v now bytes ch.pending_publish

take_header-Asks :
    (ch : Channel) (v : VirtualHost) (now size : ℕ) (buf : Bytes) (p : PendingPublish)
    → Ensures (Asks v) (take_header now size buf p ch v)
unfolding take_header
take_header-Asks ch v now size buf p =
    bind-Ensures (Asks v) (decode buf) _ (decode-IsDecided buf) (λ a.
      let ch' : Channel = record ch {
        pending_publish = some (record p { body_size = size; properties = a.0 });
      } in
      elim (Bool-cases (size == 0)) [
        | inl e ↦ rw e (handle_content_body-Asks ch' v now [])
        | inr e ↦ rw e (at_rest)
      ])

read_header-Asks :
    (ch : Channel) (v : VirtualHost) (now : ℕ) (buf : Bytes) (p : PendingPublish)
    → Ensures (Asks v) (read_header now buf p ch v)
unfolding read_header
read_header-Asks ch v now buf p = after_uint16 (Asks v) buf _ (λ a.
    after_uint16 (Asks v) a.1 _ (λ b. after_uint64 (Asks v) b.1 _ (λ c.
      if-Ensures (Asks v) (ltb max_body_size c.0) _ _ (at_rest)
        (take_header-Asks ch v now c.0 c.1 p))))

header-Asks :
    (ch : Channel) (v : VirtualHost) (now : ℕ) (buf : Bytes) (o : Option PendingPublish)
    → Ensures (Asks v) (
        let r : Result Handled = elim o [
          | none ↦ ok (ch, v, [], [])
          | some p ↦ read_header now buf p ch v
        ] in
        r)
header-Asks ch v now buf none = at_rest
header-Asks ch v now buf (some p) = read_header-Asks ch v now buf p

pub handle_content_header-Asks :
    (ch : Channel) (v : VirtualHost)
    → (now : ℕ) (buf : Bytes) → Ensures (Asks v) (handle_content_header now buf ch v)
unfolding handle_content_header
handle_content_header-Asks ch v now buf = header-Asks ch v now buf ch.pending_publish
