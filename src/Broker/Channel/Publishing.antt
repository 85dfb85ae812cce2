-- ===== src/Broker/Channel/Publishing.antt =====
-- broker/channel.cpp: publishing on a channel, from the method over the content header to the last
-- body frame.
use ganshin_mq.Base.{
  ℕ, ◌+◌, ◌*◌, ◌%◌, ◌^◌, true, false, ◌&&◌, Bytes, codes, List, [], ◌∷◌, ◌++◌, none, some, ◌==◌,
  nat_eq, if◌then◌else◌, length, ltb, leb,
}
use ganshin_mq.Amqp.Properties.{no_properties}
use ganshin_mq.Amqp.Buffer.{
  Result, ok, ◌>>=◌, read_uint8, read_uint16, read_uint64, read_short_string,
}
use ganshin_mq.Amqp.Content.{decode}
use ganshin_mq.Amqp.Methods.ClassId
use ganshin_mq.Amqp.Methods.BasicMethod
use ganshin_mq.Amqp.Methods.ReplyCode
use ganshin_mq.Broker.Channel.State.{
  Channel, PendingPublish, Sent, channel_close, basic_return, content, basic_ack, confirm_select_ok,
  Handled, bit_0, bit_1,
}
use ganshin_mq.Broker.Message.{Message, new_message, is_persistent}
use ganshin_mq.Broker.Queue.{Effects}
use ganshin_mq.Broker.VirtualHost.State.{VirtualHost}
use ganshin_mq.Broker.VirtualHost.Queues.{find_queue}
use ganshin_mq.Broker.VirtualHost.Delivery.{route_message, deliver_to_queue}
use ganshin_mq.Storage.Store.{store_message}

abbrev pub max_body_size : ℕ
max_body_size = 128 * 1024 * 1024

unfoldable pub handle_basic_publish : Bytes → Channel → VirtualHost → Result Handled
handle_basic_publish buf ch v = do
  (reserved, s1) ← read_uint16 buf
  (exchange, s2) ← read_short_string s1
  (routing_key, s3) ← read_short_string s2
  (bits, s4) ← read_uint8 s3
  ok (
      if bit_1 bits
      then (
        ch,
        v,
        channel_close ReplyCode.not_implemented (codes "immediate=true is not supported")
              ClassId.basic BasicMethod.publish
            ∷ [],
        [],
      )
      else (
        record ch {
          pending_publish = some (record {
            exchange = exchange;
            routing_key = routing_key;
            mandatory = bit_0 bits;
            immediate = false;
            body_size = 0;
            body_received = 0;
            properties = no_properties;
            body = [];
          });
        },
        v,
        [],
        [],
      ))

unfoldable pub handle_confirm_select : Bytes → Channel → VirtualHost → Result Handled
handle_confirm_select buf ch v = do
  (bits, s1) ← read_uint8 buf
  ok (
    record ch { confirm_mode = true; next_confirm_seq_no = 1 },
    v,
    if bit_0 bits then [] else confirm_select_ok ∷ [],
    [],
  )

-- The message of a complete publish.
unfoldable pub published : Channel → PendingPublish → Message
published ch p = record new_message {
  exchange = p.exchange;
  routing_key = p.routing_key;
  mandatory = p.mandatory;
  immediate = p.immediate;
  properties = p.properties;
  body = p.body;
  source_connection_id = ch.connection_id;
}

-- `copy->wal_id = …storeMessage(qname, copy);` for a persistent message and a durable queue.
unfoldable pub log_message : Bytes → Message → VirtualHost → VirtualHost × Message
log_message qname m v = elim v.store [
  | none ↦ (v, m)
  | some s ↦ elim (find_queue qname v) [
    | none ↦ (v, m)
    | some q ↦
        let (s', id) = store_message qname m s in
        if is_persistent m && q.durable
        then (record v { store = some s' }, record m { wal_id = id })
        else (v, m)
  ]
]

-- The loop over the queues.
unfoldable pub deliver_copies : ℕ → List Bytes → Message → VirtualHost → VirtualHost × List Effects
unfolding log_message
deliver_copies now [] m v = (v, [])
deliver_copies now (qname ∷ queues) m v =
    let (v1, copy) = log_message qname m v in
    let (v2, effects) = deliver_to_queue now qname copy v1 in
    let (v3, more) = deliver_copies now queues m v2 in (v3, effects ∷ more)

-- A message is returned, if it is mandatory and no queue takes it, or delivered.
unfoldable pub publish : ℕ → Message → VirtualHost → VirtualHost × List Sent × List Effects
unfolding deliver_copies
publish now m v = elim (route_message m.exchange m.routing_key m.properties.headers v) [
  | [] ↦
      if m.mandatory
      then (v, basic_return m.exchange m.routing_key ∷ content m.properties m.body ∷ [], [])
      else (v, [], [])
  | q ∷ qs ↦ let (v', effects) = deliver_copies now (q ∷ qs) m v in (v', [], effects)
]

-- The end of `handleContentBody`, when all of the body is there.
unfoldable pub complete : ℕ → PendingPublish → Channel → VirtualHost → Handled
unfolding publish published
complete now p ch v =
    let (v', sent, effects) = publish now (published ch p) v in
    if ch.confirm_mode
    then (
      record ch {
        next_confirm_seq_no = (ch.next_confirm_seq_no + 1) % 2 ^ 64;
        pending_publish = none;
      },
      v',
      sent ++ (basic_ack ch.next_confirm_seq_no ∷ []),
      effects,
    )
    else (record ch { pending_publish = none }, v', sent, effects)

-- The bytes of a body frame are taken in.
abbrev pub received : Bytes → PendingPublish → PendingPublish
received bytes p = record p {
  body = p.body ++ bytes;
  body_received = (p.body_received + length bytes) % 2 ^ 64;
}

unfoldable pub handle_content_body : ℕ → Bytes → Channel → VirtualHost → Handled
unfolding complete
handle_content_body now bytes ch v = elim ch.pending_publish [
  | none ↦ (ch, v, [], [])
  | some p ↦
      let p' = received bytes p in
      if leb p'.body_size p'.body_received
      then complete now p' ch v
      else (record ch { pending_publish = some p' }, v, [], [])
]

-- The properties are read, and a message without a body is complete.
unfoldable pub take_header : ℕ → ℕ → Bytes → PendingPublish → Channel → VirtualHost → Result Handled
unfolding handle_content_body
take_header now size buf p ch v = do
  (props, rest) ← decode buf
  let ch' = record ch { pending_publish = some (record p { body_size = size; properties = props }) }
  ok (if size == 0 then handle_content_body now [] ch' v else (ch', v, [], []))

unfoldable pub read_header : ℕ → Bytes → PendingPublish → Channel → VirtualHost → Result Handled
unfolding take_header
read_header now buf p ch v = do
  (class_id, s1) ← read_uint16 buf
  (weight, s2) ← read_uint16 s1
  (size, s3) ← read_uint64 s2
  if ltb max_body_size size
      then ok (
        record ch { pending_publish = none },
        v,
        channel_close ReplyCode.content_too_large (codes "Message body exceeds maximum size")
              ClassId.basic BasicMethod.publish
            ∷ [],
        [],
      )
      else take_header now size s3 p ch v

unfoldable pub handle_content_header : ℕ → Bytes → Channel → VirtualHost → Result Handled
unfolding read_header
handle_content_header now buf ch v = elim ch.pending_publish [
  | none ↦ ok (ch, v, [], [])
  | some p ↦ read_header now buf p ch v
]
