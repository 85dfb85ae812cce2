-- ===== src/Broker/Channel/Frames.antt =====
-- broker/channel.cpp: the bytes of what a channel sends. A connection's own methods are framed in
-- the same way.
use ganshin_mq.Base.{
  ℕ, zero, suc, ◌-◌, ◌%◌, ◌^◌, Bool, Bytes, codes, List, [], ◌∷◌, ◌++◌, ◌==◌, nat_eq, bytes_eq,
  if◌then◌else◌, length, ltb, min, take, drop, map,
}
use ganshin_mq.Amqp.Properties.{BasicProperties}
use ganshin_mq.Amqp.Buffer.{
  write_uint8, write_uint16, write_uint32, write_uint64, write_short_string,
}
use ganshin_mq.Amqp.Content.{encode}
use ganshin_mq.Amqp.Frame.{frame_method, frame_header, frame_body, frame_end}
use ganshin_mq.Amqp.Methods.ClassId
use ganshin_mq.Amqp.Methods.ChannelMethod
use ganshin_mq.Amqp.Methods.ExchangeMethod
use ganshin_mq.Amqp.Methods.QueueMethod
use ganshin_mq.Amqp.Methods.BasicMethod
use ganshin_mq.Amqp.Methods.ConfirmMethod
use ganshin_mq.Amqp.Methods.TxMethod
use ganshin_mq.Amqp.Methods.ReplyCode
use ganshin_mq.Broker.Channel.State.{
  Channel, Sent, channel_close, exchange_declare_ok, exchange_delete_ok, queue_bind_ok,
  queue_unbind_ok, queue_declare_ok, queue_purge_ok, queue_delete_ok, basic_qos_ok,
  basic_recover_ok, get_empty, consume_ok, cancel_ok, basic_return, basic_deliver, get_ok,
  basic_ack, content, confirm_select_ok, tx_select_ok, tx_commit_ok, tx_rollback_ok,
}

-- A frame of a type on a channel, with its payload.
unfoldable pub write_frame : ℕ → ℕ → Bytes → Bytes
write_frame type channel payload =
    write_uint8 type
    ++ (write_uint16 channel
        ++ (write_uint32 (length payload % 2 ^ 32) ++ (payload ++ write_uint8 frame_end)))

-- `sendMethodFrame` with the bytes that `writeArgs` writes.
unfoldable pub method_frame : ℕ → ℕ → ℕ → Bytes → Bytes
unfolding write_frame
method_frame channel class_id method_id args =
    write_frame frame_method channel (write_uint16 class_id ++ (write_uint16 method_id ++ args))

unfoldable pub max_body_payload : ℕ → ℕ
max_body_payload frame_max =
    let room = if ltb 8 frame_max then frame_max - 8 else 131064 in
    if room == 0 then 131064 else room

-- The do-while loop: the payloads of the body frames. `rounds` is fuel; each round but the last
-- takes off at least one byte.
unfoldable pub chunk_loop : ℕ → ℕ → Bytes → List Bytes
chunk_loop zero limit body = []
chunk_loop (suc rounds) limit body =
    let rest = chunk_loop rounds limit (drop (min limit (length body)) body) in
    take (min limit (length body)) body
    ∷ (if ltb (min limit (length body)) (length body) then rest else [])

unfoldable pub body_chunks : ℕ → Bytes → List Bytes
unfolding chunk_loop
body_chunks limit body =
    chunk_loop (suc (length body)) limit body ++ (if body == [] then [] ∷ [] else [])

unfoldable pub header_payload : ℕ → BasicProperties → Bytes → Bytes
header_payload class_id props body =
    write_uint16 class_id
    ++ (write_uint16 0 ++ (write_uint64 (length body % 2 ^ 64) ++ encode props))

unfoldable pub content_frames : ℕ → ℕ → ℕ → BasicProperties → Bytes → List Bytes
unfolding write_frame max_body_payload body_chunks header_payload
content_frames channel frame_max class_id props body =
    write_frame frame_header channel (header_payload class_id props body)
    ∷ map (write_frame frame_body channel) (body_chunks (max_body_payload frame_max) body)

-- `flag ? 1 : 0`.
abbrev pub flag : Bool → ℕ
flag b = if b then 1 else 0

abbrev pub empty_frame : Channel → ℕ → ℕ → List Bytes
empty_frame ch class_id method_id = method_frame ch.id class_id method_id [] ∷ []

unfoldable pub sent_frames : Channel → Sent → List Bytes
unfolding method_frame content_frames
sent_frames ch (channel_close code text class_id method_id) =
    method_frame ch.id ClassId.channel ChannelMethod.close (
      write_uint16 code
      ++ (write_short_string text ++ (write_uint16 class_id ++ write_uint16 method_id)))
    ∷ []
sent_frames ch exchange_declare_ok = empty_frame ch ClassId.exchange ExchangeMethod.declare_ok
sent_frames ch exchange_delete_ok = empty_frame ch ClassId.exchange ExchangeMethod.delete_ok
sent_frames ch queue_bind_ok = empty_frame ch ClassId.queue QueueMethod.bind_ok
sent_frames ch queue_unbind_ok = empty_frame ch ClassId.queue QueueMethod.unbind_ok
sent_frames ch (queue_declare_ok name messages consumers) =
    method_frame ch.id ClassId.queue QueueMethod.declare_ok
      (write_short_string name ++ (write_uint32 messages ++ write_uint32 consumers))
    ∷ []
sent_frames ch (queue_purge_ok count) =
    method_frame ch.id ClassId.queue QueueMethod.purge_ok (write_uint32 count) ∷ []
sent_frames ch (queue_delete_ok count) =
    method_frame ch.id ClassId.queue QueueMethod.delete_ok (write_uint32 count) ∷ []
sent_frames ch basic_qos_ok = empty_frame ch ClassId.basic BasicMethod.qos_ok
sent_frames ch basic_recover_ok = empty_frame ch ClassId.basic BasicMethod.recover_ok
sent_frames ch get_empty =
    method_frame ch.id ClassId.basic BasicMethod.get_empty (write_short_string []) ∷ []
sent_frames ch (consume_ok tag) =
    method_frame ch.id ClassId.basic BasicMethod.consume_ok (write_short_string tag) ∷ []
sent_frames ch (cancel_ok tag) =
    method_frame ch.id ClassId.basic BasicMethod.cancel_ok (write_short_string tag) ∷ []
sent_frames ch (basic_return exchange routing_key) =
    method_frame ch.id ClassId.basic BasicMethod.return_method (
      write_uint16 ReplyCode.no_route
      ++ (write_short_string (codes "NO_ROUTE")
          ++ (write_short_string exchange ++ write_short_string routing_key)))
    ∷ []
sent_frames ch (basic_deliver consumer_tag delivery_tag redelivered exchange routing_key) =
    method_frame ch.id ClassId.basic BasicMethod.deliver (
      write_short_string consumer_tag
      ++ (write_uint64 delivery_tag
          ++ (write_uint8 (flag redelivered)
              ++ (write_short_string exchange ++ write_short_string routing_key))))
    ∷ []
sent_frames ch (get_ok delivery_tag redelivered exchange routing_key count) =
    method_frame ch.id ClassId.basic BasicMethod.get_ok (
      write_uint64 delivery_tag
      ++ (write_uint8 (flag redelivered)
          ++ (write_short_string exchange
              ++ (write_short_string routing_key ++ write_uint32 count))))
    ∷ []
sent_frames ch (basic_ack seq_no) =
    method_frame ch.id ClassId.basic BasicMethod.ack (write_uint64 seq_no ++ write_uint8 0) ∷ []
sent_frames ch (content props body) = content_frames ch.id ch.frame_max ClassId.basic props body
sent_frames ch confirm_select_ok = empty_frame ch ClassId.confirm ConfirmMethod.select_ok
sent_frames ch tx_select_ok = empty_frame ch ClassId.tx TxMethod.select_ok
sent_frames ch tx_commit_ok = empty_frame ch ClassId.tx TxMethod.commit_ok
sent_frames ch tx_rollback_ok = empty_frame ch ClassId.tx TxMethod.rollback_ok
