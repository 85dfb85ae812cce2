-- ===== src/Broker/Channel/Consuming.antt =====
-- broker/channel.cpp: consuming and getting messages. What allocates an object takes its address.
use ganshin_mq.Base.{
  ℕ, ◌+◌, ◌%◌, ◌^◌, Bool, true, Bytes, codes, List, [], ◌∷◌, ◌++◌, Option, none, some, ◌==◌, nat_eq,
  bytes_eq, if◌then◌else◌,
}
use ganshin_mq.Base.Map.{lookup, insert, erase}
use ganshin_mq.Amqp.Buffer.{
  Result, ok, ◌>>=◌, read_uint8, read_uint16, read_uint32, read_short_string,
}
use ganshin_mq.Amqp.Table.{read_table}
use ganshin_mq.Amqp.Methods.ClassId
use ganshin_mq.Amqp.Methods.BasicMethod
use ganshin_mq.Broker.Message.{Message, new_message}
use ganshin_mq.Broker.Consumer.{Consumer}
use ganshin_mq.Broker.Queue
use ganshin_mq.Broker.Queue.{MessageQueue, Effects}
use ganshin_mq.Broker.VirtualHost.State.{VirtualHost}
use ganshin_mq.Broker.VirtualHost.Names.{to_string}
use ganshin_mq.Broker.VirtualHost.Queues.{find_queue}
use ganshin_mq.Broker.Channel.State.{
  Channel, UnackedMessage, Sent, basic_qos_ok, get_empty, consume_ok, cancel_ok, basic_deliver,
  get_ok, content, Handled, replied, bit_0, bit_1, bit_2, bit_3,
}
use ganshin_mq.Broker.Channel.Declaring.{not_found, put_queue, unless}

unfoldable pub handle_basic_qos : Bytes → Channel → VirtualHost → Result Handled
handle_basic_qos buf ch v = do
  (size, s1) ← read_uint32 buf
  (count, s2) ← read_uint16 s1
  (global, s3) ← read_uint8 s2
  replied (record ch { prefetch_size = size; prefetch_count = count }) v (basic_qos_ok ∷ [])

-- The arguments of a consume.
pub record ConsumeRequest : Type 0 where
  pub queue : Bytes
  pub consumer_tag : Bytes
  pub no_local : Bool
  pub no_ack : Bool
  pub exclusive : Bool
  pub no_wait : Bool

abbrev pub generated_tag : Channel → ℕ → Bytes
generated_tag ch n =
    codes "amq.ctag-"
    ++ (to_string ch.connection_id
        ++ (codes "-" ++ (to_string ch.id ++ (codes "-" ++ to_string n))))

-- An empty tag is replaced by a generated one.
unfoldable pub take_tag : Bytes → Channel → Channel × Bytes
take_tag tag ch =
    let n = (ch.consumer_tag_counter + 1) % 2 ^ 64 in
    if tag == [] then (record ch { consumer_tag_counter = n }, generated_tag ch n) else (ch, tag)

unfoldable pub new_consumer : ℕ → Bytes → ConsumeRequest → Channel → Consumer
new_consumer object tag r ch = record {
  object = object;
  tag = tag;
  queue_name = r.queue;
  no_local = r.no_local;
  no_ack = r.no_ack;
  exclusive = r.exclusive;
  channel_id = ch.id;
  connection_id = ch.connection_id;
  prefetch_count = ch.prefetch_count;
  in_flight = 0;
  on_deliver = true;
}

unfoldable pub consume_found :
    ℕ → ConsumeRequest → Channel → VirtualHost → Option MessageQueue → Handled
unfolding take_tag new_consumer
consume_found object r ch v none =
    (ch, v, not_found r.queue ClassId.basic BasicMethod.consume ∷ [], [])
consume_found object r ch v (some q) =
    let (ch', tag) = take_tag r.consumer_tag ch in
    let consumer = new_consumer object tag r ch' in
    let (q', deliveries) = Queue.add_consumer consumer q in
    (
      record ch' { consumers = insert tag consumer ch'.consumers },
      put_queue r.queue q' v,
      unless r.no_wait (consume_ok tag),
      record { deliveries = deliveries; dead_letters = [] } ∷ [],
    )

unfoldable pub handle_basic_consume : ℕ → Bytes → Channel → VirtualHost → Result Handled
unfolding consume_found
handle_basic_consume object buf ch v = do
  (reserved, s1) ← read_uint16 buf
  (queue, s2) ← read_short_string s1
  (consumer_tag, s3) ← read_short_string s2
  (bits, s4) ← read_uint8 s3
  (args, s5) ← read_table s4
  ok (
      consume_found object
        (record {
          queue = queue;
          consumer_tag = consumer_tag;
          no_local = bit_0 bits;
          no_ack = bit_1 bits;
          exclusive = bit_2 bits;
          no_wait = bit_3 bits;
        })
        ch v (find_queue queue v))

-- `if (auto q = vhost_->findQueue(name)) q->removeConsumer(tag);`
unfoldable pub remove_from : Bytes → Bytes → VirtualHost → VirtualHost
remove_from queue tag v = elim (find_queue queue v) [
  | none ↦ v
  | some q ↦ put_queue queue (Queue.remove_consumer tag q).0 v
]

unfoldable pub cancel : Bytes → Channel → VirtualHost → Channel × VirtualHost
unfolding remove_from
cancel tag ch v = elim (lookup tag ch.consumers) [
  | none ↦ (ch, v)
  | some c ↦ (record ch { consumers = erase tag ch.consumers }, remove_from c.queue_name tag v)
]

unfoldable pub handle_basic_cancel : Bytes → Channel → VirtualHost → Result Handled
unfolding cancel
handle_basic_cancel buf ch v = do
  (tag, s1) ← read_short_string buf
  (bits, s2) ← read_uint8 s1
  replied (cancel tag ch v).0 (cancel tag ch v).1 (unless (bit_0 bits) (cancel_ok tag))

-- `nextDeliveryTag_++`.
abbrev pub next_tag : Channel → ℕ
next_tag ch = (ch.next_delivery_tag + 1) % 2 ^ 64

abbrev pub kept : Bool → UnackedMessage → Channel → List (ℕ × UnackedMessage)
kept no_ack u ch =
    if no_ack then ch.unacked_messages else insert ch.next_delivery_tag u ch.unacked_messages

-- A message that was got, and the queue that is left.
unfoldable pub got :
    Bytes → Bool → Channel → VirtualHost → MessageQueue → Option Message → Channel × List Sent
got queue no_ack ch v q none = (ch, get_empty ∷ [])
got queue no_ack ch v q (some m) = (
  record ch {
    next_delivery_tag = next_tag ch;
    unacked_messages = kept no_ack (record { message = m; queue_name = queue; consumer = none }) ch;
  },
  get_ok ch.next_delivery_tag m.redelivered m.exchange m.routing_key (Queue.message_count q)
      ∷ content m.properties m.body
      ∷ [],
)

unfoldable pub get_found : ℕ → Bytes → Bool → Channel → VirtualHost → Option MessageQueue → Handled
unfolding got
get_found now queue no_ack ch v none =
    (ch, v, not_found queue ClassId.basic BasicMethod.get ∷ [], [])
get_found now queue no_ack ch v (some q) =
    let (q', found, dead) = Queue.get now q in
    let (ch', sent) = got queue no_ack ch v q' found in
    (ch', put_queue queue q' v, sent, record { deliveries = []; dead_letters = dead } ∷ [])

unfoldable pub handle_basic_get : ℕ → Bytes → Channel → VirtualHost → Result Handled
unfolding get_found
handle_basic_get now buf ch v = do
  (reserved, s1) ← read_uint16 buf
  (queue, s2) ← read_short_string s1
  (bits, s3) ← read_uint8 s2
  ok (get_found now queue (bit_0 bits) ch v (find_queue queue v))

-- The message that `on_deliver` makes of what it is passed.
unfoldable pub delivered : Message → Message
delivered m = record new_message {
  exchange = m.exchange;
  routing_key = m.routing_key;
  properties = m.properties;
  body = m.body;
  redelivered = m.redelivered;
}

-- Whether the delivery is kept until it is acknowledged, and by whom it was consumed.
unfoldable pub delivery_kept : Bytes → Bytes → Message → Channel → List (ℕ × UnackedMessage)
delivery_kept tag queue m ch = elim (lookup tag ch.consumers) [
  | none ↦ ch.unacked_messages
  | some c ↦ kept c.no_ack (record { message = m; queue_name = queue; consumer = some c.object }) ch
]

unfoldable pub deliver_message : Bytes → Bytes → Message → Channel → Channel × List Sent
unfolding delivery_kept
deliver_message tag queue m ch = (
  record ch { next_delivery_tag = next_tag ch; unacked_messages = delivery_kept tag queue m ch },
  basic_deliver tag ch.next_delivery_tag m.redelivered m.exchange m.routing_key
      ∷ content m.properties m.body
      ∷ [],
)

-- What `on_deliver` posts to the connection's strand.
unfoldable pub on_deliver : Bytes → Bytes → Message → Channel → Channel × List Sent
unfolding delivered deliver_message
on_deliver tag queue m ch =
    if ch.is_open then deliver_message tag queue (delivered m) ch else (ch, [])
