-- ===== src/Broker/Channel/Declaring.antt =====
-- broker/channel.cpp: the methods on exchanges and queues.
use ganshin_mq.Base.{
  ℕ, Bool, not, ◌&&◌, Bytes, codes, List, [], ◌∷◌, Option, none, some, ◌==◌, nat_eq, bytes_eq,
  if◌then◌else◌,
}
use ganshin_mq.Base.Map.{insert}
use ganshin_mq.Amqp.Buffer.{Result, ok, ◌>>=◌, read_uint8, read_uint16, read_short_string}
use ganshin_mq.Amqp.Table.{read_table}
use ganshin_mq.Amqp.Methods.ClassId
use ganshin_mq.Amqp.Methods.ExchangeMethod
use ganshin_mq.Amqp.Methods.QueueMethod
use ganshin_mq.Amqp.Methods.ReplyCode
use ganshin_mq.Broker.Queue
use ganshin_mq.Broker.Queue.{MessageQueue}
use ganshin_mq.Broker.VirtualHost.State.{VirtualHost, Outcome, granted, refused}
use ganshin_mq.Broker.VirtualHost.Exchanges.{declare_exchange, delete_exchange, no_queue}
use ganshin_mq.Broker.VirtualHost.Queues.{
  find_queue, declare_queue, delete_queue, bind_queue, unbind_queue,
}
use ganshin_mq.Broker.Channel.State.{
  Channel, Sent, channel_close, exchange_declare_ok, exchange_delete_ok, queue_bind_ok,
  queue_unbind_ok, queue_declare_ok, queue_purge_ok, queue_delete_ok, Handled, replied, bit_0,
  bit_1, bit_2, bit_3, bit_4,
}

-- What the host answers is refused by closing the channel, or confirmed.
unfoldable pub answer :
    {A : Type 0} → ℕ → ℕ → (A → List Sent) → Channel → VirtualHost × Outcome A → Result Handled
answer class_id method_id confirm ch (v, refused code text) =
    replied ch v (channel_close code text class_id method_id ∷ [])
answer class_id method_id confirm ch (v, granted a) = replied ch v (confirm a)

-- `if (!noWait) send…`
abbrev pub unless : Bool → Sent → List Sent
unless no_wait sent = if no_wait then [] else sent ∷ []

unfoldable pub handle_exchange_declare : Bytes → Channel → VirtualHost → Result Handled
unfolding answer
handle_exchange_declare buf ch v = do
  (reserved, s1) ← read_uint16 buf
  (exchange, s2) ← read_short_string s1
  (type, s3) ← read_short_string s2
  (bits, s4) ← read_uint8 s3
  (args, s5) ← read_table s4
  answer ClassId.exchange ExchangeMethod.declare (λ _. unless (bit_4 bits) exchange_declare_ok) ch
      (declare_exchange
        (record {
          name = exchange;
          type = if type == [] && not (bit_0 bits) then codes "direct" else type;
          passive = bit_0 bits;
          durable = bit_1 bits;
          auto_delete = bit_2 bits;
          internal = bit_3 bits;
          args = args;
        })
        v)

unfoldable pub handle_exchange_delete : Bytes → Channel → VirtualHost → Result Handled
unfolding answer
handle_exchange_delete buf ch v = do
  (reserved, s1) ← read_uint16 buf
  (exchange, s2) ← read_short_string s1
  (bits, s3) ← read_uint8 s2
  answer ClassId.exchange ExchangeMethod.delete (λ _. unless (bit_1 bits) exchange_delete_ok) ch
      (delete_exchange exchange v)

unfoldable pub handle_queue_declare : Bytes → Channel → VirtualHost → Result Handled
unfolding answer
handle_queue_declare buf ch v = do
  (reserved, s1) ← read_uint16 buf
  (queue, s2) ← read_short_string s1
  (bits, s3) ← read_uint8 s2
  (args, s4) ← read_table s3
  answer ClassId.queue QueueMethod.declare
      (λ (q, created).
        unless (bit_4 bits)
          (queue_declare_ok q.name (Queue.message_count q) (Queue.consumer_count q)))
      ch
      (declare_queue
        (record {
          name = queue;
          passive = bit_0 bits;
          durable = bit_1 bits;
          exclusive = bit_2 bits;
          auto_delete = bit_3 bits;
          args = args;
          connection_id = ch.connection_id;
        })
        v)

unfoldable pub handle_queue_bind : Bytes → Channel → VirtualHost → Result Handled
unfolding answer
handle_queue_bind buf ch v = do
  (reserved, s1) ← read_uint16 buf
  (queue, s2) ← read_short_string s1
  (exchange, s3) ← read_short_string s2
  (routing_key, s4) ← read_short_string s3
  (bits, s5) ← read_uint8 s4
  (args, s6) ← read_table s5
  answer ClassId.queue QueueMethod.bind (λ _. unless (bit_0 bits) queue_bind_ok) ch
      (bind_queue queue exchange routing_key args v)

unfoldable pub handle_queue_unbind : Bytes → Channel → VirtualHost → Result Handled
unfolding answer
handle_queue_unbind buf ch v = do
  (reserved, s1) ← read_uint16 buf
  (queue, s2) ← read_short_string s1
  (exchange, s3) ← read_short_string s2
  (routing_key, s4) ← read_short_string s3
  (args, s5) ← read_table s4
  answer ClassId.queue QueueMethod.unbind (λ _. queue_unbind_ok ∷ []) ch
      (unbind_queue queue exchange routing_key v)

-- A queue that is not there closes the channel.
abbrev pub not_found : Bytes → ℕ → ℕ → Sent
not_found queue class_id method_id =
    channel_close ReplyCode.not_found (no_queue queue) class_id method_id

-- The host with the queue that an operation has left.
abbrev pub put_queue : Bytes → MessageQueue → VirtualHost → VirtualHost
put_queue queue q v = record v { queues = insert queue q v.queues }

unfoldable pub purge_found : Bytes → Bool → Channel → VirtualHost → Option MessageQueue → Handled
purge_found queue no_wait ch v none =
    (ch, v, not_found queue ClassId.queue QueueMethod.purge ∷ [], [])
purge_found queue no_wait ch v (some q) =
    let (q', count) = Queue.purge q in
    (ch, put_queue queue q' v, unless no_wait (queue_purge_ok count), [])

unfoldable pub handle_queue_purge : Bytes → Channel → VirtualHost → Result Handled
unfolding purge_found
handle_queue_purge buf ch v = do
  (reserved, s1) ← read_uint16 buf
  (queue, s2) ← read_short_string s1
  (bits, s3) ← read_uint8 s2
  ok (purge_found queue (bit_0 bits) ch v (find_queue queue v))

unfoldable pub handle_queue_delete : Bytes → Channel → VirtualHost → Result Handled
unfolding answer
handle_queue_delete buf ch v = do
  (reserved, s1) ← read_uint16 buf
  (queue, s2) ← read_short_string s1
  (bits, s3) ← read_uint8 s2
  answer ClassId.queue QueueMethod.delete (λ count. unless (bit_2 bits) (queue_delete_ok count)) ch
      (delete_queue queue (bit_0 bits) (bit_1 bits) v)
