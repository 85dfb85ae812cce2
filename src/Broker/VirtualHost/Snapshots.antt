-- ===== src/Broker/VirtualHost/Snapshots.antt =====
-- broker/vhost.h: the handler of dead letters, and the snapshots for the statistics.
use ganshin_mq.Base.{ℕ, Bool, Bytes, List, [], ◌∷◌, map, length}
use ganshin_mq.Broker.Exchange.{Exchange}
use ganshin_mq.Broker.Message.{Message}
use ganshin_mq.Broker.Queue
use ganshin_mq.Broker.Queue.{MessageQueue, DeadLetter, Effects}
use ganshin_mq.Broker.VirtualHost.State.{VirtualHost}
use ganshin_mq.Broker.VirtualHost.Delivery.{route_message, deliver_to_queue}

-- `for (auto& qname : queues) deliverToQueue(qname, msg);`
unfoldable pub deliver_each : ℕ → List Bytes → Message → VirtualHost → VirtualHost × List Effects
deliver_each now [] m v = (v, [])
deliver_each now (queue ∷ queues) m v =
    let (v1, effects) = deliver_to_queue now queue m v in
    let (v2, more) = deliver_each now queues m v1 in (v2, effects ∷ more)

-- What `setupDeadLetterHandler` has a queue call.
unfoldable pub on_dead_letter : ℕ → DeadLetter → VirtualHost → VirtualHost × List Effects
unfolding deliver_each
on_dead_letter now d v =
    deliver_each now (route_message d.dlx d.key d.letter.properties.headers v) d.letter v

pub record QueueSnapshot : Type 0 where
  pub name : Bytes
  pub durable : Bool
  pub exclusive : Bool
  pub auto_delete : Bool
  pub message_count : ℕ
  pub consumer_count : ℕ

pub record ExchangeSnapshot : Type 0 where
  pub name : Bytes
  pub type : Bytes
  pub durable : Bool
  pub auto_delete : Bool
  pub binding_count : ℕ

unfoldable pub queue_snapshot : Bytes × MessageQueue → QueueSnapshot
queue_snapshot (name, q) = record {
  name = name;
  durable = q.durable;
  exclusive = q.exclusive;
  auto_delete = q.auto_delete;
  message_count = Queue.message_count q;
  consumer_count = Queue.consumer_count q;
}

unfoldable pub snapshot_queues : VirtualHost → List QueueSnapshot
unfolding queue_snapshot
snapshot_queues v = map queue_snapshot v.queues

unfoldable pub exchange_snapshot : Bytes × Exchange → ExchangeSnapshot
exchange_snapshot (name, ex) = record {
  name = name;
  type = ex.type;
  durable = ex.durable;
  auto_delete = ex.auto_delete;
  binding_count = length ex.bindings;
}

unfoldable pub snapshot_exchanges : VirtualHost → List ExchangeSnapshot
unfolding exchange_snapshot
snapshot_exchanges v = map exchange_snapshot v.exchanges
