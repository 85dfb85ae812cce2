-- ===== src/Broker/VirtualHost/Requests.antt =====
-- What clients, the timer and the recovery ask of a virtual host, and the states it can get into.
use ganshin_mq.Base.{ℕ, Bool, Bytes, Option, none, some, bytes_eq}
use ganshin_mq.Base.Map.{lookup, insert}
use ganshin_mq.Amqp.FieldValue.{FieldTable}
use ganshin_mq.Broker.Message.{Message}
use ganshin_mq.Broker.Consumer.{Consumer}
use ganshin_mq.Broker.Queue
use ganshin_mq.Broker.Queue.{MessageQueue}
use ganshin_mq.Storage.Store.{MessageStore, store_message, store_ack, compact_if_needed}
use ganshin_mq.Broker.VirtualHost.State.{VirtualHost, new_virtual_host, log}
use ganshin_mq.Broker.VirtualHost.Exchanges.{ExchangeRequest, declare_exchange, delete_exchange}
use ganshin_mq.Broker.VirtualHost.Queues.{
  QueueRequest, declare_queue, delete_queue, bind_queue, unbind_queue,
}
use ganshin_mq.Broker.VirtualHost.Delivery.{deliver_to_queue, tick}
use ganshin_mq.Broker.VirtualHost.Cleanup.{remove_connection_queues}
use ganshin_mq.Broker.Channel.Settling.{release}
use ganshin_mq.Broker.VirtualHost.Recovery.{recover_from_store}

-- What a channel does to a queue that it has found.
pub data QueueWork : Type 0 where
  getting : ℕ → QueueWork
  purging : QueueWork
  subscribing : Consumer → QueueWork
  cancelling : Bytes → QueueWork
  rejecting : Bool → Message → QueueWork

unfoldable pub work : QueueWork → MessageQueue → MessageQueue
work (getting now) q = (Queue.get now q).0
work purging q = (Queue.purge q).0
work (subscribing c) q = (Queue.add_consumer c q).0
work (cancelling tag) q = (Queue.remove_consumer tag q).0
work (rejecting requeue m) q = (Queue.reject requeue m q).0

pub data Request : Type 0 where
  declaring_exchange : ExchangeRequest → Request
  deleting_exchange : Bytes → Request
  declaring_queue : QueueRequest → Request
  deleting_queue : Bytes → Bool → Bool → Request
  binding : Bytes → Bytes → Bytes → FieldTable → Request
  unbinding : Bytes → Bytes → Bytes → Request
  delivering : ℕ → Bytes → Message → Request
  ticking : ℕ → Request
  leaving : ℕ → Request
  recovering : ℕ → Request
  working : Bytes → QueueWork → Request
  logging_message : Bytes → Message → Request
  logging_ack : Bytes → ℕ → Request
  releasing : ℕ → Request
  compacting : Request

unfoldable pub perform : Request → VirtualHost → VirtualHost
unfolding work log release
perform (declaring_exchange r) v = (declare_exchange r v).0
perform (deleting_exchange name) v = (delete_exchange name v).0
perform (declaring_queue r) v = (declare_queue r v).0
perform (deleting_queue name if_unused if_empty) v = (delete_queue name if_unused if_empty v).0
perform (binding queue exchange key args) v = (bind_queue queue exchange key args v).0
perform (unbinding queue exchange key) v = (unbind_queue queue exchange key v).0
perform (delivering now queue m) v = (deliver_to_queue now queue m v).0
perform (ticking now) v = (tick now v).0
perform (leaving conn) v = remove_connection_queues conn v
perform (recovering now) v = recover_from_store now v
perform (working name w) v = elim (lookup name v.queues) [
  | none ↦ v
  | some q ↦ record v { queues = insert name (work w q) v.queues }
]
perform (logging_message queue m) v = log (λ s. (store_message queue m s).0) v
perform (logging_ack queue id) v = log (store_ack queue id) v
perform (releasing object) v = release (some object) v
perform compacting v = log compact_if_needed v

-- The states that a new host gets into.
pub data Reachable : VirtualHost → Type 0 where
  started : (name : Bytes) (store : Option MessageStore) → Reachable (new_virtual_host name store)
  served : {v : VirtualHost} (r : Request) → Reachable v → Reachable (perform r v)

-- A host after requests.
pub data Ran : VirtualHost → VirtualHost → Type 0 where
  at_rest : {v : VirtualHost} → Ran v v
  and_then : {v w : VirtualHost} (r : Request) → Ran v w → Ran v (perform r w)

pub Ran-Reachable : (v w : VirtualHost) → Ran v w → Reachable v → Reachable w
Ran-Reachable v w at_rest h = h
Ran-Reachable v w (and_then {w = u} r ran) h = served r (Ran-Reachable v u ran h)

pub Ran-trans : (u v w : VirtualHost) → Ran u v → Ran v w → Ran u w
Ran-trans u v w first at_rest = first
Ran-trans u v w first (and_then {w = x} r ran) = and_then r (Ran-trans u v x first ran)

pub asks : (r : Request) (v : VirtualHost) → Ran v (perform r v)
asks r v = and_then r at_rest
