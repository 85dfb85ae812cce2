-- ===== src/Broker/VirtualHost/Recovery.antt =====
-- broker/vhost.h: `recoverFromStore`.
use ganshin_mq.Base.{ℕ, List, [], ◌∷◌, none, some, bytes_eq, nat_eq}
use ganshin_mq.Base.Map.{lookup, insert}
use ganshin_mq.Amqp.FieldValue.{end}
use ganshin_mq.Broker.Message.{Message, new_message}
use ganshin_mq.Broker.Exchange.{add_binding, create_exchange}
use ganshin_mq.Broker.Queue
use ganshin_mq.Broker.Queue.{MessageQueue, Effects, no_effects}
use ganshin_mq.Storage.Entry.{StoredExchangeDecl, StoredQueueDecl, StoredBinding, StoredMessage}
use ganshin_mq.Storage.Wal.{RecoveryData}
use ganshin_mq.Storage.Store
use ganshin_mq.Storage.Store.{MessageStore}
use ganshin_mq.Broker.VirtualHost.State.{VirtualHost}
use ganshin_mq.Broker.VirtualHost.Queues.{auto_bind}
use ganshin_mq.Broker.VirtualHost.Delivery.{deliver_to_queue}

-- The loops of `recoverFromStore`, one round each.
unfoldable pub recover_exchange : StoredExchangeDecl → VirtualHost → VirtualHost
unfolding create_exchange
recover_exchange d v = elim (lookup d.name v.exchanges) [
  | some ex ↦ v
  | none ↦ record v {
    exchanges =
        insert d.name
          (record (create_exchange d.type) {
            name = d.name;
            durable = d.durable;
            auto_delete = d.auto_delete;
            internal = d.internal;
          })
          v.exchanges;
  }
]

unfoldable pub recover_queue : StoredQueueDecl → VirtualHost → VirtualHost
unfolding auto_bind
recover_queue d v = elim (lookup d.name v.queues) [
  | some q ↦ v
  | none ↦ record v {
    queues =
        insert d.name
          (record (Queue.new_queue d.name) { durable = d.durable; auto_delete = d.auto_delete })
          v.queues;
    exchanges = auto_bind d.name v.exchanges;
  }
]

unfoldable pub recover_binding : StoredBinding → VirtualHost → VirtualHost
recover_binding b v = elim (lookup b.exchange v.exchanges) [
  | none ↦ v
  | some ex ↦ record v {
    exchanges = insert b.exchange (add_binding ex b.queue b.routing_key end) v.exchanges;
  }
]

abbrev pub recovered_message : StoredMessage → Message
recovered_message m = record new_message {
  exchange = m.exchange;
  routing_key = m.routing_key;
  properties = m.properties;
  body = m.body;
  wal_id = m.id;
}

unfoldable pub recover_message : ℕ → StoredMessage → VirtualHost → VirtualHost
unfolding deliver_to_queue
recover_message now m v = (deliver_to_queue now m.queue_name (recovered_message m) v).0

-- A loop over a list of the data.
unfoldable pub for_each :
    {A : Type 0} → (A → VirtualHost → VirtualHost) → List A → VirtualHost → VirtualHost
for_each step [] v = v
for_each step (a ∷ as') v = for_each step as' (step a v)

unfoldable pub recover_data : ℕ → RecoveryData → VirtualHost → VirtualHost
unfolding for_each recover_exchange recover_queue recover_binding recover_message
recover_data now d v = for_each (recover_message now) d.messages (
    for_each recover_binding d.bindings
      (for_each recover_queue d.queues (for_each recover_exchange d.exchanges v)))

unfoldable pub recover_from_store : ℕ → VirtualHost → VirtualHost
unfolding recover_data
recover_from_store now v = elim v.store [
  | none ↦ v
  | some s ↦
      let (s', d) = Store.recover_store s in recover_data now d (record v { store = some s' })
]
