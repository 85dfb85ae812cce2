-- ===== src/Broker/VirtualHost/Queues.antt =====
-- broker/vhost.h: declaring, deleting, binding and unbinding queues.
use ganshin_mq.Base.{
  ℕ, ◌+◌, ◌%◌, ◌^◌, Bool, true, false, not, ◌&&◌, Bytes, codes, List, [], ◌∷◌, ◌++◌, Option, none,
  some, ◌==◌, bytes_eq, nat_eq, if◌then◌else◌, ltb, map,
}
use ganshin_mq.Base.Map.{lookup, insert, erase}
use ganshin_mq.Amqp.FieldValue.{FieldTable, end}
use ganshin_mq.Broker.Exchange.{Binding, Exchange, add_binding, remove_binding}
use ganshin_mq.Broker.Queue
use ganshin_mq.Broker.Queue.{MessageQueue, Effects, no_effects}
use ganshin_mq.Storage.Store
use ganshin_mq.Storage.Store.{MessageStore}
use ganshin_mq.Broker.VirtualHost.State.{VirtualHost, Outcome, granted, refused, log, log_if}
use ganshin_mq.Broker.VirtualHost.Names.{to_string}
use ganshin_mq.Broker.VirtualHost.Exchanges.{no_exchange, no_queue, locked}

unfoldable pub find_queue : Bytes → VirtualHost → Option MessageQueue
find_queue name v = lookup name v.queues

pub record QueueRequest : Type 0 where
  pub name : Bytes
  pub passive : Bool
  pub durable : Bool
  pub exclusive : Bool
  pub auto_delete : Bool
  pub args : FieldTable
  pub connection_id : ℕ

-- `generateQueueName()`, with its counter.
unfoldable pub generate_queue_name : VirtualHost → VirtualHost × Bytes
generate_queue_name v =
    let n = (v.counter + 1) % 2 ^ 64 in (record v { counter = n }, codes "amq.gen-" ++ to_string n)

unfoldable pub requested_name : QueueRequest → VirtualHost → VirtualHost × Bytes
unfolding generate_queue_name
requested_name r v = if r.name == [] then generate_queue_name v else (v, r.name)

-- The new queue; `setupDeadLetterHandler` sets its handler.
unfoldable pub create_queue : Bytes → QueueRequest → MessageQueue
create_queue qname r =
    record (Queue.configure (record (Queue.new_queue qname) {
      durable = r.durable;
      exclusive = r.exclusive;
      auto_delete = r.auto_delete;
      arguments = r.args;
      owner_connection = if r.exclusive then r.connection_id else 0;
    })) { dead_letter_fn = true }

-- The queue is bound to the default exchange by its own name.
unfoldable pub auto_bind : Bytes → List (Bytes × Exchange) → List (Bytes × Exchange)
auto_bind qname exchanges = elim (lookup [] exchanges) [
  | none ↦ exchanges
  | some ex ↦ insert [] (add_binding ex qname qname end) exchanges
]

unfoldable pub declare_named :
    Bytes → QueueRequest → VirtualHost → VirtualHost × Outcome (MessageQueue × Bool)
unfolding create_queue auto_bind log
declare_named qname r v = elim (lookup qname v.queues) [
  | none ↦
      if r.passive
      then (v, refused 404 (no_queue qname))
      else (let q = create_queue qname r in
          (
            log_if r.durable (Store.store_queue_declare qname r.durable r.auto_delete) (record v {
              queues = insert qname q v.queues;
              exchanges = auto_bind qname v.exchanges;
            }),
            granted (q, true),
          ))
  | some q ↦
      if r.passive
      then (v, granted (q, false))
      else if q.exclusive && not (q.owner_connection == r.connection_id)
      then (v, refused 405 (locked qname))
      else (v, granted (q, false))
]

unfoldable pub declare_queue :
    QueueRequest → VirtualHost → VirtualHost × Outcome (MessageQueue × Bool)
unfolding requested_name declare_named
declare_queue r v = let (v', qname) = requested_name r v in declare_named qname r v'

-- The loop over a copy of an exchange's bindings that removes those of a queue.
unfoldable pub unbind_loop : Bytes → List Binding → Exchange → Exchange
unbind_loop queue [] ex = ex
unbind_loop queue (b ∷ bs) ex =
    unbind_loop queue bs
      (if b.queue_name == queue then remove_binding ex queue b.routing_key else ex)

unfoldable pub unbind_all : Bytes → List (Bytes × Exchange) → List (Bytes × Exchange)
unfolding unbind_loop
unbind_all queue exchanges = map (λ (name, ex). (name, unbind_loop queue ex.bindings ex)) exchanges

unfoldable pub delete_queue : Bytes → Bool → Bool → VirtualHost → VirtualHost × Outcome ℕ
unfolding unbind_all log
delete_queue name if_unused if_empty v = elim (lookup name v.queues) [
  | none ↦ (v, refused 404 (no_queue name))
  | some q ↦
      if if_unused && ltb 0 (Queue.consumer_count q)
      then (v, refused 406 (codes "PRECONDITION_FAILED - queue in use"))
      else if if_empty && ltb 0 (Queue.message_count q)
      then (v, refused 406 (codes "PRECONDITION_FAILED - queue not empty"))
      else (
        log (Store.store_queue_delete name)
            (record v { exchanges = unbind_all name v.exchanges; queues = erase name v.queues }),
        granted (Queue.message_count q),
      )
]

unfoldable pub bind_queue :
    Bytes → Bytes → Bytes → FieldTable → VirtualHost → VirtualHost × Outcome (Unit {0})
unfolding log
bind_queue queue exchange routing_key args v = elim (lookup exchange v.exchanges) [
  | none ↦ (v, refused 404 (no_exchange exchange))
  | some ex ↦ elim (lookup queue v.queues) [
    | none ↦ (v, refused 404 (no_queue queue))
    | some q ↦ (
      log (Store.store_binding queue exchange routing_key) (record v {
        exchanges = insert exchange (add_binding ex queue routing_key args) v.exchanges;
      }),
      granted tt,
    )
  ]
]

unfoldable pub unbind_queue : Bytes → Bytes → Bytes → VirtualHost → VirtualHost × Outcome (Unit {0})
unfolding log
unbind_queue queue exchange routing_key v = elim (lookup exchange v.exchanges) [
  | none ↦ (v, refused 404 (no_exchange exchange))
  | some ex ↦ (
    log (Store.store_unbind queue exchange routing_key) (record v {
      exchanges = insert exchange (remove_binding ex queue routing_key) v.exchanges;
    }),
    granted tt,
  )
]
