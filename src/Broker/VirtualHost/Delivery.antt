-- ===== src/Broker/VirtualHost/Delivery.antt =====
-- broker/vhost.h: routing a message to queues, and the periodic expiry.
use ganshin_mq.Base.{
  ℕ, true, false, Bytes, List, [], ◌∷◌, Option, none, some, ◌==◌, bytes_eq, nat_eq, any_of,
}
use ganshin_mq.Base.Map.{lookup, insert}
use ganshin_mq.Amqp.FieldValue.{FieldTable}
use ganshin_mq.Broker.Message.{Message}
use ganshin_mq.Broker.Exchange.{route}
use ganshin_mq.Broker.Queue
use ganshin_mq.Broker.Queue.{MessageQueue, Effects, no_effects}
use ganshin_mq.Broker.VirtualHost.State.{VirtualHost}

-- `std::erase_if(result, …)` over the names that were seen.
unfoldable pub dedup : List Bytes → List Bytes → List Bytes
dedup seen [] = []
dedup seen (q ∷ qs) = elim (any_of (λ s. s == q) seen) [
  | true ↦ dedup seen qs
  | false ↦ q ∷ dedup (q ∷ seen) qs
]

unfoldable pub route_message : Bytes → Bytes → Option FieldTable → VirtualHost → List Bytes
unfolding dedup
route_message exchange routing_key headers v = elim (lookup exchange v.exchanges) [
  | none ↦ []
  | some ex ↦ dedup [] (route ex routing_key headers)
]

unfoldable pub deliver_to_queue : ℕ → Bytes → Message → VirtualHost → VirtualHost × Effects
deliver_to_queue now queue m v = elim (lookup queue v.queues) [
  | none ↦ (v, no_effects)
  | some q ↦
      let (q', effects) = Queue.enqueue now m q in
      (record v { queues = insert queue q' v.queues }, effects)
]

-- Every queue is flushed, at one time each.
unfoldable pub flush_all :
    ℕ → List (Bytes × MessageQueue) → List (Bytes × MessageQueue) × List Effects
flush_all now [] = ([], [])
flush_all now ((name, q) ∷ qs) =
    let (q', effects) = Queue.flush now q in
    let (rest, more) = flush_all now qs in ((name, q') ∷ rest, effects ∷ more)

unfoldable pub tick : ℕ → VirtualHost → VirtualHost × List Effects
unfolding flush_all
tick now v =
    let (queues, effects) = flush_all now v.queues in (record v { queues = queues }, effects)
