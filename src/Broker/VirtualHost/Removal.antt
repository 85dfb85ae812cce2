-- ===== src/Broker/VirtualHost/Removal.antt =====
-- The removal of queues, by deletion and at the end of a connection.
use ganshin_mq.Base.{
  ℕ, Bool, true, false, not, ◌&&◌, Bytes, List, [], ◌∷◌, Option, none, ◌==◌, bytes_eq, nat_eq,
  if◌then◌else◌, keep_if, any_of, map, All, ◌≡◌, refl, sym, ap, ◌∙◌, subst, ◌↔◌, arith, Bool-cases,
  inl, inr, ◌⊎◌,
}
use ganshin_mq.Base.Map.{erase, lookup-erase}
use ganshin_mq.Amqp.FieldValue.{FieldTable}
use ganshin_mq.Broker.Exchange.Routing.{Listed}
use ganshin_mq.Broker.Consumer.{Consumer}
use ganshin_mq.Broker.Queue
use ganshin_mq.Broker.Queue.{MessageQueue}
use ganshin_mq.Broker.VirtualHost.State.{VirtualHost, Outcome, granted, refused, log}
use ganshin_mq.Storage.Store
use ganshin_mq.Broker.VirtualHost.Queues.{unbind_all, delete_queue, find_queue}
use ganshin_mq.Broker.VirtualHost.Cleanup.{owned_by, remove_connection_queues}
use ganshin_mq.Broker.VirtualHost.Delivery.{route_message}
use ganshin_mq.Broker.VirtualHost.Routed.{Listed-keep_if, route_message_iff}
use ganshin_mq.Broker.VirtualHost.Unbinding.{gone, routed-unbind_all, routed-unbind_each}

-- The host without the queue.
abbrev pub deleted : Bytes → VirtualHost → VirtualHost
deleted name v =
    log (Store.store_queue_delete name)
      (record v { exchanges = unbind_all name v.exchanges; queues = erase name v.queues })

abbrev pub is_granted : {A : Type 0} → Outcome A → Bool
is_granted (granted a) = true
is_granted (refused code text) = false

pub delete_queue-deleted :
    (name : Bytes) (if_unused if_empty : Bool) (v : VirtualHost)
    → (delete_queue name if_unused if_empty v).0
      ≡ (if is_granted (delete_queue name if_unused if_empty v).1 then deleted name v else v)
unfolding delete_queue
delete_queue-deleted name if_unused if_empty v = ground arith

deleted-find :
    (name : Bytes) (v : VirtualHost) (n : Bytes)
    → find_queue n (deleted name v) ≡ (if name == n then none else find_queue n v)
unfolding find_queue log
deleted-find name v n = lookup-erase name n v.queues

deleted-route :
    (name : Bytes) (v : VirtualHost) (n exchange key : Bytes) (headers : Option FieldTable)
    → Listed n (route_message exchange key headers (deleted name v))
      ↔ (((n == name) ≡ false) × Listed n (route_message exchange key headers v))
unfolding log
deleted-route name v n exchange key headers =
    let here = route_message_iff exchange key headers v n in
    let there = route_message_iff exchange key headers (deleted name v) n in
    let step = routed-unbind_all name exchange key headers v.exchanges in
    (
      λ l.
          (let (f, k) = (Listed-keep_if _ n _).0 (subst (Listed n) step (there.0 l)) in
            (ground (arith, f), here.1 k)),
      λ (f, l).
          there.1
            (subst (Listed n) (sym step) ((Listed-keep_if _ n _).1 (ground (arith, f), here.0 l))),
    )

-- A refusal changes nothing.
pub delete_queue-refused :
    (name : Bytes) (if_unused if_empty : Bool) (v : VirtualHost) (code : ℕ) (text : Bytes)
    → (delete_queue name if_unused if_empty v).1 ≡ refused code text
    → (delete_queue name if_unused if_empty v).0 ≡ v
delete_queue-refused name if_unused if_empty v code text h =
    delete_queue-deleted name if_unused if_empty v
    ∙ ap (λ o. if is_granted o then deleted name v else v) h

-- When a queue was deleted, it is found no more and no message is routed to it, whatever its
-- exchange and key; every other queue is found as before and is sent the messages that it was sent.
pub delete_queue-granted :
    (name : Bytes) (if_unused if_empty : Bool) (v : VirtualHost) (count : ℕ)
    → let (v', outcome) = delete_queue name if_unused if_empty v in
      outcome ≡ granted count
      → ((n : Bytes) → find_queue n v' ≡ (if name == n then none else find_queue n v))
        × ((n exchange key : Bytes) (headers : Option FieldTable)
            → Listed n (route_message exchange key headers v')
              ↔ (((n == name) ≡ false) × Listed n (route_message exchange key headers v)))
delete_queue-granted name if_unused if_empty v count h =
    subst (λ w. After w)
      (sym (
        delete_queue-deleted name if_unused if_empty v
        ∙ ap (λ o. if is_granted o then deleted name v else v) h))
      (deleted-find name v, deleted-route name v)
  where
    After : VirtualHost → Type 0
    After w =
        ((n : Bytes) → find_queue n w ≡ (if name == n then none else find_queue n v))
        × ((n exchange key : Bytes) (headers : Option FieldTable)
            → Listed n (route_message exchange key headers w)
              ↔ (((n == name) ≡ false) × Listed n (route_message exchange key headers v)))

remove_connection_queues-route :
    (conn : ℕ) (v : VirtualHost) (n exchange key : Bytes) (headers : Option FieldTable)
    → Listed n (route_message exchange key headers (remove_connection_queues conn v)) ↔ (
        (gone (keep_if (λ (m, q). owned_by conn q) v.queues) n ≡ false)
        × Listed n (route_message exchange key headers v))
unfolding remove_connection_queues
remove_connection_queues-route conn v n exchange key headers =
    let here = route_message_iff exchange key headers v n in
    let there = route_message_iff exchange key headers (remove_connection_queues conn v) n in
    let step =
      routed-unbind_each (keep_if (λ (m, q). owned_by conn q) v.queues) exchange key headers
        v.exchanges n in
    (
      λ l. (let (f, k) = step.0 (there.0 l) in (f, here.1 k)),
      λ (f, l). there.1 (step.1 (f, here.0 l)),
    )

-- A queue that may stay when the connection is gone: not its own, without a consumer of its, and
-- still used if it is an auto-delete queue.
abbrev pub Stays : ℕ → Bytes × MessageQueue → Type 0
Stays conn (n, q) =
    (owned_by conn q ≡ false)
    × (any_of (λ c. c.connection_id == conn) q.consumers ≡ false)
    × ((q.auto_delete && Queue.consumer_count q == 0) ≡ false)

any_of-keep_if :
    (conn : ℕ) (cs : List Consumer)
    → any_of (λ c. c.connection_id == conn) (keep_if (λ c. not (c.connection_id == conn)) cs)
      ≡ false
any_of-keep_if conn [] = refl
any_of-keep_if conn (c ∷ cs) = ground (arith, any_of-keep_if conn cs)

abbrev swept : ℕ → List (Bytes × MessageQueue) → List (Bytes × MessageQueue)
swept conn qs =
    keep_if (λ (name, q). not (q.auto_delete && Queue.consumer_count q == 0))
      (map (λ (name, q). (name, Queue.remove_consumers_by_connection conn q))
        (keep_if (λ (name, q). not (owned_by conn q)) qs))

swept-Stays : (conn : ℕ) (qs : List (Bytes × MessageQueue)) → All (Stays conn) (swept conn qs)
unfolding Queue.remove_consumers_by_connection
swept-Stays conn [] = tt
swept-Stays conn ((n, q) ∷ qs) = elim (Bool-cases (owned_by conn q)) [
  | inl t ↦ rw t (swept-Stays conn qs)
  | inr f ↦ rw f (
      used f (Bool-cases (idle (Queue.remove_consumers_by_connection conn q)))
        (swept-Stays conn qs))
]
  where
    idle : MessageQueue → Bool
    idle r = r.auto_delete && Queue.consumer_count r == 0

    left : MessageQueue
    left = Queue.remove_consumers_by_connection conn q

    used :
        owned_by conn q ≡ false
        → (idle left ≡ true) ⊎ (idle left ≡ false)
        → All (Stays conn) (swept conn qs)
        → All (Stays conn) (if not (idle left) then (n, left) ∷ swept conn qs else swept conn qs)
    used f (inl t) ih = rw t ih
    used f (inr g) ih = rw g ((f, any_of-keep_if conn q.consumers, g), ih)

-- When a connection ends, no queue of its own stays, no consumer of its stays on any queue, and
-- no auto-delete queue without consumers; a message is still routed to exactly the queues to which
-- it was routed, less the connection's own.
pub remove_connection_queues_lem :
    (conn : ℕ) (v : VirtualHost)
    → All (Stays conn) (remove_connection_queues conn v).queues
      × ((n exchange key : Bytes) (headers : Option FieldTable)
          → Listed n (route_message exchange key headers (remove_connection_queues conn v)) ↔ (
              (gone (keep_if (λ (m, q). owned_by conn q) v.queues) n ≡ false)
              × Listed n (route_message exchange key headers v)))
unfolding remove_connection_queues
remove_connection_queues_lem conn v =
    (swept-Stays conn v.queues, remove_connection_queues-route conn v)
