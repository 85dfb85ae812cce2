-- ===== src/Broker/Channel/AskedLoops.antt =====
-- What the loops of a channel do to the host: settling deliveries, publishing, and the end.
use ganshin_mq.Base.{
  ℕ, Bool, true, false, ◌&&◌, Bytes, List, [], ◌∷◌, Option, none, some, nat_eq, bytes_eq,
  if◌then◌else◌, ◌≡◌, refl, subst, Bool-cases, inl, inr,
}
use ganshin_mq.Base.Map.{lookup}
use ganshin_mq.Broker.Message.{Message, is_persistent}
use ganshin_mq.Broker.Consumer.{Consumer}
use ganshin_mq.Broker.Queue.{MessageQueue, Effects}
use ganshin_mq.Storage.Store.{MessageStore, store_message}
use ganshin_mq.Broker.VirtualHost.State.{VirtualHost, log}
use ganshin_mq.Broker.VirtualHost.Queues.{find_queue}
use ganshin_mq.Broker.VirtualHost.Delivery.{deliver_to_queue, route_message}
use ganshin_mq.Broker.VirtualHost.Requests.{
  delivering, logging_message, perform, Ran, at_rest, Ran-trans, asks,
}
use ganshin_mq.Broker.Channel.State.{
  Channel, UnackedMessage, PendingPublish, Sent, basic_return, content,
}
use ganshin_mq.Broker.Channel.Publishing.{log_message, deliver_copies, publish, published, complete}
use ganshin_mq.Broker.Channel.Consuming.{remove_from}
use ganshin_mq.Broker.Channel.Settling.{
  release, persist_ack, give_back, settled, ack_one, ack_each, tags_up_to, settle_ack, Settled,
  nack_one, nack_each, settle_nack, requeue_each, requeue_unacked, remove_each,
  remove_all_consumers,
}
use ganshin_mq.Broker.Channel.Asked.{
  remove_from-Ran, release-Ran, persist_ack-Ran, give_back-Ran, if-Ran,
}

ack_one-Ran : (tag : ℕ) (ch : Channel) (v : VirtualHost) → Ran v (ack_one tag ch v).1
unfolding ack_one
ack_one-Ran tag ch v = by_delivery (lookup tag ch.unacked_messages)
  where
    by_delivery :
        (o : Option UnackedMessage)
        → Ran v
            (let r : Channel × VirtualHost = elim o [
              | none ↦ (ch, v)
              | some u ↦ (settled tag ch, persist_ack u v)
            ] in
              r).1
    by_delivery none = at_rest
    by_delivery (some u) = persist_ack-Ran u v

ack_each-Ran : (tags : List ℕ) (ch : Channel) (v : VirtualHost) → Ran v (ack_each tags ch v).1
unfolding ack_each
ack_each-Ran [] ch v = at_rest
ack_each-Ran (tag ∷ tags) ch v =
    let (ch', v') = ack_one tag ch v in
    Ran-trans v (ack_one tag ch v).1 (ack_each tags (ack_one tag ch v).0 (ack_one tag ch v).1).1
      (ack_one-Ran tag ch v) (ack_each-Ran tags (ack_one tag ch v).0 (ack_one tag ch v).1)

pub settle_ack-Ran :
    (tag : ℕ) (multiple : Bool) (ch : Channel) (v : VirtualHost)
    → Ran v (settle_ack tag multiple ch v).1
unfolding settle_ack
settle_ack-Ran tag true ch v = ack_each-Ran (tags_up_to tag ch.unacked_messages) ch v
settle_ack-Ran tag false ch v = ack_one-Ran tag ch v

pub nack_one-Ran :
    (requeue : Bool) (tag : ℕ) (ch : Channel) (v : VirtualHost)
    → Ran v (nack_one requeue tag ch v).1
unfolding nack_one
nack_one-Ran requeue tag ch v = by_delivery (lookup tag ch.unacked_messages)
  where
    acked : UnackedMessage → VirtualHost
    acked u = if requeue then v else persist_ack u v

    by_delivery :
        (o : Option UnackedMessage)
        → Ran v
            (let r : Settled = elim o [
              | none ↦ (ch, v, [])
              | some u ↦
                  let (v', effects) =
                    give_back requeue u (if requeue then v else persist_ack u v) in
                  (settled tag ch, v', effects ∷ [])
            ] in
              r).1
    by_delivery none = at_rest
    by_delivery (some u) =
        Ran-trans v (acked u) (give_back requeue u (acked u)).0
          (if-Ran requeue v v (persist_ack u v) at_rest (persist_ack-Ran u v))
          (give_back-Ran requeue u (acked u))

nack_each-Ran :
    (requeue : Bool) (tags : List ℕ) (ch : Channel) (v : VirtualHost)
    → Ran v (nack_each requeue tags ch v).1
unfolding nack_each
nack_each-Ran requeue [] ch v = at_rest
nack_each-Ran requeue (tag ∷ tags) ch v =
    let first = nack_one requeue tag ch v in
    Ran-trans v first.1 (nack_each requeue tags first.0 first.1).1 (nack_one-Ran requeue tag ch v)
      (nack_each-Ran requeue tags first.0 first.1)

pub settle_nack-Ran :
    (tag : ℕ) (multiple requeue : Bool) (ch : Channel) (v : VirtualHost)
    → Ran v (settle_nack tag multiple requeue ch v).1
unfolding settle_nack
settle_nack-Ran tag multiple requeue ch v =
    nack_each-Ran requeue (if multiple then tags_up_to tag ch.unacked_messages else tag ∷ []) ch v

pub requeue_each-Ran :
    (us : List (ℕ × UnackedMessage)) (v : VirtualHost) → Ran v (requeue_each us v).0
unfolding requeue_each
requeue_each-Ran [] v = at_rest
requeue_each-Ran ((tag, u) ∷ us) v =
    let first = give_back true u v in
    Ran-trans v first.0 (requeue_each us first.0).0 (give_back-Ran true u v)
      (requeue_each-Ran us first.0)

requeue_unacked-Ran :
    (us : List (ℕ × UnackedMessage)) (v : VirtualHost) → Ran v (requeue_unacked us v).0
unfolding requeue_unacked
requeue_unacked-Ran [] v = at_rest
requeue_unacked-Ran ((tag, u) ∷ us) v =
    let released = release u.consumer v in
    let first = give_back true u released in
    Ran-trans v released (requeue_unacked us first.0).0 (release-Ran u.consumer v) (
      Ran-trans released first.0 (requeue_unacked us first.0).0 (give_back-Ran true u released)
        (requeue_unacked-Ran us first.0))

remove_each-Ran : (cs : List (Bytes × Consumer)) (v : VirtualHost) → Ran v (remove_each cs v)
unfolding remove_each
remove_each-Ran [] v = at_rest
remove_each-Ran ((tag, c) ∷ cs) v =
    let first = remove_from c.queue_name tag v in
    Ran-trans v first (remove_each cs first) (remove_from-Ran c.queue_name tag v)
      (remove_each-Ran cs first)

pub remove_all_consumers-Ran :
    (ch : Channel) (v : VirtualHost) → Ran v (remove_all_consumers ch v).1
unfolding remove_all_consumers
remove_all_consumers-Ran ch v =
    let removed = remove_each ch.consumers v in
    Ran-trans v removed (requeue_unacked ch.unacked_messages removed).0
      (remove_each-Ran ch.consumers v) (requeue_unacked-Ran ch.unacked_messages removed)

-- A message is logged in the store that is there.
logged-Ran :
    (queue : Bytes) (m : Message) (v : VirtualHost) (s : MessageStore)
    → v.store ≡ some s
    → Ran v (record v { store = some (store_message queue m s).0 })
unfolding perform log
logged-Ran queue m v s there =
    subst (λ o. Ran v (record v { store = next o })) there (asks (logging_message queue m) v)
  where
    next : Option MessageStore → Option MessageStore
    next o = elim o [ none ↦ none | some s ↦ some (store_message queue m s).0 ]

log_message-Ran : (queue : Bytes) (m : Message) (v : VirtualHost) → Ran v (log_message queue m v).0
unfolding log_message
log_message-Ran queue m v = by_store v.store refl
  where
    by_queue :
        (s : MessageStore) (o : Option MessageQueue)
        → v.store ≡ some s
        → Ran v
            (let r : VirtualHost × Message = elim o [
              | none ↦ (v, m)
              | some q ↦
                  let (s', id) = store_message queue m s in
                  if is_persistent m && q.durable
                  then (record v { store = some s' }, record m { wal_id = id })
                  else (v, m)
            ] in
              r).0
    by_queue s none there = at_rest
    by_queue s (some q) there = elim (Bool-cases (is_persistent m && q.durable)) [
      | inl e ↦ rw e (logged-Ran queue m v s there)
      | inr e ↦ rw e at_rest
    ]

    by_store :
        (o : Option MessageStore)
        → v.store ≡ o
        → Ran v
            (let r : VirtualHost × Message = elim o [
              | none ↦ (v, m)
              | some s ↦ elim (find_queue queue v) [
                | none ↦ (v, m)
                | some q ↦
                    let (s', id) = store_message queue m s in
                    if is_persistent m && q.durable
                    then (record v { store = some s' }, record m { wal_id = id })
                    else (v, m)
              ]
            ] in
              r).0
    by_store none there = at_rest
    by_store (some s) there = by_queue s (find_queue queue v) there

deliver_copies-Ran :
    (now : ℕ) (queues : List Bytes) (m : Message) (v : VirtualHost)
    → Ran v (deliver_copies now queues m v).0
unfolding deliver_copies perform
deliver_copies-Ran now [] m v = at_rest
deliver_copies-Ran now (queue ∷ queues) m v =
    let logged = log_message queue m v in
    let there = deliver_to_queue now queue logged.1 logged.0 in
    Ran-trans v logged.0 (deliver_copies now queues m there.0).0 (log_message-Ran queue m v) (
      Ran-trans logged.0 there.0 (deliver_copies now queues m there.0).0
        (asks (delivering now queue logged.1) logged.0) (deliver_copies-Ran now queues m there.0))

publish-Ran : (now : ℕ) (m : Message) (v : VirtualHost) → Ran v (publish now m v).0
unfolding publish
publish-Ran now m v = by_queues (route_message m.exchange m.routing_key m.properties.headers v)
  where
    by_queues :
        (queues : List Bytes)
        → Ran v
            (let r : VirtualHost × List Sent × List Effects = elim queues [
              | [] ↦
                  if m.mandatory
                  then (
                    v,
                    basic_return m.exchange m.routing_key ∷ content m.properties m.body ∷ [],
                    [],
                  )
                  else (v, [], [])
              | q ∷ qs ↦ let (v', effects) = deliver_copies now (q ∷ qs) m v in (v', [], effects)
            ] in
              r).0
    by_queues [] = elim (Bool-cases m.mandatory) [ inl e ↦ rw e at_rest | inr e ↦ rw e at_rest ]
    by_queues (q ∷ qs) = deliver_copies-Ran now (q ∷ qs) m v

pub complete-Ran :
    (now : ℕ) (p : PendingPublish) (ch : Channel) (v : VirtualHost) → Ran v (complete now p ch v).1
unfolding complete
complete-Ran now p ch v = elim (Bool-cases ch.confirm_mode) [
  | inl e ↦ rw (e, complete) (publish-Ran now (published ch p) v)
  | inr e ↦ rw (e, complete) (publish-Ran now (published ch p) v)
]
