-- ===== src/Broker/Queue/Laws.antt =====
-- The operations of the queue.
use ganshin_mq.Base.{
  ℕ, ◌+◌, ◌-◌, ◌*◌, ◌^◌, ◌%◌, ◌<◌, ◌≤◌, true, false, not, ◌||◌, Bytes, List, [], ◌∷◌, ◌++◌, some,
  ◌==◌, nat_eq, bytes_eq, if◌then◌else◌, length, All, keep_if, ◌≡◌, refl, ap, arith, Bool-cases,
  ◌⊎◌, inl, inr, ltb→lt, leb, ltb, length-append,
}
use ganshin_mq.Broker.Message.{Message}
use ganshin_mq.Broker.Consumer.{Consumer}
use ganshin_mq.Broker.Queue.{
  MessageQueue, DeadLetter, death_headers, dead_letter, deliver_dead_letters, dispatch_locked,
  flush, place, enqueue, remove_consumers_by_connection, get, reject, max_dlx_hops,
}
use ganshin_mq.Broker.Queue.Dispatch.{dispatch}
use ganshin_mq.Broker.Queue.Delivered.{
  WithinPrefetch, dispatch-WithinPrefetch, NextRefused, dispatch_stops,
}
use ganshin_mq.Broker.Queue.Expiry.{collect_expired, expired}
use ganshin_mq.Broker.Queue.Order.{
  collect_expired_lem, collect_expired_none, IsSorted, of_priority, stable_sort_lem,
  stable_sort-length,
}

-- The messages that expire when the queue is flushed at a time.
abbrev pub expiring : ℕ → MessageQueue → List Message
expiring now q = (collect_expired q.queue_ttl_ms now q.messages).0

-- The new message is placed last among those of its priority. A queue with priorities is then in
-- their order, any other queue has the message at its end.
pub place_lem :
    (now : ℕ) (m : Message) (q : MessageQueue)
    → let ms = (place now m q).messages in
      let fresh = record m { enqueued_at = now } in
      ((p : ℕ) → of_priority p ms ≡ of_priority p (q.messages ++ fresh ∷ []))
      × ((0 < q.max_priority) × IsSorted ms
          ⊎ (q.max_priority ≡ 0) × (ms ≡ q.messages ++ fresh ∷ []))
unfolding place
place_lem now m q =
    let (sorted, same) = stable_sort_lem (q.messages ++ (record m { enqueued_at = now } ∷ [])) in
    elim (Bool-cases (ltb 0 q.max_priority)) [
      | inl t ↦ rw (t, place) (same, inl (ltb→lt 0 q.max_priority t, sorted))
      | inr f ↦ rw (f, place) ((λ p. refl), inr (ground arith, refl))
    ]

-- Each consumer of the queue is within its prefetch count.
abbrev pub QueueWithin : MessageQueue → Type 0
QueueWithin q = All WithinPrefetch q.consumers

-- No consumer of the queue can take the message in front.
pub Quiescent : MessageQueue → Type 0
Quiescent q = NextRefused q.messages q.consumers

dispatch_locked-Quiescent :
    (q : MessageQueue)
    → q.round_robin_idx + length q.messages * length q.consumers < 2 ^ 64
    → QueueWithin q
    → QueueWithin (dispatch_locked q).0 × Quiescent (dispatch_locked q).0
unfolding dispatch_locked Quiescent
dispatch_locked-Quiescent q b w = (
  dispatch-WithinPrefetch q.messages q.consumers q.round_robin_idx w,
  dispatch_stops q.messages q.consumers q.round_robin_idx b,
)

live-length-le :
    (now : ℕ) (q : MessageQueue)
    → length (collect_expired q.queue_ttl_ms now q.messages).1 ≤ length q.messages
live-length-le now q =
    let (joined, dead, head) = collect_expired_lem q.queue_ttl_ms now q.messages in
    omega (
      arith,
      ap length joined,
      length-append (expiring now q) (collect_expired q.queue_ttl_ms now q.messages).1,
    )

flush-Quiescent :
    (now : ℕ) (q : MessageQueue)
    → q.round_robin_idx + length q.messages * length q.consumers < 2 ^ 64
    → QueueWithin q
    → QueueWithin (flush now q).0 × Quiescent (flush now q).0
unfolding flush
flush-Quiescent now q b w =
    let live : List Message = (collect_expired q.queue_ttl_ms now q.messages).1 in
    dispatch_locked-Quiescent (record q { messages = live }) (grind (arith, live-length-le now q)) w

place-length :
    (now : ℕ) (m : Message) (q : MessageQueue)
    → length (place now m q).messages ≡ length q.messages + 1
unfolding place
place-length now m q = ground (
  arith,
  stable_sort-length (q.messages ++ (record m { enqueued_at = now } ∷ [])),
  length-append q.messages (record m { enqueued_at = now } ∷ []),
)

-- After a message was enqueued no consumer is over its prefetch count, if none was, and the queue
-- waits only if no consumer can take its next message. The index of the next consumer is assumed
-- not to wrap around meanwhile.
pub enqueue-Quiescent :
    (now : ℕ) (m : Message) (q : MessageQueue)
    → q.round_robin_idx + (length q.messages + 1) * length q.consumers < 2 ^ 64
    → QueueWithin q
    → QueueWithin (enqueue now m q).0 × Quiescent (enqueue now m q).0
unfolding enqueue
enqueue-Quiescent now m q b w = flush-Quiescent now (place now m q) (placed_bound) (placed_within)
  where
    placed_within : QueueWithin (place now m q)
    placed_within = unfold place in w

    placed_bound :
        (place now m q).round_robin_idx
          + length (place now m q).messages * length (place now m q).consumers
        < 2 ^ 64
    placed_bound = rw (place-length now m q) (unfold place in b)

-- After a rejected message was put back no consumer is over its prefetch count, if none was, and
-- the queue waits only if no consumer can take its next message. The index of the next consumer is
-- assumed not to wrap around meanwhile.
pub requeue-Quiescent :
    (m : Message) (q : MessageQueue)
    → q.round_robin_idx + (length q.messages + 1) * length q.consumers < 2 ^ 64
    → QueueWithin q
    → QueueWithin (reject true m q).0 × Quiescent (reject true m q).0
unfolding reject
requeue-Quiescent m q b w =
    dispatch_locked-Quiescent (record q { messages = record m { redelivered = true } ∷ q.messages })
      (grind arith) w

-- The letter that a queue makes of a message.
abbrev letter_of : MessageQueue → Message → Bytes → DeadLetter
letter_of q m reason = record {
  dlx = q.dlx_exchange;
  key = if q.dlx_routing_key == [] then m.routing_key else q.dlx_routing_key;
  letter = record m {
    dlx_hops = (m.dlx_hops + 1) % 2 ^ 32;
    properties = record (m.properties) { headers = some (death_headers q reason m) };
  };
}

-- A queue drops a message that it is to dead-letter if it has no dead-letter exchange or handler,
-- or if the message was dead-lettered 20 times. Else it makes one letter of it, whose count is one
-- higher and no more than 20, to that exchange, under the queue's own dead-letter key if it has
-- one. The count is assumed not to wrap around.
pub dead_letter_hops :
    (q : MessageQueue) (m : Message) (reason : Bytes)
    → m.dlx_hops < 2 ^ 32 - 1
    → ((q.dlx_exchange == [] || (not q.dead_letter_fn || leb 20 m.dlx_hops)) ≡ true)
        × (dead_letter q m reason ≡ [])
      ⊎ (d : DeadLetter) × (dead_letter q m reason ≡ d ∷ [])
        × (d.letter.dlx_hops ≡ m.dlx_hops + 1)
        × (d.letter.dlx_hops ≤ 20)
        × (d.dlx ≡ q.dlx_exchange)
        × (d.key ≡ (if q.dlx_routing_key == [] then m.routing_key else q.dlx_routing_key))
unfolding dead_letter
dead_letter_hops q m reason b = elim (Bool-cases (q.dlx_exchange == [] || not q.dead_letter_fn)) [
  | inl t ↦ inl (ground arith, rw (t, dead_letter) refl)
  | inr f ↦ elim (Bool-cases (ltb max_dlx_hops ((m.dlx_hops + 1) % 2 ^ 32))) [
    | inl t ↦ inl (ground arith, rw (f, dead_letter) (rw t refl))
    | inr g ↦ inr (
      letter_of q m reason,
      rw (f, dead_letter) (rw g refl),
      omega arith,
      ground arith,
      refl,
      refl,
    )
  ]
]

dispatch_nobody :
    (ms : List Message) (cs : List Consumer) (rr : ℕ)
    → cs ≡ []
    → dispatch ms cs rr ≡ (ms, cs, rr, [])
unfolding dispatch
dispatch_nobody ms [] rr e = refl
dispatch_nobody ms (c ∷ cs) rr e = absurd (cc)

-- A queue with no consumers gives a message that was put back to the next `get`, marked as
-- redelivered, and is then as it was before; the message must not have expired meanwhile.
pub get-reject :
    (now : ℕ) (m : Message) (q : MessageQueue)
    → q.consumers ≡ []
    → expired q.queue_ttl_ms now m ≡ false
    → get now (reject true m q).0 ≡ (q, some (record m { redelivered = true }), [])
unfolding get reject dispatch_locked
get-reject now m q empty fresh =
    rw
      (dispatch_nobody (record m { redelivered = true } ∷ q.messages) q.consumers q.round_robin_idx
        empty)
      (rw
        (
          collect_expired_none q.queue_ttl_ms now (record m { redelivered = true }) q.messages
              (unfold expired in fresh),
          get,
          deliver_dead_letters,
        )
        refl)

-- When a connection goes, the queue keeps the consumers of all others, in order, and no consumer
-- of its, and keeps its messages.
pub remove_consumers_by_connection_lem :
    (conn : ℕ) (q : MessageQueue)
    → let r = remove_consumers_by_connection conn q in
      ((other : ℕ)
        → keep_if (λ c. c.connection_id == other) r.consumers
          ≡ (if other == conn then [] else keep_if (λ c. c.connection_id == other) q.consumers))
      × (r.messages ≡ q.messages)
unfolding remove_consumers_by_connection
remove_consumers_by_connection_lem conn q = ((λ other. kept other q.consumers), refl)
  where
    kept :
        (other : ℕ) (cs : List Consumer)
        → keep_if (λ c. c.connection_id == other) (keep_if (λ c. not (c.connection_id == conn)) cs)
          ≡ (if other == conn then [] else keep_if (λ c. c.connection_id == other) cs)
    kept other [] = ground arith
    kept other (c ∷ cs) = ground (arith, kept other cs)
