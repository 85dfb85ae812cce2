-- ===== src/Tests/Queues.antt =====
-- The theorems on a message queue, at a queue with one consumer.
use ganshin_mq.Base.{
  ℕ, true, false, codes, [], ◌∷◌, ◌++◌, some, bytes_eq, nat_eq, All, ◌≡◌, inr, arith,
}
use ganshin_mq.Base.Int.{negsuc}
use ganshin_mq.Amqp.FieldValue.{end}
use ganshin_mq.Broker.Message.{Message, new_message}
use ganshin_mq.Broker.Consumer.{Consumer}
use ganshin_mq.Broker.Queue.{MessageQueue, enqueue}
use ganshin_mq.Broker.Queue.Dispatch.{dispatch}
use ganshin_mq.Broker.Queue.Expiry.{expired, collect_expired}
use ganshin_mq.Broker.Queue.Sort.{stable_sort}
use ganshin_mq.Broker.Queue.Delivered.{
  WithinPrefetch, dispatch-WithinPrefetch, NextRefused, dispatch_stops,
}
use ganshin_mq.Broker.Queue.Order.{
  HeadFails, collect_expired_lem, IsSorted, of_priority, stable_sort_lem,
}
use ganshin_mq.Broker.Queue.Laws.{QueueWithin, Quiescent, enqueue-Quiescent}

abbrev urgent : Message
urgent = record new_message {
  routing_key = codes "a";
  properties = record (new_message.properties) { priority = some 9 };
}

abbrev plain : Message
plain = record new_message { routing_key = codes "b" }

abbrev late : Message
late = record new_message {
  properties = record (new_message.properties) { expiration = some (codes "5") };
}

abbrev worker : Consumer
worker = record {
  object = 1;
  tag = codes "worker";
  queue_name = codes "jobs";
  no_local = false;
  no_ack = false;
  exclusive = false;
  channel_id = 1;
  connection_id = 7;
  prefetch_count = 1;
  in_flight = 0;
  on_deliver = true;
}

abbrev jobs : MessageQueue
jobs = record {
  name = codes "jobs";
  durable = false;
  exclusive = false;
  auto_delete = false;
  arguments = end;
  owner_connection = 0;
  messages = plain ∷ plain ∷ [];
  consumers = worker ∷ [];
  round_robin_idx = 0;
  queue_ttl_ms = negsuc 0;
  max_priority = 10;
  dlx_exchange = codes "dead";
  dlx_routing_key = [];
  dead_letter_fn = true;
}

abbrev idle : MessageQueue
idle = record jobs { consumers = [] }

worker-WithinPrefetch : All WithinPrefetch (worker ∷ [])
worker-WithinPrefetch = ((ground arith, inr (ground arith)), tt)

dispatch-WithinPrefetch_example :
    All WithinPrefetch (dispatch (plain ∷ urgent ∷ []) (worker ∷ []) 0).1
dispatch-WithinPrefetch_example =
    dispatch-WithinPrefetch (plain ∷ urgent ∷ []) (worker ∷ []) 0 worker-WithinPrefetch

dispatch_stops_example :
    NextRefused
      (dispatch (plain ∷ urgent ∷ []) (worker ∷ []) 0).0
      (dispatch (plain ∷ urgent ∷ []) (worker ∷ []) 0).1
dispatch_stops_example = dispatch_stops (plain ∷ urgent ∷ []) (worker ∷ []) 0 (ground arith)

collect_expired_example :
    let r = collect_expired (negsuc 0) 6000000 (late ∷ plain ∷ []) in
    (r.0 ++ r.1 ≡ late ∷ plain ∷ [])
    × All (λ m. expired (negsuc 0) 6000000 m ≡ true) r.0
    × HeadFails (expired (negsuc 0) 6000000) r.1
collect_expired_example = collect_expired_lem (negsuc 0) 6000000 (late ∷ plain ∷ [])

stable_sort_example :
    IsSorted (stable_sort (plain ∷ urgent ∷ []))
    × ((p : ℕ)
        → of_priority p (stable_sort (plain ∷ urgent ∷ [])) ≡ of_priority p (plain ∷ urgent ∷ []))
stable_sort_example = stable_sort_lem (plain ∷ urgent ∷ [])

-- Two messages, of which the first has expired.
abbrev stale : MessageQueue
stale = record jobs { messages = late ∷ plain ∷ [] }

enqueue-Quiescent_example :
    QueueWithin (enqueue 5 urgent jobs).0 × Quiescent (enqueue 5 urgent jobs).0
enqueue-Quiescent_example = enqueue-Quiescent 5 urgent jobs (ground arith) worker-WithinPrefetch
