-- ===== src/Broker/Queue.antt =====
-- broker/queue.h: the message queue. An operation takes the time at which it runs, and returns the
-- new queue with what it did to others: deliveries to consumers and calls of the dead-letter
-- handler.
pub mod Stoll
pub mod Expiry
pub mod Sort
pub mod Dispatch
pub mod Delivered
pub mod Order
pub mod Letters
pub mod Laws
use ganshin_mq.Base.{
  ℕ, zero, suc, ◌+◌, ◌-◌, ◌/◌, ◌%◌, ◌^◌, Bool, true, false, not, ◌&&◌, ◌||◌, Bytes, codes, List, [],
  ◌∷◌, ◌++◌, Option, none, some, ◌==◌, bytes_eq, nat_eq, if◌then◌else◌, keep_if, any_of, length,
  ltb, map,
}
use ganshin_mq.Base.Int.{ℤ, pos, negsuc, min_ℤ}
use ganshin_mq.Amqp.FieldValue.{
  FieldValue, FieldTable, end, long_string, find, int_val, string_val, assign,
}
use ganshin_mq.Broker.Message.{Message}
use ganshin_mq.Broker.Consumer.{Consumer}
use Expiry.{collect_expired}
use Sort.{stable_sort}
use Dispatch.{Delivery, dispatch}

pub record MessageQueue : Type 0 where
  pub name : Bytes
  pub durable : Bool
  pub exclusive : Bool
  pub auto_delete : Bool
  pub arguments : FieldTable
  pub owner_connection : ℕ
  pub messages : List Message
  pub consumers : List Consumer
  pub round_robin_idx : ℕ
  pub queue_ttl_ms : ℤ
  pub max_priority : ℕ
  pub dlx_exchange : Bytes
  pub dlx_routing_key : Bytes
  pub dead_letter_fn : Bool

-- `MessageQueue(qname)`.
unfoldable pub new_queue : Bytes → MessageQueue
new_queue qname = record {
  name = qname;
  durable = false;
  exclusive = false;
  auto_delete = false;
  arguments = end;
  owner_connection = 0;
  messages = [];
  consumers = [];
  round_robin_idx = 0;
  queue_ttl_ms = negsuc 0;
  max_priority = 0;
  dlx_exchange = [];
  dlx_routing_key = [];
  dead_letter_fn = false;
}

-- `static_cast<uint8_t>(n)`.
unfoldable pub to_uint8 : ℤ → ℕ
to_uint8 (pos n) = n % 256
to_uint8 (negsuc n) = 255 - n % 256

unfoldable pub configure : MessageQueue → MessageQueue
unfolding to_uint8
configure q = record q {
  queue_ttl_ms = elim (find (codes "x-message-ttl") q.arguments) [
    | none ↦ q.queue_ttl_ms
    | some v ↦ int_val v
  ];
  max_priority = elim (find (codes "x-max-priority") q.arguments) [
    | none ↦ q.max_priority
    | some v ↦ to_uint8 (min_ℤ (pos 255) (int_val v))
  ];
  dlx_exchange = elim (find (codes "x-dead-letter-exchange") q.arguments) [
    | none ↦ q.dlx_exchange
    | some v ↦ string_val v
  ];
  dlx_routing_key = elim (find (codes "x-dead-letter-routing-key") q.arguments) [
    | none ↦ q.dlx_routing_key
    | some v ↦ string_val v
  ];
}

-- A call of the dead-letter handler: the exchange, the routing key and the message.
pub record DeadLetter : Type 0 where
  pub dlx : Bytes
  pub key : Bytes
  pub letter : Message

abbrev pub max_dlx_hops : ℕ
max_dlx_hops = 20

-- The three headers that tell of the death.
unfoldable pub death_headers : MessageQueue → Bytes → Message → FieldTable
death_headers q reason m = assign (codes "x-first-death-exchange") (long_string m.exchange) (
    assign (codes "x-first-death-queue") (long_string q.name) (
      assign (codes "x-first-death-reason") (long_string reason)
        (elim m.properties.headers [ none ↦ end | some h ↦ h ])))

unfoldable pub dead_letter : MessageQueue → Message → Bytes → List DeadLetter
unfolding death_headers
dead_letter q m reason =
    if q.dlx_exchange == [] || not q.dead_letter_fn
    then []
    else (let hops = (m.dlx_hops + 1) % 2 ^ 32 in
        if ltb max_dlx_hops hops
        then []
        else record {
          dlx = q.dlx_exchange;
          key = if q.dlx_routing_key == [] then m.routing_key else q.dlx_routing_key;
          letter = record m {
            dlx_hops = hops;
            properties = record (m.properties) { headers = some (death_headers q reason m) };
          };
        }
          ∷ [])

-- `deliverDeadLetters` over messages that died of one reason.
unfoldable pub deliver_dead_letters : MessageQueue → List Message → List DeadLetter
unfolding dead_letter
deliver_dead_letters q [] = []
deliver_dead_letters q (m ∷ dlq) = dead_letter q m (codes "expired") ++ deliver_dead_letters q dlq

-- What an operation did to others.
pub record Effects : Type 0 where
  pub deliveries : List Delivery
  pub dead_letters : List DeadLetter

abbrev pub no_effects : Effects
no_effects = record { deliveries = []; dead_letters = [] }

unfoldable pub message_count : MessageQueue → ℕ
message_count q = length q.messages % 2 ^ 32

unfoldable pub consumer_count : MessageQueue → ℕ
consumer_count q = length q.consumers % 2 ^ 32

-- `dispatchLocked` on the queue's members.
unfoldable pub dispatch_locked : MessageQueue → MessageQueue × List Delivery
dispatch_locked q =
    let (rest, cs, rr, out) = dispatch q.messages q.consumers q.round_robin_idx in
    (record q { messages = rest; consumers = cs; round_robin_idx = rr }, out)

-- `collectExpired`, `dispatchLocked` and `deliverDeadLetters`, as `enqueue` and `flush` end.
unfoldable pub flush : ℕ → MessageQueue → MessageQueue × Effects
unfolding dispatch_locked deliver_dead_letters
flush now q =
    let (dlq, live) = collect_expired q.queue_ttl_ms now q.messages in
    let (q', out) = dispatch_locked (record q { messages = live }) in
    (q', record { deliveries = out; dead_letters = deliver_dead_letters q' dlq })

-- The part of `enqueue` before the expiry: the new message takes its place.
unfoldable pub place : ℕ → Message → MessageQueue → MessageQueue
place now m q =
    let appended = q.messages ++ (record m { enqueued_at = now } ∷ []) in
    record q { messages = if ltb 0 q.max_priority then stable_sort appended else appended }

unfoldable pub enqueue : ℕ → Message → MessageQueue → MessageQueue × Effects
unfolding place flush
enqueue now m q = flush now (place now m q)

unfoldable pub add_consumer : Consumer → MessageQueue → MessageQueue × List Delivery
unfolding dispatch_locked
add_consumer c q = dispatch_locked (record q { consumers = q.consumers ++ (c ∷ []) })

-- The first consumer with the tag is erased; `none` if there is none.
unfoldable pub erase_consumer : Bytes → List Consumer → Option (List Consumer)
erase_consumer tag [] = none
erase_consumer tag (c ∷ cs) =
    let rest = erase_consumer tag cs in
    if c.tag == tag then some cs else elim rest [ none ↦ none | some r ↦ some (c ∷ r) ]

unfoldable pub remove_consumer : Bytes → MessageQueue → MessageQueue × Bool
unfolding erase_consumer
remove_consumer tag q = elim (erase_consumer tag q.consumers) [
  | none ↦ (q, false)
  | some cs ↦ (record q { consumers = cs }, true)
]

unfoldable pub remove_consumers_by_connection : ℕ → MessageQueue → MessageQueue
remove_consumers_by_connection conn q = record q {
  consumers = keep_if (λ c. not (c.connection_id == conn)) q.consumers;
}

unfoldable pub take_front : List Message → Option Message × List Message
take_front [] = (none, [])
take_front (m ∷ ms) = (some m, ms)

unfoldable pub get : ℕ → MessageQueue → MessageQueue × Option Message × List DeadLetter
unfolding take_front deliver_dead_letters
get now q =
    let (dlq, live) = collect_expired q.queue_ttl_ms now q.messages in
    let (result, rest) = take_front live in
    (record q { messages = rest }, result, deliver_dead_letters q dlq)

unfoldable pub purge : MessageQueue → MessageQueue × ℕ
purge q = (record q { messages = [] }, length q.messages % 2 ^ 32)

unfoldable pub reject : Bool → Message → MessageQueue → MessageQueue × Effects
unfolding dispatch_locked dead_letter
reject true m q =
    let (q', out) =
      dispatch_locked (record q { messages = record m { redelivered = true } ∷ q.messages }) in
    (q', record { deliveries = out; dead_letters = [] })
reject false m q =
    (q, record { deliveries = []; dead_letters = dead_letter q m (codes "rejected") })
