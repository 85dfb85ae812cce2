-- ===== src/Broker/VirtualHost/Declared.antt =====
-- Declaring queues and exchanges, once and again.
use ganshin_mq.Base.{
  ℕ, Bool, true, false, not, ◌&&◌, ◌||◌, Bytes, codes, List, [], ◌∷◌, ◌++◌, Option, none, some,
  ◌==◌, bytes_eq, nat_eq, bytes_beq, if◌then◌else◌, ◌≡◌, refl, sym, ap, ◌∙◌, subst, arith,
  Bool-cases, Option-cases, inl, inr, ==_refl,
}
use ganshin_mq.Base.Map.{lookup, insert, lookup-insert}
use ganshin_mq.Base.Int.{negsuc}
use ganshin_mq.Amqp.FieldValue.{FieldValue, FieldTable, end, find, int_val, string_val}
use ganshin_mq.Broker.Exchange.{Exchange, Binding, Kind, direct_exchange, add_binding, route}
use ganshin_mq.Broker.Exchange.Routing.{MustMatch, Listed, Leads, by_first, by_later, route_iff}
use ganshin_mq.Broker.Queue.{MessageQueue, new_queue, configure}
use ganshin_mq.Storage.Store.{MessageStore}
use ganshin_mq.Broker.VirtualHost.State.{VirtualHost, Outcome, granted, refused, log, log_if}
use ganshin_mq.Broker.VirtualHost.Exchanges.{
  ExchangeRequest, declare_exchange, create_declared, locked, no_queue, no_exchange,
}
use ganshin_mq.Broker.VirtualHost.Queues.{
  QueueRequest, declare_named, create_queue, find_queue, auto_bind,
}
use ganshin_mq.Broker.VirtualHost.Delivery.{route_message}
use ganshin_mq.Broker.VirtualHost.Kinds.{kind_of}
use ganshin_mq.Broker.VirtualHost.Routed.{route_message_iff}
use ganshin_mq.Broker.VirtualHost.Unbinding.{named, routed}
use ganshin_mq.Storage.Store

-- The new binding of an exchange is its last.
Leads-append :
    {k : Kind} {key : Bytes} {headers : Option FieldTable} {q : Bytes} (bs : List Binding)
    {more : List Binding}
    → Leads k key headers q more
    → Leads k key headers q (bs ++ more)
Leads-append [] l = l
Leads-append (b ∷ bs) l = by_later (Leads-append bs l)

add_binding-route :
    (ex : Exchange) (q : Bytes) (headers : Option FieldTable)
    → ex.kind ≡ direct_exchange
    → Listed q (route (add_binding ex q q end) q headers)
unfolding add_binding MustMatch
add_binding-route ex q headers d = (route_iff (add_binding ex q q end) q headers q).1 (
    subst (λ k. Leads k q headers q (add_binding ex q q end).bindings) (sym d)
      (Leads-append ex.bindings
        (by_first {b = record { queue_name = q; routing_key = q; arguments = end }} refl refl)))

-- The host with a new queue.
abbrev created : Bytes → QueueRequest → VirtualHost → VirtualHost
created qname r v =
    log_if r.durable (Store.store_queue_declare qname r.durable r.auto_delete) (record v {
      queues = insert qname (create_queue qname r) v.queues;
      exchanges = auto_bind qname v.exchanges;
    })

log_if-queues :
    (b : Bool) (f : MessageStore → MessageStore) (w : VirtualHost)
    → (log_if b f w).queues ≡ w.queues
unfolding log
log_if-queues true f w = refl
log_if-queues false f w = refl

log_if-exchanges :
    (b : Bool) (f : MessageStore → MessageStore) (w : VirtualHost)
    → (log_if b f w).exchanges ≡ w.exchanges
unfolding log
log_if-exchanges true f w = refl
log_if-exchanges false f w = refl

created-find :
    (qname : Bytes) (r : QueueRequest) (v : VirtualHost) (n : Bytes)
    → find_queue n (created qname r v)
      ≡ (if qname == n then some (create_queue qname r) else find_queue n v)
unfolding find_queue
created-find qname r v n =
    ap (lookup n) (log_if-queues r.durable _ _)
    ∙ lookup-insert qname n (create_queue qname r) v.queues

auto_bind-route :
    (qname : Bytes) (exs : List (Bytes × Exchange)) (headers : Option FieldTable)
    → kind_of [] exs ≡ some direct_exchange
    → Listed qname (routed (auto_bind qname exs) [] qname headers)
unfolding kind_of auto_bind bytes_beq route
auto_bind-route qname exs headers d = elim (Option-cases (lookup [] exs)) [
  | inl h ↦ absurd (cc (rw (h, kind_of) at d))
  | inr (ex, h) ↦
      rw (h, auto_bind)
        (subst (λ found. Listed qname (named found qname headers))
          (sym (lookup-insert [] [] (add_binding ex qname qname end) exs))
          (add_binding-route ex qname headers (cc (rw (h, kind_of) at d))))
]

declared :
    (qname : Bytes) (r : QueueRequest) (v : VirtualHost)
    → find_queue qname v ≡ none
    → r.passive ≡ false
    → declare_named qname r v ≡ (created qname r v, granted (create_queue qname r, true))
unfolding declare_named find_queue
declared qname r v absent p = rw (absent, declare_named) (rw p refl)

-- What the queue's argument of a name gives, or what it is without the argument.
abbrev pub argument : {A : Type 0} → QueueRequest → Bytes → (FieldValue → A) → A → A
argument r name given otherwise = elim (find name r.args) [ none ↦ otherwise | some v ↦ given v ]

-- A queue is new and as it was requested.
abbrev pub IsRequested : Bytes → QueueRequest → MessageQueue → Type 0
IsRequested qname r q =
    (q.name ≡ qname)
    × (q.durable ≡ r.durable)
    × (q.exclusive ≡ r.exclusive)
    × (q.auto_delete ≡ r.auto_delete)
    × (q.arguments ≡ r.args)
    × (q.owner_connection ≡ (if r.exclusive then r.connection_id else 0))
    × (q.queue_ttl_ms ≡ argument r (codes "x-message-ttl") int_val (negsuc 0))
    × (q.dlx_exchange ≡ argument r (codes "x-dead-letter-exchange") string_val [])
    × (q.dlx_routing_key ≡ argument r (codes "x-dead-letter-routing-key") string_val [])
    × (q.dead_letter_fn ≡ true)
    × (q.messages ≡ [])
    × (q.consumers ≡ [])

create_queue-IsRequested :
    (qname : Bytes) (r : QueueRequest) → IsRequested qname r (create_queue qname r)
unfolding create_queue configure new_queue
create_queue-IsRequested qname r =
    (refl, refl, refl, refl, refl, refl, refl, refl, refl, refl, refl, refl)

-- The declaration of a queue that does not exist yet is granted, unless it is passive. The new
-- queue has the name, the flags and the arguments of the request; it belongs to the connection, if
-- it is exclusive; its time to live and its address for dead letters are those of the arguments,
-- or -1 and empty; it has no message and no consumer. It is then found under its name, the other
-- queues are found as before, and a message published to the default exchange with the queue's
-- name as the key is routed to it.
pub declare_named-new :
    (qname : Bytes) (r : QueueRequest) (v : VirtualHost)
    → kind_of [] v.exchanges ≡ some direct_exchange
    → find_queue qname v ≡ none
    → r.passive ≡ false
    → let (w, outcome) = declare_named qname r v in
      (q : MessageQueue) × IsRequested qname r q
      × (outcome ≡ granted (q, true))
      × ((n : Bytes) → find_queue n w ≡ (if qname == n then some q else find_queue n v))
      × ((headers : Option FieldTable) → Listed qname (route_message [] qname headers w))
declare_named-new qname r v d absent p =
    subst
      (λ (w, outcome).
        (q : MessageQueue) × IsRequested qname r q
        × (outcome ≡ granted (q, true))
        × ((n : Bytes) → find_queue n w ≡ (if qname == n then some q else find_queue n v))
        × ((headers : Option FieldTable) → Listed qname (route_message [] qname headers w)))
      (sym (declared qname r v absent p))
      (
        create_queue qname r,
        create_queue-IsRequested qname r,
        refl,
        created-find qname r v,
        λ headers. (route_message_iff [] qname headers (created qname r v) qname).1 (
            subst (λ exs. Listed qname (routed exs [] qname headers))
              (sym (log_if-exchanges r.durable _ _)) (auto_bind-route qname v.exchanges headers d)),
      )

-- The answer for a queue that exists.
found_again :
    (qname : Bytes) (r : QueueRequest) (v : VirtualHost) (q : MessageQueue)
    → find_queue qname v ≡ some q
    → declare_named qname r v ≡ (
      v,
      if not r.passive && (q.exclusive && not (q.owner_connection == r.connection_id))
          then refused 405 (locked qname)
          else granted (q, false),
    )
unfolding declare_named find_queue
found_again qname r v q h = ground (arith, h)

unknown :
    (qname : Bytes) (r : QueueRequest) (v : VirtualHost)
    → find_queue qname v ≡ none
    → r.passive ≡ true
    → declare_named qname r v ≡ (v, refused 404 (no_queue qname))
unfolding declare_named find_queue
unknown qname r v absent p = rw (absent, declare_named) (rw p refl)

granted-refused : {A : Type 0} {a : A} {code : ℕ} {text : Bytes} → granted a ≡ refused code text → ⊥
granted-refused h = cc

same :
    {p q : MessageQueue} {a b : Bool}
    → ◌≡◌ {A = Outcome (MessageQueue × Bool)} (granted (p, a)) (granted (q, b))
    → p ≡ q
same h = cc

same_found :
    (b : Bool) {p q : MessageQueue} (c : Bool) {new : Bool} (code : ℕ) (text : Bytes)
    → ◌≡◌ {A = Outcome (MessageQueue × Bool)}
        (if b then refused code text else granted (p, c))
        (granted (q, new))
    → p ≡ q
same_found true c code text h = absurd (granted-refused (sym h))
same_found false c code text h = same h

declare_named-find :
    (qname : Bytes) (r : QueueRequest) (v : VirtualHost) (q : MessageQueue) (new : Bool)
    → (declare_named qname r v).1 ≡ granted (q, new)
    → find_queue qname (declare_named qname r v).0 ≡ some q
declare_named-find qname r v q new h = elim (Option-cases (find_queue qname v)) [
  | inl absent ↦ elim (Bool-cases r.passive) [
    | inl t ↦ absurd (granted-refused (sym h ∙ ap (λ a. a.1) (unknown qname r v absent t)))
    | inr f ↦
        ap (λ a. find_queue qname a.0) (declared qname r v absent f)
        ∙ created-find qname r v qname
        ∙ ap (λ b. if b then some (create_queue qname r) else find_queue qname v) (==_refl qname)
        ∙ ap some (same (sym (ap (λ a. a.1) (declared qname r v absent f)) ∙ h))
  ]
  | inr (p, known) ↦
      ap (λ a. find_queue qname a.0) (found_again qname r v p known)
      ∙ known
      ∙ ap some (same_found _ _ _ _ (sym (ap (λ a. a.1) (found_again qname r v p known)) ∙ h))
]

-- Once the declaration of a queue is granted, any further one of the name changes nothing, and is
-- granted the same queue, unless the queue is exclusive to another connection: then, if it is not
-- passive, it is refused with 405.
pub declare_named-again :
    (qname : Bytes) (r again : QueueRequest) (v : VirtualHost) (q : MessageQueue) (new : Bool)
    → (declare_named qname r v).1 ≡ granted (q, new)
    → let w = (declare_named qname r v).0 in
      declare_named qname again w ≡ (
        w,
        if not again.passive && (q.exclusive && not (q.owner_connection == again.connection_id))
            then refused 405 (locked qname)
            else granted (q, false),
      )
declare_named-again qname r again v q new h =
    found_again qname again (declare_named qname r v).0 q (declare_named-find qname r v q new h)

-- The answers for an exchange that exists and for one that does not.
found_exchange :
    (r : ExchangeRequest) (v : VirtualHost) (ex : Exchange)
    → lookup r.name v.exchanges ≡ some ex
    → declare_exchange r v ≡ (
      v,
      if r.passive || ex.type == r.type
          then granted ex
          else refused 406 (codes "PRECONDITION_FAILED - exchange type mismatch"),
    )
unfolding declare_exchange
found_exchange r v ex h = ground (arith, h)

unknown_exchange :
    (r : ExchangeRequest) (v : VirtualHost)
    → lookup r.name v.exchanges ≡ none
    → r.passive ≡ true
    → declare_exchange r v ≡ (v, refused 404 (no_exchange r.name))
unfolding declare_exchange
unknown_exchange r v h p = rw (h, declare_exchange) (rw p refl)

new_exchange :
    (r : ExchangeRequest) (v : VirtualHost)
    → lookup r.name v.exchanges ≡ none
    → r.passive ≡ false
    → declare_exchange r v ≡ (
      log_if r.durable
          (Store.store_exchange_declare r.name r.type r.durable r.auto_delete r.internal)
          (record v { exchanges = insert r.name (create_declared r) v.exchanges }),
      granted (create_declared r),
    )
unfolding declare_exchange
new_exchange r v h p = rw (h, declare_exchange) (rw p refl)

same_exchange :
    (b : Bool) {p q : Exchange} (code : ℕ) (text : Bytes)
    → ◌≡◌ {A = Outcome Exchange} (if b then granted p else refused code text) (granted q)
    → p ≡ q
same_exchange true code text h = cc
same_exchange false code text h = absurd (granted-refused (sym h))

declare_exchange-find :
    (r : ExchangeRequest) (v : VirtualHost) (ex : Exchange)
    → (declare_exchange r v).1 ≡ granted ex
    → lookup r.name (declare_exchange r v).0.exchanges ≡ some ex
declare_exchange-find r v ex h = elim (Option-cases (lookup r.name v.exchanges)) [
  | inl absent ↦ elim (Bool-cases r.passive) [
    | inl t ↦ absurd (granted-refused (sym h ∙ ap (λ a. a.1) (unknown_exchange r v absent t)))
    | inr f ↦
        ap (λ a. lookup r.name a.0.exchanges) (new_exchange r v absent f)
        ∙ ap (lookup r.name) (log_if-exchanges r.durable _ _)
        ∙ lookup-insert r.name r.name (create_declared r) v.exchanges
        ∙ ap (λ b. if b then some (create_declared r) else lookup r.name v.exchanges)
            (==_refl r.name)
        ∙ ap some (same_exchange true 0 [] (sym (ap (λ a. a.1) (new_exchange r v absent f)) ∙ h))
  ]
  | inr (p, known) ↦
      ap (λ a. lookup r.name a.0.exchanges) (found_exchange r v p known)
      ∙ known
      ∙ ap some (same_exchange _ _ _ (sym (ap (λ a. a.1) (found_exchange r v p known)) ∙ h))
]

-- Once the declaration of an exchange is granted, any further one of the name changes nothing. It
-- is granted the same exchange if it is passive or names the same type, else refused with 406.
pub declare_exchange-again :
    (r again : ExchangeRequest) (v : VirtualHost) (ex : Exchange)
    → (declare_exchange r v).1 ≡ granted ex
    → again.name ≡ r.name
    → let w = (declare_exchange r v).0 in
      declare_exchange again w ≡ (
        w,
        if again.passive || ex.type == again.type
            then granted ex
            else refused 406 (codes "PRECONDITION_FAILED - exchange type mismatch"),
      )
declare_exchange-again r again v ex h e =
    found_exchange again (declare_exchange r v).0 ex
      (ap (λ n. lookup n (declare_exchange r v).0.exchanges) e ∙ declare_exchange-find r v ex h)
