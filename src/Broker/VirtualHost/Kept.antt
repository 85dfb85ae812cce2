-- ===== src/Broker/VirtualHost/Kept.antt =====
-- Every operation keeps the kind of the exchange under a protected name.
use ganshin_mq.Base.{
  ℕ, Bool, true, false, Bytes, List, [], ◌∷◌, none, some, ◌==◌, bytes_eq, nat_eq, if◌then◌else◌,
  ◌≡◌, refl, sym, ap, ◌∙◌, subst, arith, Bool-cases, Option-cases, inl, inr, ==_ne,
}
use ganshin_mq.Base.Map.{lookup, erase, lookup-erase}
use ganshin_mq.Amqp.FieldValue.{FieldTable, end}
use ganshin_mq.Broker.Exchange.{Exchange, add_binding, remove_binding}
use ganshin_mq.Broker.Queue.{MessageQueue}
use ganshin_mq.Storage.Store
use ganshin_mq.Storage.Entry.{StoredExchangeDecl, StoredQueueDecl, StoredBinding, StoredMessage}
use ganshin_mq.Storage.Wal.{RecoveryData}
use ganshin_mq.Storage.Store.{MessageStore}
use ganshin_mq.Broker.VirtualHost.State.{VirtualHost, log, log_if}
use ganshin_mq.Broker.VirtualHost.Exchanges.{
  ExchangeRequest, declare_exchange, delete_exchange, create_declared,
}
use ganshin_mq.Broker.VirtualHost.Queues.{
  QueueRequest, requested_name, generate_queue_name, declare_named, declare_queue, delete_queue,
  bind_queue, unbind_queue,
}
use ganshin_mq.Broker.VirtualHost.Delivery.{deliver_to_queue}
use ganshin_mq.Broker.VirtualHost.Recovery.{
  recover_from_store, recover_data, for_each, recover_exchange, recover_queue, recover_binding,
  recover_message,
}
use ganshin_mq.Broker.Message.{Message}
use ganshin_mq.Broker.VirtualHost.Removal.{deleted, is_granted, delete_queue-deleted}
use ganshin_mq.Broker.VirtualHost.Kinds.{
  kind_of, is_protected, Keeps, found_kind, insert-Keeps, insert_new-Keeps, auto_bind-Keeps,
  unbind_all-Keeps,
}

abbrev pub Kept : Bytes → VirtualHost → VirtualHost → Type 0
Kept n v w = Keeps n v.exchanges w.exchanges

pub log_if-Kept :
    (n : Bytes) (b : Bool) (f : MessageStore → MessageStore) (v w : VirtualHost)
    → Kept n v w
    → Kept n v (log_if b f w)
unfolding log
log_if-Kept n true f v w h = h
log_if-Kept n false f v w h = h

pub declare_exchange-Kept :
    (n : Bytes) (r : ExchangeRequest) (v : VirtualHost) → Kept n v (declare_exchange r v).0
unfolding declare_exchange
declare_exchange-Kept n r v = elim (Option-cases (lookup r.name v.exchanges)) [
  | inl h ↦ elim (Bool-cases r.passive) [
    | inl t ↦ rw (h, declare_exchange) (rw t (λ k was. was))
    | inr f ↦
        rw (h, declare_exchange)
          (rw f (
            log_if-Kept n r.durable _ v _
              (insert_new-Keeps n r.name (create_declared r) v.exchanges h)))
  ]
  | inr (ex, h) ↦ λ k was. ap (λ w. kind_of n w.exchanges) (known ex h) ∙ was
]
  where
    known : (ex : Exchange) → lookup r.name v.exchanges ≡ some ex → (declare_exchange r v).0 ≡ v
    known ex h = ground (arith, h)

pub delete_exchange-Kept :
    (n name : Bytes) (v : VirtualHost) → is_protected n ≡ true → Kept n v (delete_exchange name v).0
unfolding delete_exchange log kind_of
delete_exchange-Kept n name v p = elim (Option-cases (lookup name v.exchanges)) [
  | inl h ↦ rw (h, delete_exchange) (λ k was. was)
  | inr (ex, h) ↦ elim (Bool-cases (is_protected name)) [
    | inl t ↦ rw (h, delete_exchange) (rw t (λ k was. was))
    | inr f ↦ rw (h, delete_exchange) (rw f (other f))
  ]
]
  where
    other : is_protected name ≡ false → Keeps n v.exchanges (erase name v.exchanges)
    other f k was =
        ap found_kind (
          lookup-erase name n v.exchanges
          ∙ ap (λ b. if b then none else lookup n v.exchanges)
              (==_ne name n (λ e. cc (f, p, ap is_protected e))))
        ∙ was

pub declare_named-Kept :
    (n qname : Bytes) (r : QueueRequest) (v : VirtualHost) → Kept n v (declare_named qname r v).0
unfolding declare_named
declare_named-Kept n qname r v = elim (Option-cases (lookup qname v.queues)) [
  | inl h ↦ elim (Bool-cases r.passive) [
    | inl t ↦ rw (h, declare_named) (rw t (λ k was. was))
    | inr f ↦
        rw (h, declare_named)
          (rw f (log_if-Kept n r.durable _ v _ (auto_bind-Keeps n qname v.exchanges)))
  ]
  | inr (q, h) ↦ λ k was. ap (λ w. kind_of n w.exchanges) (known q h) ∙ was
]
  where
    known : (q : MessageQueue) → lookup qname v.queues ≡ some q → (declare_named qname r v).0 ≡ v
    known q h = ground (arith, h)

pub declare_queue-Kept :
    (n : Bytes) (r : QueueRequest) (v : VirtualHost) → Kept n v (declare_queue r v).0
unfolding declare_queue requested_name generate_queue_name
declare_queue-Kept n r v = elim (Bool-cases (r.name == [])) [
  | inl t ↦
      rw (t, declare_queue, requested_name)
        (declare_named-Kept n (generate_queue_name v).1 r (generate_queue_name v).0)
  | inr f ↦ rw (f, declare_queue, requested_name) (declare_named-Kept n r.name r v)
]

pub delete_queue-Kept :
    (n name : Bytes) (if_unused if_empty : Bool) (v : VirtualHost)
    → Kept n v (delete_queue name if_unused if_empty v).0
unfolding log
delete_queue-Kept n name if_unused if_empty v =
    subst (λ w. Kept n v w) (sym (delete_queue-deleted name if_unused if_empty v))
      (with (is_granted (delete_queue name if_unused if_empty v).1))
  where
    with : (b : Bool) → Kept n v (if b then deleted name v else v)
    with true = unbind_all-Keeps n name v.exchanges
    with false = λ k was. was

pub bind_queue-Kept :
    (n queue exchange key : Bytes) (args : FieldTable) (v : VirtualHost)
    → Kept n v (bind_queue queue exchange key args v).0
unfolding bind_queue log add_binding
bind_queue-Kept n queue exchange key args v = elim (Option-cases (lookup exchange v.exchanges)) [
  | inl h ↦ rw (h, bind_queue) (λ k was. was)
  | inr (ex, h) ↦ elim (Option-cases (lookup queue v.queues)) [
    | inl g ↦ rw (h, bind_queue) (rw g (λ k was. was))
    | inr (q, g) ↦ rw (h, bind_queue) (rw g (insert-Keeps n exchange ex _ v.exchanges h (same ex)))
  ]
]
  where
    same : (ex : Exchange) → (add_binding ex queue key args).kind ≡ ex.kind
    same ex = refl

pub unbind_queue-Kept :
    (n queue exchange key : Bytes) (v : VirtualHost)
    → Kept n v (unbind_queue queue exchange key v).0
unfolding unbind_queue log remove_binding
unbind_queue-Kept n queue exchange key v = elim (Option-cases (lookup exchange v.exchanges)) [
  | inl h ↦ rw (h, unbind_queue) (λ k was. was)
  | inr (ex, h) ↦
      rw (h, unbind_queue)
        (insert-Keeps n exchange ex (remove_binding ex queue key) v.exchanges h refl)
]

pub deliver_to_queue-Kept :
    (n : Bytes) (now : ℕ) (queue : Bytes) (m : Message) (v : VirtualHost)
    → Kept n v (deliver_to_queue now queue m v).0
unfolding deliver_to_queue
deliver_to_queue-Kept n now queue m v = elim (Option-cases (lookup queue v.queues)) [
  | inl h ↦ rw (h, deliver_to_queue) (λ k was. was)
  | inr (q, h) ↦ rw (h, deliver_to_queue) (λ k was. was)
]

pub recover_exchange-Kept :
    (n : Bytes) (d : StoredExchangeDecl) (v : VirtualHost) → Kept n v (recover_exchange d v)
unfolding recover_exchange
recover_exchange-Kept n d v = elim (Option-cases (lookup d.name v.exchanges)) [
  | inl h ↦ rw (h, recover_exchange) (insert_new-Keeps n d.name _ v.exchanges h)
  | inr (ex, h) ↦ rw (h, recover_exchange) (λ k was. was)
]

pub recover_queue-Kept :
    (n : Bytes) (d : StoredQueueDecl) (v : VirtualHost) → Kept n v (recover_queue d v)
unfolding recover_queue
recover_queue-Kept n d v = elim (Option-cases (lookup d.name v.queues)) [
  | inl h ↦ rw (h, recover_queue) (auto_bind-Keeps n d.name v.exchanges)
  | inr (q, h) ↦ rw (h, recover_queue) (λ k was. was)
]

pub recover_binding-Kept :
    (n : Bytes) (b : StoredBinding) (v : VirtualHost) → Kept n v (recover_binding b v)
unfolding recover_binding add_binding
recover_binding-Kept n b v = elim (Option-cases (lookup b.exchange v.exchanges)) [
  | inl h ↦ rw (h, recover_binding) (λ k was. was)
  | inr (ex, h) ↦
      rw (h, recover_binding)
        (insert-Keeps n b.exchange ex (add_binding ex b.queue b.routing_key end) v.exchanges h refl)
]

pub recover_message-Kept :
    (n : Bytes) (now : ℕ) (m : StoredMessage) (v : VirtualHost) → Kept n v (recover_message now m v)
unfolding recover_message
recover_message-Kept n now m v = deliver_to_queue-Kept n now m.queue_name _ v

pub for_each-Kept :
    {A : Type 0} (n : Bytes) (step : A → VirtualHost → VirtualHost) (xs : List A) (v : VirtualHost)
    → ((a : A) (w : VirtualHost) → Kept n w (step a w))
    → Kept n v (for_each step xs v)
unfolding for_each
for_each-Kept n step [] v h = λ k was. was
for_each-Kept n step (a ∷ as') v h = λ k was. for_each-Kept n step as' (step a v) h k (h a v k was)

pub recover_data-Kept :
    (n : Bytes) (now : ℕ) (d : RecoveryData) (v : VirtualHost) → Kept n v (recover_data now d v)
unfolding recover_data
recover_data-Kept n now d v k was =
    for_each-Kept n (recover_message now) d.messages _ (recover_message-Kept n now) k (
      for_each-Kept n recover_binding d.bindings _ (recover_binding-Kept n) k (
        for_each-Kept n recover_queue d.queues _ (recover_queue-Kept n) k
          (for_each-Kept n recover_exchange d.exchanges v (recover_exchange-Kept n) k was)))

pub recover_from_store-Kept :
    (n : Bytes) (now : ℕ) (v : VirtualHost) → Kept n v (recover_from_store now v)
unfolding recover_from_store
recover_from_store-Kept n now v = elim (Option-cases v.store) [
  | inl h ↦ rw (h, recover_from_store) (λ k was. was)
  | inr (s, h) ↦
      rw (h, recover_from_store)
        (recover_data-Kept n now (Store.recover_store s).1
          (record v { store = some (Store.recover_store s).0 }))
]
