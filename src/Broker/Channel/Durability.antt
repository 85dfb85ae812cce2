-- ===== src/Broker/Channel/Durability.antt =====
-- What a publish writes to the log.
use ganshin_mq.Base.{
  ℕ, ◌+◌, ◌%◌, ◌^◌, Bool, true, false, ◌&&◌, Bytes, List, [], ◌∷◌, ◌++◌, Option, none, some, ◌==◌,
  bytes_eq, bytes_beq_iff, if◌then◌else◌, ◌≡◌, refl, sym, ap, ◌∙◌, subst, arith, Bool-cases,
  Option-cases, inl, inr, ◌⊎◌, append_assoc, append-nil,
}
use ganshin_mq.Base.Map.{lookup, lookup-insert}
use ganshin_mq.Broker.Message.{Message, is_persistent}
use ganshin_mq.Broker.Queue
use ganshin_mq.Broker.Queue.{MessageQueue}
use ganshin_mq.Broker.VirtualHost.State.{VirtualHost}
use ganshin_mq.Broker.VirtualHost.Queues.{find_queue}
use ganshin_mq.Broker.VirtualHost.Delivery.{deliver_to_queue}
use ganshin_mq.Broker.Channel.Publishing.{log_message, deliver_copies}
use ganshin_mq.Storage.Entry.{Entry, message}
use ganshin_mq.Storage.Wal.{write_entry, write_all}
use ganshin_mq.Storage.Store.{MessageStore, stored_message, store_entry, store_message}

-- Whether the queue exists and is durable.
unfoldable pub is_durable : Bytes → VirtualHost → Bool
is_durable qname v = elim (find_queue qname v) [ none ↦ false | some q ↦ q.durable ]

-- The entries for the durable ones of the queues, with ids from `id` on.
unfoldable pub logged : List Bytes → Message → VirtualHost → ℕ → List Entry
logged [] m v id = []
logged (q ∷ qs) m v id =
    let rest = logged qs m v in
    if is_persistent m && is_durable q v
    then message (stored_message id q m) ∷ rest ((id + 1) % 2 ^ 64)
    else rest id

-- The log is the old one with more entries behind it.
abbrev pub Logs : MessageStore → List Entry → Option MessageStore → Type 0
Logs s es none = ⊥
Logs s es (some s') = s'.wal ≡ s.wal ++ write_all es

enqueue-durable :
    (now : ℕ) (m : Message) (q : MessageQueue) → (Queue.enqueue now m q).0.durable ≡ q.durable
unfolding Queue.enqueue Queue.flush Queue.place Queue.dispatch_locked
enqueue-durable now m q = refl

deliver-store :
    (now : ℕ) (qname : Bytes) (m : Message) (v : VirtualHost)
    → (deliver_to_queue now qname m v).0.store ≡ v.store
unfolding deliver_to_queue
deliver-store now qname m v = elim (Option-cases (lookup qname v.queues)) [
  | inl h ↦ rw (h, deliver_to_queue) refl
  | inr (q, h) ↦ rw (h, deliver_to_queue) refl
]

deliver-is_durable :
    (now : ℕ) (qname : Bytes) (m : Message) (v : VirtualHost) (n : Bytes)
    → is_durable n (deliver_to_queue now qname m v).0 ≡ is_durable n v
unfolding deliver_to_queue is_durable find_queue
deliver-is_durable now qname m v n = elim (Option-cases (lookup qname v.queues)) [
  | inl h ↦ rw (h, deliver_to_queue) refl
  | inr (q, h) ↦
      rw (h, deliver_to_queue)
        (ap durable (lookup-insert qname n (Queue.enqueue now m q).0 v.queues)
          ∙ replaced q h (Bool-cases (qname == n)))
]
  where
    durable : Option MessageQueue → Bool
    durable found = elim found [ none ↦ false | some q ↦ q.durable ]

    replaced :
        (q : MessageQueue)
        → lookup qname v.queues ≡ some q
        → ((qname == n) ≡ true) ⊎ ((qname == n) ≡ false)
        → durable (if qname == n then some (Queue.enqueue now m q).0 else lookup n v.queues)
          ≡ durable (lookup n v.queues)
    replaced q h (inl t) =
        ap (λ b. durable (if b then some (Queue.enqueue now m q).0 else lookup n v.queues)) t
        ∙ enqueue-durable now m q
        ∙ sym (ap durable h)
        ∙ ap (λ k. durable (lookup k v.queues)) ((bytes_beq_iff qname n).0 t)
    replaced q h (inr f) =
        ap (λ b. durable (if b then some (Queue.enqueue now m q).0 else lookup n v.queues)) f

logged-same :
    (qs : List Bytes) (m : Message) (v w : VirtualHost) (id : ℕ)
    → ((n : Bytes) → is_durable n w ≡ is_durable n v)
    → logged qs m w id ≡ logged qs m v id
unfolding logged
logged-same [] m v w id same = refl
logged-same (q ∷ qs) m v w id same =
    ground
      (arith, same q, logged-same qs m v w id same, logged-same qs m v w ((id + 1) % 2 ^ 64) same)

-- What becomes of the host and the message before a queue gets it.
abbrev prepared : Bytes → Message → VirtualHost → MessageStore → VirtualHost × Message
prepared qname m v s =
    if is_persistent m && is_durable qname v
    then (
      record v { store = some (store_message qname m s).0 },
      record m { wal_id = s.next_msg_id },
    )
    else (v, m)

log_message-prepared :
    (qname : Bytes) (m : Message) (v : VirtualHost) (s : MessageStore)
    → v.store ≡ some s
    → log_message qname m v ≡ prepared qname m v s
unfolding log_message is_durable store_message
log_message-prepared qname m v s h = ground (arith, h)

Logs-more :
    (s s1 : MessageStore) (e : Entry) (es : List Entry) (o : Option MessageStore)
    → s1.wal ≡ s.wal ++ write_entry e
    → Logs s1 es o
    → Logs s (e ∷ es) o
unfolding write_all
Logs-more s s1 e es none h l = l
Logs-more s s1 e es (some s2) h l =
    l ∙ ap (λ w. w ++ write_all es) h ∙ append_assoc s.wal (write_entry e) (write_all es)

-- When a host with a store has delivered a message to queues, its log has, behind what it had, an
-- entry of the message for each of the queues that is durable, in order, with ids from the store's
-- next one on; a message that is not persistent is not logged.
pub deliver_copies-log :
    (now : ℕ) (queues : List Bytes) (m : Message) (v : VirtualHost) (s : MessageStore)
    → v.store ≡ some s
    → Logs s (logged queues m v s.next_msg_id) (deliver_copies now queues m v).0.store
unfolding deliver_copies logged is_durable find_queue store_message store_entry write_all
deliver_copies-log now [] m v s h = subst (Logs s []) (sym h) (sym (append-nil s.wal))
deliver_copies-log now (q ∷ qs) m v s h =
    subst (λ a. Logs s (logged (q ∷ qs) m v s.next_msg_id) (left a))
      (sym (log_message-prepared q m v s h))
      (elim (Bool-cases (is_persistent m && is_durable q v)) [
        | inl t ↦
            let s1 : MessageStore = (store_message q m s).0 in
            let v1 : VirtualHost = record v { store = some s1 } in
            let m1 : Message = record m { wal_id = s.next_msg_id } in
            let w : VirtualHost = (deliver_to_queue now q m1 v1).0 in
            rw t (
              Logs-more s s1 _ _ _ refl (
                subst (λ es. Logs s1 es (deliver_copies now qs m w).0.store)
                  (logged-same qs m v w s1.next_msg_id (λ n. deliver-is_durable now q m1 v1 n))
                  (deliver_copies-log now qs m w s1 (deliver-store now q m1 v1))))
        | inr f ↦
            let w : VirtualHost = (deliver_to_queue now q m v).0 in
            rw f (
              subst (λ es. Logs s es (deliver_copies now qs m w).0.store)
                (logged-same qs m v w s.next_msg_id (deliver-is_durable now q m v))
                (deliver_copies-log now qs m w s (deliver-store now q m v ∙ h)))
      ])
  where
    left : VirtualHost × Message → Option MessageStore
    left a = (deliver_copies now qs m (deliver_to_queue now q a.1 a.0).0).0.store
