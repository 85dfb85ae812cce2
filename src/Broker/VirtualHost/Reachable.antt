-- ===== src/Broker/VirtualHost/Reachable.antt =====
-- What holds of a virtual host whatever is asked of it.
use ganshin_mq.Base.{
  true, Bytes, codes, [], some, bytes_eq, nat_eq, bytes_beq, keep_if, starts_with, ◌≡◌, refl,
  Option-cases, inl, inr,
}
use ganshin_mq.Base.Map.{lookup}
use ganshin_mq.Broker.Exchange.{direct_exchange, fanout_exchange, topic_exchange, headers_exchange}
use ganshin_mq.Broker.VirtualHost.State.{VirtualHost, new_virtual_host, log}
use ganshin_mq.Broker.VirtualHost.Delivery.{tick}
use ganshin_mq.Broker.VirtualHost.Cleanup.{remove_connection_queues, owned_by}
use ganshin_mq.Broker.VirtualHost.Requests.{
  Request, declaring_exchange, deleting_exchange, declaring_queue, deleting_queue, binding,
  unbinding, delivering, ticking, leaving, recovering, working, logging_message, logging_ack,
  releasing, compacting, perform, Reachable, started, served,
}
use ganshin_mq.Broker.Channel.Settling.{release}
use ganshin_mq.Broker.VirtualHost.Kinds.{kind_of, is_protected, unbind_each-Keeps}
use ganshin_mq.Broker.VirtualHost.Kept.{
  Kept, declare_exchange-Kept, delete_exchange-Kept, declare_queue-Kept, delete_queue-Kept,
  bind_queue-Kept, unbind_queue-Kept, deliver_to_queue-Kept, recover_from_store-Kept,
}

-- Nothing that is asked of a host changes the kind of the exchange under a protected name.
perform-Kept :
    (n : Bytes) (r : Request) (v : VirtualHost) → is_protected n ≡ true → Kept n v (perform r v)
unfolding perform tick remove_connection_queues log release
perform-Kept n (declaring_exchange r) v p = declare_exchange-Kept n r v
perform-Kept n (deleting_exchange name) v p = delete_exchange-Kept n name v p
perform-Kept n (declaring_queue r) v p = declare_queue-Kept n r v
perform-Kept n (deleting_queue name if_unused if_empty) v p =
    delete_queue-Kept n name if_unused if_empty v
perform-Kept n (binding queue exchange key args) v p = bind_queue-Kept n queue exchange key args v
perform-Kept n (unbinding queue exchange key) v p = unbind_queue-Kept n queue exchange key v
perform-Kept n (delivering now queue m) v p = deliver_to_queue-Kept n now queue m v
perform-Kept n (ticking now) v p = λ k was. was
perform-Kept n (leaving conn) v p =
    unbind_each-Keeps n (keep_if (λ (name, q). owned_by conn q) v.queues) v.exchanges
perform-Kept n (recovering now) v p = recover_from_store-Kept n now v
perform-Kept n (working name w) v p = elim (Option-cases (lookup name v.queues)) [
  | inl h ↦ rw (h, perform) (λ k was. was)
  | inr (q, h) ↦ rw (h, perform) (λ k was. was)
]
perform-Kept n (logging_message queue m) v p = λ k was. was
perform-Kept n (logging_ack queue id) v p = λ k was. was
perform-Kept n (releasing object) v p = λ k was. was
perform-Kept n compacting v p = λ k was. was

-- The exchanges that every host has, with their kinds.
abbrev pub HasStandard : VirtualHost → Type 0
HasStandard v =
    (kind_of [] v.exchanges ≡ some direct_exchange)
    × (kind_of (codes "amq.direct") v.exchanges ≡ some direct_exchange)
    × (kind_of (codes "amq.fanout") v.exchanges ≡ some fanout_exchange)
    × (kind_of (codes "amq.topic") v.exchanges ≡ some topic_exchange)
    × (kind_of (codes "amq.headers") v.exchanges ≡ some headers_exchange)
    × (kind_of (codes "amq.match") v.exchanges ≡ some headers_exchange)

-- Whatever clients, the timer and the recovery ask of a new virtual host, it still has the default
-- exchange and the five `amq.` exchanges that it started with, each of its kind.
pub Reachable-HasStandard : (v : VirtualHost) → Reachable v → HasStandard v
unfolding kind_of new_virtual_host lookup starts_with bytes_beq
Reachable-HasStandard v (started name store) = (refl, refl, refl, refl, refl, refl)
Reachable-HasStandard w (served {v} r reached) =
    let (a, b, c, d, e, f) = Reachable-HasStandard v reached in
    (
      perform-Kept _ r v refl _ a,
      perform-Kept _ r v refl _ b,
      perform-Kept _ r v refl _ c,
      perform-Kept _ r v refl _ d,
      perform-Kept _ r v refl _ e,
      perform-Kept _ r v refl _ f,
    )
