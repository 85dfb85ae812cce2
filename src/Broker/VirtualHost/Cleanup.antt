-- ===== src/Broker/VirtualHost/Cleanup.antt =====
-- broker/vhost.h: what the end of a connection does.
use ganshin_mq.Base.{ℕ, Bool, not, ◌&&◌, Bytes, List, [], ◌∷◌, ◌==◌, bytes_eq, nat_eq, keep_if, map}
use ganshin_mq.Broker.Exchange.{Exchange}
use ganshin_mq.Broker.Queue
use ganshin_mq.Broker.Queue.{MessageQueue, Effects, no_effects}
use ganshin_mq.Broker.VirtualHost.State.{VirtualHost}
use ganshin_mq.Broker.VirtualHost.Queues.{unbind_all}

-- The exclusive queues of a connection.
abbrev pub owned_by : ℕ → MessageQueue → Bool
owned_by conn q = q.exclusive && q.owner_connection == conn

unfoldable pub unbind_each :
    List (Bytes × MessageQueue) → List (Bytes × Exchange) → List (Bytes × Exchange)
unfolding unbind_all
unbind_each [] exchanges = exchanges
unbind_each ((name, q) ∷ removed) exchanges = unbind_each removed (unbind_all name exchanges)

-- The queues that stay, without the connection's consumers; an auto-delete queue that has no
-- consumer then goes too, but keeps its bindings.
unfoldable pub remove_connection_queues : ℕ → VirtualHost → VirtualHost
unfolding unbind_each
remove_connection_queues conn v =
    let removed = keep_if (λ (name, q). owned_by conn q) v.queues in
    let others = keep_if (λ (name, q). not (owned_by conn q)) v.queues in
    let left = map (λ (name, q). (name, Queue.remove_consumers_by_connection conn q)) others in
    record v {
      exchanges = unbind_each removed v.exchanges;
      queues = keep_if (λ (name, q). not (q.auto_delete && Queue.consumer_count q == 0)) left;
    }
