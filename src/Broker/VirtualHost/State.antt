-- ===== src/Broker/VirtualHost/State.antt =====
-- broker/vhost.h: the virtual host's state. Its maps are association lists by name, in some order.
use ganshin_mq.Base.{
  ℕ, Bool, true, false, Bytes, codes, List, [], ◌∷◌, Option, none, some, bytes_eq, nat_eq,
  if◌then◌else◌,
}
use ganshin_mq.Amqp.FieldValue.{end}
use ganshin_mq.Broker.Exchange.{
  Exchange, Kind, direct_exchange, fanout_exchange, topic_exchange, headers_exchange,
}
use ganshin_mq.Broker.Queue.{MessageQueue}
use ganshin_mq.Storage.Store.{MessageStore}

pub record VirtualHost : Type 0 where
  pub name : Bytes
  pub store : Option MessageStore
  pub exchanges : List (Bytes × Exchange)
  pub queues : List (Bytes × MessageQueue)
  pub counter : ℕ

-- A result, or the reply code and text of a refusal.
pub data Outcome (A : Type 0) : Type 0 where
  granted : A → Outcome A
  refused : ℕ → Bytes → Outcome A

-- One exchange of the constructor.
abbrev pub predeclared : Bytes → Bytes → Kind → Bytes × Exchange
predeclared name type kind = (
  name,
  record {
    name = name;
    type = type;
    kind = kind;
    durable = true;
    auto_delete = false;
    internal = false;
    arguments = end;
    bindings = [];
  },
)

unfoldable pub new_virtual_host : Bytes → Option MessageStore → VirtualHost
new_virtual_host name store = record {
  name = name;
  store = store;
  exchanges =
      predeclared [] (codes "direct") direct_exchange
      ∷ predeclared (codes "amq.direct") (codes "direct") direct_exchange
      ∷ predeclared (codes "amq.fanout") (codes "fanout") fanout_exchange
      ∷ predeclared (codes "amq.topic") (codes "topic") topic_exchange
      ∷ predeclared (codes "amq.headers") (codes "headers") headers_exchange
      ∷ predeclared (codes "amq.match") (codes "headers") headers_exchange
      ∷ [];
  queues = [];
  counter = 0;
}

-- `if (store_) store_->…;`
unfoldable pub log : (MessageStore → MessageStore) → VirtualHost → VirtualHost
log f v = record v { store = elim v.store [ none ↦ none | some s ↦ some (f s) ] }

abbrev pub log_if : Bool → (MessageStore → MessageStore) → VirtualHost → VirtualHost
log_if b f v = if b then log f v else v
