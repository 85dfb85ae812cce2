-- ===== src/Broker/VirtualHost/Exchanges.antt =====
-- broker/vhost.h: the virtual host's exchanges, and the texts of its refusals.
use ganshin_mq.Base.{
  Bool, ◌||◌, Bytes, codes, [], ◌++◌, Option, none, some, ◌==◌, bytes_eq, nat_eq, if◌then◌else◌,
  starts_with,
}
use ganshin_mq.Base.Map.{lookup, insert, erase}
use ganshin_mq.Amqp.FieldValue.{FieldTable}
use ganshin_mq.Broker.Exchange.{Exchange, create_exchange}
use ganshin_mq.Storage.Store
use ganshin_mq.Storage.Store.{MessageStore}
use ganshin_mq.Broker.VirtualHost.State.{VirtualHost, Outcome, granted, refused, log, log_if}

-- "NOT_FOUND - no … 'name'" and "RESOURCE_LOCKED - queue 'name' is exclusive".
abbrev pub no_exchange : Bytes → Bytes
no_exchange name = codes "NOT_FOUND - no exchange '" ++ (name ++ codes "'")

abbrev pub no_queue : Bytes → Bytes
no_queue name = codes "NOT_FOUND - no queue '" ++ (name ++ codes "'")

abbrev pub locked : Bytes → Bytes
locked name = codes "RESOURCE_LOCKED - queue '" ++ (name ++ codes "' is exclusive")

-- What a declaration asks for.
pub record ExchangeRequest : Type 0 where
  pub name : Bytes
  pub type : Bytes
  pub passive : Bool
  pub durable : Bool
  pub auto_delete : Bool
  pub internal : Bool
  pub args : FieldTable

unfoldable pub create_declared : ExchangeRequest → Exchange
unfolding create_exchange
create_declared r = record (create_exchange r.type) {
  name = r.name;
  durable = r.durable;
  auto_delete = r.auto_delete;
  internal = r.internal;
  arguments = r.args;
}

unfoldable pub declare_exchange : ExchangeRequest → VirtualHost → VirtualHost × Outcome Exchange
unfolding create_declared log
declare_exchange r v = elim (lookup r.name v.exchanges) [
  | none ↦
      if r.passive
      then (v, refused 404 (no_exchange r.name))
      else (let ex = create_declared r in
          (
            log_if r.durable
                (Store.store_exchange_declare r.name r.type r.durable r.auto_delete r.internal)
                (record v { exchanges = insert r.name ex v.exchanges }),
            granted ex,
          ))
  | some ex ↦
      if r.passive
      then (v, granted ex)
      else if ex.type == r.type
      then (v, granted ex)
      else (v, refused 406 (codes "PRECONDITION_FAILED - exchange type mismatch"))
]

unfoldable pub delete_exchange : Bytes → VirtualHost → VirtualHost × Outcome (Unit {0})
unfolding log
delete_exchange name v = elim (lookup name v.exchanges) [
  | none ↦ (v, refused 404 (no_exchange name))
  | some ex ↦
      if starts_with name (codes "amq.") || name == []
      then (v, refused 403 (codes "ACCESS_REFUSED - cannot delete default exchange"))
      else (
        log (Store.store_exchange_delete name) (record v { exchanges = erase name v.exchanges }),
        granted tt,
      )
]

unfoldable pub find_exchange : Bytes → VirtualHost → Option Exchange
find_exchange name v = lookup name v.exchanges
