-- ===== src/Tests/Hosts.antt =====
-- The theorems on a virtual host and on logging in, at a new host.
use ganshin_mq.Base.{
  true, false, Bytes, codes, [], ◌∷◌, Option, none, some, bytes_eq, bytes_beq, nat_eq, ◌==◌,
  if◌then◌else◌, keep_if, All, ◌≡◌, refl, ◌↔◌,
}
use ganshin_mq.Base.Map.{lookup, insert}
use ganshin_mq.Amqp.FieldValue.{FieldTable, end, find}
use ganshin_mq.Broker.Exchange.{Exchange, add_binding, direct_exchange}
use ganshin_mq.Broker.Exchange.Routing.{Listed, Leads}
use ganshin_mq.Broker.Queue.{MessageQueue, configure, new_queue, message_count}
use ganshin_mq.Broker.VirtualHost.State.{VirtualHost, granted, new_virtual_host, log}
use ganshin_mq.Broker.VirtualHost.Exchanges.{ExchangeRequest}
use ganshin_mq.Broker.VirtualHost.Queues.{
  QueueRequest, declare_named, auto_bind, create_queue, find_queue, delete_queue,
}
use ganshin_mq.Broker.VirtualHost.Delivery.{route_message}
use ganshin_mq.Broker.VirtualHost.Cleanup.{owned_by, remove_connection_queues}
use ganshin_mq.Broker.VirtualHost.Requests.{started, served, deleting_exchange, perform}
use ganshin_mq.Broker.VirtualHost.Routed.{Distinct, route_message_lem}
use ganshin_mq.Broker.VirtualHost.Unbinding.{gone}
use ganshin_mq.Broker.VirtualHost.Removal.{
  Stays, delete_queue-granted, remove_connection_queues_lem,
}
use ganshin_mq.Broker.VirtualHost.Kinds.{kind_of}
use ganshin_mq.Broker.VirtualHost.Reachable.{HasStandard, Reachable-HasStandard}
use ganshin_mq.Broker.VirtualHost.Declared.{IsRequested, declare_named-new}
use ganshin_mq.Broker.Auth.{load_from_file, verify}
use ganshin_mq.Broker.Auth.Login.{password_of, verify_iff}

abbrev host : VirtualHost
host = new_virtual_host (codes "/") none

abbrev jobs_request : QueueRequest
jobs_request = record {
  name = codes "jobs";
  passive = false;
  durable = false;
  exclusive = true;
  auto_delete = false;
  args = end;
  connection_id = 7;
}

abbrev busy_host : VirtualHost
busy_host = (declare_named (codes "jobs") jobs_request host).0

abbrev default_exchange : Exchange
default_exchange = record {
  name = [];
  type = codes "direct";
  kind = direct_exchange;
  durable = true;
  auto_delete = false;
  internal = false;
  arguments = end;
  bindings = record { queue_name = codes "jobs"; routing_key = codes "jobs"; arguments = end } ∷ [];
}

route_message_example :
    Distinct (route_message [] (codes "jobs") none busy_host)
    × ((q : Bytes)
        → Listed q (route_message [] (codes "jobs") none busy_host)
          ↔ Leads direct_exchange (codes "jobs") none q default_exchange.bindings)
route_message_example = route_message_lem [] (codes "jobs") none busy_host default_exchange (
    unfold lookup insert bytes_beq new_virtual_host declare_named auto_bind add_binding log in refl)

delete_queue-granted_example :
    let w = (delete_queue (codes "jobs") false true busy_host).0 in
    ((n : Bytes) → find_queue n w ≡ (if codes "jobs" == n then none else find_queue n busy_host))
    × ((n exchange key : Bytes) (headers : Option FieldTable)
        → Listed n (route_message exchange key headers w) ↔ (
            ((n == codes "jobs") ≡ false)
            × Listed n (route_message exchange key headers busy_host)))
delete_queue-granted_example = delete_queue-granted (codes "jobs") false true busy_host 0 (
    unfold delete_queue lookup insert bytes_beq new_virtual_host declare_named auto_bind add_binding
      log create_queue configure find new_queue message_count in
    refl)

remove_connection_queues_example :
    All (Stays 7) (remove_connection_queues 7 busy_host).queues
    × ((n exchange key : Bytes) (headers : Option FieldTable)
        → Listed n (route_message exchange key headers (remove_connection_queues 7 busy_host)) ↔ (
            (gone (keep_if (λ (m, q). owned_by 7 q) busy_host.queues) n ≡ false)
            × Listed n (route_message exchange key headers busy_host)))
remove_connection_queues_example = remove_connection_queues_lem 7 busy_host

Reachable-HasStandard_example : HasStandard (perform (deleting_exchange (codes "amq.topic")) host)
Reachable-HasStandard_example =
    Reachable-HasStandard (perform (deleting_exchange (codes "amq.topic")) host)
      (served (deleting_exchange (codes "amq.topic")) (started (codes "/") none))

declare_named-new_example :
    let (w, outcome) = declare_named (codes "jobs") jobs_request host in
    (q : MessageQueue) × IsRequested (codes "jobs") jobs_request q
    × (outcome ≡ granted (q, true))
    × ((n : Bytes) → find_queue n w ≡ (if codes "jobs" == n then some q else find_queue n host))
    × ((headers : Option FieldTable)
        → Listed (codes "jobs") (route_message [] (codes "jobs") headers w))
declare_named-new_example =
    declare_named-new (codes "jobs") jobs_request host
      (unfold kind_of lookup bytes_beq new_virtual_host in refl)
      (unfold find_queue lookup new_virtual_host in refl) refl

abbrev news_request : ExchangeRequest
news_request = record {
  name = codes "news";
  type = codes "fanout";
  passive = false;
  durable = false;
  auto_delete = false;
  internal = false;
  args = end;
}

verify_iff_example :
    (verify
        (load_from_file (some (codes "ann:secret" ∷ [])) (record { users = []; loaded = false })).0
        (codes "ann")
        (codes "secret")
      ≡ true)
    ↔ (password_of (codes "ann:secret" ∷ []) (codes "ann") ≡ some (codes "secret"))
verify_iff_example = verify_iff (some (codes "ann:secret" ∷ [])) (codes "ann") (codes "secret")
