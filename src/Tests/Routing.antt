-- ===== src/Tests/Routing.antt =====
-- The routing theorems on a small topic exchange.
use ganshin_mq.Base.{true, false, Bytes, codes, [], ◌∷◌, none, bytes_eq, bytes_beq, ◌≡◌, refl, ◌↔◌}
use ganshin_mq.Amqp.FieldValue.{FieldTable, end, entry, void_val, long_string}
use ganshin_mq.Broker.Exchange.{Binding, Exchange, topic_exchange, route}
use ganshin_mq.Broker.Exchange.Topic.{topic_match, split_dot}
use ganshin_mq.Broker.Exchange.TopicProofs.{Matches}
use ganshin_mq.Broker.Exchange.TopicMatch.{topic_match_iff}
use ganshin_mq.Broker.Exchange.Routing.{Listed, Leads, route_iff}

abbrev bound : Bytes → Bytes → Binding
bound queue pattern = record { queue_name = queue; routing_key = pattern; arguments = end }

abbrev orders : Exchange
orders = record {
  name = codes "orders";
  type = codes "topic";
  kind = topic_exchange;
  durable = true;
  auto_delete = false;
  internal = false;
  arguments = end;
  bindings = bound (codes "all") (codes "#") ∷ bound (codes "new") (codes "order.*") ∷ [];
}

topic_match_iff_example :
    (topic_match (codes "order.#") (codes "order.new.eu") ≡ true)
    ↔ Matches (split_dot (codes "order.#")) (split_dot (codes "order.new.eu"))
topic_match_iff_example = topic_match_iff (codes "order.#") (codes "order.new.eu")

route_iff_example :
    Listed (codes "new") (route orders (codes "order.eu") none)
    ↔ Leads topic_exchange (codes "order.eu") none (codes "new") orders.bindings
route_iff_example = route_iff orders (codes "order.eu") none (codes "new")

abbrev wants_format : FieldTable
wants_format =
    entry (codes "format") void_val (entry (codes "x-match") (long_string (codes "any")) end)

abbrev pdf : FieldTable
pdf = entry (codes "format") (long_string (codes "pdf")) end

-- Runs of the code.
run_star : topic_match (codes "order.*") (codes "order.eu") ≡ true
unfolding topic_match bytes_beq
run_star = refl

run_star_two : topic_match (codes "order.*") (codes "order.new.eu") ≡ false
unfolding topic_match bytes_beq
run_star_two = refl
