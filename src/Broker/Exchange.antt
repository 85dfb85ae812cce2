-- ===== src/Broker/Exchange.antt =====
-- broker/exchange.h: the exchange types, their bindings and the routing of a message.
pub mod Topic
pub mod TopicProofs
pub mod TopicMatch
pub mod Routing
use ganshin_mq.Base.{
  ℕ, Bool, true, false, not, ◌&&◌, Bytes, codes, List, [], ◌∷◌, ◌++◌, Option, none, some, ◌==◌,
  bytes_eq, if◌then◌else◌, keep_if, starts_with, map, ◌≡◌, refl,
}
use ganshin_mq.Amqp.FieldValue.{FieldValue, FieldTable, end, entry, find, string_val}
use Topic.{topic_match}

pub record Binding : Type 0 where
  pub queue_name : Bytes
  pub routing_key : Bytes
  pub arguments : FieldTable

-- The subclasses of `Exchange`, each with its own `route`.
pub data Kind : Type 0 where
  direct_exchange fanout_exchange topic_exchange headers_exchange : Kind

pub record Exchange : Type 0 where
  pub name : Bytes
  pub type : Bytes
  pub kind : Kind
  pub durable : Bool
  pub auto_delete : Bool
  pub internal : Bool
  pub arguments : FieldTable
  pub bindings : List Binding

unfoldable pub add_binding : Exchange → Bytes → Bytes → FieldTable → Exchange
add_binding ex queue routing_key args = record ex {
  bindings =
      ex.bindings
      ++ (record { queue_name = queue; routing_key = routing_key; arguments = args } ∷ []);
}

unfoldable pub remove_binding : Exchange → Bytes → Bytes → Exchange
remove_binding ex queue routing_key = record ex {
  bindings = keep_if (λ b. not (b.queue_name == queue && b.routing_key == routing_key)) ex.bindings;
}

-- The loop over the binding's arguments, with its early returns.
unfoldable pub match_arguments : Bool → FieldTable → FieldTable → Bool
match_arguments match_all end headers = match_all
match_arguments match_all (entry name v rest) headers =
    let more = match_arguments match_all rest headers in
    if starts_with name (codes "x-") then more else elim (find name headers) [
      | none ↦ if match_all then false else more
      | some w ↦ if match_all then more else true
    ]

unfoldable pub match_all_mode : FieldTable → Bool
match_all_mode bind_args = elim (find (codes "x-match") bind_args) [
  | none ↦ true
  | some v ↦ not (string_val v == codes "any")
]

unfoldable pub match_headers : FieldTable → FieldTable → Bool
unfolding match_arguments match_all_mode
match_headers bind_args headers = match_arguments (match_all_mode bind_args) bind_args headers

-- The test that `route` applies to each binding.
unfoldable pub binding_matches : Kind → Bytes → Option FieldTable → Binding → Bool
unfolding match_headers
binding_matches direct_exchange key headers b = b.routing_key == key
binding_matches fanout_exchange key headers b = true
binding_matches topic_exchange key headers b = topic_match b.routing_key key
binding_matches headers_exchange key none b = false
binding_matches headers_exchange key (some h) b = match_headers b.arguments h

-- `for (auto& b : bindings_) if (...) result.push_back(b.queue_name);`
unfoldable pub route_loop : (Binding → Bool) → List Binding → List Bytes → List Bytes
route_loop matches [] result = result
route_loop matches (b ∷ bs) result =
    route_loop matches bs (if matches b then result ++ (b.queue_name ∷ []) else result)

unfoldable pub route : Exchange → Bytes → Option FieldTable → List Bytes
unfolding route_loop binding_matches
route ex key headers = route_loop (binding_matches ex.kind key headers) ex.bindings []

unfoldable pub exchange_kind : Bytes → Kind
exchange_kind type =
    if type == codes "direct"
    then direct_exchange
    else if type == codes "fanout"
    then fanout_exchange
    else if type == codes "topic"
    then topic_exchange
    else if type == codes "headers"
    then headers_exchange
    else direct_exchange

unfoldable pub create_exchange : Bytes → Exchange
unfolding exchange_kind
create_exchange type = record {
  name = [];
  type = type;
  kind = exchange_kind type;
  durable = false;
  auto_delete = false;
  internal = false;
  arguments = end;
  bindings = [];
}
