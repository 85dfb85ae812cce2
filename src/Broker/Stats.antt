-- ===== src/Broker/Stats.antt =====
-- broker/stats_writer.h: the text of the statistics, in JSON. The clock's times are arguments;
-- writing the file is not modelled.
pub mod Json
use ganshin_mq.Base.{
  ℕ, ◌+◌, ◌-◌, ◌/◌, ◌%◌, ◌^◌, Bool, true, false, Bytes, codes, List, [], ◌∷◌, ◌++◌, ◌==◌, nat_eq,
  bytes_eq, if◌then◌else◌, ltb, length,
}
use ganshin_mq.Broker.VirtualHost.State.{VirtualHost}
use ganshin_mq.Broker.VirtualHost.Names.{to_string}
use ganshin_mq.Broker.VirtualHost.Snapshots.{
  QueueSnapshot, ExchangeSnapshot, snapshot_queues, snapshot_exchanges,
}
use ganshin_mq.Broker.Server.{Server, ConnectionInfo, snapshot_connections}

-- A digit of `%04x`.
abbrev pub hex_digit : ℕ → ℕ
hex_digit n = if ltb n 10 then b'0' + n else 87 + n

-- One round of the loop of `jsonEscape`; 92 is the backslash.
unfoldable pub escape_char : ℕ → Bytes
escape_char c =
    if c == 34
    then 92 ∷ 34 ∷ []
    else if c == 92
    then 92 ∷ 92 ∷ []
    else if c == 8
    then 92 ∷ b'b' ∷ []
    else if c == 12
    then 92 ∷ b'f' ∷ []
    else if c == 10
    then 92 ∷ b'n' ∷ []
    else if c == 13
    then 92 ∷ b'r' ∷ []
    else if c == 9
    then 92 ∷ b't' ∷ []
    else if ltb c 32
    then 92 ∷ b'u' ∷ b'0' ∷ b'0' ∷ hex_digit (c / 16) ∷ hex_digit (c % 16) ∷ []
    else c ∷ []

unfoldable pub json_escape : Bytes → Bytes
unfolding escape_char
json_escape [] = []
json_escape (c ∷ s) = escape_char c ++ json_escape s

abbrev pub quoted : Bytes → Bytes
quoted s = 34 ∷ (json_escape s ++ (34 ∷ []))

abbrev pub json_bool : Bool → Bytes
json_bool b = if b then codes "true" else codes "false"

-- A member of an object: the name in quotes, a colon, the value.
abbrev pub member : Bytes → Bytes → Bytes
member name value = 34 ∷ (name ++ (34 ∷ b':' ∷ value))

-- The parts with commas between them.
unfoldable pub separated : List Bytes → Bytes
separated [] = []
separated (x ∷ []) = x
separated (x ∷ y ∷ more) = x ++ (b',' ∷ separated (y ∷ more))

abbrev pub object : List Bytes → Bytes
object members = b'{' ∷ (separated members ++ (b'}' ∷ []))

abbrev pub array : List Bytes → Bytes
array values = b'[' ∷ (separated values ++ (b']' ∷ []))

unfoldable pub queue_json : QueueSnapshot → Bytes
unfolding json_escape separated to_string
queue_json q = object (
    member (codes "name") (quoted q.name)
    ∷ member (codes "durable") (json_bool q.durable)
    ∷ member (codes "exclusive") (json_bool q.exclusive)
    ∷ member (codes "auto_delete") (json_bool q.auto_delete)
    ∷ member (codes "messages") (to_string q.message_count)
    ∷ member (codes "consumers") (to_string q.consumer_count)
    ∷ [])

unfoldable pub exchange_json : ExchangeSnapshot → Bytes
unfolding json_escape separated to_string
exchange_json ex = object (
    member (codes "name") (quoted (if ex.name == [] then codes "(default)" else ex.name))
    ∷ member (codes "type") (quoted ex.type)
    ∷ member (codes "durable") (json_bool ex.durable)
    ∷ member (codes "auto_delete") (json_bool ex.auto_delete)
    ∷ member (codes "bindings") (to_string ex.binding_count)
    ∷ [])

unfoldable pub connection_json : ConnectionInfo → Bytes
unfolding json_escape separated to_string
connection_json c = object (
    member (codes "id") (to_string c.id)
    ∷ member (codes "user") (quoted c.user)
    ∷ member (codes "peer") (quoted c.peer)
    ∷ member (codes "connected_at_ms") (to_string c.connected_at_ms)
    ∷ member (codes "channels") (to_string c.channels)
    ∷ [])

-- `totalMessages`, on 32 bits.
unfoldable pub total_messages : List QueueSnapshot → ℕ
total_messages [] = 0
total_messages (q ∷ qs) = (q.message_count + total_messages qs) % 2 ^ 32

unfoldable pub all_json : {A : Type 0} → (A → Bytes) → List A → List Bytes
all_json f [] = []
all_json f (a ∷ more) = f a ∷ all_json f more

-- The file that `writeSnapshot` writes at a time, by a writer that was started at another, which is
-- taken to be no later.
unfoldable pub write_snapshot : ℕ → ℕ → Server → Bytes
unfolding separated to_string total_messages all_json queue_json exchange_json connection_json
write_snapshot now started s =
    let queues = snapshot_queues s.default_vhost in
    let exchanges = snapshot_exchanges s.default_vhost in
    let conns = snapshot_connections s in
    object (
      member (codes "version") (codes "\"1.0\"")
      ∷ member (codes "timestamp_ms") (to_string now)
      ∷ member (codes "uptime_ms") (to_string (now - started))
      ∷ member (codes "stats") (
          object (
            member (codes "connections") (to_string (length conns))
            ∷ member (codes "queues") (to_string (length queues))
            ∷ member (codes "exchanges") (to_string (length exchanges))
            ∷ member (codes "messages_ready") (to_string (total_messages queues))
            ∷ []))
      ∷ member (codes "queues") (array (all_json queue_json queues))
      ∷ member (codes "exchanges") (array (all_json exchange_json exchanges))
      ∷ member (codes "connections") (array (all_json connection_json conns))
      ∷ [])
