-- ===== src/Storage/Entry.antt =====
-- storage/message_store.h: the entries of the log, and the payload that each is written with.
pub mod Parsing
use ganshin_mq.Base.{
  ℕ, ◌%◌, ◌^◌, Bool, true, false, not, Bytes, List, [], ◌∷◌, ◌++◌, ◌==◌, nat_eq, if◌then◌else◌,
  length,
}
use ganshin_mq.Amqp.Properties.{BasicProperties}
use ganshin_mq.Amqp.Buffer.{
  Error, Result, ok, err, stuck, ◌>>=◌, Read, read_uint8, read_uint64, read_long_string,
  write_uint8, write_uint64, write_long_string,
}
use ganshin_mq.Amqp.Content.{decode, encode}

pub record StoredMessage : Type 0 where
  pub id : ℕ
  pub queue_name : Bytes
  pub exchange : Bytes
  pub routing_key : Bytes
  pub properties : BasicProperties
  pub body : Bytes

pub record StoredQueueDecl : Type 0 where
  pub name : Bytes
  pub durable : Bool
  pub auto_delete : Bool

pub record StoredExchangeDecl : Type 0 where
  pub name : Bytes
  pub type : Bytes
  pub durable : Bool
  pub auto_delete : Bool
  pub internal : Bool

pub record StoredBinding : Type 0 where
  pub queue : Bytes
  pub exchange : Bytes
  pub routing_key : Bytes

pub data Entry : Type 0 where
  message : StoredMessage → Entry
  ack : Bytes → ℕ → Entry
  queue_declare : StoredQueueDecl → Entry
  exchange_declare : StoredExchangeDecl → Entry
  binding : StoredBinding → Entry
  queue_delete : Bytes → Entry
  exchange_delete : Bytes → Entry
  unbind : StoredBinding → Entry

unfoldable pub entry_type : Entry → ℕ
entry_type (message m) = 1
entry_type (ack q id) = 2
entry_type (queue_declare d) = 3
entry_type (exchange_declare d) = 4
entry_type (binding b) = 5
entry_type (queue_delete name) = 6
entry_type (exchange_delete name) = 7
entry_type (unbind b) = 8

-- `buf.writeUint8(flag ? 1 : 0)`.
abbrev pub write_flag : Bool → Bytes
write_flag b = write_uint8 (if b then 1 else 0)

-- The payload that `storeMessage` and its siblings write; a run of bytes is written as a string
-- is, by its length and its bytes.
unfoldable pub payload : Entry → Bytes
payload (message m) =
    write_uint64 m.id
    ++ (write_long_string m.queue_name
        ++ (write_long_string m.exchange
            ++ (write_long_string m.routing_key
                ++ (write_long_string (encode m.properties) ++ write_long_string m.body))))
payload (ack q id) = write_uint64 id ++ write_long_string q
payload (queue_declare d) =
    write_long_string d.name ++ (write_flag d.durable ++ write_flag d.auto_delete)
payload (exchange_declare d) =
    write_long_string d.name
    ++ (write_long_string d.type
        ++ (write_flag d.durable ++ (write_flag d.auto_delete ++ write_flag d.internal)))
payload (binding b) =
    write_long_string b.queue ++ (write_long_string b.exchange ++ write_long_string b.routing_key)
payload (queue_delete name) = write_long_string name
payload (exchange_delete name) = write_long_string name
payload (unbind b) =
    write_long_string b.queue ++ (write_long_string b.exchange ++ write_long_string b.routing_key)

unfoldable pub read_flag : Bytes → Read Bool
read_flag s = do (n, s') ← read_uint8 s; ok (not (n == 0), s')

unfoldable pub parse_message : Bytes → Read StoredMessage
parse_message s = do
  (id, s1) ← read_uint64 s
  (queue_name, s2) ← read_long_string s1
  (exchange, s3) ← read_long_string s2
  (routing_key, s4) ← read_long_string s3
  (prop_bytes, s5) ← read_long_string s4
  (properties, unread) ← decode prop_bytes
  (body, s6) ← read_long_string s5
  ok (
    record {
      id = id;
      queue_name = queue_name;
      exchange = exchange;
      routing_key = routing_key;
      properties = properties;
      body = body;
    },
    s6,
  )

unfoldable pub parse_ack : Bytes → Read Entry
parse_ack s = do (id, s1) ← read_uint64 s; (queue, s2) ← read_long_string s1; ok (ack queue id, s2)

unfoldable pub parse_queue_declare : Bytes → Read StoredQueueDecl
parse_queue_declare s = do
  (name, s1) ← read_long_string s
  (durable, s2) ← read_flag s1
  (auto_delete, s3) ← read_flag s2
  ok (record { name = name; durable = durable; auto_delete = auto_delete }, s3)

unfoldable pub parse_exchange_declare : Bytes → Read StoredExchangeDecl
parse_exchange_declare s = do
  (name, s1) ← read_long_string s
  (type, s2) ← read_long_string s1
  (durable, s3) ← read_flag s2
  (auto_delete, s4) ← read_flag s3
  (internal, s5) ← read_flag s4
  ok (
    record {
      name = name;
      type = type;
      durable = durable;
      auto_delete = auto_delete;
      internal = internal;
    },
    s5,
  )

unfoldable pub parse_binding : Bytes → Read StoredBinding
parse_binding s = do
  (queue, s1) ← read_long_string s
  (exchange, s2) ← read_long_string s1
  (routing_key, s3) ← read_long_string s2
  ok (record { queue = queue; exchange = exchange; routing_key = routing_key }, s3)

-- What the switch of `recoverLocked` reads: `skip` is an entry of no known type.
pub data Parsed : Type 0 where
  entry : Entry → Parsed
  skip : Parsed

abbrev pub parsed : {A : Type 0} → (A → Entry) → Read A → Result Parsed
parsed f r = r >>= λ (v, s). ok (entry (f v))

unfoldable pub parse : ℕ → Bytes → Result Parsed
parse type s =
    if type == 1
    then parsed message (parse_message s)
    else if type == 2
    then parsed (λ e. e) (parse_ack s)
    else if type == 3
    then parsed queue_declare (parse_queue_declare s)
    else if type == 4
    then parsed exchange_declare (parse_exchange_declare s)
    else if type == 5
    then parsed binding (parse_binding s)
    else if type == 6
    then parsed queue_delete (read_long_string s)
    else if type == 7
    then parsed exchange_delete (read_long_string s)
    else if type == 8
    then parsed unbind (parse_binding s)
    else ok skip
