-- ===== src/Broker/Message.antt =====
-- broker/message.h.
use ganshin_mq.Base.{ℕ, Bool, false, Bytes, none, some, ◌==◌, nat_eq, []}
use ganshin_mq.Amqp.Properties.{BasicProperties, no_properties}

-- A time of the steady clock is a number of nanoseconds.
pub record Message : Type 0 where
  pub exchange : Bytes
  pub routing_key : Bytes
  pub mandatory : Bool
  pub immediate : Bool
  pub properties : BasicProperties
  pub body : Bytes
  pub redelivered : Bool
  pub enqueued_at : ℕ
  pub wal_id : ℕ
  pub source_connection_id : ℕ
  pub dlx_hops : ℕ

-- `std::make_shared<Message>()`.
abbrev pub new_message : Message
new_message = record {
  exchange = [];
  routing_key = [];
  mandatory = false;
  immediate = false;
  properties = no_properties;
  body = [];
  redelivered = false;
  enqueued_at = 0;
  wal_id = 0;
  source_connection_id = 0;
  dlx_hops = 0;
}

unfoldable pub is_persistent : Message → Bool
is_persistent m = elim m.properties.delivery_mode [ none ↦ false | some mode ↦ mode == 2 ]

unfoldable pub effective_priority : Message → ℕ
effective_priority m = elim m.properties.priority [ none ↦ 0 | some p ↦ p ]
