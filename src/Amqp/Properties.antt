-- ===== src/Amqp/Properties.antt =====
-- amqp/content.h: the members of `BasicProperties`.
use ganshin_mq.Base.{ℕ, Bytes, Option, none}
use ganshin_mq.Amqp.FieldValue.{FieldTable}

pub record BasicProperties : Type 0 where
  pub content_type : Option Bytes
  pub content_encoding : Option Bytes
  pub headers : Option FieldTable
  pub delivery_mode : Option ℕ
  pub priority : Option ℕ
  pub correlation_id : Option Bytes
  pub reply_to : Option Bytes
  pub expiration : Option Bytes
  pub message_id : Option Bytes
  pub timestamp : Option ℕ
  pub type : Option Bytes
  pub user_id : Option Bytes
  pub app_id : Option Bytes
  pub cluster_id : Option Bytes

abbrev pub no_properties : BasicProperties
no_properties = record {
  content_type = none;
  content_encoding = none;
  headers = none;
  delivery_mode = none;
  priority = none;
  correlation_id = none;
  reply_to = none;
  expiration = none;
  message_id = none;
  timestamp = none;
  type = none;
  user_id = none;
  app_id = none;
  cluster_id = none;
}
