-- ===== src/Broker/Consumer.antt =====
-- broker/consumer.h. The callback of a consumer is modelled by whether it is set; what it is
-- called with is a `Delivery` of the queue. The field `object` is the address of the object, by which
-- a pointer to it is told from others.
use ganshin_mq.Base.{ℕ, Bool, Bytes}

pub record Consumer : Type 0 where
  pub object : ℕ
  pub tag : Bytes
  pub queue_name : Bytes
  pub no_local : Bool
  pub no_ack : Bool
  pub exclusive : Bool
  pub channel_id : ℕ
  pub connection_id : ℕ
  pub prefetch_count : ℕ
  pub in_flight : ℕ
  pub on_deliver : Bool
