-- ===== src/Broker/Channel/State.antt =====
-- broker/channel.h: the channel's members, and what a handler gives.
use ganshin_mq.Base.{ℕ, ◌/◌, ◌%◌, Bool, false, Bytes, List, [], Option, none, ◌==◌, nat_eq}
use ganshin_mq.Amqp.Properties.{BasicProperties}
use ganshin_mq.Amqp.Buffer.{Result, ok}
use ganshin_mq.Broker.Consumer.{Consumer}
use ganshin_mq.Broker.Message.{Message}
use ganshin_mq.Broker.Queue.{Effects}
use ganshin_mq.Broker.VirtualHost.State.{VirtualHost}

pub record PendingPublish : Type 0 where
  pub exchange : Bytes
  pub routing_key : Bytes
  pub mandatory : Bool
  pub immediate : Bool
  pub body_size : ℕ
  pub body_received : ℕ
  pub properties : BasicProperties
  pub body : Bytes

-- The consumer is a pointer: the object's address.
pub record UnackedMessage : Type 0 where
  pub message : Message
  pub queue_name : Bytes
  pub consumer : Option ℕ

-- A consumer in the map is as it was made; its `in_flight` is counted where the queue has it.
pub record Channel : Type 0 where
  pub id : ℕ
  pub connection_id : ℕ
  pub frame_max : ℕ
  pub is_open : Bool
  pub confirm_mode : Bool
  pub next_delivery_tag : ℕ
  pub next_confirm_seq_no : ℕ
  pub prefetch_count : ℕ
  pub prefetch_size : ℕ
  pub consumers : List (Bytes × Consumer)
  pub consumer_tag_counter : ℕ
  pub pending_publish : Option PendingPublish
  pub unacked_messages : List (ℕ × UnackedMessage)

unfoldable pub new_channel : ℕ → ℕ → ℕ → Channel
new_channel id connection_id frame_max = record {
  id = id;
  connection_id = connection_id;
  frame_max = frame_max;
  is_open = false;
  confirm_mode = false;
  next_delivery_tag = 1;
  next_confirm_seq_no = 1;
  prefetch_count = 0;
  prefetch_size = 0;
  consumers = [];
  consumer_tag_counter = 0;
  pending_publish = none;
  unacked_messages = [];
}

-- What the channel sends: methods with their arguments, and the content of a message.
pub data Sent : Type 0 where
  channel_close : ℕ → Bytes → ℕ → ℕ → Sent
  exchange_declare_ok exchange_delete_ok queue_bind_ok queue_unbind_ok : Sent
  queue_declare_ok : Bytes → ℕ → ℕ → Sent
  queue_purge_ok queue_delete_ok : ℕ → Sent
  basic_qos_ok basic_recover_ok get_empty : Sent
  consume_ok cancel_ok : Bytes → Sent
  basic_return : Bytes → Bytes → Sent
  basic_deliver : Bytes → ℕ → Bool → Bytes → Bytes → Sent
  get_ok : ℕ → Bool → Bytes → Bytes → ℕ → Sent
  basic_ack : ℕ → Sent
  content : BasicProperties → Bytes → Sent
  confirm_select_ok tx_select_ok tx_commit_ok tx_rollback_ok : Sent

-- The channel and the host after a handler, what it sent, and what queues did to others.
abbrev pub Handled : Type 0
Handled = Channel × VirtualHost × List Sent × List Effects

abbrev pub replied : Channel → VirtualHost → List Sent → Result Handled
replied ch v sent = ok (ch, v, sent, [])

-- `bits & (1 << k)`, for the `k` that the handlers use.
abbrev pub bit_0 : ℕ → Bool
bit_0 bits = bits % 2 == 1

abbrev pub bit_1 : ℕ → Bool
bit_1 bits = bits / 2 % 2 == 1

abbrev pub bit_2 : ℕ → Bool
bit_2 bits = bits / 4 % 2 == 1

abbrev pub bit_3 : ℕ → Bool
bit_3 bits = bits / 8 % 2 == 1

abbrev pub bit_4 : ℕ → Bool
bit_4 bits = bits / 16 % 2 == 1
