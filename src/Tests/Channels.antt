-- ===== src/Tests/Channels.antt =====
-- The theorems on a channel, at a publish to a new host.
use ganshin_mq.Base.{
  Bytes, codes, [], ◌∷◌, true, false, none, some, nat_eq, if◌then◌else◌, length, map, All, ◌≤◌, ◌≡◌,
  refl, arith,
}
use ganshin_mq.Base.Map.{lookup}
use ganshin_mq.Amqp.Properties.{no_properties}
use ganshin_mq.Amqp.Buffer.{ok}
use ganshin_mq.Amqp.Buffer.Ensures.{Ensures}
use ganshin_mq.Amqp.Content.RoundTrip.{FitsProperties}
use ganshin_mq.Amqp.Frame.{frame_body}
use ganshin_mq.Broker.VirtualHost.State.{VirtualHost, new_virtual_host}
use ganshin_mq.Broker.Message.{Message, new_message}
use ganshin_mq.Broker.Queue.{new_queue}
use ganshin_mq.Broker.Channel.State.{Channel, PendingPublish, UnackedMessage, new_channel}
use ganshin_mq.Broker.Channel.Frames.{write_frame, header_payload, body_chunks, max_body_payload}
use ganshin_mq.Broker.Channel.Publishing.{complete, deliver_copies}
use ganshin_mq.Broker.Channel.Consuming.{on_deliver}
use ganshin_mq.Broker.Channel.Settling.{settle_ack, settle_nack, ack_one}
use ganshin_mq.Broker.Channel.Methods.{handle_method}
use ganshin_mq.Broker.Channel.Durability.{Logs, logged, deliver_copies-log}
use ganshin_mq.Broker.Channel.Chunks.{body_frames-fit}
use ganshin_mq.Broker.Channel.RoundTrip.{begun, filled, handle_content, handle_content_lem}
use ganshin_mq.Broker.Channel.Steps.{Stays, handle_method-Stays}
use ganshin_mq.Broker.Channel.Settled.{covers, settle_lem, ack_one-delivered}
use ganshin_mq.Storage.Store.{MessageStore}
use ganshin_mq.Broker.Channel.Assembly.{joined}

abbrev host : VirtualHost
host = new_virtual_host (codes "/") none

abbrev pending : PendingPublish
pending = record {
  exchange = [];
  routing_key = codes "jobs";
  mandatory = true;
  immediate = false;
  body_size = 5;
  body_received = 0;
  properties = no_properties;
  body = [];
}

abbrev channel : Channel
channel = record (new_channel 1 7 131072) { confirm_mode = true; pending_publish = some pending }

abbrev lasting : Message
lasting = record new_message {
  body = codes "x";
  properties = record (new_message.properties) { delivery_mode = some 2 };
}

abbrev store : MessageStore
store = record { wal = codes "log"; next_msg_id = 4 }

abbrev stored_host : VirtualHost
stored_host = record (new_virtual_host (codes "/") (some store)) {
  queues =
      (codes "jobs", record (new_queue (codes "jobs")) { durable = true })
      ∷ (codes "tmp", new_queue (codes "tmp"))
      ∷ [];
}

deliver_copies-log_example :
    Logs store
      (logged (codes "jobs" ∷ codes "tmp" ∷ []) lasting stored_host 4)
      (deliver_copies 9 (codes "jobs" ∷ codes "tmp" ∷ []) lasting stored_host).0.store
deliver_copies-log_example =
    deliver_copies-log 9 (codes "jobs" ∷ codes "tmp" ∷ []) lasting stored_host store
      (unfold new_virtual_host in refl)

nothing_set-FitsProperties : FitsProperties no_properties
nothing_set-FitsProperties = record {
  content_type = tt;
  content_encoding = tt;
  headers = tt;
  delivery_mode = tt;
  priority = tt;
  correlation_id = tt;
  reply_to = tt;
  expiration = tt;
  message_id = tt;
  timestamp = tt;
  type = tt;
  user_id = tt;
  app_id = tt;
  cluster_id = tt;
}

abbrev receiving : Channel
receiving = record channel { pending_publish = some (begun pending) }

handle_content_example :
    handle_content 9
      (header_payload 60 no_properties (codes "abcde"))
      (body_chunks 2 (codes "abcde"))
      receiving
      host
    ≡ ok (complete 9 (filled no_properties (codes "abcde") pending) receiving host)
handle_content_example =
    handle_content_lem 9 60 2 no_properties (codes "abcde") receiving host pending refl
      (ground arith) (ground arith) (ground arith) nothing_set-FitsProperties

body_frames-fit_example :
    All
      (λ f. length f ≤ 10)
      (map (write_frame frame_body 1) (body_chunks (max_body_payload 10) (codes "abcde")))
    × (joined (body_chunks (max_body_payload 10) (codes "abcde")) ≡ codes "abcde")
body_frames-fit_example = body_frames-fit 1 10 (codes "abcde") (ground arith)

-- A channel with a delivery that awaits its acknowledgement.
abbrev delivery : UnackedMessage
delivery = record { message = lasting; queue_name = codes "jobs"; consumer = none }

abbrev busy_channel : Channel
busy_channel = record channel {
  is_open = true;
  next_delivery_tag = 5;
  unacked_messages = (3, delivery) ∷ (4, delivery) ∷ [];
}

abbrev acknowledge : Bytes
acknowledge = 0 ∷ 0 ∷ 0 ∷ 0 ∷ 0 ∷ 0 ∷ 0 ∷ 4 ∷ 1 ∷ []

handle_method-Stays_example :
    Ensures
      (Stays busy_channel)
      (handle_method (record { now = 9; fresh = 1 }) 60 80 acknowledge busy_channel stored_host)
handle_method-Stays_example =
    handle_method-Stays busy_channel stored_host (ground arith, (ground arith, tt))
      (record { now = 9; fresh = 1 }) 60 80 acknowledge (ground arith)

settle_example :
    (lookup 3 (settle_ack 3 true busy_channel stored_host).0.unacked_messages
      ≡ (if covers 3 true 3 then none else lookup 3 busy_channel.unacked_messages))
    × (lookup 3 (settle_nack 3 true false busy_channel stored_host).0.unacked_messages
        ≡ (if covers 3 true 3 then none else lookup 3 busy_channel.unacked_messages))
settle_example = settle_lem 3 3 true false busy_channel stored_host

ack_one-delivered_example :
    (ack_one 5
      (on_deliver (codes "worker") (codes "jobs") lasting busy_channel).0
      stored_host).1.store
    ≡ stored_host.store
ack_one-delivered_example =
    ack_one-delivered (codes "worker") (codes "jobs") lasting busy_channel stored_host
      (ground arith, (ground arith, tt)) refl
