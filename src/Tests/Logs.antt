-- ===== src/Tests/Logs.antt =====
-- The theorems on the log, at a log of one queue with messages and an acknowledgement.
use ganshin_mq.Base.{
  ℕ, ◌^◌, ◌<◌, ◌≤◌, true, false, not, Bytes, bytes_beq, codes, List, [], ◌∷◌, ◌++◌, keep_if, length,
  length-replicate, replicate, take, drop, All, ◌≡◌, refl, subst, sym, ap, arith, inr,
}
use ganshin_mq.Base.Map.{lookup, insert}
use ganshin_mq.Amqp.Properties.{no_properties}
use ganshin_mq.Amqp.Buffer.{
  ok, write_long_string, write_uint32, write_uint64, write_uint8, write_uint16,
}
use ganshin_mq.Amqp.Content.{encode, flags, write_if}
use ganshin_mq.Amqp.Content.RoundTrip.{FitsProperties}
use ganshin_mq.Storage.Entry.{
  StoredMessage, StoredQueueDecl, Entry, message, ack, queue_declare, queue_delete, entry_type,
  payload, entry, parse,
}
use ganshin_mq.Storage.Entry.Parsing.{parse-payload}
use ganshin_mq.Storage.Wal.{
  Recovering, write_frame, write_entry, write_all, recover, live_entries, compact, apply,
  apply_data, drop_acked, is_acked,
}
use ganshin_mq.Storage.Wal.Recovery.{
  Storable, recovered, replay, recover-torn, recover-oversize, recover-compact, recover-whole,
}
use ganshin_mq.Storage.Wal.Acks.{acked_in, stored, recover-messages, IdBelow, recover-next_msg_id}

abbrev job : ℕ → StoredMessage
job id = record {
  id = id;
  queue_name = codes "jobs";
  exchange = [];
  routing_key = codes "jobs";
  properties = no_properties;
  body = codes "x";
}

abbrev jobs : StoredQueueDecl
jobs = record { name = codes "jobs"; durable = true; auto_delete = false }

abbrev history : List Entry
history = queue_declare jobs ∷ message (job 1) ∷ message (job 2) ∷ ack (codes "jobs") 1 ∷ []

no_properties-FitsProperties : FitsProperties no_properties
no_properties-FitsProperties = record {
  content_type = tt;
  content_encoding = tt;
  headers = tt;
  delivery_mode = tt;
  priority = tt;
  correlation_id = tt;
  reply_to = tt;
  expiration = tt;
  message_id = tt;
  timestamp = tt;
  type = tt;
  user_id = tt;
  app_id = tt;
  cluster_id = tt;
}

job-Storable : (id : ℕ) → id < 2 ^ 64 → Storable (message (job id))
unfolding payload write_long_string write_uint32 write_uint64 write_uint8 write_uint16 encode flags
    write_if
job-Storable id h = ((h, no_properties-FitsProperties), ground arith)

history-Storable : All Storable history
unfolding payload write_long_string write_uint32 write_uint64 write_uint8
history-Storable = (
  (tt, ground arith),
  (
    job-Storable 1 (ground arith),
    (job-Storable 2 (ground arith), ((ground arith, ground arith), tt)),
  ),
)

parse-payload_example :
    parse (entry_type (message (job 1))) (payload (message (job 1))) ≡ ok (entry (message (job 1)))
parse-payload_example =
    parse-payload (message (job 1)) (job-Storable 1 (ground arith)).0
      (ground (arith, (job-Storable 1 (ground arith)).1))

-- The first five bytes of an entry, and three bytes that were written behind them.
recover-torn_example :
    recover
      (write_all history ++ (take 5 (write_entry (ack (codes "jobs") 2)) ++ (0 ∷ 0 ∷ 0 ∷ [])))
      1
    ≡ recovered history 1
recover-torn_example =
    recover-torn history (ack (codes "jobs") 2) (take 5 (write_entry (ack (codes "jobs") 2))) 0
      (drop 6 (write_entry (ack (codes "jobs") 2))) (0 ∷ 0 ∷ 0 ∷ []) 1 history-Storable
      (unfold payload write_long_string write_uint32 write_uint64 in ground arith)
      (unfold write_entry write_frame payload write_long_string write_uint32 write_uint64 in refl)
      (inr (
        unfold write_entry write_frame payload write_long_string write_uint32 write_uint64 in
            (ground arith),
        unfold write_entry write_frame payload write_long_string write_uint32 write_uint64 in
            (ground arith),
      ))

long_text : (n : ℕ) → (s : Bytes) × (length s ≡ n)
long_text n = (replicate n 0, length-replicate n 0)

-- A name of 64 MB.
abbrev huge : Bytes
huge = (long_text 67108864).0

length-payload : length (payload (queue_delete huge)) ≡ 67108868
unfolding payload write_long_string write_uint32
length-payload = omega (arith, (long_text 67108864).1)

recover-oversize_example :
    recover (write_all history ++ (write_entry (queue_delete huge) ++ write_all history)) 1
    ≡ recovered history 1
recover-oversize_example =
    recover-oversize history (queue_delete huge) (write_all history) 1 history-Storable
      (omega (arith, length-payload)) (omega (arith, length-payload))

history-live :
    live_entries (recover (write_all history) 1).result ≡ live_entries (recovered history 1).result
history-live =
    ap (λ (r : Recovering). live_entries r.result) (recover-whole history 1 history-Storable)

live-Storable : All Storable (live_entries (recovered history 1).result)
unfolding bytes_beq recovered replay apply apply_data lookup insert live_entries drop_acked is_acked
    payload write_long_string write_uint32 write_uint64 write_uint8
live-Storable = ((tt, ground arith), (job-Storable 2 (ground arith), tt))

recover-compact_example :
    (recover (compact (write_all history) 1).0 9).result
    ≡ record ((recover (write_all history) 1).result) { acked_messages = [] }
recover-compact_example =
    recover-compact (write_all history) 1 9 (subst (All Storable) (sym history-live) live-Storable)

recover-messages_example :
    (recover (write_all history) 1).result.messages
    ≡ keep_if (λ m. not (acked_in history m)) (stored history [])
recover-messages_example = recover-messages history 1 history-Storable

recover-next_msg_id_example :
    (1 ≤ (recover (write_all history) 1).next_msg_id)
    × All (IdBelow (recover (write_all history) 1).next_msg_id) history
recover-next_msg_id_example =
    recover-next_msg_id history 1 history-Storable (tt, (ground arith, (ground arith, (tt, tt))))
