-- ===== src/Broker/Channel/Settling.antt =====
-- broker/channel.cpp: acknowledging, rejecting and recovering deliveries, and the end of a channel.
use ganshin_mq.Base.{
  ℕ, ◌+◌, ◌-◌, ◌%◌, ◌^◌, Bool, true, not, ◌&&◌, Bytes, List, [], ◌∷◌, ◌++◌, Option, none, some,
  ◌==◌, nat_eq, bytes_eq, if◌then◌else◌, leb, map,
}
use ganshin_mq.Base.Map.{lookup, erase}
use ganshin_mq.Amqp.Buffer.{Result, ok, ◌>>=◌, read_uint8, read_uint64}
use ganshin_mq.Broker.Message.{is_persistent}
use ganshin_mq.Broker.Consumer.{Consumer}
use ganshin_mq.Broker.Queue
use ganshin_mq.Broker.Queue.{MessageQueue, Effects, no_effects}
use ganshin_mq.Storage.Store
use ganshin_mq.Storage.Store.{MessageStore}
use ganshin_mq.Broker.VirtualHost.State.{VirtualHost, log}
use ganshin_mq.Broker.VirtualHost.Queues.{find_queue}
use ganshin_mq.Broker.Channel.State.{
  Channel, UnackedMessage, basic_recover_ok, Handled, replied, bit_0, bit_1,
}
use ganshin_mq.Broker.Channel.Declaring.{put_queue}
use ganshin_mq.Broker.Channel.Consuming.{remove_from}

-- `in_flight.fetch_sub(1)` on the consumer at the address, on 32 bits.
unfoldable pub release_slot : ℕ → Consumer → Consumer
release_slot object c = record c {
  in_flight = if c.object == object then (c.in_flight + (2 ^ 32 - 1)) % 2 ^ 32 else c.in_flight;
}

unfoldable pub release : Option ℕ → VirtualHost → VirtualHost
unfolding release_slot
release none v = v
release (some object) v = record v {
  queues =
      map (λ (name, q). (name, record q { consumers = map (release_slot object) q.consumers }))
        v.queues;
}

-- The part of `persistAck` that logs.
unfoldable pub log_ack : UnackedMessage → VirtualHost → VirtualHost
unfolding log
log_ack u v = elim (find_queue u.queue_name v) [
  | none ↦ v
  | some q ↦
      if is_persistent u.message && (q.durable && not (u.message.wal_id == 0))
      then log (Store.store_ack u.queue_name u.message.wal_id) v
      else v
]

unfoldable pub persist_ack : UnackedMessage → VirtualHost → VirtualHost
unfolding release log_ack
persist_ack u v = log_ack u (release u.consumer v)

-- `if (q) q->reject(tag, requeue, message);`
unfoldable pub give_back : Bool → UnackedMessage → VirtualHost → VirtualHost × Effects
give_back requeue u v = elim (find_queue u.queue_name v) [
  | none ↦ (v, no_effects)
  | some q ↦
      let (q', effects) = Queue.reject requeue u.message q in (put_queue u.queue_name q' v, effects)
]

abbrev pub settled : ℕ → Channel → Channel
settled tag ch = record ch { unacked_messages = erase tag ch.unacked_messages }

unfoldable pub ack_one : ℕ → Channel → VirtualHost → Channel × VirtualHost
unfolding persist_ack
ack_one tag ch v = elim (lookup tag ch.unacked_messages) [
  | none ↦ (ch, v)
  | some u ↦ (settled tag ch, persist_ack u v)
]

unfoldable pub ack_each : List ℕ → Channel → VirtualHost → Channel × VirtualHost
unfolding ack_one
ack_each [] ch v = (ch, v)
ack_each (tag ∷ tags) ch v = let (ch', v') = ack_one tag ch v in ack_each tags ch' v'

-- The tags up to a tag.
unfoldable pub tags_up_to : ℕ → List (ℕ × UnackedMessage) → List ℕ
tags_up_to limit [] = []
tags_up_to limit ((tag, u) ∷ more) =
    let rest = tags_up_to limit more in if leb tag limit then tag ∷ rest else rest

unfoldable pub settle_ack : ℕ → Bool → Channel → VirtualHost → Channel × VirtualHost
unfolding ack_each tags_up_to
settle_ack tag multiple ch v =
    if multiple then ack_each (tags_up_to tag ch.unacked_messages) ch v else ack_one tag ch v

unfoldable pub handle_basic_ack : Bytes → Channel → VirtualHost → Result Handled
unfolding settle_ack
handle_basic_ack buf ch v = do
  (tag, s1) ← read_uint64 buf
  (bits, s2) ← read_uint8 s1
  replied (settle_ack tag (bit_0 bits) ch v).0 (settle_ack tag (bit_0 bits) ch v).1 []

abbrev pub Settled : Type 0
Settled = Channel × VirtualHost × List Effects

unfoldable pub nack_one : Bool → ℕ → Channel → VirtualHost → Settled
unfolding persist_ack give_back
nack_one requeue tag ch v = elim (lookup tag ch.unacked_messages) [
  | none ↦ (ch, v, [])
  | some u ↦
      let (v', effects) = give_back requeue u (if requeue then v else persist_ack u v) in
      (settled tag ch, v', effects ∷ [])
]

unfoldable pub nack_each : Bool → List ℕ → Channel → VirtualHost → Settled
unfolding nack_one
nack_each requeue [] ch v = (ch, v, [])
nack_each requeue (tag ∷ tags) ch v =
    let (ch', v', effects) = nack_one requeue tag ch v in
    let (ch'', v'', more) = nack_each requeue tags ch' v' in (ch'', v'', effects ++ more)

unfoldable pub handle_basic_reject : Bytes → Channel → VirtualHost → Result Handled
unfolding nack_one
handle_basic_reject buf ch v = do
  (tag, s1) ← read_uint64 buf
  (bits, s2) ← read_uint8 s1
  let (ch', v', effects) = nack_one (bit_0 bits) tag ch v
  ok (ch', v', [], effects)

unfoldable pub settle_nack : ℕ → Bool → Bool → Channel → VirtualHost → Settled
unfolding nack_each tags_up_to
settle_nack tag multiple requeue ch v =
    nack_each requeue (if multiple then tags_up_to tag ch.unacked_messages else tag ∷ []) ch v

unfoldable pub handle_basic_nack : Bytes → Channel → VirtualHost → Result Handled
unfolding settle_nack
handle_basic_nack buf ch v = do
  (tag, s1) ← read_uint64 buf
  (bits, s2) ← read_uint8 s1
  let (ch', v', effects) = settle_nack tag (bit_0 bits) (bit_1 bits) ch v
  ok (ch', v', [], effects)

-- The loop of `basic.recover` over the deliveries.
unfoldable pub requeue_each : List (ℕ × UnackedMessage) → VirtualHost → VirtualHost × List Effects
unfolding give_back
requeue_each [] v = (v, [])
requeue_each ((tag, u) ∷ more) v =
    let (v1, effects) = give_back true u v in
    let (v2, rest) = requeue_each more v1 in (v2, effects ∷ rest)

abbrev pub all_settled : Channel → Channel
all_settled ch = record ch { unacked_messages = [] }

unfoldable pub handle_basic_recover : Bytes → Channel → VirtualHost → Result Handled
unfolding requeue_each
handle_basic_recover buf ch v = do
  (bits, s1) ← read_uint8 buf
  let (v', effects) = if bit_0 bits then requeue_each ch.unacked_messages v else (v, [])
  ok (all_settled ch, v', basic_recover_ok ∷ [], effects)

-- The loop of `requeueUnackedMessages`, which takes each off its consumer first.
unfoldable pub requeue_unacked :
    List (ℕ × UnackedMessage) → VirtualHost → VirtualHost × List Effects
unfolding release give_back
requeue_unacked [] v = (v, [])
requeue_unacked ((tag, u) ∷ more) v =
    let (v1, effects) = give_back true u (release u.consumer v) in
    let (v2, rest) = requeue_unacked more v1 in (v2, effects ∷ rest)

-- The loop of `removeAllConsumers`.
unfoldable pub remove_each : List (Bytes × Consumer) → VirtualHost → VirtualHost
unfolding remove_from
remove_each [] v = v
remove_each ((tag, c) ∷ more) v = remove_each more (remove_from c.queue_name tag v)

unfoldable pub remove_all_consumers : Channel → VirtualHost → Channel × VirtualHost × List Effects
unfolding remove_each requeue_unacked
remove_all_consumers ch v =
    let (v', effects) = requeue_unacked ch.unacked_messages (remove_each ch.consumers v) in
    (record ch { consumers = []; unacked_messages = [] }, v', effects)
