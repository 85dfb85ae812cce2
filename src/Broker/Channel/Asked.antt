-- ===== src/Broker/Channel/Asked.antt =====
-- What the operations of a channel do to the host is asked of it by requests.
use ganshin_mq.Base.{
  ℕ, Bool, true, false, not, ◌&&◌, Bytes, Option, none, some, ◌==◌, nat_eq, bytes_eq, if◌then◌else◌,
  ◌≡◌, refl, subst,
}
use ganshin_mq.Base.Map.{lookup, insert, erase}
use ganshin_mq.Broker.Message.{is_persistent}
use ganshin_mq.Broker.Consumer.{Consumer}
use ganshin_mq.Broker.Queue
use ganshin_mq.Broker.Queue.{MessageQueue, Effects, no_effects}
use ganshin_mq.Storage.Store.{store_ack}
use ganshin_mq.Broker.VirtualHost.State.{VirtualHost, log}
use ganshin_mq.Broker.VirtualHost.Queues.{find_queue}
use ganshin_mq.Broker.VirtualHost.Requests.{
  QueueWork, getting, purging, subscribing, cancelling, rejecting, work, working, logging_ack,
  releasing, perform, Ran, at_rest, Ran-trans, asks,
}
use ganshin_mq.Broker.Channel.State.{Channel, UnackedMessage}
use ganshin_mq.Broker.Channel.Declaring.{put_queue, purge_found}
use ganshin_mq.Broker.Channel.Consuming.{
  ConsumeRequest, consume_found, remove_from, cancel, get_found, new_consumer, take_tag,
}
use ganshin_mq.Broker.Channel.Settling.{release, log_ack, persist_ack, give_back}

-- Work on a queue that is there.
worked :
    (name : Bytes) (w : QueueWork) (q : MessageQueue) (v : VirtualHost)
    → find_queue name v ≡ some q
    → Ran v (put_queue name (work w q) v)
unfolding find_queue perform
worked name w q v there = subst (λ o. Ran v (next o)) there (asks (working name w) v)
  where
    next : Option MessageQueue → VirtualHost
    next o = elim o [ none ↦ v | some q ↦ record v { queues = insert name (work w q) v.queues } ]

pub purge_found-Ran :
    (queue : Bytes) (no_wait : Bool) (ch : Channel) (v : VirtualHost) (o : Option MessageQueue)
    → find_queue queue v ≡ o
    → Ran v (purge_found queue no_wait ch v o).1
unfolding purge_found work
purge_found-Ran queue no_wait ch v none there = at_rest
purge_found-Ran queue no_wait ch v (some q) there = worked queue purging q v there

pub get_found-Ran :
    (now : ℕ) (queue : Bytes) (no_ack : Bool) (ch : Channel) (v : VirtualHost)
    (o : Option MessageQueue)
    → find_queue queue v ≡ o
    → Ran v (get_found now queue no_ack ch v o).1
unfolding get_found work
get_found-Ran now queue no_ack ch v none there = at_rest
get_found-Ran now queue no_ack ch v (some q) there = worked queue (getting now) q v there

pub consume_found-Ran :
    (object : ℕ) (r : ConsumeRequest) (ch : Channel) (v : VirtualHost) (o : Option MessageQueue)
    → find_queue r.queue v ≡ o
    → Ran v (consume_found object r ch v o).1
unfolding consume_found work
consume_found-Ran object r ch v none there = at_rest
consume_found-Ran object r ch v (some q) there =
    worked r.queue
      (subscribing
        (new_consumer object (take_tag r.consumer_tag ch).1 r (take_tag r.consumer_tag ch).0))
      q v there

pub remove_from-Ran : (queue tag : Bytes) (v : VirtualHost) → Ran v (remove_from queue tag v)
unfolding remove_from work
remove_from-Ran queue tag v = by_queue (find_queue queue v) refl
  where
    by_queue :
        (o : Option MessageQueue)
        → find_queue queue v ≡ o
        → Ran v (
            let r : VirtualHost = elim o [
              | none ↦ v
              | some q ↦ put_queue queue (Queue.remove_consumer tag q).0 v
            ] in
            r)
    by_queue none there = at_rest
    by_queue (some q) there = worked queue (cancelling tag) q v there

pub cancel-Ran : (tag : Bytes) (ch : Channel) (v : VirtualHost) → Ran v (cancel tag ch v).1
unfolding cancel
cancel-Ran tag ch v = by_consumer (lookup tag ch.consumers)
  where
    by_consumer :
        (o : Option Consumer)
        → Ran v
            (let r : Channel × VirtualHost = elim o [
              | none ↦ (ch, v)
              | some c ↦
                  (record ch { consumers = erase tag ch.consumers }, remove_from c.queue_name tag v)
            ] in
              r).1
    by_consumer none = at_rest
    by_consumer (some c) = remove_from-Ran c.queue_name tag v

pub release-Ran : (object : Option ℕ) (v : VirtualHost) → Ran v (release object v)
unfolding release perform
release-Ran none v = at_rest
release-Ran (some object) v = asks (releasing object) v

pub if-Ran : (b : Bool) (v x y : VirtualHost) → Ran v x → Ran v y → Ran v (if b then x else y)
if-Ran true v x y h k = h
if-Ran false v x y h k = k

log_ack-Ran : (u : UnackedMessage) (v : VirtualHost) → Ran v (log_ack u v)
unfolding log_ack perform
log_ack-Ran u v = by_queue (find_queue u.queue_name v)
  where
    by_queue :
        (o : Option MessageQueue)
        → Ran v (
            let r : VirtualHost = elim o [
              | none ↦ v
              | some q ↦
                  if is_persistent u.message && (q.durable && not (u.message.wal_id == 0))
                  then log (store_ack u.queue_name u.message.wal_id) v
                  else v
            ] in
            r)
    by_queue none = at_rest
    by_queue (some q) =
        if-Ran (is_persistent u.message && (q.durable && not (u.message.wal_id == 0))) v _ v
          (asks (logging_ack u.queue_name u.message.wal_id) v) at_rest

pub persist_ack-Ran : (u : UnackedMessage) (v : VirtualHost) → Ran v (persist_ack u v)
unfolding persist_ack
persist_ack-Ran u v =
    Ran-trans v (release u.consumer v) (log_ack u (release u.consumer v)) (release-Ran u.consumer v)
      (log_ack-Ran u (release u.consumer v))

pub give_back-Ran :
    (requeue : Bool) (u : UnackedMessage) (v : VirtualHost) → Ran v (give_back requeue u v).0
unfolding give_back work
give_back-Ran requeue u v = by_queue (find_queue u.queue_name v) refl
  where
    by_queue :
        (o : Option MessageQueue)
        → find_queue u.queue_name v ≡ o
        → Ran v
            (let r : VirtualHost × Effects = elim o [
              | none ↦ (v, no_effects)
              | some q ↦
                  let (q', effects) = Queue.reject requeue u.message q in
                  (put_queue u.queue_name q' v, effects)
            ] in
              r).0
    by_queue none there = at_rest
    by_queue (some q) there = worked u.queue_name (rejecting requeue u.message) q v there
