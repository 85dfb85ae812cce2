-- ===== src/Broker/Channel/AskedMethods.antt =====
-- What every method of a channel does to the host is asked of it by requests.
use ganshin_mq.Base.{ℕ, Bool, true, false, Bytes, List, [], ◌==◌, nat_eq, if◌then◌else◌, refl}
use ganshin_mq.Amqp.Buffer.Ensures.{
  Ensures, if-Ensures, after_uint8, after_uint16, after_uint32, after_uint64, after_short_string,
}
use ganshin_mq.Amqp.Content.Decided.{after_table}
use ganshin_mq.Broker.VirtualHost.State.{VirtualHost, Outcome, granted, refused}
use ganshin_mq.Broker.Queue.{Effects}
use ganshin_mq.Broker.Channel.State.{Channel, Sent, Handled, bit_0, bit_1}
use ganshin_mq.Broker.Channel.Publishing.{handle_basic_publish, handle_confirm_select}
use ganshin_mq.Broker.Channel.Declaring.{
  answer, handle_exchange_declare, handle_exchange_delete, handle_queue_declare, handle_queue_bind,
  handle_queue_unbind, handle_queue_purge, handle_queue_delete,
}
use ganshin_mq.Broker.Channel.Consuming.{
  handle_basic_qos, handle_basic_consume, handle_basic_cancel, handle_basic_get,
}
use ganshin_mq.Broker.Channel.Settling.{
  handle_basic_ack, handle_basic_reject, handle_basic_nack, handle_basic_recover, requeue_each,
}
use ganshin_mq.Broker.Channel.Methods.{
  Moment, handle_tx_select, handle_tx_commit, handle_tx_rollback, not_implemented, handle_exchange,
  handle_queue, handle_basic, handle_confirm, handle_tx, handle_method,
}
use ganshin_mq.Broker.VirtualHost.Queues.{find_queue}
use ganshin_mq.Broker.VirtualHost.Requests.{
  declaring_exchange, deleting_exchange, declaring_queue, deleting_queue, binding, unbinding,
  perform, Ran, at_rest, asks,
}
use ganshin_mq.Broker.Channel.Asked.{purge_found-Ran, get_found-Ran, consume_found-Ran, cancel-Ran}
use ganshin_mq.Broker.Channel.AskedLoops.{
  settle_ack-Ran, nack_one-Ran, settle_nack-Ran, requeue_each-Ran,
}

-- What a handler leaves is the host after requests.
abbrev pub Asks : VirtualHost → Handled → Type 0
Asks v h = Ran v h.1

if-Asks :
    (v : VirtualHost) (b : Bool) (x y : Handled)
    → Ran v x.1
    → Ran v y.1
    → Ran v (if b then x else y).1
if-Asks v true x y p q = p
if-Asks v false x y p q = q

module _ (ch : Channel) (v : VirtualHost) where
  not_implemented-Asks : (c m : ℕ) → Ensures (Asks v) (not_implemented c m ch v)
  unfolding not_implemented
  not_implemented-Asks c m = at_rest

  answer-Asks :
      {A : Type 0} (c m : ℕ) (confirm : A → List Sent) (r : VirtualHost × Outcome A)
      → Ran v r.0
      → Ensures (Asks v) (answer c m confirm ch r)
  unfolding answer
  answer-Asks c m confirm (w, refused code text) h = h
  answer-Asks c m confirm (w, granted a) h = h

  exchange-Asks : (m : ℕ) (buf : Bytes) → Ensures (Asks v) (handle_exchange m buf ch v)
  unfolding handle_exchange handle_exchange_declare handle_exchange_delete perform
  exchange-Asks m buf =
      if-Ensures (Asks v) (m == 10) _ _
        (after_uint16 (Asks v) buf _ (λ a. after_short_string (Asks v) a.1 _ (λ b.
          after_short_string (Asks v) b.1 _ (λ c. after_uint8 (Asks v) c.1 _ (λ d.
            after_table (Asks v) d.1 _
              (λ e. answer-Asks _ _ _ _ (asks (declaring_exchange _) v)))))))
        (if-Ensures (Asks v) (m == 20) _ _
          (after_uint16 (Asks v) buf _ (λ a. after_short_string (Asks v) a.1 _ (λ b.
            after_uint8 (Asks v) b.1 _
              (λ c. answer-Asks _ _ _ _ (asks (deleting_exchange b.0) v)))))
          (not_implemented-Asks _ m))

  queue_binding-Asks :
      (buf : Bytes)
      → Ensures (Asks v) (handle_queue_bind buf ch v)
        × Ensures (Asks v) (handle_queue_unbind buf ch v)
  unfolding handle_queue_bind handle_queue_unbind perform
  queue_binding-Asks buf = (
    after_uint16 (Asks v) buf _ (λ a. after_short_string (Asks v) a.1 _ (λ b.
        after_short_string (Asks v) b.1 _ (λ c. after_short_string (Asks v) c.1 _ (λ d.
          after_uint8 (Asks v) d.1 _ (λ e.
            after_table (Asks v) e.1 _
              (λ f. answer-Asks _ _ _ _ (asks (binding b.0 c.0 d.0 f.0) v))))))),
    after_uint16 (Asks v) buf _ (λ a. after_short_string (Asks v) a.1 _ (λ b.
        after_short_string (Asks v) b.1 _ (λ c. after_short_string (Asks v) c.1 _ (λ d.
          after_table (Asks v) d.1 _
            (λ f. answer-Asks _ _ _ _ (asks (unbinding b.0 c.0 d.0) v)))))),
  )

  queue-Asks : (m : ℕ) (buf : Bytes) → Ensures (Asks v) (handle_queue m buf ch v)
  unfolding handle_queue handle_queue_declare handle_queue_purge handle_queue_delete perform
  queue-Asks m buf =
      if-Ensures (Asks v) (m == 10) _ _
        (after_uint16 (Asks v) buf _ (λ a. after_short_string (Asks v) a.1 _ (λ b.
          after_uint8 (Asks v) b.1 _ (λ c.
            after_table (Asks v) c.1 _ (λ d. answer-Asks _ _ _ _ (asks (declaring_queue _) v))))))
        (if-Ensures (Asks v) (m == 20) _ _ (queue_binding-Asks buf).0 (
          if-Ensures (Asks v) (m == 50) _ _ (queue_binding-Asks buf).1 (
            if-Ensures (Asks v) (m == 30) _ _
              (after_uint16 (Asks v) buf _ (λ a. after_short_string (Asks v) a.1 _ (λ b.
                after_uint8 (Asks v) b.1 _
                  (λ c. purge_found-Ran b.0 _ ch v (find_queue b.0 v) refl))))
              (if-Ensures (Asks v) (m == 40) _ _
                (after_uint16 (Asks v) buf _ (λ a. after_short_string (Asks v) a.1 _ (λ b.
                  after_uint8 (Asks v) b.1 _
                    (λ c. answer-Asks _ _ _ _ (asks (deleting_queue b.0 _ _) v)))))
                (not_implemented-Asks _ m)))))

  confirm-Asks : (m : ℕ) (buf : Bytes) → Ensures (Asks v) (handle_confirm m buf ch v)
  unfolding handle_confirm handle_confirm_select
  confirm-Asks m buf =
      if-Ensures (Asks v) (m == 10) _ _ (after_uint8 (Asks v) buf _ (λ a. at_rest))
        (not_implemented-Asks _ m)

  tx-Asks : (m : ℕ) (buf : Bytes) → Ensures (Asks v) (handle_tx m buf ch v)
  unfolding handle_tx handle_tx_select handle_tx_commit handle_tx_rollback
  tx-Asks m buf = if-Ensures (Asks v) (m == 10) _ _ at_rest (
      if-Ensures (Asks v) (m == 20) _ _ at_rest
        (if-Ensures (Asks v) (m == 30) _ _ at_rest (not_implemented-Asks _ m)))

  settling-Asks :
      (buf : Bytes)
      → Ensures (Asks v) (handle_basic_ack buf ch v)
        × Ensures (Asks v) (handle_basic_reject buf ch v)
        × Ensures (Asks v) (handle_basic_nack buf ch v)
        × Ensures (Asks v) (handle_basic_recover buf ch v)
  unfolding handle_basic_ack handle_basic_reject handle_basic_nack handle_basic_recover
  settling-Asks buf = (
    after_uint64 (Asks v) buf _ (λ a. after_uint8 (Asks v) a.1 _ (λ b. settle_ack-Ran a.0 _ ch v)),
    after_uint64 (Asks v) buf _ (λ a. after_uint8 (Asks v) a.1 _ (λ b. nack_one-Ran _ a.0 ch v)),
    after_uint64 (Asks v) buf _
        (λ a. after_uint8 (Asks v) a.1 _ (λ b. settle_nack-Ran a.0 _ _ ch v)),
    after_uint8 (Asks v) buf _ (λ b. recovered (bit_0 b.0)),
  )
    where
      recovered :
          (requeue : Bool)
          → Ran v
              (let r : VirtualHost × List Effects =
                  if requeue then requeue_each ch.unacked_messages v else (v, []) in
                r).0
      recovered true = requeue_each-Ran ch.unacked_messages v
      recovered false = at_rest

  basic_other-Asks :
      (t : Moment) (buf : Bytes)
      → Ensures (Asks v) (handle_basic_qos buf ch v)
        × Ensures (Asks v) (handle_basic_consume t.fresh buf ch v)
        × Ensures (Asks v) (handle_basic_cancel buf ch v)
        × Ensures (Asks v) (handle_basic_publish buf ch v)
        × Ensures (Asks v) (handle_basic_get t.now buf ch v)
  unfolding handle_basic_qos handle_basic_consume handle_basic_cancel handle_basic_publish
      handle_basic_get
  basic_other-Asks t buf = (
    after_uint32 (Asks v) buf _
        (λ a. after_uint16 (Asks v) a.1 _ (λ b. after_uint8 (Asks v) b.1 _ (λ c. at_rest))),
    after_uint16 (Asks v) buf _ (λ a. after_short_string (Asks v) a.1 _ (λ b.
        after_short_string (Asks v) b.1 _ (λ c. after_uint8 (Asks v) c.1 _ (λ d.
          after_table (Asks v) d.1 _
            (λ e. consume_found-Ran t.fresh _ ch v (find_queue b.0 v) refl))))),
    after_short_string (Asks v) buf _ (λ a. after_uint8 (Asks v) a.1 _ (λ b. cancel-Ran a.0 ch v)),
    after_uint16 (Asks v) buf _ (λ a. after_short_string (Asks v) a.1 _ (λ b.
        after_short_string (Asks v) b.1 _
          (λ c. after_uint8 (Asks v) c.1 _ (λ d. if-Asks v (bit_1 d.0) _ _ at_rest at_rest)))),
    after_uint16 (Asks v) buf _ (λ a. after_short_string (Asks v) a.1 _ (λ b.
        after_uint8 (Asks v) b.1 _ (λ c. get_found-Ran t.now b.0 _ ch v (find_queue b.0 v) refl))),
  )

  basic-Asks : (t : Moment) (m : ℕ) (buf : Bytes) → Ensures (Asks v) (handle_basic t m buf ch v)
  unfolding handle_basic
  basic-Asks t m buf =
      let settle = settling-Asks buf in
      let other = basic_other-Asks t buf in
      if-Ensures (Asks v) (m == 10) _ _ other.0 (
        if-Ensures (Asks v) (m == 20) _ _ other.1 (
          if-Ensures (Asks v) (m == 30) _ _ other.2 (
            if-Ensures (Asks v) (m == 40) _ _ other.3 (
              if-Ensures (Asks v) (m == 70) _ _ other.4 (
                if-Ensures (Asks v) (m == 80) _ _ settle.0 (
                  if-Ensures (Asks v) (m == 90) _ _ settle.1 (
                    if-Ensures (Asks v) (m == 110) _ _ settle.3 (
                      if-Ensures (Asks v) (m == 100) _ _ settle.3 (
                        if-Ensures (Asks v) (m == 120) _ _ settle.2
                          (not_implemented-Asks _ m))))))))))

  pub handle_method-Asks :
      (t : Moment) (class_id m : ℕ) (buf : Bytes)
      → Ensures (Asks v) (handle_method t class_id m buf ch v)
  unfolding handle_method
  handle_method-Asks t class_id m buf =
      if-Ensures (Asks v) (class_id == 40) _ _ (exchange-Asks m buf) (
        if-Ensures (Asks v) (class_id == 50) _ _ (queue-Asks m buf) (
          if-Ensures (Asks v) (class_id == 60) _ _ (basic-Asks t m buf) (
            if-Ensures (Asks v) (class_id == 85) _ _ (confirm-Asks m buf) (
              if-Ensures (Asks v) (class_id == 90) _ _ (tx-Asks m buf)
                (not_implemented-Asks class_id m)))))
