-- ===== src/Broker/Channel/Steps.antt =====
-- What every method does to the delivery tags of a channel.
use ganshin_mq.Base.{
  ℕ, ◌+◌, ◌^◌, ◌<◌, Bool, true, false, Bytes, List, Option, none, some, ◌==◌, nat_eq, if◌then◌else◌,
  arith, Bool-cases, inl, inr,
}
use ganshin_mq.Amqp.Buffer.Ensures.{
  Ensures, if-Ensures, after_uint8, after_uint16, after_uint32, after_uint64, after_short_string,
}
use ganshin_mq.Amqp.Content.Decided.{after_table}
use ganshin_mq.Broker.VirtualHost.State.{VirtualHost, Outcome, granted, refused}
use ganshin_mq.Broker.Queue.{MessageQueue}
use ganshin_mq.Broker.Channel.State.{Channel, PendingPublish, Sent, Handled, bit_1}
use ganshin_mq.Broker.Channel.Publishing.{handle_basic_publish, handle_confirm_select, complete}
use ganshin_mq.Broker.Channel.Declaring.{
  answer, handle_exchange_declare, handle_exchange_delete, handle_queue_declare, handle_queue_bind,
  handle_queue_unbind, handle_queue_purge, handle_queue_delete, purge_found,
}
use ganshin_mq.Broker.Channel.Consuming.{
  handle_basic_qos, handle_basic_consume, handle_basic_cancel, handle_basic_get,
}
use ganshin_mq.Broker.Channel.Settling.{
  handle_basic_ack, handle_basic_reject, handle_basic_nack, handle_basic_recover,
}
use ganshin_mq.Broker.Channel.Methods.{
  Moment, handle_tx_select, handle_tx_commit, handle_tx_rollback, not_implemented, handle_exchange,
  handle_queue, handle_basic, handle_confirm, handle_tx, handle_method,
}
use ganshin_mq.Broker.Channel.Tags.{
  TagsInv, Follows, Follows-refl, get_found-Follows, consume_found-Follows, cancel-Follows,
  settle_ack-Follows, nack_one-Follows, settle_nack-Follows,
}

abbrev pub Stays : Channel → Handled → Type 0
Stays ch h = Follows ch h.0

if-Follows :
    (ch : Channel) (b : Bool) (x y : Handled)
    → Follows ch x.0
    → Follows ch y.0
    → Follows ch (if b then x else y).0
if-Follows ch true x y p q = p
if-Follows ch false x y p q = q

module _ (ch : Channel) (v : VirtualHost) (h : TagsInv ch) where
  same : Follows ch ch
  same = Follows-refl ch h

  not_implemented-Stays : (c m : ℕ) → Ensures (Stays ch) (not_implemented c m ch v)
  unfolding not_implemented
  not_implemented-Stays c m = same

  answer-Stays :
      {A : Type 0} (c m : ℕ) (confirm : A → List Sent) (r : VirtualHost × Outcome A)
      → Ensures (Stays ch) (answer c m confirm ch r)
  unfolding answer
  answer-Stays c m confirm (w, refused code text) = same
  answer-Stays c m confirm (w, granted a) = same

  exchange-Stays : (m : ℕ) (buf : Bytes) → Ensures (Stays ch) (handle_exchange m buf ch v)
  unfolding handle_exchange handle_exchange_declare handle_exchange_delete
  exchange-Stays m buf =
      if-Ensures (Stays ch) (m == 10) _ _
        (after_uint16 (Stays ch) buf _ (λ a. after_short_string (Stays ch) a.1 _ (λ b.
          after_short_string (Stays ch) b.1 _ (λ c.
            after_uint8 (Stays ch) c.1 _
              (λ d. after_table (Stays ch) d.1 _ (λ e. answer-Stays _ _ _ _))))))
        (if-Ensures (Stays ch) (m == 20) _ _
          (after_uint16 (Stays ch) buf _ (λ a.
            after_short_string (Stays ch) a.1 _
              (λ b. after_uint8 (Stays ch) b.1 _ (λ c. answer-Stays _ _ _ _))))
          (not_implemented-Stays _ m))

  purge_found-Stays :
      (queue : Bytes) (no_wait : Bool) (q : Option MessageQueue)
      → Follows ch (purge_found queue no_wait ch v q).0
  unfolding purge_found
  purge_found-Stays queue no_wait none = same
  purge_found-Stays queue no_wait (some q) = same

  queue_binding-Stays :
      (buf : Bytes)
      → Ensures (Stays ch) (handle_queue_bind buf ch v)
        × Ensures (Stays ch) (handle_queue_unbind buf ch v)
  unfolding handle_queue_bind handle_queue_unbind
  queue_binding-Stays buf = (
    after_uint16 (Stays ch) buf _ (λ a. after_short_string (Stays ch) a.1 _ (λ b.
        after_short_string (Stays ch) b.1 _ (λ c. after_short_string (Stays ch) c.1 _ (λ d.
          after_uint8 (Stays ch) d.1 _
            (λ e. after_table (Stays ch) e.1 _ (λ f. answer-Stays _ _ _ _)))))),
    after_uint16 (Stays ch) buf _ (λ a. after_short_string (Stays ch) a.1 _ (λ b.
        after_short_string (Stays ch) b.1 _ (λ c.
          after_short_string (Stays ch) c.1 _
            (λ d. after_table (Stays ch) d.1 _ (λ f. answer-Stays _ _ _ _))))),
  )

  queue-Stays : (m : ℕ) (buf : Bytes) → Ensures (Stays ch) (handle_queue m buf ch v)
  unfolding handle_queue handle_queue_declare handle_queue_purge handle_queue_delete
  queue-Stays m buf =
      if-Ensures (Stays ch) (m == 10) _ _
        (after_uint16 (Stays ch) buf _ (λ a. after_short_string (Stays ch) a.1 _ (λ b.
          after_uint8 (Stays ch) b.1 _
            (λ c. after_table (Stays ch) c.1 _ (λ d. answer-Stays _ _ _ _)))))
        (if-Ensures (Stays ch) (m == 20) _ _ (queue_binding-Stays buf).0 (
          if-Ensures (Stays ch) (m == 50) _ _ (queue_binding-Stays buf).1 (
            if-Ensures (Stays ch) (m == 30) _ _
              (after_uint16 (Stays ch) buf _ (λ a.
                after_short_string (Stays ch) a.1 _
                  (λ b. after_uint8 (Stays ch) b.1 _ (λ c. purge_found-Stays _ _ _))))
              (if-Ensures (Stays ch) (m == 40) _ _
                (after_uint16 (Stays ch) buf _ (λ a.
                  after_short_string (Stays ch) a.1 _
                    (λ b. after_uint8 (Stays ch) b.1 _ (λ c. answer-Stays _ _ _ _))))
                (not_implemented-Stays _ m)))))

  confirm-Stays : (m : ℕ) (buf : Bytes) → Ensures (Stays ch) (handle_confirm m buf ch v)
  unfolding handle_confirm handle_confirm_select
  confirm-Stays m buf =
      if-Ensures (Stays ch) (m == 10) _ _ (after_uint8 (Stays ch) buf _ (λ a. same))
        (not_implemented-Stays _ m)

  tx-Stays : (m : ℕ) (buf : Bytes) → Ensures (Stays ch) (handle_tx m buf ch v)
  unfolding handle_tx handle_tx_select handle_tx_commit handle_tx_rollback
  tx-Stays m buf = if-Ensures (Stays ch) (m == 10) _ _ same (
      if-Ensures (Stays ch) (m == 20) _ _ same
        (if-Ensures (Stays ch) (m == 30) _ _ same (not_implemented-Stays _ m)))

  pub complete-Follows : (now : ℕ) (p : PendingPublish) → Follows ch (complete now p ch v).0
  unfolding complete
  complete-Follows now p = elim (Bool-cases ch.confirm_mode) [
    | inl e ↦ rw (e, complete) same
    | inr e ↦ rw (e, complete) same
  ]

-- The methods that touch the deliveries.
module _ (ch : Channel) (v : VirtualHost) (h : TagsInv ch) where
  settling-Stays :
      (buf : Bytes)
      → Ensures (Stays ch) (handle_basic_ack buf ch v)
        × Ensures (Stays ch) (handle_basic_reject buf ch v)
        × Ensures (Stays ch) (handle_basic_nack buf ch v)
        × Ensures (Stays ch) (handle_basic_recover buf ch v)
  unfolding handle_basic_ack handle_basic_reject handle_basic_nack handle_basic_recover
  settling-Stays buf = (
    after_uint64 (Stays ch) buf _
        (λ a. after_uint8 (Stays ch) a.1 _ (λ b. settle_ack-Follows a.0 _ ch v h)),
    after_uint64 (Stays ch) buf _
        (λ a. after_uint8 (Stays ch) a.1 _ (λ b. nack_one-Follows _ a.0 ch v h)),
    after_uint64 (Stays ch) buf _
        (λ a. after_uint8 (Stays ch) a.1 _ (λ b. settle_nack-Follows a.0 _ _ ch v h)),
    after_uint8 (Stays ch) buf _ (λ b. (omega arith, tt)),
  )

  basic_other-Stays :
      (t : Moment) (buf : Bytes)
      → Ensures (Stays ch) (handle_basic_qos buf ch v)
        × Ensures (Stays ch) (handle_basic_consume t.fresh buf ch v)
        × Ensures (Stays ch) (handle_basic_cancel buf ch v)
        × Ensures (Stays ch) (handle_basic_publish buf ch v)
  unfolding handle_basic_qos handle_basic_consume handle_basic_cancel handle_basic_publish
  basic_other-Stays t buf = (
    after_uint32 (Stays ch) buf _ (λ a.
        after_uint16 (Stays ch) a.1 _ (λ b. after_uint8 (Stays ch) b.1 _ (λ c. Follows-refl ch h))),
    after_uint16 (Stays ch) buf _ (λ a. after_short_string (Stays ch) a.1 _ (λ b.
        after_short_string (Stays ch) b.1 _ (λ c.
          after_uint8 (Stays ch) c.1 _
            (λ d. after_table (Stays ch) d.1 _ (λ e. consume_found-Follows t.fresh _ ch v _ h))))),
    after_short_string (Stays ch) buf _
        (λ a. after_uint8 (Stays ch) a.1 _ (λ b. cancel-Follows a.0 ch v h)),
    after_uint16 (Stays ch) buf _ (λ a. after_short_string (Stays ch) a.1 _ (λ b.
        after_short_string (Stays ch) b.1 _ (λ c.
          after_uint8 (Stays ch) c.1 _
            (λ d. if-Follows ch (bit_1 d.0) _ _ (Follows-refl ch h) (Follows-refl ch h))))),
  )

  basic-Stays :
      (t : Moment) (m : ℕ) (buf : Bytes)
      → ch.next_delivery_tag + 1 < 2 ^ 64
      → Ensures (Stays ch) (handle_basic t m buf ch v)
  unfolding handle_basic handle_basic_get
  basic-Stays t m buf small =
      let settle = settling-Stays buf in
      let other = basic_other-Stays t buf in
      if-Ensures (Stays ch) (m == 10) _ _ other.0 (
        if-Ensures (Stays ch) (m == 20) _ _ other.1 (
          if-Ensures (Stays ch) (m == 30) _ _ other.2 (
            if-Ensures (Stays ch) (m == 40) _ _ other.3 (
              if-Ensures (Stays ch) (m == 70) _ _
                (after_uint16 (Stays ch) buf _ (λ a. after_short_string (Stays ch) a.1 _ (λ b.
                  after_uint8 (Stays ch) b.1 _
                    (λ c. get_found-Follows t.now b.0 _ ch v _ h small))))
                (if-Ensures (Stays ch) (m == 80) _ _ settle.0 (
                  if-Ensures (Stays ch) (m == 90) _ _ settle.1 (
                    if-Ensures (Stays ch) (m == 110) _ _ settle.3 (
                      if-Ensures (Stays ch) (m == 100) _ _ settle.3 (
                        if-Ensures (Stays ch) (m == 120) _ _ settle.2
                          (not_implemented-Stays ch v h _ m))))))))))

  -- Every method that a channel is sent ends, with a result or an exception, and keeps the delivery
  -- tags in order: all tags that await an acknowledgement stay below the next one, which never goes
  -- back. The count of the tags is assumed not to reach 64 bits.
  pub handle_method-Stays :
      (t : Moment) (class_id m : ℕ) (buf : Bytes)
      → ch.next_delivery_tag + 1 < 2 ^ 64
      → Ensures (Stays ch) (handle_method t class_id m buf ch v)
  unfolding handle_method
  handle_method-Stays t class_id m buf small =
      if-Ensures (Stays ch) (class_id == 40) _ _ (exchange-Stays ch v h m buf) (
        if-Ensures (Stays ch) (class_id == 50) _ _ (queue-Stays ch v h m buf) (
          if-Ensures (Stays ch) (class_id == 60) _ _ (basic-Stays t m buf small) (
            if-Ensures (Stays ch) (class_id == 85) _ _ (confirm-Stays ch v h m buf) (
              if-Ensures (Stays ch) (class_id == 90) _ _ (tx-Stays ch v h m buf)
                (not_implemented-Stays ch v h class_id m)))))
