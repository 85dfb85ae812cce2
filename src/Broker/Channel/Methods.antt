-- ===== src/Broker/Channel/Methods.antt =====
-- broker/channel.cpp: `handleMethod` and the methods of transactions.
use ganshin_mq.Base.{ℕ, Bytes, codes, [], ◌∷◌, ◌++◌, ◌==◌, nat_eq, if◌then◌else◌}
use ganshin_mq.Amqp.Buffer.{Result}
use ganshin_mq.Amqp.Methods.ClassId
use ganshin_mq.Amqp.Methods.ExchangeMethod
use ganshin_mq.Amqp.Methods.QueueMethod
use ganshin_mq.Amqp.Methods.BasicMethod
use ganshin_mq.Amqp.Methods.ConfirmMethod
use ganshin_mq.Amqp.Methods.TxMethod
use ganshin_mq.Amqp.Methods.ReplyCode
use ganshin_mq.Broker.VirtualHost.State.{VirtualHost}
use ganshin_mq.Broker.VirtualHost.Names.{to_string}
use ganshin_mq.Broker.Channel.State.{
  Channel, channel_close, tx_select_ok, tx_commit_ok, tx_rollback_ok, Handled, replied,
}
use ganshin_mq.Broker.Channel.Publishing.{handle_basic_publish, handle_confirm_select}
use ganshin_mq.Broker.Channel.Declaring.{
  handle_exchange_declare, handle_exchange_delete, handle_queue_declare, handle_queue_bind,
  handle_queue_unbind, handle_queue_purge, handle_queue_delete,
}
use ganshin_mq.Broker.Channel.Consuming.{
  handle_basic_qos, handle_basic_consume, handle_basic_cancel, handle_basic_get,
}
use ganshin_mq.Broker.Channel.Settling.{
  handle_basic_ack, handle_basic_reject, handle_basic_nack, handle_basic_recover,
}

-- When a method is handled, and the address of what it may allocate.
pub record Moment : Type 0 where
  pub now : ℕ
  pub fresh : ℕ

unfoldable pub handle_tx_select : Bytes → Channel → VirtualHost → Result Handled
handle_tx_select buf ch v = replied ch v (tx_select_ok ∷ [])

unfoldable pub handle_tx_commit : Bytes → Channel → VirtualHost → Result Handled
handle_tx_commit buf ch v = replied ch v (tx_commit_ok ∷ [])

unfoldable pub handle_tx_rollback : Bytes → Channel → VirtualHost → Result Handled
handle_tx_rollback buf ch v = replied ch v (tx_rollback_ok ∷ [])

unfoldable pub not_implemented : ℕ → ℕ → Channel → VirtualHost → Result Handled
not_implemented class_id method_id ch v = replied ch v (
    channel_close ReplyCode.not_implemented
      (codes "Method not implemented: "
        ++ (to_string class_id ++ (codes "." ++ to_string method_id)))
      class_id method_id
    ∷ [])

unfoldable pub handle_exchange : ℕ → Bytes → Channel → VirtualHost → Result Handled
handle_exchange m buf ch v =
    if m == ExchangeMethod.declare
    then handle_exchange_declare buf ch v
    else if m == ExchangeMethod.delete
    then handle_exchange_delete buf ch v
    else not_implemented ClassId.exchange m ch v

unfoldable pub handle_queue : ℕ → Bytes → Channel → VirtualHost → Result Handled
handle_queue m buf ch v =
    if m == QueueMethod.declare
    then handle_queue_declare buf ch v
    else if m == QueueMethod.bind
    then handle_queue_bind buf ch v
    else if m == QueueMethod.unbind
    then handle_queue_unbind buf ch v
    else if m == QueueMethod.purge
    then handle_queue_purge buf ch v
    else if m == QueueMethod.delete
    then handle_queue_delete buf ch v
    else not_implemented ClassId.queue m ch v

unfoldable pub handle_basic : Moment → ℕ → Bytes → Channel → VirtualHost → Result Handled
handle_basic t m buf ch v =
    if m == BasicMethod.qos
    then handle_basic_qos buf ch v
    else if m == BasicMethod.consume
    then handle_basic_consume t.fresh buf ch v
    else if m == BasicMethod.cancel
    then handle_basic_cancel buf ch v
    else if m == BasicMethod.publish
    then handle_basic_publish buf ch v
    else if m == BasicMethod.get
    then handle_basic_get t.now buf ch v
    else if m == BasicMethod.ack
    then handle_basic_ack buf ch v
    else if m == BasicMethod.reject
    then handle_basic_reject buf ch v
    else if m == BasicMethod.recover
    then handle_basic_recover buf ch v
    else if m == BasicMethod.recover_async
    then handle_basic_recover buf ch v
    else if m == BasicMethod.nack
    then handle_basic_nack buf ch v
    else not_implemented ClassId.basic m ch v

unfoldable pub handle_confirm : ℕ → Bytes → Channel → VirtualHost → Result Handled
handle_confirm m buf ch v =
    if m == ConfirmMethod.select
    then handle_confirm_select buf ch v
    else not_implemented ClassId.confirm m ch v

unfoldable pub handle_tx : ℕ → Bytes → Channel → VirtualHost → Result Handled
handle_tx m buf ch v =
    if m == TxMethod.select
    then handle_tx_select buf ch v
    else if m == TxMethod.commit
    then handle_tx_commit buf ch v
    else if m == TxMethod.rollback
    then handle_tx_rollback buf ch v
    else not_implemented ClassId.tx m ch v

unfoldable pub handle_method : Moment → ℕ → ℕ → Bytes → Channel → VirtualHost → Result Handled
handle_method t class_id m buf ch v =
    if class_id == ClassId.exchange
    then handle_exchange m buf ch v
    else if class_id == ClassId.queue
    then handle_queue m buf ch v
    else if class_id == ClassId.basic
    then handle_basic t m buf ch v
    else if class_id == ClassId.confirm
    then handle_confirm m buf ch v
    else if class_id == ClassId.tx
    then handle_tx m buf ch v
    else not_implemented class_id m ch v
