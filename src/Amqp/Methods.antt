-- ===== src/Amqp/Methods.antt =====
-- amqp/methods.h: the numbers of classes, methods and replies.
pub mod ClassId
pub mod ConnectionMethod
pub mod ChannelMethod
pub mod ExchangeMethod
pub mod QueueMethod
pub mod BasicMethod
pub mod ConfirmMethod
pub mod TxMethod
pub mod ReplyCode
