-- ===== src/Amqp/Methods/ChannelMethod.antt =====
-- amqp/methods.h: the namespace `channel_method`.
use ganshin_mq.Base.{ℕ}

abbrev pub open_method : ℕ
open_method = 10

abbrev pub open_ok : ℕ
open_ok = 11

abbrev pub flow : ℕ
flow = 20

abbrev pub flow_ok : ℕ
flow_ok = 21

abbrev pub close : ℕ
close = 40

abbrev pub close_ok : ℕ
close_ok = 41
