-- ===== src/Amqp/Methods/ConfirmMethod.antt =====
-- amqp/methods.h: the namespace `confirm_method`.
use ganshin_mq.Base.{ℕ}

abbrev pub select : ℕ
select = 10

abbrev pub select_ok : ℕ
select_ok = 11
