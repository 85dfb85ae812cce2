-- ===== src/Amqp/Methods/ExchangeMethod.antt =====
-- amqp/methods.h: the namespace `exchange_method`.
use ganshin_mq.Base.{ℕ}

abbrev pub declare : ℕ
declare = 10

abbrev pub declare_ok : ℕ
declare_ok = 11

abbrev pub delete : ℕ
delete = 20

abbrev pub delete_ok : ℕ
delete_ok = 21
