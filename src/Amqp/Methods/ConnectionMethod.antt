-- ===== src/Amqp/Methods/ConnectionMethod.antt =====
-- amqp/methods.h: the namespace `connection_method`.
use ganshin_mq.Base.{ℕ}

abbrev pub start : ℕ
start = 10

abbrev pub start_ok : ℕ
start_ok = 11

abbrev pub secure : ℕ
secure = 20

abbrev pub secure_ok : ℕ
secure_ok = 21

abbrev pub tune : ℕ
tune = 30

abbrev pub tune_ok : ℕ
tune_ok = 31

abbrev pub open_method : ℕ
open_method = 40

abbrev pub open_ok : ℕ
open_ok = 41

abbrev pub close : ℕ
close = 50

abbrev pub close_ok : ℕ
close_ok = 51
