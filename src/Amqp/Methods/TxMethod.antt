-- ===== src/Amqp/Methods/TxMethod.antt =====
-- amqp/methods.h: the namespace `tx_method`.
use ganshin_mq.Base.{ℕ}

abbrev pub select : ℕ
select = 10

abbrev pub select_ok : ℕ
select_ok = 11

abbrev pub commit : ℕ
commit = 20

abbrev pub commit_ok : ℕ
commit_ok = 21

abbrev pub rollback : ℕ
rollback = 30

abbrev pub rollback_ok : ℕ
rollback_ok = 31
