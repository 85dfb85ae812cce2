-- ===== src/Amqp/Methods/QueueMethod.antt =====
-- amqp/methods.h: the namespace `queue_method`.
use ganshin_mq.Base.{ℕ}

abbrev pub declare : ℕ
declare = 10

abbrev pub declare_ok : ℕ
declare_ok = 11

abbrev pub bind : ℕ
bind = 20

abbrev pub bind_ok : ℕ
bind_ok = 21

abbrev pub purge : ℕ
purge = 30

abbrev pub purge_ok : ℕ
purge_ok = 31

abbrev pub delete : ℕ
delete = 40

abbrev pub delete_ok : ℕ
delete_ok = 41

abbrev pub unbind : ℕ
unbind = 50

abbrev pub unbind_ok : ℕ
unbind_ok = 51
