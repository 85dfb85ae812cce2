-- ===== src/Amqp/Methods/BasicMethod.antt =====
-- amqp/methods.h: the namespace `basic_method`.
use ganshin_mq.Base.{ℕ}

abbrev pub qos : ℕ
qos = 10

abbrev pub qos_ok : ℕ
qos_ok = 11

abbrev pub consume : ℕ
consume = 20

abbrev pub consume_ok : ℕ
consume_ok = 21

abbrev pub cancel : ℕ
cancel = 30

abbrev pub cancel_ok : ℕ
cancel_ok = 31

abbrev pub publish : ℕ
publish = 40

abbrev pub return_method : ℕ
return_method = 50

abbrev pub deliver : ℕ
deliver = 60

abbrev pub get : ℕ
get = 70

abbrev pub get_ok : ℕ
get_ok = 71

abbrev pub get_empty : ℕ
get_empty = 72

abbrev pub ack : ℕ
ack = 80

abbrev pub reject : ℕ
reject = 90

abbrev pub recover_async : ℕ
recover_async = 100

abbrev pub recover : ℕ
recover = 110

abbrev pub recover_ok : ℕ
recover_ok = 111

abbrev pub nack : ℕ
nack = 120
