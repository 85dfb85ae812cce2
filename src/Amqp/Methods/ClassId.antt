-- ===== src/Amqp/Methods/ClassId.antt =====
-- amqp/methods.h: the namespace `class_id`.
use ganshin_mq.Base.{ℕ}

abbrev pub connection : ℕ
connection = 10

abbrev pub channel : ℕ
channel = 20

abbrev pub exchange : ℕ
exchange = 40

abbrev pub queue : ℕ
queue = 50

abbrev pub basic : ℕ
basic = 60

abbrev pub confirm : ℕ
confirm = 85

abbrev pub tx : ℕ
tx = 90
