-- ===== src/Amqp/Frame.antt =====
-- amqp/frame.h.
use ganshin_mq.Base.{ℕ, Bytes, codes, ◌++◌, [], ◌∷◌}

abbrev pub frame_method : ℕ
frame_method = 1

abbrev pub frame_header : ℕ
frame_header = 2

abbrev pub frame_body : ℕ
frame_body = 3

abbrev pub frame_heartbeat : ℕ
frame_heartbeat = 8

abbrev pub frame_end : ℕ
frame_end = 0xCE

abbrev pub frame_header_size : ℕ
frame_header_size = 7

abbrev pub protocol_header : Bytes
protocol_header = codes "AMQP" ++ (0 ∷ 0 ∷ 9 ∷ 1 ∷ [])

abbrev pub protocol_header_size : ℕ
protocol_header_size = 8

pub record Frame : Type 0 where
  pub type : ℕ
  pub channel : ℕ
  pub payload : Bytes
