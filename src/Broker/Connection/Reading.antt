-- ===== src/Broker/Connection/Reading.antt =====
-- broker/connection.cpp: the reads of the socket, one under way at a time. A read is completed with
-- all of its bytes, or fails.
pub mod Split
use ganshin_mq.Base.{
  ℕ, zero, suc, ◌+◌, ◌*◌, Bool, true, false, not, ◌&&◌, Bytes, codes, List, [], ◌∷◌, ◌++◌, Option,
  none, some, ◌==◌, nat_eq, bytes_eq, if◌then◌else◌, ltb, leb, length, take, drop, get_or,
}
use ganshin_mq.Amqp.Buffer.{Result, ok, err, stuck}
use ganshin_mq.Amqp.Frame.{
  Frame, frame_end, frame_header_size, protocol_header, protocol_header_size,
}
use ganshin_mq.Amqp.Methods.ReplyCode
use ganshin_mq.Broker.Channel.Methods.{Moment}
use ganshin_mq.Broker.Connection.State.{
  State, awaiting_start_ok, closed, Reading, protocol_bytes, header_bytes, payload_bytes,
  nothing_more, Connection, hard_frame_max, World, set_state, read_next, send_frames,
  send_connection_close,
}
use ganshin_mq.Broker.Connection.Channels.{shutdown}
use ganshin_mq.Broker.Connection.Handshake.{send_connection_start}
use ganshin_mq.Broker.Connection.Methods.{handle_frame}

-- How many bytes the read takes.
unfoldable pub wanted : Reading → Option ℕ
wanted protocol_bytes = some protocol_header_size
wanted header_bytes = some frame_header_size
wanted (payload_bytes type channel size) = some (size + 1)
wanted nothing_more = none

unfoldable pub on_protocol_header : Bytes → World → World
on_protocol_header bytes w =
    if bytes == protocol_header
    then read_next header_bytes (send_connection_start (set_state awaiting_start_ok w))
    else shutdown (send_frames (protocol_header ∷ []) w)

-- The sizes above which a frame is refused.
unfoldable pub effective_max : Connection → ℕ
effective_max c = if ltb 0 c.frame_max then c.frame_max else hard_frame_max

unfoldable pub on_frame_size : ℕ → ℕ → ℕ → World → World
unfolding effective_max send_connection_close
on_frame_size type channel size w =
    if ltb (effective_max w.connection) size
    then read_next nothing_more
        (send_connection_close ReplyCode.frame_error (codes "Frame too large") 0 0 w)
    else read_next (payload_bytes type channel size) w

-- The fields of the seven bytes that are read.
unfoldable pub on_frame_header : Bytes → World → World
unfolding on_frame_size
on_frame_header (t ∷ c1 ∷ c0 ∷ s3 ∷ s2 ∷ s1 ∷ s0 ∷ _) w =
    on_frame_size t (c1 * 256 + c0) (s3 * 16777216 + s2 * 65536 + s1 * 256 + s0)
      (record w { connection = record (w.connection) { received_data = true } })
on_frame_header _ w = w

abbrev pub unless_closed : State → World → World
unless_closed closed w = read_next nothing_more w
unless_closed _ w = read_next header_bytes w

-- An exception closes the connection; `stuck` is none of the code's results.
unfoldable pub after_frame : World → Result World → World
unfolding send_connection_close
after_frame w (ok w') = unless_closed w'.connection.state w'
after_frame w (err e) =
    read_next nothing_more
      (send_connection_close ReplyCode.frame_error (codes "Internal error") 0 0 w)
after_frame w stuck = read_next nothing_more w

unfoldable pub on_frame_payload : Moment → ℕ → ℕ → ℕ → Bytes → World → World
unfolding after_frame send_connection_close
on_frame_payload t type channel size bytes w =
    if not (get_or bytes size 0 == frame_end)
    then read_next nothing_more
        (send_connection_close ReplyCode.frame_error (codes "Invalid frame-end byte") 0 0 w)
    else after_frame w
        (handle_frame t (record { type = type; channel = channel; payload = take size bytes }) w)

-- A read is completed with its bytes.
unfoldable pub on_read : Moment → Reading → Bytes → World → World
unfolding on_protocol_header on_frame_header on_frame_payload
on_read t protocol_bytes bytes w = on_protocol_header bytes w
on_read t header_bytes bytes w = on_frame_header bytes w
on_read t (payload_bytes type channel size) bytes w = on_frame_payload t type channel size bytes w
on_read t nothing_more bytes w = w

-- A read fails: the peer has gone.
unfoldable pub on_read_error : World → World
on_read_error w = shutdown w

-- A write fails; no further one is begun.
unfoldable pub on_write_error : World → World
on_write_error w = shutdown w

-- The reads that the bytes that have come complete, at most `rounds` of them: the connection, and
-- the bytes that no read has taken.
unfoldable pub feed : ℕ → Moment → Bytes → World → World × Bytes
unfolding wanted on_read
feed zero t input w = (w, input)
feed (suc rounds) t input w = elim (wanted w.connection.reading) [
  | none ↦ (w, input)
  | some n ↦
      let rest = feed rounds t (drop n input) (on_read t w.connection.reading (take n input) w) in
      if leb n (length input) then rest else (w, input)
]
