-- ===== src/Broker/Connection/Channels.antt =====
-- broker/connection.cpp: the methods that open and close channels, and the end of a connection.
use ganshin_mq.Base.{
  ℕ, true, false, ◌||◌, Bytes, codes, List, [], ◌∷◌, ◌++◌, none, some, ◌==◌, nat_eq, if◌then◌else◌,
  ltb,
}
use ganshin_mq.Base.Map.{lookup, insert, erase}
use ganshin_mq.Amqp.Buffer.{
  Result, ok, ◌>>=◌, read_uint8, read_uint16, read_short_string, write_uint8, write_long_string,
}
use ganshin_mq.Amqp.Methods.ClassId
use ganshin_mq.Amqp.Methods.ChannelMethod
use ganshin_mq.Amqp.Methods.ReplyCode
use ganshin_mq.Broker.Queue.{Effects}
use ganshin_mq.Broker.VirtualHost.State.{VirtualHost}
use ganshin_mq.Broker.VirtualHost.Names.{to_string}
use ganshin_mq.Broker.VirtualHost.Cleanup.{remove_connection_queues}
use ganshin_mq.Broker.Channel.State.{Channel, new_channel, bit_0}
use ganshin_mq.Broker.Channel.Settling.{remove_all_consumers}
use ganshin_mq.Broker.Connection.State.{
  State, closed, nothing_more, World, set_state, send_method_frame, send_connection_close,
}

abbrev pub put_channel : ℕ → Channel → World → World
put_channel n ch w = record w {
  connection = record (w.connection) { channels = insert n ch w.connection.channels };
}

unfoldable pub open_channel : ℕ → World → World
unfolding new_channel send_connection_close send_method_frame
open_channel n w =
    if n == 0 || ltb w.connection.channel_max n
    then send_connection_close ReplyCode.channel_error
        (codes "Invalid channel number " ++ to_string n) ClassId.channel ChannelMethod.open_method w
    else (let ch = record (new_channel n w.connection.id w.connection.frame_max) {
      is_open = true;
    } in
        send_method_frame n ClassId.channel ChannelMethod.open_ok (write_long_string [])
          (put_channel n ch w))

unfoldable pub handle_channel_open : ℕ → Bytes → World → Result World
unfolding open_channel
handle_channel_open n buf w = do (reserved, s1) ← read_short_string buf; ok (open_channel n w)

unfoldable pub cleanup_channel : ℕ → World → World
unfolding remove_all_consumers
cleanup_channel n w = elim (lookup n w.connection.channels) [
  | none ↦ w
  | some ch ↦
      let (ch', v, effects) = remove_all_consumers (record ch { is_open = false }) w.host in
      record w {
        connection = record (w.connection) { channels = erase n w.connection.channels };
        host = v;
        effects = w.effects ++ effects;
      }
]

-- The loop of `cleanupAllChannels`.
unfoldable pub cleanup_each : List (ℕ × Channel) → VirtualHost → VirtualHost × List Effects
unfolding remove_all_consumers
cleanup_each [] v = (v, [])
cleanup_each ((n, ch) ∷ more) v =
    let (ch', v1, effects) = remove_all_consumers (record ch { is_open = false }) v in
    let (v2, rest) = cleanup_each more v1 in (v2, effects ++ rest)

unfoldable pub cleanup_all_channels : World → World
unfolding cleanup_each
cleanup_all_channels w =
    let (v, effects) = cleanup_each w.connection.channels w.host in
    record w {
      connection = record (w.connection) { channels = [] };
      host = v;
      effects = w.effects ++ effects;
    }

-- `shutdown` in a state that is not `CLOSED`; no read of the closed socket is of use.
unfoldable pub shut : World → World
unfolding cleanup_all_channels
shut w =
    let w1 = cleanup_all_channels (set_state closed w) in
    record w1 {
      connection = record (w1.connection) { reading = nothing_more; heartbeat_started = false };
      host = remove_connection_queues w1.connection.id w1.host;
      closings = w1.closings ++ (w1.connection.id ∷ []);
    }

abbrev pub shut_in : State → World → World
shut_in closed w = w
shut_in _ w = shut w

unfoldable pub shutdown : World → World
unfolding shut
shutdown w = shut_in w.connection.state w

unfoldable pub handle_channel_close : ℕ → Bytes → World → Result World
unfolding cleanup_channel send_method_frame
handle_channel_close n buf w = do
  (code, s1) ← read_uint16 buf
  (text, s2) ← read_short_string s1
  (class_id, s3) ← read_uint16 s2
  (method_id, s4) ← read_uint16 s3
  ok (send_method_frame n ClassId.channel ChannelMethod.close_ok [] (cleanup_channel n w))

unfoldable pub handle_channel_close_ok : ℕ → World → Result World
unfolding cleanup_channel
handle_channel_close_ok n w = ok (cleanup_channel n w)

unfoldable pub handle_channel_flow : ℕ → Bytes → World → Result World
unfolding send_method_frame
handle_channel_flow n buf w = do
  (bits, s1) ← read_uint8 buf
  ok (
      send_method_frame n ClassId.channel ChannelMethod.flow_ok
        (write_uint8 (if bit_0 bits then 1 else 0)) w)
