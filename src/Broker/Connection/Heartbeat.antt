-- ===== src/Broker/Connection/Heartbeat.antt =====
-- broker/connection.cpp: what the two timers call, and the server's `close`.
use ganshin_mq.Base.{false, codes, [], ◌∷◌, if◌then◌else◌}
use ganshin_mq.Amqp.Frame.{frame_heartbeat}
use ganshin_mq.Amqp.Methods.ReplyCode
use ganshin_mq.Broker.Channel.Frames.{write_frame}
use ganshin_mq.Broker.Connection.State.{State, closed, World, send_frames, send_connection_close}
use ganshin_mq.Broker.Connection.Channels.{shutdown}

abbrev pub unless_over : State → (World → World) → World → World
unless_over closed f w = w
unless_over _ f w = f w

-- A heartbeat has the bytes of a frame without a payload. The timer is set again.
unfoldable pub send_heartbeat : World → World
unfolding write_frame
send_heartbeat w =
    unless_over w.connection.state (send_frames (write_frame frame_heartbeat 0 [] ∷ [])) w

unfoldable pub check_received : World → World
check_received w =
    if w.connection.received_data
    then record w { connection = record (w.connection) { received_data = false } }
    else shutdown w

-- Every two intervals.
unfoldable pub check_heartbeat : World → World
unfolding check_received
check_heartbeat w = unless_over w.connection.state check_received w

unfoldable pub close : World → World
unfolding send_connection_close
close w = send_connection_close ReplyCode.connection_forced (codes "Connection forced") 0 0 w
