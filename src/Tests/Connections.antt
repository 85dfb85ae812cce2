-- ===== src/Tests/Connections.antt =====
-- The theorems on connections, and a run of the handshake.
use ganshin_mq.Base.{
  codes, [], ◌∷◌, ◌++◌, true, none, some, ◌≡◌, ◌⊎◌, refl, arith, Bytes, bytes_beq, List, length,
  take, drop,
}
use ganshin_mq.Broker.VirtualHost.State.{VirtualHost, new_virtual_host}
use ganshin_mq.Amqp.Buffer.{
  ok, read_uint16, read_uint32, read_short_string, read_long_string, write_uint16, write_uint32,
  write_short_string, write_long_string,
}
use ganshin_mq.Amqp.FieldValue.{end}
use ganshin_mq.Amqp.Table.{write_field_table, write_entries, read_table, read_field_table}
use ganshin_mq.Amqp.Buffer.Ensures.{IsDecided}
use ganshin_mq.Amqp.Frame.{protocol_header}
use ganshin_mq.Base.Map.{lookup}
use ganshin_mq.Broker.Auth.{UserStore, verify}
use ganshin_mq.Broker.Channel.State.{new_channel}
use ganshin_mq.Broker.Channel.Frames.{write_frame, method_frame}
use ganshin_mq.Broker.Channel.Methods.{Moment}
use ganshin_mq.Broker.Connection.State.{
  awaiting_start_ok, opened, header_bytes, World, new_connection,
}
use ganshin_mq.Broker.Connection.Channels.{open_channel}
use ganshin_mq.Broker.Connection.Handshake.{
  send_connection_start, handle_start_ok, handle_tune_ok, handle_connection_open,
}
use ganshin_mq.Broker.Connection.Methods.{open_at, handle_frame}
use ganshin_mq.Broker.Connection.Reading.{feed, after_frame}
use ganshin_mq.Broker.Connection.Reading.Split.{header_read, feed-write_frame}
use ganshin_mq.Broker.Connection.Writing.{new_writer}
use ganshin_mq.Broker.Connection.Writing.Order.{
  Action, send, finish, act_all, sends, in_order, act_all_lem,
}
use ganshin_mq.Broker.Connection.Events.{Event, read, check_due}
use ganshin_mq.Broker.Connection.Invariant.{LoggedIn, Limits, Numbered, Once}
use ganshin_mq.Broker.Connection.Reachable.{
  after, run-LoggedIn, run-Limits, run-Once, run-handle_frame,
}
use ganshin_mq.Broker.Connection.Unauthenticated.{channel_open_frame, handle_frame-channel_open}

abbrev host : VirtualHost
host = new_virtual_host (codes "/") none

abbrev users : UserStore
users = record { users = (codes "ann", codes "pw") ∷ []; loaded = true }

abbrev start : World
start = record {
  connection = new_connection 7 (some users);
  host = host;
  sent = [];
  effects = [];
  closings = [];
}

abbrev moment : Moment
moment = record { now = 9; fresh = 1 }

abbrev start_ok : Bytes
start_ok = method_frame 0 10 11 (
    write_field_table end
    ++ (write_short_string (codes "PLAIN")
        ++ (write_long_string (0 ∷ codes "ann" ++ (0 ∷ codes "pw"))
            ++ write_short_string (codes "en_US"))))

abbrev tune_ok : Bytes
tune_ok = method_frame 0 10 31 (write_uint16 100 ++ (write_uint32 4096 ++ write_uint16 0))

abbrev open_root : Bytes
open_root = method_frame 0 10 40 (write_short_string (codes "/") ++ write_short_string [])

abbrev final : World
final = (feed 7 moment (protocol_header ++ (start_ok ++ (tune_ok ++ open_root))) start).0

-- A whole handshake, in seven reads: the server has sent Start, Tune and Open-Ok.
handshake_run :
    (final.connection.state ≡ opened)
    × (final.connection.auth_user ≡ codes "ann")
    × (final.connection.frame_max ≡ 4096)
    × (final.connection.heartbeat_interval ≡ 60)
    × (length final.sent ≡ 3)
unfolding feed new_connection method_frame write_uint16 write_uint32 write_field_table
    write_long_string write_short_string new_virtual_host write_entries bytes_beq
    send_connection_start handle_frame read_uint16 handle_start_ok read_table read_field_table
    read_uint32 read_short_string read_long_string handle_tune_ok handle_connection_open verify
    lookup
handshake_run = (refl, refl, refl, refl, refl)

-- The reads of a login.
abbrev login : List Event
login =
    read moment protocol_header
    ∷ read moment (take 7 start_ok)
    ∷ read moment (drop 7 start_ok)
    ∷ check_due
    ∷ []

run-LoggedIn_example :
    LoggedIn
      (after login 7 (some users) host).connection.state
      (some users)
      (after login 7 (some users) host).connection.auth_user
run-LoggedIn_example = run-LoggedIn login 7 (some users) host

run-Limits_example :
    Limits
      (after login 7 (some users) host).connection.channel_max
      (after login 7 (some users) host).connection.frame_max
    × Numbered (after login 7 (some users) host).connection.channels
run-Limits_example = run-Limits login 7 (some users) host

run-Once_example :
    Once
      (after login 7 (some users) host).connection.state
      7
      (after login 7 (some users) host).closings
      (after login 7 (some users) host).connection.reading
run-Once_example = run-Once login 7 (some users) host

-- A method that there is none of.
run-handle_frame_example : IsDecided (
    handle_frame moment
      (record { type = 1; channel = 3; payload = codes "abcdef" })
      (after login 7 (some users) host))
run-handle_frame_example =
    run-handle_frame login 7 (some users) host moment
      (record { type = 1; channel = 3; payload = codes "abcdef" })

-- A connection that waits for Start-Ok.
abbrev waiting : World
waiting = record start {
  connection = record (new_connection 7 (some users)) {
    state = awaiting_start_ok;
    channel_max = 2047;
    frame_max = 131072;
    reading = header_bytes;
  };
}

abbrev beat : World
beat = header_read 8 0 0 waiting

feed-write_frame_example :
    feed 3 moment (write_frame 8 0 [] ++ codes "rest") waiting
    ≡ feed 1 moment (codes "rest") (
        after_frame beat
          (handle_frame moment (record { type = 8; channel = 0; payload = [] }) beat))
feed-write_frame_example =
    feed-write_frame 1 moment 8 0 [] (codes "rest") waiting refl (ground arith) (ground arith)
      (ground arith) (ground arith)

handle_frame-channel_open_example :
    (handle_frame moment (channel_open_frame 5) waiting ≡ ok (open_channel 5 waiting))
    × (open_at 5 (open_channel 5 waiting)
        ≡ some (record (new_channel 5 waiting.connection.id waiting.connection.frame_max) {
          is_open = true;
        }))
    × ((open_channel 5 waiting).connection.state ≡ waiting.connection.state)
handle_frame-channel_open_example =
    handle_frame-channel_open moment 5 waiting (λ e. cc) (ground arith) (ground arith)

abbrev actions : List Action
actions = send (codes "a") ∷ send (codes "b") ∷ finish ∷ send (codes "c") ∷ finish ∷ []

act_all_example :
    (in_order (act_all actions new_writer) ≡ sends actions)
    × (((act_all actions new_writer).writing ≡ true)
        ⊎ ((act_all actions new_writer).written ≡ sends actions))
act_all_example = act_all_lem actions
