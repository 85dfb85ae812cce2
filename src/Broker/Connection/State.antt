-- ===== src/Broker/Connection/State.antt =====
-- broker/connection.h: a connection's members, and sending on it. The socket and the timers are
-- not members here: what they call is a function each.
use ganshin_mq.Base.{ℕ, ◌*◌, Bool, false, Bytes, List, [], ◌∷◌, ◌++◌, Option}
use ganshin_mq.Amqp.Buffer.{write_uint16, write_short_string}
use ganshin_mq.Amqp.Methods.ClassId
use ganshin_mq.Amqp.Methods.ConnectionMethod
use ganshin_mq.Broker.Auth.{UserStore}
use ganshin_mq.Broker.Queue.{Effects}
use ganshin_mq.Broker.VirtualHost.State.{VirtualHost}
use ganshin_mq.Broker.Channel.State.{Channel}
use ganshin_mq.Broker.Channel.Frames.{method_frame}

pub data State : Type 0 where
  awaiting_protocol_header awaiting_start_ok awaiting_tune_ok awaiting_open : State
  opened closing closed : State

-- Which read is under way: of the protocol header, of a frame's header or of its payload.
pub data Reading : Type 0 where
  protocol_bytes header_bytes nothing_more : Reading
  payload_bytes : ℕ → ℕ → ℕ → Reading

pub record Connection : Type 0 where
  pub id : ℕ
  pub state : State
  pub channel_max : ℕ
  pub frame_max : ℕ
  pub heartbeat_interval : ℕ
  pub channels : List (ℕ × Channel)
  pub received_data : Bool
  pub auth_user : Bytes
  pub user_store : Option UserStore
  pub reading : Reading
  pub heartbeat_started : Bool

-- A connection that was started.
unfoldable pub new_connection : ℕ → Option UserStore → Connection
new_connection id user_store = record {
  id = id;
  state = awaiting_protocol_header;
  channel_max = 2047;
  frame_max = 131072;
  heartbeat_interval = 60;
  channels = [];
  received_data = false;
  auth_user = [];
  user_store = user_store;
  reading = protocol_bytes;
  heartbeat_started = false;
}

abbrev pub hard_frame_max : ℕ
hard_frame_max = 16 * 1024 * 1024

-- A connection at work: the host, the frames passed to `sendFrame` so far, what queues did to
-- others, and the calls of `onClose_`.
pub record World : Type 0 where
  pub connection : Connection
  pub host : VirtualHost
  pub sent : List Bytes
  pub effects : List Effects
  pub closings : List ℕ

abbrev pub set_state : State → World → World
set_state s w = record w { connection = record (w.connection) { state = s } }

-- The next read.
abbrev pub read_next : Reading → World → World
read_next r w = record w { connection = record (w.connection) { reading = r } }

abbrev pub send_frames : List Bytes → World → World
send_frames frames w = record w { sent = w.sent ++ frames }

unfoldable pub send_method_frame : ℕ → ℕ → ℕ → Bytes → World → World
send_method_frame channel class_id method_id args w =
    send_frames (method_frame channel class_id method_id args ∷ []) w

-- `sendConnectionClose` in a state that is neither `CLOSING` nor `CLOSED`.
unfoldable pub start_closing : ℕ → Bytes → ℕ → ℕ → World → World
unfolding send_method_frame
start_closing code text class_id method_id w =
    send_method_frame 0 ClassId.connection ConnectionMethod.close
      (write_uint16 code
        ++ (write_short_string text ++ (write_uint16 class_id ++ write_uint16 method_id)))
      (set_state closing w)

abbrev pub close_in : State → ℕ → Bytes → ℕ → ℕ → World → World
close_in closing code text class_id method_id w = w
close_in closed code text class_id method_id w = w
close_in _ code text class_id method_id w = start_closing code text class_id method_id w

unfoldable pub send_connection_close : ℕ → Bytes → ℕ → ℕ → World → World
unfolding start_closing
send_connection_close code text class_id method_id w =
    close_in w.connection.state code text class_id method_id w
