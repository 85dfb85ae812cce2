-- ===== src/Broker/Connection/Methods.antt =====
-- broker/connection.cpp: handling a frame.
use ganshin_mq.Base.{
  ℕ, not, ◌&&◌, Bytes, codes, List, [], ◌∷◌, ◌++◌, Option, none, some, ◌==◌, nat_eq, if◌then◌else◌,
}
use ganshin_mq.Base.Map.{lookup}
use ganshin_mq.Amqp.Buffer.{Result, ok, ◌>>=◌, read_uint16}
use ganshin_mq.Amqp.Frame.{Frame, frame_method, frame_header, frame_body, frame_heartbeat}
use ganshin_mq.Amqp.Methods.ClassId
use ganshin_mq.Amqp.Methods.ConnectionMethod
use ganshin_mq.Amqp.Methods.ChannelMethod
use ganshin_mq.Amqp.Methods.ReplyCode
use ganshin_mq.Broker.VirtualHost.State.{VirtualHost}
use ganshin_mq.Broker.VirtualHost.Names.{to_string}
use ganshin_mq.Broker.Channel.State.{Channel, Sent, Handled}
use ganshin_mq.Broker.Channel.Frames.{sent_frames}
use ganshin_mq.Broker.Channel.Publishing.{handle_content_header, handle_content_body}
use ganshin_mq.Broker.Channel.Methods.{Moment, handle_method}
use ganshin_mq.Broker.Connection.State.{State, closing, World, send_frames, send_connection_close}
use ganshin_mq.Broker.Connection.Channels.{
  handle_channel_open, handle_channel_close, handle_channel_close_ok, handle_channel_flow,
  put_channel,
}
use ganshin_mq.Broker.Connection.Handshake.{
  handle_start_ok, handle_tune_ok, handle_connection_open, handle_connection_close,
  handle_connection_close_ok,
}

unfoldable pub handle_connection_method : ℕ → Bytes → World → Result World
unfolding send_connection_close
handle_connection_method m buf w =
    if m == ConnectionMethod.start_ok
    then handle_start_ok buf w
    else if m == ConnectionMethod.tune_ok
    then handle_tune_ok buf w
    else if m == ConnectionMethod.open_method
    then handle_connection_open buf w
    else if m == ConnectionMethod.close
    then handle_connection_close buf w
    else if m == ConnectionMethod.close_ok
    then handle_connection_close_ok w
    else ok (
        send_connection_close ReplyCode.command_invalid
          (codes "Unexpected connection method " ++ to_string m) ClassId.connection m w)

-- All that a channel sends, as frames.
unfoldable pub frames_of : Channel → List Sent → List Bytes
unfolding sent_frames
frames_of ch [] = []
frames_of ch (s ∷ more) = sent_frames ch s ++ frames_of ch more

-- What a channel's handler gives is taken over.
unfoldable pub take_over : ℕ → World → Handled → World
unfolding frames_of
take_over n w (ch, v, sent, effects) =
    let w' = send_frames (frames_of ch sent) (put_channel n ch w) in
    record w' { host = v; effects = w.effects ++ effects }

-- The channel with the number, if it is open.
unfoldable pub open_at : ℕ → World → Option Channel
open_at n w = elim (lookup n w.connection.channels) [
  | none ↦ none
  | some ch ↦ if ch.is_open then some ch else none
]

unfoldable pub call_channel :
    ℕ
    → (Channel → VirtualHost → Result Handled)
    → World
    → Option Channel
    → Result World
    → Result World
unfolding take_over
call_channel n handler w none otherwise = otherwise
call_channel n handler w (some ch) otherwise = do
  handled ← handler ch w.host
  ok (take_over n w handled)

abbrev pub not_open : ℕ → ℕ → ℕ → World → World
not_open n class_id m w =
    send_connection_close ReplyCode.channel_error
      (codes "Channel " ++ (to_string n ++ codes " not open")) class_id m w

unfoldable pub to_channel : Moment → ℕ → ℕ → ℕ → Bytes → World → Result World
unfolding open_at call_channel send_connection_close
to_channel t n class_id m buf w =
    call_channel n (handle_method t class_id m buf) w (open_at n w) (ok (not_open n class_id m w))

unfoldable pub handle_channel_method : Moment → ℕ → ℕ → Bytes → World → Result World
unfolding to_channel
handle_channel_method t n m buf w =
    if m == ChannelMethod.open_method
    then handle_channel_open n buf w
    else if m == ChannelMethod.close
    then handle_channel_close n buf w
    else if m == ChannelMethod.close_ok
    then handle_channel_close_ok n w
    else if m == ChannelMethod.flow
    then handle_channel_flow n buf w
    else to_channel t n ClassId.channel m buf w

unfoldable pub dispatch_method : Moment → ℕ → ℕ → ℕ → Bytes → World → Result World
unfolding handle_connection_method handle_channel_method to_channel send_connection_close
dispatch_method t n class_id m buf w =
    if class_id == ClassId.connection
    then if not (n == 0)
      then ok (
          send_connection_close ReplyCode.command_invalid
            (codes "Connection method on non-zero channel") class_id m w)
      else handle_connection_method m buf w
    else if class_id == ClassId.channel
    then handle_channel_method t n m buf w
    else to_channel t n class_id m buf w

unfoldable pub handle_method_frame : Moment → ℕ → Bytes → World → Result World
unfolding dispatch_method
handle_method_frame t n buf w = do
  (class_id, s1) ← read_uint16 buf
  (m, s2) ← read_uint16 s1
  dispatch_method t n class_id m s2 w

unfoldable pub handle_by_type : Moment → Frame → World → Result World
unfolding handle_method_frame open_at call_channel send_connection_close
handle_by_type t f w =
    if f.type == frame_method
    then handle_method_frame t f.channel f.payload w
    else if f.type == frame_header
    then call_channel f.channel (handle_content_header t.now f.payload) w (open_at f.channel w)
        (ok w)
    else if f.type == frame_body
    then call_channel f.channel (λ ch v. ok (handle_content_body t.now f.payload ch v)) w
        (open_at f.channel w) (ok w)
    else if f.type == frame_heartbeat
    then ok w
    else ok (send_connection_close ReplyCode.frame_error (codes "Unknown frame type") 0 0 w)

-- A method in the state `CLOSING`: only Close-Ok is handled.
unfoldable pub handle_closing : Bytes → World → Result World
handle_closing buf w = do
  (class_id, s1) ← read_uint16 buf
  (m, s2) ← read_uint16 s1
  if class_id == ClassId.connection && m == ConnectionMethod.close_ok
      then handle_connection_close_ok w
      else ok w

unfoldable pub handle_in : State → Moment → Frame → World → Result World
unfolding handle_by_type handle_closing
handle_in closing t f w =
    if f.type == frame_method then handle_closing f.payload w else handle_by_type t f w
handle_in _ t f w = handle_by_type t f w

unfoldable pub handle_frame : Moment → Frame → World → Result World
unfolding handle_in
handle_frame t f w = handle_in w.connection.state t f w
