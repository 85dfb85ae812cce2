-- ===== src/Broker/Connection/Unauthenticated.antt =====
-- What a connection does before the login.
use ganshin_mq.Base.{
  ℕ, ◌<◌, ◌≤◌, ◌||◌, true, false, [], ◌++◌, Option, none, some, ◌==◌, nat_eq, if◌then◌else◌, ltb,
  ◌≡◌, ◌≢◌, refl, ap, ◌∙◌, arith,
}
use ganshin_mq.Base.Map.{lookup-insert_self}
use ganshin_mq.Amqp.Buffer.{
  ok, write_uint16, write_short_string, read_uint16, read_short_string, read_uint8, read_bytes,
  write_uint8,
}
use ganshin_mq.Amqp.Frame.{Frame, frame_method}
use ganshin_mq.Amqp.Methods.ClassId
use ganshin_mq.Amqp.Methods.ChannelMethod
use ganshin_mq.Broker.Channel.State.{Channel, new_channel}
use ganshin_mq.Broker.Channel.Methods.{Moment}
use ganshin_mq.Broker.Connection.State.{
  State, awaiting_protocol_header, awaiting_start_ok, awaiting_tune_ok, awaiting_open, opened,
  closing, closed, World, send_method_frame,
}
use ganshin_mq.Broker.Connection.Channels.{open_channel, handle_channel_open}
use ganshin_mq.Broker.Connection.Methods.{
  open_at, handle_channel_method, dispatch_method, handle_method_frame, handle_by_type, handle_in,
  handle_frame,
}

-- The frame of Channel.Open for a number.
abbrev pub channel_open_frame : ℕ → Frame
channel_open_frame n = record {
  type = frame_method;
  channel = n;
  payload =
      write_uint16 ClassId.channel
      ++ (write_uint16 ChannelMethod.open_method ++ write_short_string []);
}

in_other :
    (s : State) (t : Moment) (f : Frame) (w : World)
    → s ≢ closing
    → handle_in s t f w ≡ handle_by_type t f w
unfolding handle_in
in_other awaiting_protocol_header t f w h = refl
in_other awaiting_start_ok t f w h = refl
in_other awaiting_tune_ok t f w h = refl
in_other awaiting_open t f w h = refl
in_other opened t f w h = refl
in_other closing t f w h = absurd (h refl)
in_other closed t f w h = refl

-- A channel with a new number from 1 to the limit is opened in every state but `CLOSING`, also
-- before the login: Channel.Open is not refused to a client that has not authenticated.
pub handle_frame-channel_open :
    (t : Moment) (n : ℕ) (w : World)
    → w.connection.state ≢ closing
    → 0 < n
    → n ≤ w.connection.channel_max
    → (handle_frame t (channel_open_frame n) w ≡ ok (open_channel n w))
      × (open_at n (open_channel n w)
          ≡ some (record (new_channel n w.connection.id w.connection.frame_max) { is_open = true }))
      × ((open_channel n w).connection.state ≡ w.connection.state)
unfolding handle_frame handle_by_type handle_method_frame dispatch_method handle_channel_method
    handle_channel_open open_channel open_at read_uint16 read_short_string read_uint8 read_bytes
    write_uint16 write_short_string write_uint8 send_method_frame
handle_frame-channel_open t n w h pos le =
    let fits : (n == 0 || ltb w.connection.channel_max n) ≡ false = ground arith in
    (
      in_other w.connection.state t (channel_open_frame n) w h ∙ refl,
      rw fits (
          ap found (
            lookup-insert_self n
              (record (new_channel n w.connection.id w.connection.frame_max) { is_open = true })
              w.connection.channels)),
      rw fits refl,
    )
  where
    found : Option Channel → Option Channel
    found o = elim o [ none ↦ none | some ch ↦ if ch.is_open then some ch else none ]
