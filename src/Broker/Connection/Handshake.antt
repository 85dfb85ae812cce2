-- ===== src/Broker/Connection/Handshake.antt =====
-- broker/connection.cpp: the methods of a connection, from the server's Start to the Close.
use Prim.Native.String.{String}
use ganshin_mq.Base.{
  ℕ, Bool, true, false, not, ◌&&◌, ◌||◌, Bytes, codes, [], ◌∷◌, ◌++◌, Option, none, some, ◌==◌,
  nat_eq, bytes_eq, if◌then◌else◌, ltb, min,
}
use ganshin_mq.Amqp.FieldValue.{
  FieldValue, FieldTable, end, long_string, boolean, table, assign, find, string_val,
}
use ganshin_mq.Amqp.Buffer.{
  Result, ok, ◌>>=◌, read_uint16, read_uint32, read_short_string, read_long_string, write_uint8,
  write_uint16, write_uint32, write_short_string, write_long_string,
}
use ganshin_mq.Amqp.Table.{read_table, write_field_table}
use ganshin_mq.Amqp.Methods.ClassId
use ganshin_mq.Amqp.Methods.ConnectionMethod
use ganshin_mq.Amqp.Methods.ReplyCode
use ganshin_mq.Broker.Auth.{UserStore, verify}
use ganshin_mq.Broker.Connection.State.{
  State, awaiting_start_ok, awaiting_tune_ok, awaiting_open, opened, Connection, World, set_state,
  send_method_frame, send_connection_close,
}
use ganshin_mq.Broker.Connection.Channels.{shutdown}

abbrev pub text : String → FieldValue
text s = long_string (codes s)

unfoldable pub capabilities : FieldTable
capabilities = assign (codes "direct_reply_to") (boolean false) (
    assign (codes "per_consumer_qos") (boolean true) (
      assign (codes "authentication_failure_close") (boolean true) (
        assign (codes "consumer_priorities") (boolean false) (
          assign (codes "connection.blocked") (boolean false) (
            assign (codes "consumer_cancel_notify") (boolean true) (
              assign (codes "basic.nack") (boolean true) (
                assign (codes "exchange_exchange_bindings") (boolean false)
                  (assign (codes "publisher_confirms") (boolean true) end))))))))

unfoldable pub server_properties : FieldTable
unfolding capabilities
server_properties = assign (codes "capabilities") (table capabilities) (
    assign (codes "information") (text "https://github.com/broko") (
      assign (codes "copyright") (text "") (
        assign (codes "platform") (text "C++")
          (assign (codes "version") (text "0.1.0") (assign (codes "product") (text "Broko") end)))))

unfoldable pub send_connection_start : World → World
unfolding server_properties send_method_frame
send_connection_start = send_method_frame 0 ClassId.connection ConnectionMethod.start (
    write_uint8 0
    ++ (write_uint8 9
        ++ (write_field_table server_properties
            ++ (write_long_string (codes "PLAIN AMQPLAIN") ++ write_long_string (codes "en_US")))))

unfoldable pub send_connection_tune : World → World
unfolding send_method_frame
send_connection_tune w =
    send_method_frame 0 ClassId.connection ConnectionMethod.tune
      (write_uint16 w.connection.channel_max
        ++ (write_uint32 w.connection.frame_max ++ write_uint16 w.connection.heartbeat_interval))
      w

-- What a text has before its first zero byte, and behind that.
unfoldable pub split_zero : Bytes → Bytes × Bytes
split_zero [] = ([], [])
split_zero (c ∷ s) =
    let (before, behind) = split_zero s in if c == 0 then ([], s) else (c ∷ before, behind)

-- User and password of a PLAIN response, whose leading zero byte is skipped.
unfoldable pub plain_credentials : Bytes → Bytes × Bytes
unfolding split_zero
plain_credentials [] = ([], [])
plain_credentials (c ∷ s) = if c == 0 then split_zero s else split_zero (c ∷ s)

abbrev pub field_text : String → FieldTable → Bytes
field_text name fields = elim (find (codes name) fields) [ none ↦ [] | some v ↦ string_val v ]

-- `none` is a mechanism that is not supported.
unfoldable pub credentials : Bytes → Bytes → Result (Option (Bytes × Bytes))
unfolding plain_credentials
credentials mechanism response =
    if mechanism == codes "PLAIN"
    then ok (some (plain_credentials response))
    else if mechanism == codes "AMQPLAIN"
    then (read_table response >>= λ (fields, rest).
        ok (some (field_text "LOGIN" fields, field_text "PASSWORD" fields)))
    else ok none

-- `!userStore_ || userStore_->verify(user, pass)`.
unfoldable pub accepts : Option UserStore → Bytes → Bytes → Bool
accepts none user pass = true
accepts (some s) user pass = verify s user pass

unfoldable pub log_in : Bytes → Option (Bytes × Bytes) → World → World
unfolding accepts send_connection_tune send_connection_close
log_in mechanism none w =
    send_connection_close ReplyCode.access_refused (codes "Unsupported mechanism: " ++ mechanism)
      ClassId.connection ConnectionMethod.start_ok w
log_in mechanism (some (user, pass)) w =
    if not (accepts w.connection.user_store user pass)
    then send_connection_close ReplyCode.access_refused
        (codes "ACCESS_REFUSED - Login was refused using authentication mechanism " ++ mechanism)
        ClassId.connection ConnectionMethod.start_ok w
    else send_connection_tune (record w {
      connection = record (w.connection) { auth_user = user; state = awaiting_tune_ok };
    })

-- A method that the state does not allow closes the connection.
unfoldable pub unexpected : String → ℕ → World → World
unfolding send_connection_close
unexpected what method_id w =
    send_connection_close ReplyCode.command_invalid (codes what) ClassId.connection method_id w

unfoldable pub take_start_ok : State → Bytes → World → Result World
unfolding log_in credentials unexpected
take_start_ok awaiting_start_ok buf w = do
  (client_properties, s1) ← read_table buf
  (mechanism, s2) ← read_short_string s1
  (response, s3) ← read_long_string s2
  (locale, s4) ← read_short_string s3
  login ← credentials mechanism response
  ok (log_in mechanism login w)
take_start_ok _ buf w = ok (unexpected "Unexpected Start-Ok" ConnectionMethod.start_ok w)

unfoldable pub handle_start_ok : Bytes → World → Result World
unfolding take_start_ok
handle_start_ok buf w = take_start_ok w.connection.state buf w

-- `if (theirs > 0) ours = std::min(ours, theirs);`
abbrev pub lower : ℕ → ℕ → ℕ
lower ours theirs = if ltb 0 theirs then min ours theirs else ours

unfoldable pub agreed_heartbeat : ℕ → ℕ → ℕ
agreed_heartbeat ours theirs =
    if ltb 0 theirs && ltb 0 ours then min ours theirs else if ltb 0 theirs then theirs else ours

unfoldable pub tuned : ℕ → ℕ → ℕ → Connection → Connection
unfolding agreed_heartbeat
tuned channel_max frame_max heartbeat c =
    let interval = agreed_heartbeat c.heartbeat_interval heartbeat in
    record c {
      channel_max = lower c.channel_max channel_max;
      frame_max = lower c.frame_max frame_max;
      heartbeat_interval = interval;
      state = awaiting_open;
      heartbeat_started = ltb 0 interval || c.heartbeat_started;
    }

unfoldable pub take_tune_ok : State → Bytes → World → Result World
unfolding tuned unexpected
take_tune_ok awaiting_tune_ok buf w = do
  (channel_max, s1) ← read_uint16 buf
  (frame_max, s2) ← read_uint32 s1
  (heartbeat, s3) ← read_uint16 s2
  ok (record w { connection = tuned channel_max frame_max heartbeat w.connection })
take_tune_ok _ buf w = ok (unexpected "Unexpected Tune-Ok" ConnectionMethod.tune_ok w)

unfoldable pub handle_tune_ok : Bytes → World → Result World
unfolding take_tune_ok
handle_tune_ok buf w = take_tune_ok w.connection.state buf w

-- `if (buf.remaining() > 0) buf.readUint8();`, which does not fail.
unfoldable pub enter : Bytes → World → World
unfolding send_method_frame send_connection_close
enter virtual_host w =
    if not (virtual_host == codes "/") && not (virtual_host == [])
    then send_connection_close ReplyCode.invalid_path (codes "Unknown vhost: " ++ virtual_host)
        ClassId.connection ConnectionMethod.open_method w
    else send_method_frame 0 ClassId.connection ConnectionMethod.open_ok (write_short_string [])
        (set_state opened w)

unfoldable pub take_open : State → Bytes → World → Result World
unfolding enter unexpected
take_open awaiting_open buf w = do
  (virtual_host, s1) ← read_short_string buf
  (reserved, s2) ← read_short_string s1
  ok (enter virtual_host w)
take_open _ buf w = ok (unexpected "Unexpected Open" ConnectionMethod.open_method w)

unfoldable pub handle_connection_open : Bytes → World → Result World
unfolding take_open
handle_connection_open buf w = take_open w.connection.state buf w

unfoldable pub handle_connection_close : Bytes → World → Result World
unfolding send_method_frame
handle_connection_close buf w = do
  (code, s1) ← read_uint16 buf
  (text, s2) ← read_short_string s1
  (class_id, s3) ← read_uint16 s2
  (method_id, s4) ← read_uint16 s3
  ok (shutdown (send_method_frame 0 ClassId.connection ConnectionMethod.close_ok [] w))

unfoldable pub handle_connection_close_ok : World → Result World
handle_connection_close_ok w = ok (shutdown w)
