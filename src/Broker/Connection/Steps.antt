-- ===== src/Broker/Connection/Steps.antt =====
-- Every event keeps the invariant of a connection.
use Prim.Native.String.{String}
use ganshin_mq.Base.{
  ℕ, not, ◌&&◌, ◌||◌, Bytes, codes, [], Option, none, some, ◌==◌, nat_eq, bytes_eq, ltb, arith,
  Bool-cases, inl, inr,
}
use ganshin_mq.Amqp.Buffer.Ensures.{
  Ensures, IsDecided, bind-Ensures, if-Ensures, after_uint8, after_uint16, after_uint32,
  after_short_string, after_long_string,
}
use ganshin_mq.Amqp.Content.Decided.{after_table}
use ganshin_mq.Amqp.Methods.ConnectionMethod
use ganshin_mq.Broker.VirtualHost.State.{VirtualHost}
use ganshin_mq.Broker.Connection.State.{
  State, awaiting_protocol_header, awaiting_start_ok, awaiting_tune_ok, awaiting_open, opened,
  closing, closed, Connection, World, send_method_frame,
}
use ganshin_mq.Broker.Connection.Channels.{
  open_channel, handle_channel_open, handle_channel_close, handle_channel_close_ok,
  handle_channel_flow,
}
use ganshin_mq.Broker.Connection.Handshake.{
  accepts, credentials, log_in, send_connection_tune, unexpected, take_start_ok, handle_start_ok,
  tuned, take_tune_ok, handle_tune_ok, enter, take_open, handle_connection_open,
  handle_connection_close, handle_connection_close_ok,
}
use ganshin_mq.Broker.Connection.Invariant.{
  Owner, Limits, WorldInv, At, send_connection_close-Inv, shutdown-Inv, put_channel-Inv,
  cleanup_channel-Inv,
}

credentials-IsDecided : (mechanism response : Bytes) → IsDecided (credentials mechanism response)
unfolding credentials
credentials-IsDecided mechanism response =
    if-Ensures (λ _. Unit {0}) (mechanism == codes "PLAIN") _ _ tt
      (if-Ensures (λ _. Unit {0}) (mechanism == codes "AMQPLAIN") _ _
        (after_table (λ _. Unit {0}) response _ (λ a. tt)) tt)

tuned-Limits :
    (channel_max frame_max heartbeat : ℕ) (c : Connection)
    → Limits c.channel_max c.frame_max
    → Limits
        (tuned channel_max frame_max heartbeat c).channel_max
        (tuned channel_max frame_max heartbeat c).frame_max
unfolding tuned
tuned-Limits channel_max frame_max heartbeat c i = ground arith

module _ {own : Owner} {start : VirtualHost} where
  open_channel-Inv :
      (n : ℕ) (w : World) → WorldInv own start w → WorldInv own start (open_channel n w)
  unfolding open_channel send_method_frame
  open_channel-Inv n w i = elim (Bool-cases (n == 0 || ltb w.connection.channel_max n)) [
    | inl e ↦ rw e (send_connection_close-Inv _ _ _ _ w i)
    | inr e ↦
        let limit = i.1.1 in
        rw e (put_channel-Inv n _ w (ground (arith, e)) (ground (arith, e, limit)) i)
  ]

  pub channel_methods-Inv :
      (n : ℕ) (buf : Bytes) (w : World)
      → WorldInv own start w
      → Ensures (WorldInv own start) (handle_channel_open n buf w)
        × Ensures (WorldInv own start) (handle_channel_close n buf w)
        × Ensures (WorldInv own start) (handle_channel_close_ok n w)
        × Ensures (WorldInv own start) (handle_channel_flow n buf w)
  unfolding handle_channel_open handle_channel_close handle_channel_close_ok handle_channel_flow
      send_method_frame
  channel_methods-Inv n buf w i = (
    after_short_string (WorldInv own start) buf _ (λ a. open_channel-Inv n w i),
    after_uint16 (WorldInv own start) buf _ (λ a.
        after_short_string (WorldInv own start) a.1 _ (λ b.
          after_uint16 (WorldInv own start) b.1 _
            (λ c. after_uint16 (WorldInv own start) c.1 _ (λ d. cleanup_channel-Inv n w i)))),
    cleanup_channel-Inv n w i,
    after_uint8 (WorldInv own start) buf _ (λ a. i),
  )

  unexpected-Inv :
      (what : String) (m : ℕ) (w : World)
      → WorldInv own start w
      → WorldInv own start (unexpected what m w)
  unfolding unexpected
  unexpected-Inv what m w i = send_connection_close-Inv _ _ _ _ w i

  -- In the state in which the connection waits for the login.
  log_in-Inv :
      (mechanism : Bytes) (login : Option (Bytes × Bytes)) (w : World)
      → WorldInv own start w
      → At own start awaiting_start_ok w
      → WorldInv own start (log_in mechanism login w)
  unfolding log_in send_connection_tune send_method_frame
  log_in-Inv mechanism none w i s = send_connection_close-Inv _ _ _ _ w i
  log_in-Inv mechanism (some (user, pass)) w i s =
      elim (Bool-cases (accepts w.connection.user_store user pass)) [
        | inl e ↦ rw e ((pass, e), s.1, s.2, s.3, s.4, s.5)
        | inr e ↦ rw e (send_connection_close-Inv _ _ _ _ w i)
      ]

  take_start_ok-Inv :
      (s : State) (buf : Bytes) (w : World)
      → WorldInv own start w
      → At own start s w
      → Ensures (WorldInv own start) (take_start_ok s buf w)
  unfolding take_start_ok
  take_start_ok-Inv awaiting_start_ok buf w i a = after_table (WorldInv own start) buf _ (λ b.
      after_short_string (WorldInv own start) b.1 _ (λ c.
        after_long_string (WorldInv own start) c.1 _ (λ d.
          after_short_string (WorldInv own start) d.1 _ (λ e.
            bind-Ensures (WorldInv own start) (credentials c.0 d.0) _
              (credentials-IsDecided c.0 d.0) (λ login. log_in-Inv c.0 login w i a)))))
  take_start_ok-Inv awaiting_protocol_header buf w i a =
      unexpected-Inv "Unexpected Start-Ok" ConnectionMethod.start_ok w i
  take_start_ok-Inv awaiting_tune_ok buf w i a =
      unexpected-Inv "Unexpected Start-Ok" ConnectionMethod.start_ok w i
  take_start_ok-Inv awaiting_open buf w i a =
      unexpected-Inv "Unexpected Start-Ok" ConnectionMethod.start_ok w i
  take_start_ok-Inv opened buf w i a =
      unexpected-Inv "Unexpected Start-Ok" ConnectionMethod.start_ok w i
  take_start_ok-Inv closing buf w i a =
      unexpected-Inv "Unexpected Start-Ok" ConnectionMethod.start_ok w i
  take_start_ok-Inv closed buf w i a =
      unexpected-Inv "Unexpected Start-Ok" ConnectionMethod.start_ok w i

  take_tune_ok-Inv :
      (s : State) (buf : Bytes) (w : World)
      → WorldInv own start w
      → At own start s w
      → Ensures (WorldInv own start) (take_tune_ok s buf w)
  unfolding take_tune_ok tuned
  take_tune_ok-Inv awaiting_tune_ok buf w i s = after_uint16 (WorldInv own start) buf _ (λ a.
      after_uint32 (WorldInv own start) a.1 _ (λ b.
        after_uint16 (WorldInv own start) b.1 _
          (λ c. (s.0, tuned-Limits a.0 b.0 c.0 w.connection s.1, s.2, s.3, s.4, s.5))))
  take_tune_ok-Inv awaiting_protocol_header buf w i a =
      unexpected-Inv "Unexpected Tune-Ok" ConnectionMethod.tune_ok w i
  take_tune_ok-Inv awaiting_start_ok buf w i a =
      unexpected-Inv "Unexpected Tune-Ok" ConnectionMethod.tune_ok w i
  take_tune_ok-Inv awaiting_open buf w i a =
      unexpected-Inv "Unexpected Tune-Ok" ConnectionMethod.tune_ok w i
  take_tune_ok-Inv opened buf w i a =
      unexpected-Inv "Unexpected Tune-Ok" ConnectionMethod.tune_ok w i
  take_tune_ok-Inv closing buf w i a =
      unexpected-Inv "Unexpected Tune-Ok" ConnectionMethod.tune_ok w i
  take_tune_ok-Inv closed buf w i a =
      unexpected-Inv "Unexpected Tune-Ok" ConnectionMethod.tune_ok w i

  enter-Inv :
      (virtual_host : Bytes) (w : World)
      → WorldInv own start w
      → At own start awaiting_open w
      → WorldInv own start (enter virtual_host w)
  unfolding enter send_method_frame
  enter-Inv virtual_host w i s =
      elim (Bool-cases (not (virtual_host == codes "/") && not (virtual_host == []))) [
        | inl e ↦ rw e (send_connection_close-Inv _ _ _ _ w i)
        | inr e ↦ rw e s
      ]

  take_open-Inv :
      (s : State) (buf : Bytes) (w : World)
      → WorldInv own start w
      → At own start s w
      → Ensures (WorldInv own start) (take_open s buf w)
  unfolding take_open
  take_open-Inv awaiting_open buf w i s =
      after_short_string (WorldInv own start) buf _
        (λ a. after_short_string (WorldInv own start) a.1 _ (λ b. enter-Inv a.0 w i s))
  take_open-Inv awaiting_protocol_header buf w i a =
      unexpected-Inv "Unexpected Open" ConnectionMethod.open_method w i
  take_open-Inv awaiting_start_ok buf w i a =
      unexpected-Inv "Unexpected Open" ConnectionMethod.open_method w i
  take_open-Inv awaiting_tune_ok buf w i a =
      unexpected-Inv "Unexpected Open" ConnectionMethod.open_method w i
  take_open-Inv opened buf w i a = unexpected-Inv "Unexpected Open" ConnectionMethod.open_method w i
  take_open-Inv closing buf w i a =
      unexpected-Inv "Unexpected Open" ConnectionMethod.open_method w i
  take_open-Inv closed buf w i a = unexpected-Inv "Unexpected Open" ConnectionMethod.open_method w i

  pub connection_methods-Inv :
      (buf : Bytes) (w : World)
      → WorldInv own start w
      → Ensures (WorldInv own start) (handle_start_ok buf w)
        × Ensures (WorldInv own start) (handle_tune_ok buf w)
        × Ensures (WorldInv own start) (handle_connection_open buf w)
        × Ensures (WorldInv own start) (handle_connection_close buf w)
        × Ensures (WorldInv own start) (handle_connection_close_ok w)
  unfolding handle_start_ok handle_tune_ok handle_connection_open handle_connection_close
      handle_connection_close_ok send_method_frame
  connection_methods-Inv buf w i = (
    take_start_ok-Inv w.connection.state buf w i i,
    take_tune_ok-Inv w.connection.state buf w i i,
    take_open-Inv w.connection.state buf w i i,
    after_uint16 (WorldInv own start) buf _ (λ a.
        after_short_string (WorldInv own start) a.1 _ (λ b.
          after_uint16 (WorldInv own start) b.1 _
            (λ c. after_uint16 (WorldInv own start) c.1 _ (λ d. shutdown-Inv _ i)))),
    shutdown-Inv w i,
  )
