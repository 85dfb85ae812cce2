-- ===== src/Broker/Connection/Events.antt =====
-- A connection over a sequence of events: reads of the socket, deliveries, timers, and the server.
use ganshin_mq.Base.{ℕ, Bytes, List, [], ◌∷◌, Option, none, some, nat_eq, bytes_eq}
use ganshin_mq.Broker.Auth.{UserStore}
use ganshin_mq.Broker.Message.{Message}
use ganshin_mq.Broker.VirtualHost.State.{VirtualHost}
use ganshin_mq.Broker.Channel.Consuming.{on_deliver}
use ganshin_mq.Broker.Channel.Methods.{Moment}
use ganshin_mq.Broker.Connection.State.{new_connection, World}
use ganshin_mq.Broker.Connection.Methods.{take_over, open_at}
use ganshin_mq.Broker.Connection.Reading.{on_read, on_read_error, on_write_error}
use ganshin_mq.Broker.Connection.Heartbeat.{send_heartbeat, check_heartbeat, close}

-- A queue's delivery, posted to the strand, for the channel with a number, with the consumer's tag
-- and queue.
unfoldable pub on_posted : ℕ → Bytes → Bytes → Message → World → World
unfolding on_deliver open_at take_over
on_posted n tag queue m w = elim (open_at n w) [
  | none ↦ w
  | some ch ↦ let (ch', sent) = on_deliver tag queue m ch in take_over n w (ch', w.host, sent, [])
]

pub data Event : Type 0 where
  read : Moment → Bytes → Event
  read_failed write_failed heartbeat_due check_due server_close : Event
  posted : ℕ → Bytes → Bytes → Message → Event

unfoldable pub on_event : Event → World → World
unfolding on_read on_read_error on_write_error on_posted send_heartbeat check_heartbeat close
on_event (read t bytes) w = on_read t w.connection.reading bytes w
on_event read_failed w = on_read_error w
on_event write_failed w = on_write_error w
on_event heartbeat_due w = send_heartbeat w
on_event check_due w = check_heartbeat w
on_event server_close w = close w
on_event (posted n tag queue m) w = on_posted n tag queue m w

unfoldable pub run : List Event → World → World
unfolding on_event
run [] w = w
run (e ∷ es) w = run es (on_event e w)

-- A new connection to a host.
unfoldable pub new_world : ℕ → Option UserStore → VirtualHost → World
unfolding new_connection
new_world id store v = record {
  connection = new_connection id store;
  host = v;
  sent = [];
  effects = [];
  closings = [];
}
