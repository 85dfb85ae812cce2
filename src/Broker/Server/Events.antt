-- ===== src/Broker/Server/Events.antt =====
-- The server over a sequence of events: sockets that are accepted, events of its connections, the
-- two timers, and the calls of the dead-letter handler, until it is stopped.
use ganshin_mq.Base.{ℕ, Bytes, List, [], ◌∷◌, ◌++◌, none, some, nat_eq, bytes_eq}
use ganshin_mq.Base.Map.{lookup, insert}
use ganshin_mq.Broker.Queue.{DeadLetter, Effects}
use ganshin_mq.Broker.VirtualHost.State.{VirtualHost}
use ganshin_mq.Broker.VirtualHost.Snapshots.{on_dead_letter}
use ganshin_mq.Broker.Connection.State.{World}
use ganshin_mq.Broker.Connection.Events.{Event, on_event}
use ganshin_mq.Broker.Server.{Client, Server, accept, remove_connection, on_tick, on_compaction}

-- A client's connection at work on the server's host.
abbrev pub at_work : Client → VirtualHost → World
at_work c v = record { connection = c.connection; host = v; sent = []; effects = []; closings = [] }

-- The calls of `onClose_`.
unfoldable pub remove_closed : List ℕ → Server → Server
unfolding remove_connection
remove_closed [] s = s
remove_closed (id ∷ ids) s = remove_closed ids (remove_connection id s)

-- What an event has made of a client's connection is taken over.
unfoldable pub take_back : ℕ → Client → World → Server → Server
unfolding remove_closed
take_back id c w s = remove_closed w.closings (record s {
  default_vhost = w.host;
  connections = insert id (record c { connection = w.connection }) s.connections;
})

-- An event of the connection with an id: the server, the frames that are sent to the peer, and what
-- queues do to others. A connection that has left the map has none.
unfoldable pub on_client : ℕ → Event → Server → Server × List Bytes × List Effects
unfolding take_back on_event
on_client id e s = elim (lookup id s.connections) [
  | none ↦ (s, [], [])
  | some c ↦
      let w = on_event e (at_work c s.default_vhost) in (take_back id c w s, w.sent, w.effects)
]

-- The calls of the dead-letter handler that operations on queues lead to.
unfoldable pub calls_of : List Effects → List DeadLetter
calls_of [] = []
calls_of (e ∷ effects) = e.dead_letters ++ calls_of effects

-- A server with the calls of the dead-letter handler that are still to be made.
pub record Running : Type 0 where
  pub server : Server
  pub calls : List DeadLetter

-- What an operation leaves; its calls are made before older ones.
abbrev pub after_work : Server → List Effects → List DeadLetter → Running
after_work s effects calls = record { server = s; calls = calls_of effects ++ calls }

-- The next call is made.
unfoldable pub call_next : ℕ → Server → List DeadLetter → Running
unfolding calls_of
call_next now s [] = record { server = s; calls = [] }
call_next now s (d ∷ calls) =
    let (v, effects) = on_dead_letter now d s.default_vhost in
    after_work (record s { default_vhost = v }) effects calls

pub data ServerEvent : Type 0 where
  accepted : Bytes → ℕ → ServerEvent
  client : ℕ → Event → ServerEvent
  ticked calling : ℕ → ServerEvent
  compaction_due : ServerEvent

unfoldable pub on_server_event : ServerEvent → Running → Running
unfolding accept on_client on_tick on_compaction call_next calls_of
on_server_event (accepted peer at_ms) r = record r { server = accept peer at_ms r.server }
on_server_event (client id e) r =
    let (s, sent, effects) = on_client id e r.server in after_work s effects r.calls
on_server_event (ticked now) r =
    let (s, effects) = on_tick now r.server in after_work s effects r.calls
on_server_event (calling now) r = call_next now r.server r.calls
on_server_event compaction_due r = record r { server = on_compaction r.server }

unfoldable pub run_server : List ServerEvent → Running → Running
unfolding on_server_event
run_server [] r = r
run_server (e ∷ es) r = run_server es (on_server_event e r)
