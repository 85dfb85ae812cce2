-- ===== src/Broker/Server.antt =====
-- broker/server.h and broker/server.cpp: the connections of the server. Sockets and timers call
-- these functions; the host is shared by the connections.
pub mod Events
pub mod Removal
pub mod Served
pub mod Clients
use ganshin_mq.Base.{
  ℕ, ◌+◌, ◌%◌, ◌^◌, Bytes, codes, List, [], ◌∷◌, ◌++◌, Option, none, some, bytes_eq, nat_eq, map,
  length,
}
use ganshin_mq.Base.Map.{insert, erase, lookup}
use ganshin_mq.Broker.Auth.{UserStore, new_user_store, load_from_file}
use ganshin_mq.Broker.Queue.{Effects}
use ganshin_mq.Broker.VirtualHost.State.{VirtualHost, new_virtual_host}
use ganshin_mq.Broker.VirtualHost.Recovery.{recover_from_store}
use ganshin_mq.Broker.VirtualHost.Delivery
use ganshin_mq.Storage.Store.{MessageStore, compact_if_needed}
use ganshin_mq.Broker.Connection.State.{Connection, World, new_connection}
use ganshin_mq.Broker.Connection.Heartbeat.{close}

-- A connection with its peer's address and the time at which it came, in milliseconds.
pub record Client : Type 0 where
  pub connection : Connection
  pub peer_address : Bytes
  pub connected_at_ms : ℕ

pub record Server : Type 0 where
  pub default_vhost : VirtualHost
  pub user_store : UserStore
  pub next_connection_id : ℕ
  pub connections : List (ℕ × Client)

-- The constructor: the store with its log, if there is a data directory, and the lines of the users
-- file; the inner `none` is a file that cannot be opened.
unfoldable pub new_server : ℕ → Option MessageStore → Option (Option (List Bytes)) → Server
unfolding new_virtual_host recover_from_store load_from_file
new_server now store users_file = record {
  default_vhost = recover_from_store now (new_virtual_host (codes "/") store);
  user_store = elim users_file [
    | none ↦ new_user_store
    | some lines ↦ (load_from_file lines new_user_store).0
  ];
  next_connection_id = 1;
  connections = [];
}

-- A socket is accepted.
unfoldable pub accept : Bytes → ℕ → Server → Server
unfolding new_connection
accept peer at_ms s = record s {
  next_connection_id = (s.next_connection_id + 1) % 2 ^ 32;
  connections =
      insert s.next_connection_id
        (record {
          connection = new_connection s.next_connection_id (some s.user_store);
          peer_address = peer;
          connected_at_ms = at_ms;
        })
        s.connections;
}

unfoldable pub remove_connection : ℕ → Server → Server
remove_connection id s = record s { connections = erase id s.connections }

-- The frames that `close` sends on each connection.
unfoldable pub close_each : VirtualHost → List (ℕ × Client) → List (ℕ × List Bytes)
unfolding close
close_each v [] = []
close_each v ((id, c) ∷ more) =
    let w : World = record {
      connection = c.connection;
      host = v;
      sent = [];
      effects = [];
      closings = [];
    } in
    (id, (close w).sent) ∷ close_each v more

-- The connections are closed and forgotten.
unfoldable pub stop : Server → Server × List (ℕ × List Bytes)
unfolding close_each
stop s = (record s { connections = [] }, close_each s.default_vhost s.connections)

pub record ConnectionInfo : Type 0 where
  pub id : ℕ
  pub user : Bytes
  pub peer : Bytes
  pub connected_at_ms : ℕ
  pub channels : ℕ

unfoldable pub connection_info : ℕ × Client → ConnectionInfo
connection_info (id, c) = record {
  id = id;
  user = c.connection.auth_user;
  peer = c.peer_address;
  connected_at_ms = c.connected_at_ms;
  channels = length c.connection.channels;
}

unfoldable pub snapshot_connections : Server → List ConnectionInfo
unfolding connection_info
snapshot_connections s = map connection_info s.connections

-- What the two timers call.
unfoldable pub on_tick : ℕ → Server → Server × List Effects
on_tick now s =
    let (v, effects) = Delivery.tick now s.default_vhost in
    (record s { default_vhost = v }, effects)

unfoldable pub on_compaction : Server → Server
on_compaction s = elim s.default_vhost.store [
  | none ↦ s
  | some store ↦ record s {
    default_vhost = record (s.default_vhost) { store = some (compact_if_needed store) };
  }
]
