-- ===== src/Tests/Servers.antt =====
-- The theorems on a server at a login.
use ganshin_mq.Base.{
  ℕ, true, Bytes, codes, List, [], ◌∷◌, ◌++◌, Option, none, some, ◌==◌, nat_eq, bytes_eq, bytes_beq,
  if◌then◌else◌, take, drop, ◌≡◌, ◌≢◌, refl,
}
use ganshin_mq.Base.Map.{lookup, insert}
use ganshin_mq.Amqp.FieldValue.{end}
use ganshin_mq.Amqp.Buffer.{
  write_uint16, write_uint32, write_short_string, write_long_string, read_uint16, read_uint32,
  read_short_string, read_long_string,
}
use ganshin_mq.Amqp.Table.{write_field_table, write_entries, read_table, read_field_table}
use ganshin_mq.Amqp.Frame.{protocol_header}
use ganshin_mq.Broker.Auth.{load_from_file, verify}
use ganshin_mq.Broker.Channel.Frames.{method_frame}
use ganshin_mq.Broker.Channel.Methods.{Moment}
use ganshin_mq.Broker.Connection.State.{awaiting_tune_ok, closed, header_bytes, new_connection}
use ganshin_mq.Broker.Connection.Handshake.{send_connection_start, handle_start_ok}
use ganshin_mq.Broker.Connection.Methods.{handle_frame}
use ganshin_mq.Broker.Connection.Events.{read, read_failed, on_event}
use ganshin_mq.Broker.Connection.Invariant.{LoggedIn}
use ganshin_mq.Broker.VirtualHost.Requests.{Reachable}
use ganshin_mq.Broker.Server.{Client, Server, new_server, accept}
use ganshin_mq.Broker.Server.Events.{
  at_work, on_client, ServerEvent, accepted, client, on_server_event, run_server,
}
use ganshin_mq.Broker.Server.Removal.{left}
use ganshin_mq.Broker.Server.Clients.{
  served_after, run_server-clients, on_client-lookup, run_server-Reachable,
}

abbrev moment : Moment
moment = record { now = 9; fresh = 1 }

abbrev start_ok : Bytes
start_ok = method_frame 0 10 11 (
    write_field_table end
    ++ (write_short_string (codes "PLAIN")
        ++ (write_long_string (0 ∷ codes "ann" ++ (0 ∷ codes "pw"))
            ++ write_short_string (codes "en_US"))))

-- A socket is accepted, and its client logs in.
abbrev events : List ServerEvent
events =
    accepted (codes "1.2.3.4:5") 7
    ∷ client 1 (read moment protocol_header)
    ∷ client 1 (read moment (take 7 start_ok))
    ∷ client 1 (read moment (drop 7 start_ok))
    ∷ []

abbrev users_file : Option (Option (List Bytes))
users_file = some (some (codes "ann:pw" ∷ []))

abbrev server : Server
server = served_after events 0 none users_file

abbrev ann : Client
ann = record {
  connection = record (new_connection 1 (some (new_server 0 none users_file).user_store)) {
    state = awaiting_tune_ok;
    auth_user = codes "ann";
    received_data = true;
    reading = header_bytes;
  };
  peer_address = codes "1.2.3.4:5";
  connected_at_ms = 7;
}

found : lookup 1 server.connections ≡ some ann
unfolding run_server on_server_event accept on_client lookup insert new_server load_from_file
    new_connection on_event method_frame write_uint16 write_uint32 write_field_table
    write_long_string write_short_string write_entries bytes_beq send_connection_start handle_frame
    read_uint16 handle_start_ok read_table read_field_table read_uint32 read_short_string
    read_long_string verify
found = refl

run_server-clients_example :
    (ann.connection.id ≡ 1)
    × (ann.connection.state ≢ closed)
    × LoggedIn ann.connection.state
        (some (new_server 0 none users_file).user_store)
        ann.connection.auth_user
run_server-clients_example = run_server-clients events 0 none users_file 1 ann found

run_server-Reachable_example : Reachable server.default_vhost
run_server-Reachable_example = run_server-Reachable events 0 none users_file

-- The peer goes.
on_client-lookup_example : lookup 1 (on_client 1 read_failed server).0.connections ≡ (
    if ◌==◌ {K = ℕ} 1 1
    then left ann (on_event read_failed (at_work ann server.default_vhost))
    else lookup 1 server.connections)
on_client-lookup_example = on_client-lookup events 0 none users_file 1 1 ann read_failed found
