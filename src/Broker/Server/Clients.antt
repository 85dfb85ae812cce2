-- ===== src/Broker/Server/Clients.antt =====
-- The connections and the host of a server, after any events.
use ganshin_mq.Base.{
  ℕ, Bytes, codes, List, [], ◌∷◌, Option, none, some, ◌==◌, nat_eq, bytes_eq, if◌then◌else◌, ◌≡◌,
  ◌≢◌, refl, ap, ◌∙◌, sym, subst,
}
use ganshin_mq.Base.Map.{lookup}
use ganshin_mq.Broker.Auth.{UserStore}
use ganshin_mq.Broker.VirtualHost.State.{VirtualHost}
use ganshin_mq.Broker.VirtualHost.Requests.{
  recovering, perform, Reachable, started, served, at_rest,
}
use ganshin_mq.Broker.Connection.State.{
  State, awaiting_protocol_header, awaiting_start_ok, awaiting_tune_ok, awaiting_open, opened,
  closing, closed, World,
}
use ganshin_mq.Broker.Connection.Events.{Event, on_event}
use ganshin_mq.Broker.Connection.Invariant.{Owner, Inv, WorldInv, At, LoggedIn}
use ganshin_mq.Broker.Connection.EventsKept.{on_event-Inv}
use ganshin_mq.Storage.Store.{MessageStore}
use ganshin_mq.Broker.Queue.{Effects}
use ganshin_mq.Broker.Server.{Client, Server, new_server}
use ganshin_mq.Broker.Server.Events.{
  at_work, take_back, on_client, ServerEvent, on_server_event, Running, run_server,
}
use ganshin_mq.Broker.Server.Removal.{left, take_back-lookup}
use ganshin_mq.Broker.Server.Served.{Held, Served, event-Served}

run-Served :
    (store : UserStore) (es : List ServerEvent) (r : Running)
    → Served store r.server
    → Served store (run_server es r).server
unfolding run_server
run-Served store [] r h = h
run-Served store (e ∷ es) r h = run-Served store es (on_server_event e r) (event-Served store e r h)

-- The server that was just started.
abbrev pub at_start : ℕ → Option MessageStore → Option (Option (List Bytes)) → Running
at_start now store users_file = record { server = new_server now store users_file; calls = [] }

-- The server after any events.
abbrev pub served_after :
    List ServerEvent → ℕ → Option MessageStore → Option (Option (List Bytes)) → Server
served_after es now store users_file = (run_server es (at_start now store users_file)).server

new-Served :
    (now : ℕ) (store : Option MessageStore) (users_file : Option (Option (List Bytes)))
    → Served (new_server now store users_file).user_store (new_server now store users_file)
unfolding new_server lookup perform
new-Served now store users_file =
    (λ id. tt, refl, served (recovering now) (started (codes "/") store))

-- A connection with an invariant is not closed, unless it has called `onClose_`.
not_over :
    (own : Owner) (start : VirtualHost) (s : State) (w : World)
    → At own start s w
    → w.closings ≡ []
    → s ≢ closed
not_over own start closed w i e f = absurd (cc (sym i.3.0 ∙ e))
not_over own start awaiting_protocol_header w i e f = cc
not_over own start awaiting_start_ok w i e f = cc
not_over own start awaiting_tune_ok w i e f = cc
not_over own start awaiting_open w i e f = cc
not_over own start opened w i e f = cc
not_over own start closing w i e f = cc

-- On a server after any events, an event of a connection removes it from the map if it closes it;
-- else the connection stays, as the event has made it. No event touches another connection.
pub on_client-lookup :
    (es : List ServerEvent) (now : ℕ) (store : Option MessageStore)
    (users_file : Option (Option (List Bytes))) (id asked : ℕ) (c : Client) (e : Event)
    → lookup id (served_after es now store users_file).connections ≡ some c
    → lookup asked (on_client id e (served_after es now store users_file)).0.connections ≡ (
        if id == asked
        then left c (on_event e (at_work c (served_after es now store users_file).default_vhost))
        else lookup asked (served_after es now store users_file).connections)
unfolding on_client
on_client-lookup es now store users_file id asked c e there =
    let users = (new_server now store users_file).user_store in
    let s = served_after es now store users_file in
    let held =
      (run-Served users es (at_start now store users_file) (new-Served now store users_file)).0
        id in
    ap (λ o. lookup asked (next s o).connections) there
    ∙ take_back-lookup (some users) s.default_vhost id asked c
        (on_event e (at_work c s.default_vhost)) s
        (on_event-Inv e (at_work c s.default_vhost)
          (worked (subst (Held (id, some users)) there held)))
  where
    worked :
        {own : Owner} {v : VirtualHost} → Inv own c.connection [] → WorldInv own v (at_work c v)
    worked i = (i.0, i.1, i.2, i.3, i.4, at_rest)

    next : Server → Option Client → Server
    next s o =
        let r : Server × List Bytes × List Effects = elim o [
          | none ↦ (s, [], [])
          | some c ↦
              let w = on_event e (at_work c s.default_vhost) in
              (take_back id c w s, w.sent, w.effects)
        ] in
        r.0

-- Whatever happens on a server: a connection that is in its map stands there under the id that it
-- was made with and is not closed, and when it is past its login, the user store that the server
-- was started with accepts the user that it holds, with some password.
pub run_server-clients :
    (es : List ServerEvent) (now : ℕ) (store : Option MessageStore)
    (users_file : Option (Option (List Bytes))) (id : ℕ) (c : Client)
    → lookup id (served_after es now store users_file).connections ≡ some c
    → (c.connection.id ≡ id)
      × (c.connection.state ≢ closed)
      × LoggedIn c.connection.state
          (some (new_server now store users_file).user_store)
          c.connection.auth_user
run_server-clients es now store users_file id c e =
    let users = (new_server now store users_file).user_store in
    let host = (new_server now store users_file).default_vhost in
    let i : Inv (id, some users) c.connection [] = subst (Held (id, some users)) e (
      (run-Served users es (at_start now store users_file) (new-Served now store users_file)).0
        id) in
    (
      ap (λ (o : Owner). o.0) i.4,
      not_over (id, some users) host c.connection.state (at_work c host)
          (i.0, i.1, i.2, i.3, i.4, at_rest) refl,
      subst (λ (o : Owner). LoggedIn c.connection.state o.1 c.connection.auth_user) i.4 i.0,
    )

-- Whatever happens on a server, what its clients, its timers and the calls of the dead-letter
-- handler do to the virtual host comes down to requests of it: after any events the host is one
-- that requests lead to from a new host. A call of the handler is an event of its own, somewhere
-- behind the operation that led to it.
pub run_server-Reachable :
    (es : List ServerEvent) (now : ℕ) (store : Option MessageStore)
    (users_file : Option (Option (List Bytes)))
    → Reachable (served_after es now store users_file).default_vhost
run_server-Reachable es now store users_file =
    let users = (new_server now store users_file).user_store in
    (run-Served users es (at_start now store users_file) (new-Served now store users_file)).2
