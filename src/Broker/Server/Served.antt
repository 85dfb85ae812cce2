-- ===== src/Broker/Server/Served.antt =====
-- What every event of a server keeps of its connections and its host.
use ganshin_mq.Base.{
  ℕ, Bool, Bytes, List, [], ◌∷◌, Option, none, some, ◌==◌, nat_eq, bytes_eq, if◌then◌else◌, ◌≡◌,
  refl, ap, ◌∙◌, sym, subst, arith, Bool-cases, inl, inr,
}
use ganshin_mq.Base.Map.{lookup, insert, lookup-insert}
use ganshin_mq.Broker.Auth.{UserStore}
use ganshin_mq.Broker.VirtualHost.State.{VirtualHost, log}
use ganshin_mq.Broker.VirtualHost.Requests.{
  ticking, compacting, perform, Reachable, served, delivering, Ran, at_rest, asks, Ran-trans,
  Ran-Reachable,
}
use ganshin_mq.Broker.Connection.State.{World, new_connection}
use ganshin_mq.Broker.Connection.Events.{Event, on_event}
use ganshin_mq.Broker.Connection.Invariant.{Owner, Inv, WorldInv}
use ganshin_mq.Broker.Connection.EventsKept.{on_event-Inv}
use ganshin_mq.Storage.Store.{MessageStore, compact_if_needed}
use ganshin_mq.Broker.Message.{Message}
use ganshin_mq.Broker.Queue.{DeadLetter, Effects}
use ganshin_mq.Broker.VirtualHost.Delivery.{deliver_to_queue, route_message}
use ganshin_mq.Broker.VirtualHost.Snapshots.{deliver_each, on_dead_letter}
use ganshin_mq.Broker.Server.{Client, Server, accept, on_tick, on_compaction}
use ganshin_mq.Broker.Server.Events.{
  at_work, take_back, on_client, ServerEvent, accepted, client, ticked, calling, compaction_due,
  Running, call_next, on_server_event,
}
use ganshin_mq.Broker.Server.Removal.{
  left, ends_in, take_back-lookup, take_back-user_store, take_back-default_vhost,
}

-- A connection, if there is one, was made for its owner and has not called `onClose_`.
abbrev pub Held : Owner → Option Client → Type 0
Held own none = Unit {0}
Held own (some c) = Inv own c.connection []

-- Each connection of the map was made with the id under which it stands, and with the server's
-- user store.
abbrev pub Served : UserStore → Server → Type 0
Served store s =
    ((id : ℕ) → Held (id, some store) (lookup id s.connections))
    × (s.user_store ≡ store)
    × Reachable s.default_vhost

-- One entry of the map is changed.
step-Held :
    (store : UserStore) (id : ℕ) (new : Option Client) (entries entries' : List (ℕ × Client))
    → ((asked : ℕ) → lookup asked entries' ≡ (if id == asked then new else lookup asked entries))
    → Held (id, some store) new
    → ((asked : ℕ) → Held (asked, some store) (lookup asked entries))
    → (asked : ℕ) → Held (asked, some store) (lookup asked entries')
step-Held store id new entries entries' step held h asked =
    subst (Held (asked, some store)) (sym (step asked)) (elim (Bool-cases (id == asked)) [
      | inl same ↦
          subst (λ b. Held (asked, some store) (if b then new else lookup asked entries)) (sym same)
            (subst (λ n. Held (n, some store) new) (ground (arith, same)) held)
      | inr other ↦
          subst (λ b. Held (asked, some store) (if b then new else lookup asked entries))
            (sym other) (h asked)
    ])

-- What is left of a connection.
left-Held :
    (store : Option UserStore) (start : VirtualHost) (id : ℕ) (c : Client) (w : World)
    → WorldInv (id, store) start w
    → Held (id, store) (left c w)
left-Held store start id c w i = elim (ends_in (id, store) start w.connection.state w i refl) [
  | inl (none_closed, going_on) ↦
      subst held (sym going_on)
        (subst (λ ks. Inv (id, store) w.connection ks) none_closed (i.0, i.1, i.2, i.3, i.4))
  | inr (one_closed, over) ↦ subst held (sym over) tt
]
  where
    held : Bool → Type 0
    held b = Held (id, store) (if b then none else some (record c { connection = w.connection }))

client-Served :
    (store : UserStore) (id : ℕ) (e : Event) (s : Server)
    → Served store s
    → Served store (on_client id e s).0
unfolding on_client
client-Served store id e s h = there (lookup id s.connections) (h.0 id)
  where
    next : Option Client → Server
    next o =
        let r : Server × List Bytes × List Effects = elim o [
          | none ↦ (s, [], [])
          | some c ↦
              let w = on_event e (at_work c s.default_vhost) in
              (take_back id c w s, w.sent, w.effects)
        ] in
        r.0

    there : (o : Option Client) → Held (id, some store) o → Served store (next o)
    there none i = h
    there (some c) i =
        let w = on_event e (at_work c s.default_vhost) in
        let kept = on_event-Inv e (at_work c s.default_vhost) (i.0, i.1, i.2, i.3, i.4, at_rest) in
        (
          step-Held store id _ s.connections (take_back id c w s).connections
              (λ asked. take_back-lookup (some store) s.default_vhost id asked c w s kept)
              (left-Held (some store) s.default_vhost id c w kept) h.0,
          take_back-user_store id c w s ∙ h.1,
          subst Reachable (sym (take_back-default_vhost id c w s))
              (Ran-Reachable s.default_vhost w.host kept.5 h.2),
        )

accept-Served :
    (store : UserStore) (peer : Bytes) (at_ms : ℕ) (s : Server)
    → Served store s
    → Served store (accept peer at_ms s)
unfolding accept new_connection
accept-Served store peer at_ms s h =
    let id = s.next_connection_id in
    let c : Client = record {
      connection = new_connection id (some s.user_store);
      peer_address = peer;
      connected_at_ms = at_ms;
    } in
    (
      step-Held store id (some c) s.connections (insert id c s.connections)
          (λ asked. lookup-insert id asked c s.connections)
          (
            tt,
            (omega arith, omega arith, omega arith, omega arith),
            tt,
            refl,
            ap (λ (u : UserStore). (id, some u)) h.1,
          )
          h.0,
      h.1,
      h.2,
    )

tick-Served :
    (store : UserStore) (now : ℕ) (s : Server) → Served store s → Served store (on_tick now s).0
unfolding on_tick perform
tick-Served store now s h = (h.0, h.1, served (ticking now) h.2)

compaction-Served :
    (store : UserStore) (s : Server) → Served store s → Served store (on_compaction s)
unfolding on_compaction perform log
compaction-Served store s h = there s.default_vhost.store refl
  where
    compacted : Option MessageStore → VirtualHost
    compacted o = record (s.default_vhost) {
      store = elim o [ none ↦ none | some st ↦ some (compact_if_needed st) ];
    }

    there :
        (o : Option MessageStore)
        → s.default_vhost.store ≡ o
        → Served store (
            let r : Server = elim o [
              | none ↦ s
              | some st ↦ record s {
                default_vhost = record (s.default_vhost) { store = some (compact_if_needed st) };
              }
            ] in
            r)
    there none e = h
    there (some st) e = (h.0, h.1, subst (λ o. Reachable (compacted o)) e (served compacting h.2))

deliver_each-Ran :
    (now : ℕ) (queues : List Bytes) (m : Message) (v : VirtualHost)
    → Ran v (deliver_each now queues m v).0
unfolding deliver_each perform
deliver_each-Ran now [] m v = at_rest
deliver_each-Ran now (queue ∷ queues) m v =
    let there = (deliver_to_queue now queue m v).0 in
    Ran-trans v there (deliver_each now queues m there).0 (asks (delivering now queue m) v)
      (deliver_each-Ran now queues m there)

call-Served :
    (store : UserStore) (now : ℕ) (s : Server) (calls : List DeadLetter)
    → Served store s
    → Served store (call_next now s calls).server
unfolding call_next on_dead_letter
call-Served store now s [] h = h
call-Served store now s (d ∷ calls) h =
    let queues = route_message d.dlx d.key d.letter.properties.headers s.default_vhost in
    (
      h.0,
      h.1,
      Ran-Reachable s.default_vhost (deliver_each now queues d.letter s.default_vhost).0
          (deliver_each-Ran now queues d.letter s.default_vhost) h.2,
    )

pub event-Served :
    (store : UserStore) (e : ServerEvent) (r : Running)
    → Served store r.server
    → Served store (on_server_event e r).server
unfolding on_server_event
event-Served store (accepted peer at_ms) r h = accept-Served store peer at_ms r.server h
event-Served store (client id e) r h = client-Served store id e r.server h
event-Served store (ticked now) r h = tick-Served store now r.server h
event-Served store (calling now) r h = call-Served store now r.server r.calls h
event-Served store compaction_due r h = compaction-Served store r.server h
