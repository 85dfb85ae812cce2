-- ===== src/Broker/Server/Removal.antt =====
-- What an event of a connection does to the map of the connections.
use ganshin_mq.Base.{
  ℕ, Bool, true, false, List, [], ◌∷◌, Option, none, some, ◌==◌, nat_eq, bytes_eq, if◌then◌else◌,
  ◌≡◌, refl, ap, ◌∙◌, sym, arith, ◌⊎◌, inl, inr,
}
use ganshin_mq.Base.Map.{lookup, insert, erase, lookup-insert, lookup-erase}
use ganshin_mq.Broker.Auth.{UserStore}
use ganshin_mq.Broker.VirtualHost.State.{VirtualHost}
use ganshin_mq.Broker.Connection.State.{
  State, awaiting_protocol_header, awaiting_start_ok, awaiting_tune_ok, awaiting_open, opened,
  closing, closed, World,
}
use ganshin_mq.Broker.Connection.Invariant.{Owner, WorldInv, At}
use ganshin_mq.Broker.Server.{Client, Server, remove_connection}
use ganshin_mq.Broker.Server.Events.{remove_closed, take_back}

abbrev pub is_closed : State → Bool
is_closed closed = true
is_closed _ = false

-- A closed connection is the one to be removed; another removes none.
pub ends_in :
    (own : Owner) (start : VirtualHost) (s : State) (w : World)
    → At own start s w
    → s ≡ w.connection.state
    → ((w.closings ≡ []) × (is_closed s ≡ false))
      ⊎ ((w.closings ≡ own.0 ∷ []) × (is_closed s ≡ true))
ends_in own start closed w i e = inr (i.3.0 ∙ ap (λ (o : Owner). o.0 ∷ []) i.4, refl)
ends_in own start awaiting_protocol_header w i e = inl (i.3, refl)
ends_in own start awaiting_start_ok w i e = inl (i.3, refl)
ends_in own start awaiting_tune_ok w i e = inl (i.3, refl)
ends_in own start awaiting_open w i e = inl (i.3, refl)
ends_in own start opened w i e = inl (i.3, refl)
ends_in own start closing w i e = inl (i.3, refl)

-- What is left of a connection in the map.
abbrev pub left : Client → World → Option Client
left c w =
    if is_closed w.connection.state then none else some (record c { connection = w.connection })

-- The map with a client's connection as an event has made it.
abbrev pub updated : ℕ → Client → World → Server → List (ℕ × Client)
updated id c w s = insert id (record c { connection = w.connection }) s.connections

abbrev pub kept : ℕ → Client → World → Server → List (ℕ × Client)
kept id c w s =
    if is_closed w.connection.state then erase id (updated id c w s) else updated id c w s

take_back-connections :
    (store : Option UserStore) (start : VirtualHost) (id : ℕ) (c : Client) (w : World) (s : Server)
    → WorldInv (id, store) start w
    → (take_back id c w s).connections ≡ kept id c w s
unfolding take_back remove_closed remove_connection
take_back-connections store start id c w s i =
    elim (ends_in (id, store) start w.connection.state w i refl) [
      | inl (none_closed, going_on) ↦
          ap (λ ks. (remove_closed ks after).connections) none_closed ∙ sym (ap branch going_on)
      | inr (one_closed, over) ↦
          ap (λ ks. (remove_closed ks after).connections) one_closed ∙ sym (ap branch over)
    ]
  where
    after : Server
    after = record s { default_vhost = w.host; connections = updated id c w s }

    branch : Bool → List (ℕ × Client)
    branch b = if b then erase id (updated id c w s) else updated id c w s

-- What an event of a connection does to the map: the connection is gone when it is closed, else it
-- is as the event has made it; the others stay.
pub take_back-lookup :
    (store : Option UserStore) (start : VirtualHost) (id asked : ℕ) (c : Client) (w : World)
    (s : Server)
    → WorldInv (id, store) start w
    → lookup asked (take_back id c w s).connections ≡ (
        if id == asked
        then if is_closed w.connection.state
          then none
          else some (record c { connection = w.connection })
        else lookup asked s.connections)
take_back-lookup store start id asked c w s i =
    ap (lookup asked) (take_back-connections store start id c w s i)
    ∙ by_state (is_closed w.connection.state)
  where
    by_state :
        (b : Bool)
        → lookup asked (if b then erase id (updated id c w s) else updated id c w s) ≡ (
            if id == asked
            then if b then none else some (record c { connection = w.connection })
            else lookup asked s.connections)
    by_state true = ground (
      arith,
      lookup-erase id asked (updated id c w s),
      lookup-insert id asked (record c { connection = w.connection }) s.connections,
    )
    by_state false = lookup-insert id asked (record c { connection = w.connection }) s.connections

remove_closed-user_store :
    (ids : List ℕ) (s : Server) → (remove_closed ids s).user_store ≡ s.user_store
unfolding remove_closed remove_connection
remove_closed-user_store [] s = refl
remove_closed-user_store (id ∷ ids) s =
    remove_closed-user_store ids (record s { connections = erase id s.connections })

pub take_back-user_store :
    (id : ℕ) (c : Client) (w : World) (s : Server) → (take_back id c w s).user_store ≡ s.user_store
unfolding take_back
take_back-user_store id c w s = remove_closed-user_store w.closings _

remove_closed-default_vhost :
    (ids : List ℕ) (s : Server) → (remove_closed ids s).default_vhost ≡ s.default_vhost
unfolding remove_closed remove_connection
remove_closed-default_vhost [] s = refl
remove_closed-default_vhost (id ∷ ids) s =
    remove_closed-default_vhost ids (record s { connections = erase id s.connections })

pub take_back-default_vhost :
    (id : ℕ) (c : Client) (w : World) (s : Server) → (take_back id c w s).default_vhost ≡ w.host
unfolding take_back
take_back-default_vhost id c w s = remove_closed-default_vhost w.closings _
