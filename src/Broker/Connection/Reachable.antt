-- ===== src/Broker/Connection/Reachable.antt =====
-- What holds of a connection after any events.
use ganshin_mq.Base.{ℕ, List, [], ◌∷◌, Option, nat_eq, bytes_eq, refl, subst, arith}
use ganshin_mq.Broker.Auth.{UserStore}
use ganshin_mq.Broker.VirtualHost.State.{VirtualHost}
use ganshin_mq.Broker.VirtualHost.Requests.{at_rest}
use ganshin_mq.Broker.Connection.State.{World}
use ganshin_mq.Broker.Connection.Events.{Event, on_event, run, new_world}
use ganshin_mq.Broker.Connection.Invariant.{Owner, LoggedIn, Limits, Numbered, Once, WorldInv}
use ganshin_mq.Amqp.Buffer.Ensures.{IsDecided, Ensures-IsDecided}
use ganshin_mq.Amqp.Frame.{Frame}
use ganshin_mq.Broker.Channel.Methods.{Moment}
use ganshin_mq.Broker.Connection.Methods.{handle_frame}
use ganshin_mq.Broker.Connection.Kept.{handle_frame-Ensures}
use ganshin_mq.Broker.Connection.EventsKept.{on_event-Inv}

pub run-Inv :
    {own : Owner} {start : VirtualHost} (es : List Event) (w : World)
    → WorldInv own start w
    → WorldInv own start (run es w)
unfolding run
run-Inv [] w i = i
run-Inv (e ∷ es) w i = run-Inv es (on_event e w) (on_event-Inv e w i)

pub new_world-Inv :
    (id : ℕ) (store : Option UserStore) (v : VirtualHost)
    → WorldInv (id, store) v (new_world id store v)
unfolding new_world
new_world-Inv id store v =
    (tt, (omega arith, omega arith, omega arith, omega arith), tt, refl, refl, at_rest)

-- A connection after any events.
abbrev pub after : List Event → ℕ → Option UserStore → VirtualHost → World
after es id store v = run es (new_world id store v)

module _ (es : List Event) (id : ℕ) (store : Option UserStore) (v : VirtualHost) where
  reached-Inv : WorldInv (id, store) v (after es id store v)
  reached-Inv = run-Inv es (new_world id store v) (new_world-Inv id store v)

  -- Whatever a client sends, in whatever order, and whatever else happens: when a connection is
  -- past its login, that is, waits for Tune-Ok or for Open or is open, then the user store that it
  -- was made with has accepted the user that it holds, with some password.
  pub run-LoggedIn :
      LoggedIn
        (after es id store v).connection.state
        store
        (after es id store v).connection.auth_user
  run-LoggedIn =
      subst
        (λ (o : Owner).
          LoggedIn (after es id store v).connection.state o.1
            (after es id store v).connection.auth_user)
        reached-Inv.4 reached-Inv.0

  -- After any events the limits of a connection are at most the server's own and not 0, that is,
  -- from 1 to 2047 channels and from 1 to 131072 bytes to a frame, and every channel that is there
  -- has a number from 1 to 2047.
  pub run-Limits :
      Limits (after es id store v).connection.channel_max (after es id store v).connection.frame_max
      × Numbered (after es id store v).connection.channels
  run-Limits = (reached-Inv.1, reached-Inv.2)

  -- After any events a closed connection has called `onClose_` exactly once, with the id that it
  -- was made with, and reads nothing more; one in another state has not called it.
  pub run-Once :
      Once
        (after es id store v).connection.state
        id
        (after es id store v).closings
        (after es id store v).connection.reading
  run-Once =
      subst
        (λ (o : Owner).
          Once (after es id store v).connection.state o.0 (after es id store v).closings
            (after es id store v).connection.reading)
        reached-Inv.4 reached-Inv.3

  -- On a connection after any events, every frame, whatever its type, its channel and its payload,
  -- is handled, or ends in an exception: no loop over its bytes runs out of fuel.
  pub run-handle_frame :
      (t : Moment) (f : Frame) → IsDecided (handle_frame t f (after es id store v))
  run-handle_frame t f =
      Ensures-IsDecided (WorldInv (id, store) v) (handle_frame t f (after es id store v))
        (handle_frame-Ensures t f (after es id store v) reached-Inv)
