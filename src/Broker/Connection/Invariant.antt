-- ===== src/Broker/Connection/Invariant.antt =====
-- What holds of a connection between two events.
use ganshin_mq.Base.{
  ℕ, ◌≤◌, ◌<◌, true, false, Bytes, List, [], ◌∷◌, ◌++◌, Option, some, ◌==◌, nat_eq, bytes_eq, ◌≡◌,
  refl, ap, subst, arith, ◌≢◌, Bool-cases, Option-cases, inl, inr,
}
use ganshin_mq.Base.Map.{lookup, insert, erase}
use ganshin_mq.Broker.Auth.{UserStore}
use ganshin_mq.Broker.Channel.State.{Channel}
use ganshin_mq.Broker.VirtualHost.State.{VirtualHost}
use ganshin_mq.Broker.VirtualHost.Requests.{leaving, perform, Ran, at_rest, Ran-trans, asks}
use ganshin_mq.Broker.Channel.Settling.{remove_all_consumers}
use ganshin_mq.Broker.Channel.AskedLoops.{remove_all_consumers-Ran}
use ganshin_mq.Broker.Connection.State.{
  State, awaiting_protocol_header, awaiting_start_ok, awaiting_tune_ok, awaiting_open, opened,
  closing, closed, Reading, nothing_more, Connection, World, close_in, send_connection_close,
  start_closing, read_next,
}
use ganshin_mq.Broker.Connection.Channels.{
  put_channel, cleanup_channel, cleanup_each, cleanup_all_channels, shut, shut_in, shutdown,
}
use ganshin_mq.Broker.Connection.Handshake.{accepts}

-- Some password was accepted for the user, once the state is past the login.
abbrev pub LoggedIn : State → Option UserStore → Bytes → Type 0
LoggedIn awaiting_protocol_header store user = Unit {0}
LoggedIn awaiting_start_ok store user = Unit {0}
LoggedIn awaiting_tune_ok store user = (pass : Bytes) × (accepts store user pass ≡ true)
LoggedIn awaiting_open store user = (pass : Bytes) × (accepts store user pass ≡ true)
LoggedIn opened store user = (pass : Bytes) × (accepts store user pass ≡ true)
LoggedIn closing store user = Unit {0}
LoggedIn closed store user = Unit {0}

abbrev pub Limits : ℕ → ℕ → Type 0
Limits channel_max frame_max =
    (0 < channel_max) × (channel_max ≤ 2047) × (0 < frame_max) × (frame_max ≤ 131072)

-- A channel has a number that may be used.
abbrev pub Numbered : List (ℕ × Channel) → Type 0
Numbered [] = Unit {0}
Numbered ((n, ch) ∷ more) = (0 < n) × (n ≤ 2047) × Numbered more

-- `onClose_` was called once if the connection is closed, and nothing is read then; else it was not.
abbrev pub Once : State → ℕ → List ℕ → Reading → Type 0
Once awaiting_protocol_header id closings reading = closings ≡ []
Once awaiting_start_ok id closings reading = closings ≡ []
Once awaiting_tune_ok id closings reading = closings ≡ []
Once awaiting_open id closings reading = closings ≡ []
Once opened id closings reading = closings ≡ []
Once closing id closings reading = closings ≡ []
Once closed id closings reading = (closings ≡ id ∷ []) × (reading ≡ nothing_more)

-- The id and the user store that a connection was made with.
abbrev pub Owner : Type 0
Owner = ℕ × Option UserStore

abbrev pub Inv : Owner → Connection → List ℕ → Type 0
Inv own c closings =
    LoggedIn c.state c.user_store c.auth_user
    × Limits c.channel_max c.frame_max
    × Numbered c.channels
    × Once c.state c.id closings c.reading
    × ((c.id, c.user_store) ≡ own)

-- In a state, which is that of the connection; the host is the one of the start after requests.
abbrev pub At : Owner → VirtualHost → State → World → Type 0
At own start s w =
    LoggedIn s w.connection.user_store w.connection.auth_user
    × Limits w.connection.channel_max w.connection.frame_max
    × Numbered w.connection.channels
    × Once s w.connection.id w.closings w.connection.reading
    × ((w.connection.id, w.connection.user_store) ≡ own)
    × Ran start w.host

abbrev pub WorldInv : Owner → VirtualHost → World → Type 0
WorldInv own start w = At own start w.connection.state w

cleanup_each-Ran : (chs : List (ℕ × Channel)) (v : VirtualHost) → Ran v (cleanup_each chs v).0
unfolding cleanup_each
cleanup_each-Ran [] v = at_rest
cleanup_each-Ran ((n, ch) ∷ chs) v =
    let left = (remove_all_consumers (record ch { is_open = false }) v).1 in
    Ran-trans v left (cleanup_each chs left).0
      (remove_all_consumers-Ran (record ch { is_open = false }) v) (cleanup_each-Ran chs left)

-- The end of a connection: its channels are cleaned up, and it leaves the host.
shut-Ran : (start : VirtualHost) (w : World) → Ran start w.host → Ran start (shut w).host
unfolding shut cleanup_all_channels perform
shut-Ran start w ran =
    let left = (cleanup_each w.connection.channels w.host).0 in
    Ran-trans start w.host (shut w).host ran (
      Ran-trans w.host left (shut w).host (cleanup_each-Ran w.connection.channels w.host)
        (asks (leaving w.connection.id) left))

insert-Numbered :
    (n : ℕ) (ch : Channel) (chs : List (ℕ × Channel))
    → 0 < n
    → n ≤ 2047
    → Numbered chs
    → Numbered (insert n ch chs)
unfolding insert
insert-Numbered n ch [] p q h = (p, q, tt)
insert-Numbered n ch ((m, c) ∷ more) p q h = elim (Bool-cases (m == n)) [
  | inl t ↦ rw t (p, q, h.2)
  | inr f ↦ rw f (h.0, h.1, insert-Numbered n ch more p q h.2)
]

erase-Numbered : (n : ℕ) (chs : List (ℕ × Channel)) → Numbered chs → Numbered (erase n chs)
unfolding erase
erase-Numbered n [] h = tt
erase-Numbered n ((m, c) ∷ more) h = elim (Bool-cases (m == n)) [
  | inl t ↦ rw t (erase-Numbered n more h.2)
  | inr f ↦ rw f (h.0, h.1, erase-Numbered n more h.2)
]

pub lookup-Numbered :
    (n : ℕ) (chs : List (ℕ × Channel)) (ch : Channel)
    → lookup n chs ≡ some ch
    → Numbered chs
    → (0 < n) × (n ≤ 2047)
unfolding lookup
lookup-Numbered n [] ch e h = cc
lookup-Numbered n ((m, c) ∷ more) ch e h = elim (Bool-cases (m == n)) [
  | inl t ↦ ground arith
  | inr f ↦ lookup-Numbered n more ch (ground (arith, f, e)) h.2
]

module _ {own : Owner} {start : VirtualHost} where
  close_in-Inv :
      (s : State) (code : ℕ) (text : Bytes) (class_id method_id : ℕ) (w : World)
      → At own start s w
      → s ≡ w.connection.state
      → WorldInv own start (close_in s code text class_id method_id w)
  unfolding start_closing
  close_in-Inv closing code text class_id method_id w i e = subst (λ s. At own start s w) e i
  close_in-Inv closed code text class_id method_id w i e = subst (λ s. At own start s w) e i
  close_in-Inv awaiting_protocol_header code text class_id method_id w i e =
      (tt, i.1, i.2, i.3, i.4, i.5)
  close_in-Inv awaiting_start_ok code text class_id method_id w i e = (tt, i.1, i.2, i.3, i.4, i.5)
  close_in-Inv awaiting_tune_ok code text class_id method_id w i e = (tt, i.1, i.2, i.3, i.4, i.5)
  close_in-Inv awaiting_open code text class_id method_id w i e = (tt, i.1, i.2, i.3, i.4, i.5)
  close_in-Inv opened code text class_id method_id w i e = (tt, i.1, i.2, i.3, i.4, i.5)

  pub send_connection_close-Inv :
      (code : ℕ) (text : Bytes) (class_id method_id : ℕ) (w : World)
      → WorldInv own start w
      → WorldInv own start (send_connection_close code text class_id method_id w)
  unfolding send_connection_close
  send_connection_close-Inv code text class_id method_id w i =
      close_in-Inv w.connection.state code text class_id method_id w i refl

  shut_in-Inv :
      (s : State) (w : World)
      → At own start s w
      → s ≡ w.connection.state
      → WorldInv own start (shut_in s w)
  unfolding shut cleanup_all_channels
  shut_in-Inv closed w i e = subst (λ s. At own start s w) e i
  shut_in-Inv awaiting_protocol_header w i e =
      (tt, i.1, tt, (ap (λ ks. ks ++ (w.connection.id ∷ [])) i.3, refl), i.4, shut-Ran start w i.5)
  shut_in-Inv awaiting_start_ok w i e =
      (tt, i.1, tt, (ap (λ ks. ks ++ (w.connection.id ∷ [])) i.3, refl), i.4, shut-Ran start w i.5)
  shut_in-Inv awaiting_tune_ok w i e =
      (tt, i.1, tt, (ap (λ ks. ks ++ (w.connection.id ∷ [])) i.3, refl), i.4, shut-Ran start w i.5)
  shut_in-Inv awaiting_open w i e =
      (tt, i.1, tt, (ap (λ ks. ks ++ (w.connection.id ∷ [])) i.3, refl), i.4, shut-Ran start w i.5)
  shut_in-Inv opened w i e =
      (tt, i.1, tt, (ap (λ ks. ks ++ (w.connection.id ∷ [])) i.3, refl), i.4, shut-Ran start w i.5)
  shut_in-Inv closing w i e =
      (tt, i.1, tt, (ap (λ ks. ks ++ (w.connection.id ∷ [])) i.3, refl), i.4, shut-Ran start w i.5)

  pub shutdown-Inv : (w : World) → WorldInv own start w → WorldInv own start (shutdown w)
  unfolding shutdown
  shutdown-Inv w i = shut_in-Inv w.connection.state w i refl

  pub put_channel-Inv :
      (n : ℕ) (ch : Channel) (w : World)
      → 0 < n
      → n ≤ 2047
      → WorldInv own start w
      → WorldInv own start (put_channel n ch w)
  put_channel-Inv n ch w p q i =
      (i.0, i.1, insert-Numbered n ch w.connection.channels p q i.2, i.3, i.4, i.5)

  pub cleanup_channel-Inv :
      (n : ℕ) (w : World) → WorldInv own start w → WorldInv own start (cleanup_channel n w)
  unfolding cleanup_channel
  cleanup_channel-Inv n w i = elim (Option-cases (lookup n w.connection.channels)) [
    | inl h ↦ rw (h, cleanup_channel) i
    | inr (ch, h) ↦
        rw (h, cleanup_channel)
          (
            i.0,
            i.1,
            erase-Numbered n w.connection.channels i.2,
            i.3,
            i.4,
            Ran-trans start w.host (remove_all_consumers (record ch { is_open = false }) w.host).1
                i.5 (remove_all_consumers-Ran (record ch { is_open = false }) w.host),
          )
  ]

  -- Nothing more is read.
  idle_in :
      (s : State) (w : World)
      → At own start s w
      → s ≡ w.connection.state
      → WorldInv own start (read_next nothing_more w)
  idle_in awaiting_protocol_header w i e =
      subst (λ s. At own start s (read_next nothing_more w)) e i
  idle_in awaiting_start_ok w i e = subst (λ s. At own start s (read_next nothing_more w)) e i
  idle_in awaiting_tune_ok w i e = subst (λ s. At own start s (read_next nothing_more w)) e i
  idle_in awaiting_open w i e = subst (λ s. At own start s (read_next nothing_more w)) e i
  idle_in opened w i e = subst (λ s. At own start s (read_next nothing_more w)) e i
  idle_in closing w i e = subst (λ s. At own start s (read_next nothing_more w)) e i
  idle_in closed w i e =
      subst (λ s. At own start s (read_next nothing_more w)) e
        (i.0, i.1, i.2, (i.3.0, refl), i.4, i.5)

  pub idle-Inv : (w : World) → WorldInv own start w → WorldInv own start (read_next nothing_more w)
  idle-Inv w i = idle_in w.connection.state w i refl

  -- The connection is not closed while a read is under way, and then another may follow.
  reading_in :
      (s : State) (r : Reading) (w : World)
      → At own start s w
      → w.connection.reading ≢ nothing_more
      → At own start s (read_next r w)
  reading_in awaiting_protocol_header r w i n = i
  reading_in awaiting_start_ok r w i n = i
  reading_in awaiting_tune_ok r w i n = i
  reading_in awaiting_open r w i n = i
  reading_in opened r w i n = i
  reading_in closing r w i n = i
  reading_in closed r w i n = absurd (n i.3.1)

  pub reading-Inv :
      (r : Reading) (w : World)
      → WorldInv own start w
      → w.connection.reading ≢ nothing_more
      → WorldInv own start (read_next r w)
  reading-Inv r w i n = reading_in w.connection.state r w i n

  none_closed :
      (s : State) (w : World)
      → At own start s w
      → w.connection.reading ≢ nothing_more
      → w.closings ≡ []
  none_closed awaiting_protocol_header w i n = i.3
  none_closed awaiting_start_ok w i n = i.3
  none_closed awaiting_tune_ok w i n = i.3
  none_closed awaiting_open w i n = i.3
  none_closed opened w i n = i.3
  none_closed closing w i n = i.3
  none_closed closed w i n = absurd (n i.3.1)

  pub closings-nil :
      (w : World) → WorldInv own start w → w.connection.reading ≢ nothing_more → w.closings ≡ []
  closings-nil w i n = none_closed w.connection.state w i n
