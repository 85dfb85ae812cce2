-- ===== src/Broker/Connection/EventsKept.antt =====
-- Every event keeps the invariant of a connection.
use ganshin_mq.Base.{
  ℕ, Bool, true, false, not, Bytes, [], ◌∷◌, ◌==◌, nat_eq, bytes_eq, if◌then◌else◌, ltb, get_or,
  take, ◌≡◌, ◌≢◌, refl, subst, Bool-cases, Option-cases, inl, inr,
}
use ganshin_mq.Amqp.Buffer.{Result, ok, err, stuck}
use ganshin_mq.Amqp.Buffer.Ensures.{Ensures}
use ganshin_mq.Amqp.Frame.{Frame, frame_end, protocol_header}
use ganshin_mq.Broker.Message.{Message}
use ganshin_mq.Broker.Channel.Consuming.{on_deliver}
use ganshin_mq.Broker.Channel.Methods.{Moment}
use ganshin_mq.Broker.VirtualHost.State.{VirtualHost}
use ganshin_mq.Broker.VirtualHost.Requests.{at_rest}
use ganshin_mq.Broker.Connection.State.{
  State, awaiting_protocol_header, awaiting_start_ok, awaiting_tune_ok, awaiting_open, opened,
  closing, closed, Reading, protocol_bytes, header_bytes, payload_bytes, nothing_more, World,
  send_connection_close, send_method_frame, read_next, send_frames,
}
use ganshin_mq.Broker.Connection.Channels.{shutdown}
use ganshin_mq.Broker.Connection.Handshake.{send_connection_start}
use ganshin_mq.Broker.Connection.Methods.{open_at, handle_frame}
use ganshin_mq.Broker.Connection.Reading.{
  effective_max, on_protocol_header, on_frame_size, on_frame_header, after_frame, on_frame_payload,
  on_read, on_read_error, on_write_error, unless_closed,
}
use ganshin_mq.Broker.Connection.Heartbeat.{
  send_heartbeat, check_received, check_heartbeat, close, unless_over,
}
use ganshin_mq.Broker.Connection.Events.{
  Event, read, read_failed, write_failed, heartbeat_due, check_due, server_close, posted, on_posted,
  on_event,
}
use ganshin_mq.Broker.Connection.Invariant.{
  Owner, WorldInv, At, send_connection_close-Inv, shutdown-Inv, idle-Inv, reading-Inv, closings-nil,
}
use ganshin_mq.Broker.Connection.Kept.{open_at-Numbered, take_over-Inv, handle_frame-Ensures}

module _ {own : Owner} {start : VirtualHost} where
  if-Inv :
      (b : Bool) (x y : World)
      → WorldInv own start x
      → WorldInv own start y
      → WorldInv own start (if b then x else y)
  if-Inv true x y i k = i
  if-Inv false x y i k = k

  protocol-Inv :
      (bytes : Bytes) (w : World)
      → WorldInv own start w
      → w.connection.reading ≢ nothing_more
      → WorldInv own start (on_protocol_header bytes w)
  unfolding on_protocol_header send_connection_start send_method_frame
  protocol-Inv bytes w i n = elim (Bool-cases (bytes == protocol_header)) [
    | inl e ↦ rw e (tt, i.1, i.2, closings-nil w i n, i.4, i.5)
    | inr e ↦ rw e (shutdown-Inv (send_frames (protocol_header ∷ []) w) i)
  ]

  close_idle-Inv :
      (code : ℕ) (text : Bytes) (class_id m : ℕ) (w : World)
      → WorldInv own start w
      → WorldInv own start (read_next nothing_more (send_connection_close code text class_id m w))
  close_idle-Inv code text class_id m w i =
      idle-Inv (send_connection_close code text class_id m w)
        (send_connection_close-Inv code text class_id m w i)

  size-Inv :
      (type channel size : ℕ) (w : World)
      → WorldInv own start w
      → w.connection.reading ≢ nothing_more
      → WorldInv own start (on_frame_size type channel size w)
  unfolding on_frame_size
  size-Inv type channel size w i n = elim (Bool-cases (ltb (effective_max w.connection) size)) [
    | inl e ↦ rw e (close_idle-Inv _ _ _ _ w i)
    | inr e ↦ rw e (reading-Inv (payload_bytes type channel size) w i n)
  ]

  header-Inv :
      (bytes : Bytes) (w : World)
      → WorldInv own start w
      → w.connection.reading ≢ nothing_more
      → WorldInv own start (on_frame_header bytes w)
  unfolding on_frame_header
  header-Inv [] w i n = i
  header-Inv (_ ∷ []) w i n = i
  header-Inv (_ ∷ _ ∷ []) w i n = i
  header-Inv (_ ∷ _ ∷ _ ∷ []) w i n = i
  header-Inv (_ ∷ _ ∷ _ ∷ _ ∷ []) w i n = i
  header-Inv (_ ∷ _ ∷ _ ∷ _ ∷ _ ∷ []) w i n = i
  header-Inv (_ ∷ _ ∷ _ ∷ _ ∷ _ ∷ _ ∷ []) w i n = i
  header-Inv (t ∷ c1 ∷ c0 ∷ s3 ∷ s2 ∷ s1 ∷ s0 ∷ more) w i n = size-Inv t _ _ _ i n

  next-Inv :
      (s : State) (w : World)
      → At own start s w
      → s ≡ w.connection.state
      → WorldInv own start (unless_closed s w)
  next-Inv closed w i e = idle-Inv w (subst (λ s. At own start s w) e i)
  next-Inv awaiting_protocol_header w i e =
      subst (λ s. At own start s (read_next header_bytes w)) e i
  next-Inv awaiting_start_ok w i e = subst (λ s. At own start s (read_next header_bytes w)) e i
  next-Inv awaiting_tune_ok w i e = subst (λ s. At own start s (read_next header_bytes w)) e i
  next-Inv awaiting_open w i e = subst (λ s. At own start s (read_next header_bytes w)) e i
  next-Inv opened w i e = subst (λ s. At own start s (read_next header_bytes w)) e i
  next-Inv closing w i e = subst (λ s. At own start s (read_next header_bytes w)) e i

  after-Inv :
      (w : World) (r : Result World)
      → WorldInv own start w
      → Ensures (WorldInv own start) r
      → WorldInv own start (after_frame w r)
  unfolding after_frame
  after-Inv w (ok w') i k = next-Inv w'.connection.state w' k refl
  after-Inv w (err e) i k = close_idle-Inv _ _ _ _ w i
  after-Inv w stuck i k = absurd k

  payload-Inv :
      (t : Moment) (type channel size : ℕ) (bytes : Bytes) (w : World)
      → WorldInv own start w
      → WorldInv own start (on_frame_payload t type channel size bytes w)
  unfolding on_frame_payload
  payload-Inv t type channel size bytes w i =
      elim (Bool-cases (not (get_or bytes size 0 == frame_end))) [
        | inl e ↦ rw e (close_idle-Inv _ _ _ _ w i)
        | inr e ↦ rw e (
            let f : Frame = record { type = type; channel = channel; payload = take size bytes } in
            after-Inv w (handle_frame t f w) i (handle_frame-Ensures t f w i))
      ]

  read-Inv :
      (t : Moment) (r : Reading) (bytes : Bytes) (w : World)
      → WorldInv own start w
      → w.connection.reading ≡ r
      → WorldInv own start (on_read t r bytes w)
  unfolding on_read
  read-Inv t protocol_bytes bytes w i e = protocol-Inv bytes w i (λ f. cc)
  read-Inv t header_bytes bytes w i e = header-Inv bytes w i (λ f. cc)
  read-Inv t (payload_bytes type channel size) bytes w i e =
      payload-Inv t type channel size bytes w i
  read-Inv t nothing_more bytes w i e = i

  posted-Inv :
      (n : ℕ) (tag queue : Bytes) (m : Message) (w : World)
      → WorldInv own start w
      → WorldInv own start (on_posted n tag queue m w)
  unfolding on_posted
  posted-Inv n tag queue m w i = elim (Option-cases (open_at n w)) [
    | inl h ↦ rw (h, on_posted) i
    | inr (ch, h) ↦
        let there = open_at-Numbered n w ch h i in
        rw (h, on_posted)
          (let r = on_deliver tag queue m ch in
            take_over-Inv n w (r.0, w.host, r.1, []) there.0 there.1 at_rest i)
  ]

  unless_over-Inv :
      (s : State) (f : World → World) (w : World)
      → WorldInv own start w
      → WorldInv own start (f w)
      → WorldInv own start (unless_over s f w)
  unless_over-Inv closed f w i k = i
  unless_over-Inv awaiting_protocol_header f w i k = k
  unless_over-Inv awaiting_start_ok f w i k = k
  unless_over-Inv awaiting_tune_ok f w i k = k
  unless_over-Inv awaiting_open f w i k = k
  unless_over-Inv opened f w i k = k
  unless_over-Inv closing f w i k = k

  check-Inv : (w : World) → WorldInv own start w → WorldInv own start (check_received w)
  unfolding check_received
  check-Inv w i = if-Inv w.connection.received_data _ (shutdown w) i (shutdown-Inv w i)

  pub on_event-Inv :
      (e : Event) (w : World) → WorldInv own start w → WorldInv own start (on_event e w)
  unfolding on_event on_read_error on_write_error send_heartbeat check_heartbeat close
  on_event-Inv (read t bytes) w i = read-Inv t w.connection.reading bytes w i refl
  on_event-Inv read_failed w i = shutdown-Inv w i
  on_event-Inv write_failed w i = shutdown-Inv w i
  on_event-Inv heartbeat_due w i = unless_over-Inv w.connection.state _ w i i
  on_event-Inv check_due w i = unless_over-Inv w.connection.state check_received w i (check-Inv w i)
  on_event-Inv server_close w i = send_connection_close-Inv _ _ _ _ w i
  on_event-Inv (posted n tag queue m) w i = posted-Inv n tag queue m w i
