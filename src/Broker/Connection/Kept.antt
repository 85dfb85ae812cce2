-- ===== src/Broker/Connection/Kept.antt =====
-- Every frame keeps the invariant of a connection.
use ganshin_mq.Base.{
  ℕ, ◌≤◌, ◌<◌, not, ◌&&◌, Bytes, [], Option, none, some, ◌==◌, nat_eq, bytes_eq, if◌then◌else◌, ◌≡◌,
  refl, sym, ap, ◌∙◌, Option-cases, inl, inr,
}
use ganshin_mq.Base.Map.{lookup}
use ganshin_mq.Amqp.Buffer.{Result, ok}
use ganshin_mq.Amqp.Buffer.Ensures.{Ensures, Ensures-bind, if-Ensures, after_uint16}
use ganshin_mq.Amqp.Frame.{Frame}
use ganshin_mq.Broker.VirtualHost.State.{VirtualHost}
use ganshin_mq.Broker.Channel.State.{Channel, Handled}
use ganshin_mq.Broker.Channel.Publishing.{handle_content_header, handle_content_body}
use ganshin_mq.Broker.Channel.Methods.{Moment, handle_method}
use ganshin_mq.Broker.VirtualHost.Requests.{Ran, Ran-trans}
use ganshin_mq.Broker.Channel.AskedMethods.{Asks, handle_method-Asks}
use ganshin_mq.Broker.Channel.AskedContent.{handle_content_body-Asks, handle_content_header-Asks}
use ganshin_mq.Broker.Connection.State.{
  State, awaiting_protocol_header, awaiting_start_ok, awaiting_tune_ok, awaiting_open, opened,
  closing, closed, World,
}
use ganshin_mq.Broker.Connection.Methods.{
  handle_connection_method, not_open, take_over, open_at, call_channel, to_channel,
  handle_channel_method, dispatch_method, handle_method_frame, handle_by_type, handle_closing,
  handle_in, handle_frame,
}
use ganshin_mq.Broker.Connection.Invariant.{
  Owner, WorldInv, send_connection_close-Inv, put_channel-Inv, lookup-Numbered,
}
use ganshin_mq.Broker.Connection.Steps.{channel_methods-Inv, connection_methods-Inv}

module _ {own : Owner} {start : VirtualHost} where
  pub open_at-Numbered :
      (n : ℕ) (w : World) (ch : Channel)
      → open_at n w ≡ some ch
      → WorldInv own start w
      → (0 < n) × (n ≤ 2047)
  unfolding open_at
  open_at-Numbered n w ch e i = elim (Option-cases (lookup n w.connection.channels)) [
    | inl h ↦ absurd (cc (none_there h e))
    | inr (c, h) ↦ lookup-Numbered n w.connection.channels c h i.2
  ]
    where
      found : Option Channel → Option Channel
      found o = elim o [ none ↦ none | some c ↦ if c.is_open then some c else none ]

      none_there :
          lookup n w.connection.channels ≡ none
          → found (lookup n w.connection.channels) ≡ some ch
          → ◌≡◌ {A = Option Channel} none (some ch)
      none_there h e = sym (ap found h) ∙ e

  pub take_over-Inv :
      (n : ℕ) (w : World) (h : Handled)
      → 0 < n
      → n ≤ 2047
      → Ran w.host h.1
      → WorldInv own start w
      → WorldInv own start (take_over n w h)
  unfolding take_over
  take_over-Inv n w h p q a i =
      let k = put_channel-Inv n h.0 w p q i in
      (k.0, k.1, k.2, k.3, k.4, Ran-trans start w.host h.1 i.5 a)

  call_channel-Inv :
      (n : ℕ) (handler : Channel → VirtualHost → Result Handled) (w : World) (o : Option Channel)
      (otherwise : Result World)
      → WorldInv own start w
      → ((ch : Channel) → o ≡ some ch → (0 < n) × (n ≤ 2047))
      → ((ch : Channel) → Ensures (Asks w.host) (handler ch w.host))
      → Ensures (WorldInv own start) otherwise
      → Ensures (WorldInv own start) (call_channel n handler w o otherwise)
  unfolding call_channel
  call_channel-Inv n handler w none otherwise i p a k = k
  call_channel-Inv n handler w (some ch) otherwise i p a k =
      Ensures-bind (Asks w.host) (WorldInv own start) (handler ch w.host) _ (a ch)
        (λ h asked. take_over-Inv n w h (p ch refl).0 (p ch refl).1 asked i)

  to_channel-Inv :
      (t : Moment) (n class_id m : ℕ) (buf : Bytes) (w : World)
      → WorldInv own start w
      → Ensures (WorldInv own start) (to_channel t n class_id m buf w)
  unfolding to_channel
  to_channel-Inv t n class_id m buf w i =
      call_channel-Inv n (handle_method t class_id m buf) w (open_at n w)
        (ok (not_open n class_id m w)) i (λ ch e. open_at-Numbered n w ch e i)
        (λ ch. handle_method-Asks ch w.host t class_id m buf)
        (send_connection_close-Inv _ _ class_id m w i)

  connection_method-Inv :
      (m : ℕ) (buf : Bytes) (w : World)
      → WorldInv own start w
      → Ensures (WorldInv own start) (handle_connection_method m buf w)
  unfolding handle_connection_method
  connection_method-Inv m buf w i =
      let keep = connection_methods-Inv buf w i in
      if-Ensures (WorldInv own start) (m == 11) _ _ (keep.0) (
        if-Ensures (WorldInv own start) (m == 31) _ _ (keep.1) (
          if-Ensures (WorldInv own start) (m == 40) _ _ (keep.2) (
            if-Ensures (WorldInv own start) (m == 50) _ _ (keep.3) (
              if-Ensures (WorldInv own start) (m == 51) _ _ (keep.4)
                (send_connection_close-Inv _ _ _ _ w i)))))

  channel_method-Inv :
      (t : Moment) (n m : ℕ) (buf : Bytes) (w : World)
      → WorldInv own start w
      → Ensures (WorldInv own start) (handle_channel_method t n m buf w)
  unfolding handle_channel_method
  channel_method-Inv t n m buf w i =
      let keep = channel_methods-Inv n buf w i in
      if-Ensures (WorldInv own start) (m == 10) _ _ (keep.0) (
        if-Ensures (WorldInv own start) (m == 40) _ _ (keep.1) (
          if-Ensures (WorldInv own start) (m == 41) _ _ (keep.2) (
            if-Ensures (WorldInv own start) (m == 20) _ _ (keep.3)
              (to_channel-Inv t n _ m buf w i))))

  method_frame-Inv :
      (t : Moment) (n : ℕ) (buf : Bytes) (w : World)
      → WorldInv own start w
      → Ensures (WorldInv own start) (handle_method_frame t n buf w)
  unfolding handle_method_frame dispatch_method
  method_frame-Inv t n buf w i = after_uint16 (WorldInv own start) buf _ (λ a.
      after_uint16 (WorldInv own start) a.1 _ (λ b.
        if-Ensures (WorldInv own start) (a.0 == 10) _ _
          (if-Ensures (WorldInv own start) (not (n == 0)) _ _
            (send_connection_close-Inv _ _ _ _ w i) (connection_method-Inv b.0 b.1 w i))
          (if-Ensures (WorldInv own start) (a.0 == 20) _ _ (channel_method-Inv t n b.0 b.1 w i)
            (to_channel-Inv t n a.0 b.0 b.1 w i))))

  by_type-Inv :
      (t : Moment) (f : Frame) (w : World)
      → WorldInv own start w
      → Ensures (WorldInv own start) (handle_by_type t f w)
  unfolding handle_by_type
  by_type-Inv t f w i =
      let there =
        λ (ch : Channel) (e : open_at f.channel w ≡ some ch). open_at-Numbered f.channel w ch e i in
      if-Ensures (WorldInv own start) (f.type == 1) _ _ (method_frame-Inv t f.channel f.payload w i)
        (if-Ensures (WorldInv own start) (f.type == 2) _ _
          (call_channel-Inv f.channel (handle_content_header t.now f.payload) w
            (open_at f.channel w) (ok w) i there
            (λ ch. handle_content_header-Asks ch w.host t.now f.payload) i)
          (if-Ensures (WorldInv own start) (f.type == 3) _ _
            (call_channel-Inv f.channel (λ ch v. ok (handle_content_body t.now f.payload ch v)) w
              (open_at f.channel w) (ok w) i there
              (λ ch. handle_content_body-Asks ch w.host t.now f.payload) i)
            (if-Ensures (WorldInv own start) (f.type == 8) _ _ i
              (send_connection_close-Inv _ _ _ _ w i))))

  closing-Inv :
      (buf : Bytes) (w : World)
      → WorldInv own start w
      → Ensures (WorldInv own start) (handle_closing buf w)
  unfolding handle_closing
  closing-Inv buf w i = after_uint16 (WorldInv own start) buf _ (λ a.
      after_uint16 (WorldInv own start) a.1 _ (λ b.
        if-Ensures (WorldInv own start) (a.0 == 10 && b.0 == 51) _ _
          ((connection_methods-Inv [] w i).4) i))

  in-Inv :
      (s : State) (t : Moment) (f : Frame) (w : World)
      → WorldInv own start w
      → Ensures (WorldInv own start) (handle_in s t f w)
  unfolding handle_in
  in-Inv closing t f w i =
      if-Ensures (WorldInv own start) (f.type == 1) _ _ (closing-Inv f.payload w i)
        (by_type-Inv t f w i)
  in-Inv awaiting_protocol_header t f w i = by_type-Inv t f w i
  in-Inv awaiting_start_ok t f w i = by_type-Inv t f w i
  in-Inv awaiting_tune_ok t f w i = by_type-Inv t f w i
  in-Inv awaiting_open t f w i = by_type-Inv t f w i
  in-Inv opened t f w i = by_type-Inv t f w i
  in-Inv closed t f w i = by_type-Inv t f w i

  pub handle_frame-Ensures :
      (t : Moment) (f : Frame) (w : World)
      → WorldInv own start w
      → Ensures (WorldInv own start) (handle_frame t f w)
  unfolding handle_frame
  handle_frame-Ensures t f w i = in-Inv w.connection.state t f w i
