-- ===== src/Broker/Channel/RoundTrip.antt =====
-- The content that one channel sends is the content that another takes in.
use ganshin_mq.Base.{
  ℕ, suc, ◌%◌, ◌^◌, ◌<◌, ◌≤◌, false, Bytes, List, [], ◌∷◌, ◌++◌, Option, none, some, ◌==◌, nat_eq,
  bytes_eq, length, ltb, ◌≡◌, refl, sym, ap, ◌∙◌, arith, append-nil, if◌then◌else◌,
}
use ganshin_mq.Amqp.Properties.{BasicProperties, no_properties}
use ganshin_mq.Amqp.Buffer.{Result, ok, ◌>>=◌, write_uint16, write_uint64}
use ganshin_mq.Amqp.Buffer.IntProofs.{read-write_uint16, read-write_uint64}
use ganshin_mq.Amqp.Content.{decode, encode}
use ganshin_mq.Amqp.Content.RoundTrip.{FitsProperties, decode-encode}
use ganshin_mq.Broker.VirtualHost.State.{VirtualHost}
use ganshin_mq.Broker.Channel.State.{Channel, PendingPublish, Handled}
use ganshin_mq.Broker.Channel.Frames.{header_payload, body_chunks, chunk_loop}
use ganshin_mq.Broker.Channel.Publishing.{
  max_body_size, received, complete, handle_content_body, take_header, read_header,
  handle_content_header,
}
use ganshin_mq.Broker.Channel.Assembly.{
  both, joined, handle_frames, handle_frames_lem, frame_completes, complete-none, last_frame,
}
use ganshin_mq.Broker.Channel.Chunks.{chunk_loop-Cut, body_chunks-cons}

-- A publish of which nothing but the method has come.
abbrev pub begun : PendingPublish → PendingPublish
begun p = record p { body_size = 0; body_received = 0; properties = no_properties; body = [] }

-- The publish when the header has come.
abbrev pub headed : BasicProperties → ℕ → PendingPublish → PendingPublish
headed props size p = record p {
  body_size = size;
  body_received = 0;
  properties = props;
  body = [];
}

-- The publish when all has come.
abbrev pub filled : BasicProperties → Bytes → PendingPublish → PendingPublish
filled props body p = record p {
  body_size = length body;
  body_received = length body;
  properties = props;
  body = body;
}

-- The payloads of a header frame and of body frames are handled.
unfoldable pub handle_content : ℕ → Bytes → List Bytes → Channel → VirtualHost → Result Handled
handle_content now header chunks ch v = do
  r ← handle_content_header now header ch v
  ok (both r (handle_frames now chunks r.0 r.1))

header_taken :
    (now class_id : ℕ) (props : BasicProperties) (body : Bytes) (ch : Channel) (v : VirtualHost)
    (p : PendingPublish)
    → ch.pending_publish ≡ some (begun p)
    → class_id < 2 ^ 16
    → length body ≤ max_body_size
    → FitsProperties props
    → handle_content_header now (header_payload class_id props body) ch v ≡ (
        let ch' = record ch { pending_publish = some (headed props (length body) p) } in
        ok (if length body == 0 then handle_content_body now [] ch' v else (ch', v, [], [])))
unfolding handle_content_header header_payload read_header take_header
header_taken now class_id props body ch v p h c small fits =
    ap step h
    ∙ rw
        (
          read-write_uint16 class_id
              (write_uint16 0 ++ (write_uint64 (length body % 2 ^ 64) ++ encode props)) c,
          read-write_uint16 0 (write_uint64 (length body % 2 ^ 64) ++ encode props) (omega arith),
          read-write_uint64 (length body % 2 ^ 64) (encode props) (omega arith),
          size',
          fits_size,
          props_back,
        )
        refl
  where
    step : Option PendingPublish → Result Handled
    step o = elim o [
      | none ↦ ok (ch, v, [], [])
      | some q ↦ read_header now (header_payload class_id props body) q ch v
    ]

    size' : length body % 2 ^ 64 ≡ length body
    size' = omega arith

    fits_size : ltb max_body_size (length body) ≡ false
    fits_size = ground arith

    props_back : decode (encode props) ≡ ok (props, [])
    props_back = ap decode (sym (append-nil (encode props))) ∙ decode-encode props [] fits

-- A body that is not empty: the frames carry it, and the last of them completes it.
whole_taken :
    (now limit : ℕ) (props : BasicProperties) (body : Bytes) (ch : Channel) (v : VirtualHost)
    (p : PendingPublish)
    → 0 < limit
    → 0 < length body
    → length body < 2 ^ 64
    → handle_frames now
        (chunk_loop (suc (length body)) limit body)
        (record ch { pending_publish = some (headed props (length body) p) })
        v
      ≡ complete now (filled props body p) ch v
unfolding complete
whole_taken now limit props body ch v p pos full small =
    let cut = chunk_loop-Cut (suc (length body)) limit body pos full (omega arith) in
    let ch' : Channel = record ch { pending_publish = some (headed props (length body) p) } in
    let q : PendingPublish = headed props (length body) p in
    let all : length (joined cut.front ++ cut.final) ≡ length body = ap length cut.whole in
    let count : length body % 2 ^ 64 ≡ length body = omega arith in
    ap (λ l. handle_frames now l ch' v) cut.parts
    ∙ handle_frames_lem now cut.front cut.final [] ch' v q refl (omega (arith, cut.short))
        (omega (arith, all)) (omega (arith, all))
    ∙ ap (λ bytes. complete now (received bytes q) ch' v) cut.whole
    ∙ ap
        (λ (n : ℕ).
          complete now
            (record p {
              body_size = length body;
              body_received = n;
              properties = props;
              body = body;
            })
            ch' v)
        count

not_empty : (n : ℕ) → (suc n == 0) ≡ false
not_empty n = ground arith

-- What a channel sends of a message's content, the header frame's payload and those of the body
-- frames, completes at the other end the publish that has begun, with the same properties and the
-- same body: the message is published once, whatever the limit on the frames. The body is assumed
-- to be within the limit on bodies, and the properties to be such as the wire format can carry.
pub handle_content_lem :
    (now class_id limit : ℕ) (props : BasicProperties) (body : Bytes) (ch : Channel)
    (v : VirtualHost) (p : PendingPublish)
    → ch.pending_publish ≡ some (begun p)
    → class_id < 2 ^ 16
    → 0 < limit
    → length body ≤ max_body_size
    → FitsProperties props
    → handle_content now (header_payload class_id props body) (body_chunks limit body) ch v
      ≡ ok (complete now (filled props body p) ch v)
unfolding handle_content complete
handle_content_lem now class_id limit props [] ch v p h c pos small fits =
    let ch' : Channel = record ch { pending_publish = some (headed props 0 p) } in
    ap (λ r. r >>= λ (r : Handled). ok (both r (handle_frames now (body_chunks limit []) r.0 r.1)))
      (header_taken now class_id props [] ch v p h c small fits)
    ∙ ap (λ (r : Handled). ok (both r (handle_frames now (body_chunks limit []) r.0 r.1)))
        (frame_completes now [] ch' v (headed props 0 p) refl (omega arith) (omega arith))
    ∙ ap ok (
        last_frame now (complete now (filled props [] p) ch' v) (body_chunks limit [])
          (complete-none now (filled props [] p) ch' v))
handle_content_lem now class_id limit props (b ∷ body) ch v p h c pos small fits =
    let ch' : Channel = record ch { pending_publish = some (headed props (length (b ∷ body)) p) } in
    ap
      (λ r. r >>= λ (r : Handled).
        ok (both r (handle_frames now (body_chunks limit (b ∷ body)) r.0 r.1)))
      (header_taken now class_id props (b ∷ body) ch v p h c small fits)
    ∙ ap
        (λ b'.
          let r : Handled = if b' then handle_content_body now [] ch' v else (ch', v, [], []) in
          ok (both r (handle_frames now (body_chunks limit (b ∷ body)) r.0 r.1)))
        (not_empty (length body))
    ∙ ap (λ l. ok (handle_frames now l ch' v)) (body_chunks-cons limit b body)
    ∙ ap ok (whole_taken now limit props (b ∷ body) ch v p pos (omega arith) (omega arith))
