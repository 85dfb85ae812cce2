-- ===== src/Broker/Channel/Assembly.antt =====
-- The body of a message, in however many frames it comes.
use ganshin_mq.Base.{
  ℕ, ◌+◌, ◌%◌, ◌^◌, ◌<◌, ◌≤◌, true, false, Bytes, List, [], ◌∷◌, ◌++◌, Option, none, some, length,
  leb, ◌≡◌, refl, sym, ap, ◌∙◌, arith, append_assoc, append-nil, length-append, if◌then◌else◌,
}
use ganshin_mq.Broker.VirtualHost.State.{VirtualHost}
use ganshin_mq.Broker.Channel.State.{Channel, PendingPublish, Handled}
use ganshin_mq.Broker.Channel.Publishing.{received, complete, handle_content_body}

-- What was handled first, and then more.
abbrev pub both : Handled → Handled → Handled
both r more = (more.0, more.1, r.2 ++ more.2, r.3 ++ more.3)

-- The frames of a body, one after the other, and their bytes.
unfoldable pub handle_frames : ℕ → List Bytes → Channel → VirtualHost → Handled
handle_frames now [] ch v = (ch, v, [], [])
handle_frames now (f ∷ fs) ch v =
    let r = handle_content_body now f ch v in both r (handle_frames now fs r.0 r.1)

abbrev pub joined : List Bytes → Bytes
joined [] = []
joined (f ∷ fs) = f ++ joined fs

frame_ignored :
    (now : ℕ) (f : Bytes) (ch : Channel) (v : VirtualHost)
    → ch.pending_publish ≡ none
    → handle_content_body now f ch v ≡ (ch, v, [], [])
unfolding handle_content_body
frame_ignored now f ch v h = ap step h
  where
    step : Option PendingPublish → Handled
    step none = (ch, v, [], [])
    step (some p) =
        if leb (received f p).body_size (received f p).body_received
        then complete now (received f p) ch v
        else (record ch { pending_publish = some (received f p) }, v, [], [])

no_more_frames :
    (now : ℕ) (fs : List Bytes) (ch : Channel) (v : VirtualHost)
    → ch.pending_publish ≡ none
    → handle_frames now fs ch v ≡ (ch, v, [], [])
unfolding handle_frames handle_content_body
no_more_frames now [] ch v h = refl
no_more_frames now (f ∷ fs) ch v h =
    ap (λ r. both r (handle_frames now fs r.0 r.1)) (frame_ignored now f ch v h)
    ∙ no_more_frames now fs ch v h

received-received :
    (f g : Bytes) (p : PendingPublish)
    → p.body_received + length (f ++ g) < 2 ^ 64
    → received g (received f p) ≡ received (f ++ g) p
received-received f g p h =
    let count : ((p.body_received + length f) % 2 ^ 64 + length g) % 2 ^ 64
        ≡ (p.body_received + length (f ++ g)) % 2 ^ 64 =
      omega (arith, length-append f g) in
    ap
      (λ body. record p {
        body = body;
        body_received = ((p.body_received + length f) % 2 ^ 64 + length g) % 2 ^ 64;
      })
      (append_assoc p.body f g)
    ∙ ap (λ n. record p { body = p.body ++ (f ++ g); body_received = n }) count

-- A body frame that does not complete the body is kept, and nothing else happens.
frame_kept :
    (now : ℕ) (f : Bytes) (ch : Channel) (v : VirtualHost) (p : PendingPublish)
    → ch.pending_publish ≡ some p
    → p.body_received + length f < p.body_size
    → p.body_size < 2 ^ 64
    → handle_content_body now f ch v
      ≡ (record ch { pending_publish = some (received f p) }, v, [], [])
unfolding handle_content_body
frame_kept now f ch v p h short small = rw (h, handle_content_body) (rw (short_yet) refl)
  where
    short_yet : leb p.body_size ((p.body_received + length f) % 2 ^ 64) ≡ false
    short_yet = ground arith

pub frame_completes :
    (now : ℕ) (f : Bytes) (ch : Channel) (v : VirtualHost) (p : PendingPublish)
    → ch.pending_publish ≡ some p
    → p.body_size ≤ p.body_received + length f
    → p.body_received + length f < 2 ^ 64
    → handle_content_body now f ch v ≡ complete now (received f p) ch v
unfolding handle_content_body
frame_completes now f ch v p h full small = rw (h, handle_content_body) (rw (all_there) refl)
  where
    all_there : leb p.body_size ((p.body_received + length f) % 2 ^ 64) ≡ true
    all_there = ground arith

pub complete-none :
    (now : ℕ) (p : PendingPublish) (ch : Channel) (v : VirtualHost)
    → (complete now p ch v).0.pending_publish ≡ none
unfolding complete
complete-none now p ch v = ground arith

pub last_frame :
    (now : ℕ) (r : Handled) (late : List Bytes)
    → r.0.pending_publish ≡ none
    → both r (handle_frames now late r.0 r.1) ≡ r
last_frame now r late h =
    ap (both r) (no_more_frames now late r.0 r.1 h)
    ∙ ap (λ sent. (r.0, r.1, sent, r.3 ++ [])) (append-nil r.2)
    ∙ ap (λ more. (r.0, r.1, r.2, more)) (append-nil r.3)

-- A body is put together from its frames, however it was cut: with the frame that reaches the size
-- that the header gave, the message is published, once, with the bytes of all its frames as its
-- body. Before that nothing is sent and the host is not touched, and later frames are ignored. The
-- count of the bytes is assumed not to reach 64 bits.
pub handle_frames_lem :
    (now : ℕ) (fs : List Bytes) (f : Bytes) (late : List Bytes) (ch : Channel) (v : VirtualHost)
    (p : PendingPublish)
    → ch.pending_publish ≡ some p
    → p.body_received + length (joined fs) < p.body_size
    → p.body_size ≤ p.body_received + length (joined fs ++ f)
    → p.body_received + length (joined fs ++ f) < 2 ^ 64
    → handle_frames now (fs ++ f ∷ late) ch v ≡ complete now (received (joined fs ++ f) p) ch v
unfolding handle_frames complete
handle_frames_lem now [] f late ch v p h short full small =
    ap (λ r. both r (handle_frames now late r.0 r.1)) (frame_completes now f ch v p h full small)
    ∙ last_frame now (complete now (received f p) ch v) late (complete-none now (received f p) ch v)
handle_frames_lem now (g ∷ gs) f late ch v p h short full small =
    let rest : List Bytes = gs ++ f ∷ late in
    let ch' : Channel = record ch { pending_publish = some (received g p) } in
    let a = length-append g (joined gs) in
    let b = length-append (g ++ joined gs) f in
    let c = length-append g (joined gs ++ f) in
    let d = length-append (joined gs) f in
    ap (λ r. both r (handle_frames now rest r.0 r.1))
      (frame_kept now g ch v p h (omega (arith, a, b, c, d)) (omega (arith, a, b, c, d)))
    ∙ handle_frames_lem now gs f late ch' v (received g p) refl (omega (arith, a, b, c, d))
        (omega (arith, a, b, c, d)) (omega (arith, a, b, c, d))
    ∙ ap (λ q. complete now q ch v)
        (received-received g (joined gs ++ f) p (omega (arith, a, b, c, d))
          ∙ ap (λ bytes. received bytes p) (sym (append_assoc g (joined gs) f)))
