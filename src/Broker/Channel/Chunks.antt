-- ===== src/Broker/Channel/Chunks.antt =====
-- The body frames that a channel cuts a body into.
use ganshin_mq.Base.{
  ℕ, zero, suc, ◌+◌, ◌-◌, ◌<◌, ◌≤◌, Bytes, List, [], ◌∷◌, ◌++◌, bytes_eq, length, ltb, min, take,
  drop, All, ◌≡◌, refl, sym, ap, ◌∙◌, subst, arith, append_assoc, append-nil, length-append, map,
  bytes_beq, Bool-cases, inl, inr,
}
use ganshin_mq.Amqp.Buffer.{write_uint8, write_uint16, write_uint32}
use ganshin_mq.Amqp.Frame.{frame_body, frame_end}
use ganshin_mq.Broker.Channel.Frames.{write_frame, chunk_loop, body_chunks, max_body_payload}
use ganshin_mq.Broker.Channel.Assembly.{joined}

take-drop : (n : ℕ) (s : Bytes) → take n s ++ drop n s ≡ s
take-drop zero s = refl
take-drop (suc n) [] = refl
take-drop (suc n) (x ∷ s) = ap (◌∷◌ x) (take-drop n s)

length-take : (n : ℕ) (s : Bytes) → length (take n s) ≡ min n (length s)
length-take zero s = omega arith
length-take (suc n) [] = omega arith
length-take (suc n) (x ∷ s) = omega (arith, length-take n s)

length-drop : (n : ℕ) (s : Bytes) → length (drop n s) ≡ length s - n
length-drop zero s = omega arith
length-drop (suc n) [] = omega arith
length-drop (suc n) (x ∷ s) = omega (arith, length-drop n s)

take_all : (s : Bytes) → take (length s) s ≡ s
take_all [] = refl
take_all (x ∷ s) = ap (◌∷◌ x) (take_all s)

-- The chunks but the last, and the last: together the body, of which the former are not all.
pub record Cut (limit : ℕ) (body : Bytes) (chunks : List Bytes) : Type 0 where
  pub front : List Bytes
  pub final : Bytes
  pub parts : chunks ≡ front ++ final ∷ []
  pub whole : joined front ++ final ≡ body
  pub short : length (joined front) < length body
  pub sizes : All (λ c. length c ≤ limit) (front ++ final ∷ [])

pub chunk_loop-Cut :
    (rounds limit : ℕ) (body : Bytes)
    → 0 < limit
    → 0 < length body
    → length body < rounds
    → Cut limit body (chunk_loop rounds limit body)
unfolding chunk_loop
chunk_loop-Cut zero limit body pos full enough = absurd (omega arith)
chunk_loop-Cut (suc rounds) limit body pos full enough =
    let n = min limit (length body) in
    let taken : length (take n body) ≡ n = length-take n body ∙ omega arith in
    let left = length-drop n body in
    elim (Bool-cases (ltb n (length body))) [
      | inl more ↦
          let rest =
            chunk_loop-Cut rounds limit (drop n body) pos (ground (arith, left, more))
              (ground (arith, left)) in
          record {
            front = take n body ∷ rest.front;
            final = rest.final;
            parts = rw more (ap (λ l. take n body ∷ l) rest.parts);
            whole =
                append_assoc (take n body) (joined rest.front) rest.final
                ∙ ap (λ l. take n body ++ l) rest.whole
                ∙ take-drop n body;
            short = ground (
              arith,
              left,
              taken,
              more,
              rest.short,
              length-append (take n body) (joined rest.front),
            );
            sizes = (omega (arith, taken), rest.sizes);
          }
      | inr last ↦
          let all : n ≡ length body = ground (arith, last) in
          record {
            front = [];
            final = take n body;
            parts = rw last refl;
            whole = ap (λ k. take k body) all ∙ take_all body;
            short = full;
            sizes = (omega (arith, taken), tt);
          }
    ]

write_frame-length :
    (type channel : ℕ) (payload : Bytes)
    → length (write_frame type channel payload) ≡ length payload + 8
unfolding write_frame write_uint8 write_uint16 write_uint32
write_frame-length type channel payload = omega (arith, length-append payload (frame_end ∷ []))

chunks-fit :
    (channel frame_max : ℕ) (chunks : List Bytes)
    → 8 < frame_max
    → All (λ c. length c ≤ frame_max - 8) chunks
    → All (λ f. length f ≤ frame_max) (map (write_frame frame_body channel) chunks)
chunks-fit channel frame_max [] big h = tt
chunks-fit channel frame_max (c ∷ chunks) big h = (
  omega (arith, write_frame-length frame_body channel c),
  chunks-fit channel frame_max chunks big h.1,
)

pub body_chunks-cons :
    (limit b : ℕ) (body : Bytes)
    → body_chunks limit (b ∷ body) ≡ chunk_loop (suc (length (b ∷ body))) limit (b ∷ body)
unfolding body_chunks bytes_beq
body_chunks-cons limit b body = append-nil _

joined_last :
    (front : List Bytes) (final : Bytes) → joined (front ++ final ∷ []) ≡ joined front ++ final
joined_last [] final = append-nil final
joined_last (c ∷ front) final =
    ap (λ l. c ++ l) (joined_last front final) ∙ sym (append_assoc c (joined front) final)

no_body : (limit : ℕ) → body_chunks limit [] ≡ [] ∷ [] ∷ []
unfolding body_chunks chunk_loop bytes_beq
no_body limit = let nothing : min limit 0 ≡ 0 = omega arith in rw nothing refl

abbrev Splits : ℕ → Bytes → List Bytes → Type 0
Splits limit body chunks = All (λ c. length c ≤ limit) chunks × (joined chunks ≡ body)

body_chunks-Splits :
    (limit : ℕ) (body : Bytes) → 0 < limit → Splits limit body (body_chunks limit body)
body_chunks-Splits limit [] pos =
    subst (Splits limit []) (sym (no_body limit)) ((omega arith, (omega arith, tt)), refl)
body_chunks-Splits limit (b ∷ body) pos =
    let cut =
      chunk_loop-Cut (suc (suc (length body))) limit (b ∷ body) pos (omega arith) (omega arith) in
    subst (Splits limit (b ∷ body)) (sym (body_chunks-cons limit b body ∙ cut.parts))
      (cut.sizes, joined_last cut.front cut.final ∙ cut.whole)

-- The body frames that a channel sends carry the body, in order and nothing else, and with the
-- frame's header and end byte none is longer than the frame size that the client agreed to, if
-- that is above 8.
pub body_frames-fit :
    (channel frame_max : ℕ) (body : Bytes)
    → 8 < frame_max
    → All
        (λ f. length f ≤ frame_max)
        (map (write_frame frame_body channel) (body_chunks (max_body_payload frame_max) body))
      × (joined (body_chunks (max_body_payload frame_max) body) ≡ body)
unfolding max_body_payload
body_frames-fit channel frame_max body big =
    let room : max_body_payload frame_max ≡ frame_max - 8 = ground arith in
    let parts =
      subst (λ limit. Splits limit body (body_chunks limit body)) (sym room)
        (body_chunks-Splits (frame_max - 8) body (omega arith)) in
    let sizes : All (λ c. length c ≤ frame_max - 8)
        (body_chunks (max_body_payload frame_max) body) =
      subst (λ limit. All (λ c. length c ≤ limit) (body_chunks (max_body_payload frame_max) body))
        room parts.0 in
    (
      chunks-fit channel frame_max (body_chunks (max_body_payload frame_max) body) big sizes,
      parts.1,
    )
