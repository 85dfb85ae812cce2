-- ===== src/Broker/Connection/Reading/Split.antt =====
-- The frames that a peer writes are the frames that are handled.
use ganshin_mq.Base.{
  ℕ, suc, ◌+◌, ◌*◌, ◌/◌, ◌%◌, ◌^◌, ◌≤◌, ◌<◌, true, false, Bytes, [], ◌∷◌, ◌++◌, Option, none, some,
  nat_eq, if◌then◌else◌, ltb, leb, length, take, drop, get_or, length-append, take-append, ◌≡◌,
  refl, ap, ◌∙◌, arith, append_assoc,
}
use ganshin_mq.Amqp.Buffer.{write_uint8, write_uint16, write_uint32}
use ganshin_mq.Amqp.Frame.{frame_end}
use ganshin_mq.Broker.Channel.Frames.{write_frame}
use ganshin_mq.Broker.Channel.Methods.{Moment}
use ganshin_mq.Broker.Connection.State.{Reading, header_bytes, payload_bytes, World}
use ganshin_mq.Broker.Connection.Methods.{handle_frame}
use ganshin_mq.Broker.Connection.Reading.{
  wanted, on_read, on_frame_header, on_frame_size, on_frame_payload, effective_max, after_frame,
  feed,
}

-- A round of `feed`, by the read that is under way.
abbrev round : ℕ → Moment → Bytes → World → Reading → World × Bytes
round rounds t input w r = elim (wanted r) [
  | none ↦ (w, input)
  | some n ↦
      let rest = feed rounds t (drop n input) (on_read t r (take n input) w) in
      if leb n (length input) then rest else (w, input)
]

one_read :
    (rounds : ℕ) (t : Moment) (input : Bytes) (w : World) (r : Reading) (n : ℕ)
    → w.connection.reading ≡ r
    → wanted r ≡ some n
    → n ≤ length input
    → feed (suc rounds) t input w ≡ feed rounds t (drop n input) (on_read t r (take n input) w)
unfolding feed
one_read rounds t input w r n h e le =
    ap (round rounds t input w) h
    ∙ ap
        (λ (o : Option ℕ).
          let p : World × Bytes = elim o [
            | none ↦ (w, input)
            | some n ↦
                let rest = feed rounds t (drop n input) (on_read t r (take n input) w) in
                if leb n (length input) then rest else (w, input)
          ] in
          p)
        e
    ∙ ap
        (λ b. if b then feed rounds t (drop n input) (on_read t r (take n input) w) else (w, input))
        (enough n (length input) le)
  where
    enough : (m k : ℕ) → m ≤ k → leb m k ≡ true
    enough m k le = ground arith

-- The connection when a frame's header is read.
abbrev pub header_read : ℕ → ℕ → ℕ → World → World
header_read type channel size w = record w {
  connection = record (w.connection) {
    received_data = true;
    reading = payload_bytes type channel size;
  };
}

header_fields :
    (type channel : ℕ) (payload rest : Bytes) (w : World)
    → type < 256
    → channel < 2 ^ 16
    → length payload < 2 ^ 32
    → length payload ≤ effective_max w.connection
    → on_frame_header (take 7 (write_frame type channel payload ++ rest)) w
      ≡ header_read type channel (length payload) w
unfolding write_frame write_uint8 write_uint16 write_uint32 on_frame_header on_frame_size
    effective_max
header_fields type channel payload rest w a b c d =
    let type' : type % 256 ≡ type = omega arith in
    let channel' : channel / 2 ^ 8 % 256 * 256 + channel % 256 ≡ channel = omega arith in
    let size' : length payload % 2 ^ 32 / 2 ^ 24 % 256 * 16777216
          + length payload % 2 ^ 32 / 2 ^ 16 % 256 * 65536
          + length payload % 2 ^ 32 / 2 ^ 8 % 256 * 256
          + length payload % 2 ^ 32 % 256
        ≡ length payload =
      omega arith in
    let fits : ltb (if ltb 0 w.connection.frame_max then w.connection.frame_max else 16777216)
          (length payload)
        ≡ false =
      ground arith in
    rw (type', channel', size', fits) refl

module _ (e : ℕ) (rest : Bytes) where
  take_payload : (p : Bytes) → take (suc (length p)) (p ++ e ∷ rest) ≡ p ++ e ∷ []
  take_payload [] = refl
  take_payload (x ∷ p) = ap (◌∷◌ x) (take_payload p)

  drop_payload : (p : Bytes) → drop (suc (length p)) (p ++ e ∷ rest) ≡ rest
  drop_payload [] = refl
  drop_payload (x ∷ p) = drop_payload p

end_byte : (e : ℕ) (p : Bytes) → get_or (p ++ e ∷ []) (length p) 0 ≡ e
end_byte e [] = refl
end_byte e (x ∷ p) = end_byte e p

behind_header :
    (type channel : ℕ) (payload rest : Bytes)
    → drop 7 (write_frame type channel payload ++ rest) ≡ payload ++ frame_end ∷ rest
unfolding write_frame write_uint8 write_uint16 write_uint32
behind_header type channel payload rest = append_assoc payload (frame_end ∷ []) rest

seven_bytes :
    (type channel : ℕ) (payload rest : Bytes)
    → 7 ≤ length (write_frame type channel payload ++ rest)
unfolding write_frame write_uint8 write_uint16 write_uint32
seven_bytes type channel payload rest = omega arith

-- The payload of a frame that is read is handled, and the bytes behind the frame are left.
payload_handled :
    (rounds : ℕ) (t : Moment) (type channel : ℕ) (payload rest : Bytes) (w : World)
    → feed
        (suc rounds)
        t
        (payload ++ frame_end ∷ rest)
        (header_read type channel (length payload) w)
      ≡ feed rounds t rest (
          after_frame (header_read type channel (length payload) w) (
            handle_frame t
              (record { type = type; channel = channel; payload = payload })
              (header_read type channel (length payload) w)))
unfolding wanted on_read on_frame_payload
payload_handled rounds t type channel payload rest w =
    let n = length payload in
    let w' = header_read type channel n w in
    let next : n + 1 ≡ suc n = omega arith in
    let there : n + 1 ≤ length (payload ++ frame_end ∷ rest) =
      omega (arith, length-append payload (frame_end ∷ rest)) in
    one_read rounds t (payload ++ frame_end ∷ rest) w' (payload_bytes type channel n) (n + 1) refl
      refl there
    ∙ ap
        (λ (k : ℕ).
          feed rounds t (drop k (payload ++ frame_end ∷ rest))
            (on_frame_payload t type channel n (take k (payload ++ frame_end ∷ rest)) w'))
        next
    ∙ ap
        (λ bytes.
          feed rounds t bytes
            (on_frame_payload t type channel n (take (suc n) (payload ++ frame_end ∷ rest)) w'))
        (drop_payload frame_end rest payload)
    ∙ ap (λ bytes. feed rounds t rest (on_frame_payload t type channel n bytes w'))
        (take_payload frame_end rest payload)
    ∙ ap (feed rounds t rest) (handled w')
  where
    handled :
        (w' : World)
        → on_frame_payload t type channel (length payload) (payload ++ frame_end ∷ []) w'
          ≡ after_frame w'
              (handle_frame t (record { type = type; channel = channel; payload = payload }) w')
    handled w' = rw (end_byte frame_end payload) (
        ap
          (λ p.
            after_frame w'
              (handle_frame t (record { type = type; channel = channel; payload = p }) w'))
          (take-append payload (frame_end ∷ [])))

-- When a connection waits for a frame, and the bytes that come start with those that the server
-- itself writes for a frame, then two reads later the frame has been handled, with its type, its
-- channel and its payload, and the bytes behind it are left for what follows. The payload is
-- assumed to be within the limit on the size of frames, the type and the channel to have 8 and 16
-- bits.
pub feed-write_frame :
    (rounds : ℕ) (t : Moment) (type channel : ℕ) (payload rest : Bytes) (w : World)
    → w.connection.reading ≡ header_bytes
    → type < 256
    → channel < 2 ^ 16
    → length payload < 2 ^ 32
    → length payload ≤ effective_max w.connection
    → feed (suc (suc rounds)) t (write_frame type channel payload ++ rest) w
      ≡ feed rounds t rest (
          after_frame (header_read type channel (length payload) w) (
            handle_frame t
              (record { type = type; channel = channel; payload = payload })
              (header_read type channel (length payload) w)))
unfolding wanted on_read
feed-write_frame rounds t type channel payload rest w h a b c d =
    one_read (suc rounds) t (write_frame type channel payload ++ rest) w header_bytes 7 h refl
      (seven_bytes type channel payload rest)
    ∙ ap (feed (suc rounds) t (drop 7 (write_frame type channel payload ++ rest)))
        (header_fields type channel payload rest w a b c d)
    ∙ ap (λ input. feed (suc rounds) t input (header_read type channel (length payload) w))
        (behind_header type channel payload rest)
    ∙ payload_handled rounds t type channel payload rest w
