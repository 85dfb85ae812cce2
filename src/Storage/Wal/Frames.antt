-- ===== src/Storage/Wal/Frames.antt =====
-- A frame of the log is read back whole, or not at all.
use ganshin_mq.Base.{
  ℕ, ◌+◌, ◌-◌, ◌*◌, ◌%◌, ◌^◌, ◌<◌, ◌≤◌, true, false, ◌||◌, Bytes, [], ◌∷◌, ◌++◌, none, some, length,
  take, drop, ◌≡◌, refl, sym, ap, ◌∙◌, arith, append_assoc, append-nil, length-append, take-append,
  drop-append, ltb, ==_refl, nat_eq,
}
use ganshin_mq.Amqp.Buffer.{Result, ok, read_uint32, write_uint32}
use ganshin_mq.Amqp.Buffer.IntProofs.{read-write_uint32}
use ganshin_mq.Storage.Wal.{crc32, write_frame, check_entry, read_frame, max_entry_size}

crc32-lt : (s : Bytes) → crc32 s < 2 ^ 32
unfolding crc32
crc32-lt s = omega arith

length-write_uint32 : (v : ℕ) → length (write_uint32 v) ≡ 4
unfolding write_uint32
length-write_uint32 v = refl

-- The checksum of an entry that was written is right.
check-write :
    (type : ℕ) (s : Bytes)
    → check_entry (length s + 5) (type ∷ (s ++ write_uint32 (crc32 s))) ≡ some (type, s)
unfolding check_entry
check-write type s =
    let n : length s + 5 - 5 ≡ length s = omega arith in
    let crc : read_uint32 (write_uint32 (crc32 s)) ≡ ok (crc32 s, []) =
      ap read_uint32 (sym (append-nil (write_uint32 (crc32 s))))
      ∙ read-write_uint32 (crc32 s) [] (crc32-lt s) in
    rw (n, check_entry)
      (rw (drop-append s (write_uint32 (crc32 s)), crc)
        (rw (n, take-append s (write_uint32 (crc32 s)), ==_refl (crc32 s)) refl))

frame_rest :
    (type : ℕ) (s rest : Bytes)
    → length s + 5 < 2 ^ 32
    → write_frame type s ++ rest
      ≡ write_uint32 (length s + 5) ++ ((type ∷ (s ++ write_uint32 (crc32 s))) ++ rest)
unfolding write_frame
frame_rest type s rest h =
    let total : (1 + length s % 2 ^ 32 + 4) % 2 ^ 32 ≡ length s + 5 = omega arith in
    ap (λ n. (write_uint32 n ++ (type ∷ (s ++ write_uint32 (crc32 s)))) ++ rest) total
    ∙ append_assoc (write_uint32 (length s + 5)) _ rest

length-entry : (type : ℕ) (s : Bytes) → length (type ∷ (s ++ write_uint32 (crc32 s))) ≡ length s + 5
length-entry type s =
    omega (arith, length-append s (write_uint32 (crc32 s)), length-write_uint32 (crc32 s))

-- A frame of at most the largest size is read back from the front of the file.
pub read-write_frame :
    (type : ℕ) (s rest : Bytes)
    → length s + 5 ≤ max_entry_size
    → read_frame (write_frame type s ++ rest) ≡ some (type, s, rest)
unfolding read_frame
read-write_frame type s rest h =
    let body : Bytes = type ∷ (s ++ write_uint32 (crc32 s)) in
    let size : length body ≡ length s + 5 = length-entry type s in
    let taken : take (length s + 5) (body ++ rest) ≡ body =
      ap (λ n. take n (body ++ rest)) (sym size) ∙ take-append body rest in
    let dropped : drop (length s + 5) (body ++ rest) ≡ rest =
      ap (λ n. drop n (body ++ rest)) (sym size) ∙ drop-append body rest in
    let in_range : (ltb (length s + 5) 5 || ltb max_entry_size (length s + 5)) ≡ false =
      ground arith in
    let all_there : ltb (length (body ++ rest)) (length s + 5) ≡ false =
      ground (arith, length-append body rest, size) in
    ap read_frame (frame_rest type s rest (omega arith))
    ∙ rw (read-write_uint32 (length s + 5) (body ++ rest) (omega arith), read_frame)
        (rw in_range (rw all_there (rw (taken, check-write type s, dropped) refl)))

-- A frame that is too large is not read, whatever follows it.
pub read-oversize_frame :
    (type : ℕ) (s rest : Bytes)
    → max_entry_size < length s + 5
    → length s + 5 < 2 ^ 32
    → read_frame (write_frame type s ++ rest) ≡ none
unfolding read_frame
read-oversize_frame type s rest big h =
    let body : Bytes = type ∷ (s ++ write_uint32 (crc32 s)) in
    let out_of_range : (ltb (length s + 5) 5 || ltb max_entry_size (length s + 5)) ≡ true =
      ground arith in
    ap read_frame (frame_rest type s rest h)
    ∙ rw (read-write_uint32 (length s + 5) (body ++ rest) h, read_frame) (rw out_of_range refl)

-- A frame that was cut short behind its size is not read, also not with bytes behind it that do not
-- make up for what is missing.
pub read-unfinished_frame :
    (type : ℕ) (s front : Bytes) (x : ℕ) (back more : Bytes)
    → length s + 5 < 2 ^ 32
    → write_frame type s ≡ front ++ x ∷ back
    → 4 ≤ length front
    → length more ≤ length back
    → read_frame (front ++ more) ≡ none
unfolding read_frame read_uint32 write_uint32
read-unfinished_frame type s [] x back more h e four less = absurd (omega arith)
read-unfinished_frame type s (a ∷ []) x back more h e four less = absurd (omega arith)
read-unfinished_frame type s (a ∷ b ∷ []) x back more h e four less = absurd (omega arith)
read-unfinished_frame type s (a ∷ b ∷ c ∷ []) x back more h e four less = absurd (omega arith)
read-unfinished_frame type s (a ∷ b ∷ c ∷ d ∷ front) x back more h e four less =
    let body : Bytes = (type ∷ (s ++ write_uint32 (crc32 s))) ++ [] in
    let whole : write_uint32 (length s + 5) ++ body ≡ a ∷ b ∷ c ∷ d ∷ (front ++ x ∷ back) =
      sym (frame_rest type s [] h) ∙ append-nil (write_frame type s) ∙ e in
    let total : ℕ = a * 16777216 + b * 65536 + c * 256 + d in
    let both : ◌≡◌ {A = Result (ℕ × Bytes)} (ok (length s + 5, body))
        (ok (total, front ++ x ∷ back)) =
      sym (read-write_uint32 (length s + 5) body h) ∙ ap read_uint32 whole in
    let size : length s + 5 ≡ total = cc in
    let rest : body ≡ front ++ x ∷ back = cc in
    let short : length (front ++ more) < total = omega (
      arith,
      less,
      ap length rest,
      length-append front (x ∷ back),
      length-append front more,
      size,
      length-entry type s,
      length-append (type ∷ (s ++ write_uint32 (crc32 s))) [],
    ) in
    ground (arith, short)

-- A frame that was cut short is not read.
pub read-torn_frame :
    (type : ℕ) (s front : Bytes) (x : ℕ) (back : Bytes)
    → length s + 5 < 2 ^ 32
    → write_frame type s ≡ front ++ x ∷ back
    → read_frame front ≡ none
unfolding read_frame read_uint32
read-torn_frame type s [] x back h e = refl
read-torn_frame type s (a ∷ []) x back h e = refl
read-torn_frame type s (a ∷ b ∷ []) x back h e = refl
read-torn_frame type s (a ∷ b ∷ c ∷ []) x back h e = refl
read-torn_frame type s (a ∷ b ∷ c ∷ d ∷ front) x back h e =
    ap read_frame (sym (append-nil (a ∷ b ∷ c ∷ d ∷ front)))
    ∙ read-unfinished_frame type s (a ∷ b ∷ c ∷ d ∷ front) x back [] h e (omega arith) (omega arith)
