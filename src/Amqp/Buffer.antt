-- ===== src/Amqp/Buffer.antt =====
-- amqp/types.h: the integers, strings and byte runs of `Buffer`, in network byte order. The read
-- side is the list of the bytes from `pos_` on; a write is the list of the bytes that it appends.
-- Bytes are below 256, so `|` of shifted bytes is their sum.
pub mod Int
pub mod IntProofs
pub mod Ensures
use ganshin_mq.Base.{
  ℕ, zero, suc, ◌+◌, ◌-◌, ◌*◌, ◌/◌, ◌%◌, ◌^◌, Bool, true, false, Bytes, List, [], ◌∷◌, ◌++◌,
  if◌then◌else◌, leb, length, take, drop, min,
}

-- The exceptions that reading throws.
pub data Error : Type 0 where
  underflow depth_exceeded : Error
  unknown_type : ℕ → Error

-- A value or an exception; `stuck` is neither: a loop of the model ran out of fuel.
pub data Result {κ} (V : Type κ) : Type κ where
  ok : V → Result V
  stuck : Result V
  err : Error → Result V

infixl 5 ◌>>=◌
abbrev pub ◌>>=◌ {κ ν} : {V : Type κ} {W : Type ν} → Result V → (V → Result W) → Result W
stuck >>= next = stuck
err error >>= next = err error
ok value >>= next = next value

-- What a read gives: the value, and the bytes that are left.
abbrev pub Read : Type 0 → Type 0
Read A = Result (A × Bytes)

unfoldable pub read_uint8 : Bytes → Read ℕ
read_uint8 [] = err underflow
read_uint8 (a ∷ s) = ok (a, s)

unfoldable pub read_uint16 : Bytes → Read ℕ
read_uint16 (a ∷ b ∷ s) = ok (a * 256 + b, s)
read_uint16 _ = err underflow

unfoldable pub read_uint32 : Bytes → Read ℕ
read_uint32 (a ∷ b ∷ c ∷ d ∷ s) = ok (a * 16777216 + b * 65536 + c * 256 + d, s)
read_uint32 _ = err underflow

-- `v = (v << 8) | data_[pos_ + i];` on 64 bits.
unfoldable pub shift_in : ℕ → ℕ → ℕ
shift_in v b = v * 256 % 2 ^ 64 + b

unfoldable pub read_uint64 : Bytes → Read ℕ
read_uint64 (a ∷ b ∷ c ∷ d ∷ e ∷ f ∷ g ∷ h ∷ s) = ok (
  shift_in
      (shift_in (shift_in (shift_in (shift_in (shift_in (shift_in (shift_in 0 a) b) c) d) e) f) g)
      h,
  s,
)
read_uint64 _ = err underflow

-- `ensure(n)` and the copy of `n` bytes.
unfoldable pub read_bytes : ℕ → Bytes → Read Bytes
read_bytes n s = if leb n (length s) then ok (take n s, drop n s) else err underflow

unfoldable pub read_short_string : Bytes → Read Bytes
unfolding read_uint8 read_bytes
read_short_string s = do (len, s') ← read_uint8 s; read_bytes len s'

unfoldable pub read_long_string : Bytes → Read Bytes
unfolding read_uint32 read_bytes
read_long_string s = do (len, s') ← read_uint32 s; read_bytes len s'

unfoldable pub write_uint8 : ℕ → Bytes
write_uint8 v = v % 256 ∷ []

unfoldable pub write_uint16 : ℕ → Bytes
write_uint16 v = v / 2 ^ 8 % 256 ∷ v % 256 ∷ []

unfoldable pub write_uint32 : ℕ → Bytes
write_uint32 v = v / 2 ^ 24 % 256 ∷ v / 2 ^ 16 % 256 ∷ v / 2 ^ 8 % 256 ∷ v % 256 ∷ []

unfoldable pub write_uint64 : ℕ → Bytes
write_uint64 v =
    v / 2 ^ 56 % 256
    ∷ v / 2 ^ 48 % 256
    ∷ v / 2 ^ 40 % 256
    ∷ v / 2 ^ 32 % 256
    ∷ v / 2 ^ 24 % 256
    ∷ v / 2 ^ 16 % 256
    ∷ v / 2 ^ 8 % 256
    ∷ v % 256
    ∷ []

-- A text of more than 255 bytes is cut.
unfoldable pub write_short_string : Bytes → Bytes
unfolding write_uint8
write_short_string s = write_uint8 (min (length s) 255) ++ take (min (length s) 255) s

unfoldable pub write_long_string : Bytes → Bytes
unfolding write_uint32
write_long_string s = write_uint32 (length s % 2 ^ 32) ++ s
