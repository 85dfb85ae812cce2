-- ===== src/Amqp/Buffer/IntProofs.antt =====
-- What is written is read back.
use native.Mathlib.Nat.{mod-eq_of_lt}
use ganshin_mq.Base.{
  ℕ, ◌+◌, ◌/◌, ◌%◌, ◌^◌, ◌<◌, Bytes, [], ◌∷◌, ◌++◌, length, take, min, ◌≡◌, refl, ap, ◌∙◌, arith,
  length-append, take-append, drop-append,
}
use ganshin_mq.Base.Int.{ℤ, pos, negsuc}
use ganshin_mq.Amqp.Buffer.{
  ok, read_uint8, read_uint16, read_uint32, shift_in, read_uint64, read_bytes, read_short_string,
  read_long_string, write_uint8, write_uint16, write_uint32, write_uint64, write_short_string,
  write_long_string,
}
use ganshin_mq.Amqp.Buffer.Int.{to_signed, to_unsigned}

-- The integers that fit two's complement with `half` non-negative values.
abbrev pub IsSigned : ℕ → ℤ → Type 0
IsSigned half (pos n) = n < half
IsSigned half (negsuc n) = n < half

pub read-write_uint8 :
    (v : ℕ) (rest : Bytes) → v < 2 ^ 8 → read_uint8 (write_uint8 v ++ rest) ≡ ok (v, rest)
unfolding read_uint8 write_uint8
read-write_uint8 v rest h = ground arith

pub read-write_uint16 :
    (v : ℕ) (rest : Bytes) → v < 2 ^ 16 → read_uint16 (write_uint16 v ++ rest) ≡ ok (v, rest)
unfolding read_uint16 write_uint16
read-write_uint16 v rest h = ground arith

pub read-write_uint32 :
    (v : ℕ) (rest : Bytes) → v < 2 ^ 32 → read_uint32 (write_uint32 v ++ rest) ≡ ok (v, rest)
unfolding read_uint32 write_uint32
read-write_uint32 v rest h = ground arith

-- Each byte of `v` takes one prefix of it to the next.
shift_in_steps :
    (v : ℕ)
    → v < 2 ^ 64
    → (shift_in 0 (v / 2 ^ 56 % 256) ≡ v / 2 ^ 56)
      × (shift_in (v / 2 ^ 56) (v / 2 ^ 48 % 256) ≡ v / 2 ^ 48)
      × (shift_in (v / 2 ^ 48) (v / 2 ^ 40 % 256) ≡ v / 2 ^ 40)
      × (shift_in (v / 2 ^ 40) (v / 2 ^ 32 % 256) ≡ v / 2 ^ 32)
      × (shift_in (v / 2 ^ 32) (v / 2 ^ 24 % 256) ≡ v / 2 ^ 24)
      × (shift_in (v / 2 ^ 24) (v / 2 ^ 16 % 256) ≡ v / 2 ^ 16)
      × (shift_in (v / 2 ^ 16) (v / 2 ^ 8 % 256) ≡ v / 2 ^ 8)
      × (shift_in (v / 2 ^ 8) (v % 256) ≡ v)
unfolding shift_in
shift_in_steps v h = (
  omega arith,
  omega arith,
  omega arith,
  omega arith,
  omega arith,
  omega arith,
  omega arith,
  omega arith,
)

pub read-write_uint64 :
    (v : ℕ) (rest : Bytes) → v < 2 ^ 64 → read_uint64 (write_uint64 v ++ rest) ≡ ok (v, rest)
unfolding read_uint64 write_uint64
read-write_uint64 v rest h =
    let (a, b, c, d, e, f, g, z) = shift_in_steps v h in rw (a, b, c, d, e, f, g, z)

pub read-write_bytes : (s rest : Bytes) → read_bytes (length s) (s ++ rest) ≡ ok (s, rest)
unfolding read_bytes
read-write_bytes s rest =
    ground (arith, take-append s rest, drop-append s rest, length-append s rest)

take-length : (s : Bytes) → take (length s) s ≡ s
take-length [] = refl
take-length (x ∷ s) = ap (◌∷◌ x) (take-length s)

pub read-write_short_string :
    (s rest : Bytes)
    → length s < 256
    → read_short_string (write_short_string s ++ rest) ≡ ok (s, rest)
unfolding read_short_string write_short_string
read-write_short_string s rest h =
    let all : min (length s) 255 ≡ length s = omega arith in
    let byte : length s % 256 ≡ length s = omega arith in
    rw (all, byte, take-length s) (read-write_bytes s rest)

pub read-write_long_string :
    (s rest : Bytes)
    → length s < 2 ^ 32
    → read_long_string (write_long_string s ++ rest) ≡ ok (s, rest)
unfolding read_long_string write_long_string
read-write_long_string s rest h =
    ap (λ (n : ℕ). read_bytes n (s ++ rest)) (omega arith) ∙ read-write_bytes s rest

-- A two's complement integer survives the cast to its unsigned width and back.
pub to_signed-to_unsigned :
    (half : ℕ) (z : ℤ) → IsSigned half z → to_signed half (to_unsigned (half + half) z) ≡ z
unfolding to_signed to_unsigned
to_signed-to_unsigned half (pos n) h =
    let e : n % (half + half) ≡ n = mod-eq_of_lt (omega arith) in ground (arith, e)
to_signed-to_unsigned half (negsuc n) h =
    let e : n % (half + half) ≡ n = mod-eq_of_lt (omega arith) in ground (arith, e)

pub to_unsigned-lt : (modulus : ℕ) (z : ℤ) → 0 < modulus → to_unsigned modulus z < modulus
unfolding to_unsigned
to_unsigned-lt modulus (pos n) h = grind arith
to_unsigned-lt modulus (negsuc n) h = grind arith
