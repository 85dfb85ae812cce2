-- ===== src/Amqp/Buffer/Int.antt =====
-- amqp/types.h: the signed integers of `Buffer`, by two's complement.
use ganshin_mq.Base.{ℕ, ◌+◌, ◌-◌, ◌%◌, if◌then◌else◌, ltb}
use ganshin_mq.Base.Int.{ℤ, pos, negsuc}

-- `static_cast<intN_t>(v)` of an unsigned value below `modulus`, twice `half`.
unfoldable pub to_signed : ℕ → ℕ → ℤ
to_signed half v = if ltb v half then pos v else negsuc (half + half - 1 - v)

-- `static_cast<uintN_t>(z)`.
unfoldable pub to_unsigned : ℕ → ℤ → ℕ
to_unsigned modulus (pos n) = n % modulus
to_unsigned modulus (negsuc n) = modulus - 1 - n % modulus
