-- ===== src/Broker/Queue/Stoll.antt =====
-- `std::stoll(s)`: white space, a sign, and the longest run of digits. `none` is the exception:
-- no digit, or a value that does not fit an `int64_t`. What follows the digits is not looked at.
use ganshin_mq.Base.{
  ℕ, ◌+◌, ◌-◌, ◌*◌, ◌^◌, Bool, true, false, ◌&&◌, ◌||◌, Bytes, [], ◌∷◌, Option, none, some, ◌==◌,
  nat_eq, if◌then◌else◌, ltb, leb,
}
use ganshin_mq.Base.Int.{ℤ, pos, negsuc}

is_space : ℕ → Bool
is_space c = c == 32 || (leb 9 c && leb c 13)

is_digit : ℕ → Bool
is_digit c = leb b'0' c && leb c b'9'

skip_space : Bytes → Bytes
unfolding is_space
skip_space [] = []
skip_space (c ∷ s) = elim (is_space c) [ true ↦ skip_space s | false ↦ c ∷ s ]

-- The value of the digits in front, after those that were read.
digits_value : ℕ → Bytes → ℕ
unfolding is_digit
digits_value acc [] = acc
digits_value acc (c ∷ s) = elim (is_digit c) [
  | true ↦ digits_value (acc * 10 + (c - b'0')) s
  | false ↦ acc
]

starts_with_digit : Bytes → Bool
unfolding is_digit
starts_with_digit [] = false
starts_with_digit (c ∷ s) = is_digit c

signed : Bool → ℕ → Option ℤ
signed false n = if ltb n (2 ^ 63) then some (pos n) else none
signed true n =
    if n == 0 then some (pos 0) else if leb n (2 ^ 63) then some (negsuc (n - 1)) else none

number : Bool → Bytes → Option ℤ
unfolding starts_with_digit signed digits_value
number minus s = if starts_with_digit s then signed minus (digits_value 0 s) else none

after_space : Bytes → Option ℤ
unfolding number
after_space [] = none
after_space (c ∷ s) =
    if c == b'-' then number true s else if c == b'+' then number false s else number false (c ∷ s)

unfoldable pub stoll : Bytes → Option ℤ
unfolding skip_space after_space
stoll s = after_space (skip_space s)
