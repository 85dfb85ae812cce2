-- ===== src/Broker/VirtualHost/Names.antt =====
-- `std::to_string` of an unsigned 64-bit number, which has 20 digits at most.
use ganshin_mq.Base.{ℕ, zero, suc, ◌+◌, ◌/◌, ◌%◌, Bytes, [], ◌∷◌, if◌then◌else◌, ltb}

unfoldable pub decimal : ℕ → ℕ → Bytes → Bytes
decimal zero n digits = digits
decimal (suc fuel) n digits =
    let more = decimal fuel (n / 10) ((b'0' + n % 10) ∷ digits) in
    if ltb n 10 then (b'0' + n) ∷ digits else more

unfoldable pub to_string : ℕ → Bytes
unfolding decimal
to_string n = decimal 20 n []
