-- ===== src/Amqp/Buffer/Ensures.antt =====
-- What holds of a value that is read, if no exception is thrown; a loop that runs out of fuel does
-- not count as read.
use ganshin_mq.Base.{ℕ, Bool, true, false, Bytes, [], ◌∷◌, length, leb, take, drop, if◌then◌else◌}
use ganshin_mq.Amqp.Buffer.{
  Result, ok, err, stuck, ◌>>=◌, read_uint8, read_uint16, read_uint32, read_uint64, read_bytes,
  read_short_string, read_long_string, underflow,
}

abbrev pub Ensures {κ} : {A : Type κ} → (A → Type 0) → Result A → Type 0
Ensures P (ok a) = P a
Ensures P (err e) = Unit
Ensures P stuck = ⊥

abbrev pub IsDecided {κ} : {A : Type κ} → Result A → Type 0
IsDecided r = Ensures (λ _. Unit {0}) r

pub bind-Ensures {κ ν} :
    {A : Type κ} {B : Type ν} (P : B → Type 0) (m : Result A) (f : A → Result B)
    → IsDecided m
    → ((a : A) → Ensures P (f a))
    → Ensures P (m >>= f)
bind-Ensures P (ok a) f d h = h a
bind-Ensures P (err e) f d h = tt
bind-Ensures P stuck f d h = absurd d

pub if-Ensures {κ} :
    {A : Type κ} (P : A → Type 0) (b : Bool) (r q : Result A)
    → Ensures P r
    → Ensures P q
    → Ensures P (if b then r else q)
if-Ensures P true r q h k = h
if-Ensures P false r q h k = k

pub read_uint8-IsDecided : (s : Bytes) → IsDecided (read_uint8 s)
unfolding read_uint8
read_uint8-IsDecided [] = tt
read_uint8-IsDecided (a ∷ s) = tt

pub read_uint16-IsDecided : (s : Bytes) → IsDecided (read_uint16 s)
unfolding read_uint16
read_uint16-IsDecided [] = tt
read_uint16-IsDecided (a ∷ []) = tt
read_uint16-IsDecided (a ∷ b ∷ s) = tt

pub read_uint32-IsDecided : (s : Bytes) → IsDecided (read_uint32 s)
unfolding read_uint32
read_uint32-IsDecided [] = tt
read_uint32-IsDecided (a ∷ []) = tt
read_uint32-IsDecided (a ∷ b ∷ []) = tt
read_uint32-IsDecided (a ∷ b ∷ c ∷ []) = tt
read_uint32-IsDecided (a ∷ b ∷ c ∷ d ∷ s) = tt

pub read_uint64-IsDecided : (s : Bytes) → IsDecided (read_uint64 s)
unfolding read_uint64
read_uint64-IsDecided [] = tt
read_uint64-IsDecided (a ∷ []) = tt
read_uint64-IsDecided (a ∷ b ∷ []) = tt
read_uint64-IsDecided (a ∷ b ∷ c ∷ []) = tt
read_uint64-IsDecided (a ∷ b ∷ c ∷ d ∷ []) = tt
read_uint64-IsDecided (a ∷ b ∷ c ∷ d ∷ e ∷ []) = tt
read_uint64-IsDecided (a ∷ b ∷ c ∷ d ∷ e ∷ f ∷ []) = tt
read_uint64-IsDecided (a ∷ b ∷ c ∷ d ∷ e ∷ f ∷ g ∷ []) = tt
read_uint64-IsDecided (a ∷ b ∷ c ∷ d ∷ e ∷ f ∷ g ∷ h ∷ s) = tt

read_bytes-IsDecided : (n : ℕ) (s : Bytes) → IsDecided (read_bytes n s)
unfolding read_bytes
read_bytes-IsDecided n s =
    if-Ensures (λ _. Unit {0}) (leb n (length s)) (ok (take n s, drop n s)) (err underflow) tt tt

pub read_short_string-IsDecided : (s : Bytes) → IsDecided (read_short_string s)
unfolding read_short_string
read_short_string-IsDecided s =
    bind-Ensures (λ _. Unit {0}) (read_uint8 s) _ (read_uint8-IsDecided s)
      (λ a. read_bytes-IsDecided a.0 a.1)

pub read_long_string-IsDecided : (s : Bytes) → IsDecided (read_long_string s)
unfolding read_long_string
read_long_string-IsDecided s =
    bind-Ensures (λ _. Unit {0}) (read_uint32 s) _ (read_uint32-IsDecided s)
      (λ a. read_bytes-IsDecided a.0 a.1)

-- A read, and then more.
module _ {κ} {B : Type κ} (P : B → Type 0) where
  pub after_uint8 :
      (s : Bytes) (f : ℕ × Bytes → Result B)
      → ((a : ℕ × Bytes) → Ensures P (f a))
      → Ensures P (read_uint8 s >>= f)
  after_uint8 s f = bind-Ensures P (read_uint8 s) f (read_uint8-IsDecided s)

  pub after_uint16 :
      (s : Bytes) (f : ℕ × Bytes → Result B)
      → ((a : ℕ × Bytes) → Ensures P (f a))
      → Ensures P (read_uint16 s >>= f)
  after_uint16 s f = bind-Ensures P (read_uint16 s) f (read_uint16-IsDecided s)

  pub after_uint32 :
      (s : Bytes) (f : ℕ × Bytes → Result B)
      → ((a : ℕ × Bytes) → Ensures P (f a))
      → Ensures P (read_uint32 s >>= f)
  after_uint32 s f = bind-Ensures P (read_uint32 s) f (read_uint32-IsDecided s)

  pub after_uint64 :
      (s : Bytes) (f : ℕ × Bytes → Result B)
      → ((a : ℕ × Bytes) → Ensures P (f a))
      → Ensures P (read_uint64 s >>= f)
  after_uint64 s f = bind-Ensures P (read_uint64 s) f (read_uint64-IsDecided s)

  pub after_short_string :
      (s : Bytes) (f : Bytes × Bytes → Result B)
      → ((a : Bytes × Bytes) → Ensures P (f a))
      → Ensures P (read_short_string s >>= f)
  after_short_string s f = bind-Ensures P (read_short_string s) f (read_short_string-IsDecided s)

  pub after_long_string :
      (s : Bytes) (f : Bytes × Bytes → Result B)
      → ((a : Bytes × Bytes) → Ensures P (f a))
      → Ensures P (read_long_string s >>= f)
  after_long_string s f = bind-Ensures P (read_long_string s) f (read_long_string-IsDecided s)

pub Ensures-bind {κ ν} :
    {A : Type κ} {B : Type ν} (Q : A → Type 0) (P : B → Type 0) (m : Result A) (f : A → Result B)
    → Ensures Q m
    → ((a : A) → Q a → Ensures P (f a))
    → Ensures P (m >>= f)
Ensures-bind Q P (ok a) f q h = h a q
Ensures-bind Q P (err e) f q h = tt
Ensures-bind Q P stuck f q h = absurd q

pub Ensures-IsDecided {κ} : {A : Type κ} (P : A → Type 0) (r : Result A) → Ensures P r → IsDecided r
Ensures-IsDecided P (ok a) h = tt
Ensures-IsDecided P (err e) h = tt
Ensures-IsDecided P stuck h = absurd h
