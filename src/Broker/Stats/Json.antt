-- ===== src/Broker/Stats/Json.antt =====
-- A reader of JSON strings reads back what was escaped.
use ganshin_mq.Base.{
  ℕ, zero, suc, ◌+◌, ◌-◌, ◌*◌, ◌/◌, ◌%◌, ◌<◌, ◌≤◌, Bool, true, false, ◌&&◌, Bytes, All, All-append,
  [], ◌∷◌, ◌++◌, Option, none, some, ◌==◌, nat_eq, if◌then◌else◌, ltb, leb, ◌≡◌, refl, ap, ◌∙◌,
  arith, append_assoc,
}
use ganshin_mq.Broker.Stats.{hex_digit, escape_char, json_escape}

-- Where the reader is in a string: at a character, behind a backslash, or before some hexadecimal
-- digits, with the value of those read.
pub data Mode : Type 0 where
  plain escaped : Mode
  digits : ℕ → ℕ → Mode

hex_value : ℕ → Option ℕ
hex_value c =
    if leb b'0' c && leb c b'9'
    then some (c - b'0')
    else if leb b'a' c && leb c b'f'
    then some (c - b'a' + 10)
    else none

-- The character that a letter behind a backslash stands for.
escape_value : ℕ → Option ℕ
escape_value c =
    if c == 34
    then some 34
    else if c == 92
    then some 92
    else if c == b'/'
    then some b'/'
    else if c == b'b'
    then some 8
    else if c == b'f'
    then some 12
    else if c == b'n'
    then some 10
    else if c == b'r'
    then some 13
    else if c == b't'
    then some 9
    else none

push : ℕ → Option (Bytes × Bytes) → Option (Bytes × Bytes)
push c none = none
push c (some (s, rest)) = some (c ∷ s, rest)

-- What one character means in a mode.
data Meaning : Type 0 where
  string_end bad : Meaning
  more : Mode → Meaning
  char_of : ℕ → Meaning

meaning : Mode → ℕ → Meaning
meaning plain c =
    if c == 34
    then string_end
    else if c == 92
    then more escaped
    else if ltb c 32
    then bad
    else char_of c
meaning escaped c =
    if c == b'u'
    then more (digits 3 0)
    else elim (escape_value c) [ none ↦ bad | some v ↦ char_of v ]
meaning (digits n value) c = elim (hex_value c) [
  | none ↦ bad
  | some d ↦ elim n [ zero ↦ char_of (value * 16 + d) | suc k ↦ more (digits k (value * 16 + d)) ]
]

-- The string up to its closing quote, and what follows that.
pub read_string : Mode → Bytes → Option (Bytes × Bytes)
read_string mode [] = none
read_string mode (c ∷ s) = elim (meaning mode c) [
  | string_end ↦ some ([], s)
  | bad ↦ none
  | more next ↦ read_string next s
  | char_of v ↦ push v (read_string plain s)
]

hex_back : (n : ℕ) → n < 16 → hex_value (hex_digit n) ≡ some n
unfolding hex_value
hex_back n h = ground arith

digit_more :
    (k value c d : ℕ) (s : Bytes)
    → hex_value c ≡ some d
    → read_string (digits (suc k) value) (c ∷ s) ≡ read_string (digits k (value * 16 + d)) s
unfolding read_string meaning
digit_more k value c d s h = rw (h, read_string, meaning) refl

digit_last :
    (value c d : ℕ) (s : Bytes)
    → hex_value c ≡ some d
    → read_string (digits 0 value) (c ∷ s) ≡ push (value * 16 + d) (read_string plain s)
unfolding read_string meaning
digit_last value c d s h = rw (h, read_string, meaning) refl

-- The characters below 32 with an escape of their own are 8, 9, 10, 12 and 13; the others take the
-- form with four digits.
read_digits :
    (c : ℕ) (s : Bytes)
    → c < 32
    → read_string plain (92 ∷ b'u' ∷ b'0' ∷ b'0' ∷ hex_digit (c / 16) ∷ hex_digit (c % 16) ∷ s)
      ≡ push c (read_string plain s)
read_digits c s h =
    let last = hex_digit (c % 16) ∷ s in
    let value : (0 * 16 + c / 16) * 16 + c % 16 ≡ c = omega arith in
    unfold read_string meaning in
    digit_more 2 0 b'0' 0 (b'0' ∷ hex_digit (c / 16) ∷ last) (hex_back 0 (omega arith))
    ∙ digit_more 1 0 b'0' 0 (hex_digit (c / 16) ∷ last) (hex_back 0 (omega arith))
    ∙ digit_more 0 0 (hex_digit (c / 16)) (c / 16) last (hex_back (c / 16) (omega arith))
    ∙ digit_last (0 * 16 + c / 16) (hex_digit (c % 16)) (c % 16) s (hex_back (c % 16) (omega arith))
    ∙ ap (λ (v : ℕ). push v (read_string plain s)) value

read_char :
    (c : ℕ) (s : Bytes) → read_string plain (escape_char c ++ s) ≡ push c (read_string plain s)
unfolding escape_char read_string meaning escape_value
read_char c s = ground (arith, read_digits c s)

abbrev pub IsPrintable : Bytes → Type 0
IsPrintable s = All (λ b. 32 ≤ b) s

if-IsPrintable :
    (b : Bool) (s t : Bytes)
    → IsPrintable s
    → (b ≡ false → IsPrintable t)
    → IsPrintable (if b then s else t)
if-IsPrintable true s t h k = h
if-IsPrintable false s t h k = k refl

hex_digit-le : (n : ℕ) → 32 ≤ hex_digit n
hex_digit-le n = ground arith

short-IsPrintable : (b : ℕ) → 32 ≤ b → IsPrintable (92 ∷ b ∷ [])
short-IsPrintable b h = (omega arith, (h, tt))

escape_char-IsPrintable : (c : ℕ) → IsPrintable (escape_char c)
unfolding escape_char
escape_char-IsPrintable c = if-IsPrintable (c == 34) _ _ (short-IsPrintable 34 (omega arith)) (λ _.
    if-IsPrintable (c == 92) _ _ (short-IsPrintable 92 (omega arith)) (λ _.
      if-IsPrintable (c == 8) _ _ (short-IsPrintable 98 (omega arith)) (λ _.
        if-IsPrintable (c == 12) _ _ (short-IsPrintable 102 (omega arith)) (λ _.
          if-IsPrintable (c == 10) _ _ (short-IsPrintable 110 (omega arith)) (λ _.
            if-IsPrintable (c == 13) _ _ (short-IsPrintable 114 (omega arith)) (λ _.
              if-IsPrintable (c == 9) _ _ (short-IsPrintable 116 (omega arith)) (λ _.
                if-IsPrintable (ltb c 32) _ _
                  (
                    omega arith,
                    (
                      omega arith,
                      (
                        omega arith,
                        (omega arith, (hex_digit-le (c / 16), (hex_digit-le (c % 16), tt))),
                      ),
                    ),
                  )
                  (λ large. (ground (arith, large), tt)))))))))

json_escape-IsPrintable : (s : Bytes) → IsPrintable (json_escape s)
unfolding json_escape
json_escape-IsPrintable [] = tt
json_escape-IsPrintable (c ∷ s) =
    All-append (λ b. 32 ≤ b) (escape_char c) (json_escape s) (escape_char-IsPrintable c)
      (json_escape-IsPrintable s)

read_back : (s rest : Bytes) → read_string plain (json_escape s ++ (34 ∷ rest)) ≡ some (s, rest)
unfolding json_escape push
read_back [] rest = unfold read_string meaning in refl
read_back (c ∷ s) rest =
    ap (read_string plain) (append_assoc (escape_char c) (json_escape s) (34 ∷ rest))
    ∙ read_char c (json_escape s ++ (34 ∷ rest))
    ∙ ap (push c) (read_back s rest)

-- A reader of JSON strings, byte by byte, that starts behind an opening quote reads the escaped
-- text up to its closing quote, gets the string back, and leaves what follows the quote: the string
-- does not end early, whatever bytes it has. No control character, that is, no byte below 32, is
-- left in the escaped text. Bytes from 128 on are passed through, whether they are UTF-8 or not.
pub read_string-json_escape :
    (s rest : Bytes)
    → (read_string plain (json_escape s ++ (34 ∷ rest)) ≡ some (s, rest))
      × IsPrintable (json_escape s)
read_string-json_escape s rest = (read_back s rest, json_escape-IsPrintable s)
