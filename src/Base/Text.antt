-- ===== src/Base/Text.antt =====
-- A `std::string` is its bytes. Equality and order are those of `std::string`: byte by byte.
use Prim.Native.Char.{code}
use Prim.Native.String.{String}
use Prim.Native.Nat.{ℕ, compare, Ordering}
use mathlib.Core.Path.{◌≡◌, refl}
use mathlib.Core.Logic.{◌↔◌, ◌⊎◌, inl, inr}
use mathlib.Core.Bool.{Bool, true, false, ◌&&◌}
use mathlib.Core.List.{List, [], ◌∷◌}
use native.Mathlib.Omega.{arith}
use ganshin_mq.Base.Tests.{Comparable, nat_beq, nat_beq_iff}

abbrev pub Bytes : Type 0
Bytes = List ℕ

-- The bytes of an ASCII literal.
abbrev pub codes : String → Bytes
codes String.[] = []
codes (String.◌∷◌ first text) = code first ∷ codes text

unfoldable pub bytes_beq : Bytes → Bytes → Bool
bytes_beq [] [] = true
bytes_beq (a ∷ s) (b ∷ t) = nat_beq a b && bytes_beq s t
bytes_beq _ _ = false

pub bytes_beq_iff : (s t : Bytes) → (bytes_beq s t ≡ true) ↔ (s ≡ t)
unfolding bytes_beq
bytes_beq_iff [] [] = ground arith
bytes_beq_iff [] (b ∷ t) = ground arith
bytes_beq_iff (a ∷ s) [] = ground arith
bytes_beq_iff (a ∷ s) (b ∷ t) = ground (arith, nat_beq_iff a b, bytes_beq_iff s t)

instance abbrev pub bytes_eq : Comparable Bytes
bytes_eq = record { same = bytes_beq; same_iff = bytes_beq_iff }

unfoldable pub starts_with : Bytes → Bytes → Bool
starts_with s [] = true
starts_with [] (p ∷ ps) = false
starts_with (c ∷ s) (p ∷ ps) = nat_beq c p && starts_with s ps

-- `operator<` of `std::string`, as a three-way comparison.
unfoldable pub lex_compare : Bytes → Bytes → Ordering
lex_compare [] [] = Ordering.eq
lex_compare [] (b ∷ t) = Ordering.lt
lex_compare (a ∷ s) [] = Ordering.gt
lex_compare (a ∷ s) (b ∷ t) = elim (compare a b) [
  | Ordering.lt ↦ Ordering.lt
  | Ordering.eq ↦ lex_compare s t
  | Ordering.gt ↦ Ordering.gt
]

-- A smaller key is met before a larger one, whichever way the two are compared.
pub lex_compare_flip : (s t : Bytes) → lex_compare s t ≡ Ordering.lt → lex_compare t s ≡ Ordering.gt
unfolding lex_compare
lex_compare_flip [] [] h = ground arith
lex_compare_flip [] (b ∷ t) h = refl
lex_compare_flip (a ∷ s) [] h = ground arith
lex_compare_flip (a ∷ s) (b ∷ t) h = ground (arith, lex_compare_flip s t)

-- Only a key itself is met as equal.
pub lex_compare_eq : (s t : Bytes) → lex_compare s t ≡ Ordering.eq → s ≡ t
unfolding lex_compare
lex_compare_eq [] [] h = refl
lex_compare_eq [] (b ∷ t) h = ground arith
lex_compare_eq (a ∷ s) [] h = ground arith
lex_compare_eq (a ∷ s) (b ∷ t) h = ground (arith, lex_compare_eq s t)

pub lex_compare_refl : (s : Bytes) → lex_compare s s ≡ Ordering.eq
unfolding lex_compare
lex_compare_refl [] = refl
lex_compare_refl (a ∷ s) = ground (arith, lex_compare_refl s)

pub Ordering-cases : (o : Ordering) → (o ≡ Ordering.lt) ⊎ (o ≡ Ordering.eq) ⊎ (o ≡ Ordering.gt)
Ordering-cases Ordering.lt = inl refl
Ordering-cases Ordering.eq = inr (inl refl)
Ordering-cases Ordering.gt = inr (inr refl)
