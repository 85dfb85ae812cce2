-- ===== src/Amqp/Table/Total.antt =====
-- Reading a table has fuel enough, whatever the bytes.
use ganshin_mq.Base.{
  ℕ, zero, suc, ◌+◌, ◌*◌, ◌<◌, ◌≤◌, Bool, true, false, Bytes, [], ◌∷◌, ◌==◌, nat_eq, if◌then◌else◌,
  length, drop, leb, ltb, ◌≢◌, arith, subst,
}
use ganshin_mq.Amqp.FieldValue.{
  FieldValue, FieldTable, FieldArray, void_val, end, stop, emplace, push_back,
}
use ganshin_mq.Amqp.Buffer.{
  ok, err, stuck, ◌>>=◌, Read, unknown_type, read_uint8, read_uint16, read_uint32, read_uint64,
  read_bytes, read_short_string, read_long_string,
}
use ganshin_mq.Amqp.Table.{
  made, read_scalar, max_field_table_depth, read_field_value, read_field_table, read_array,
  read_entries, read_elems, table_fuel, read_table,
}

-- A read that does not run out of fuel, and leaves less than the bound if it succeeds.
abbrev Ends : {A : Type 0} → ℕ → Read A → Type 0
Ends n (ok (a, s)) = length s < n
Ends n (err e) = Unit
Ends n stuck = ⊥

bind-Ends :
    {A B : Type 0} (n k : ℕ) (r : Read A) (next : A × Bytes → Read B)
    → Ends n r
    → ((a : A) (s : Bytes) → length s < n → Ends k (next (a, s)))
    → Ends k (r >>= next)
bind-Ends n k (ok (a, s)) next h f = f a s h
bind-Ends n k (err e) next h f = tt
bind-Ends n k stuck next h f = h

weaken-Ends : {A : Type 0} (n k : ℕ) (r : Read A) → n ≤ k → Ends n r → Ends k r
weaken-Ends n k (ok (a, s)) le h = omega arith
weaken-Ends n k (err e) le h = tt
weaken-Ends n k stuck le h = h

made-Ends :
    {A : Type 0} (n : ℕ) (f : A → FieldValue) (r : Read A) → Ends n r → Ends (suc n) (made f r)
made-Ends n f (ok (a, s)) h = omega arith
made-Ends n f (err e) h = tt
made-Ends n f stuck h = h

if-Ends :
    {A : Type 0} (n : ℕ) (b : Bool) (r q : Read A)
    → Ends n r
    → Ends n q
    → Ends n (if b then r else q)
if-Ends n true r q h k = h
if-Ends n false r q h k = k

pick-Ends :
    {A : Type 0} (n : ℕ) (b : Bool) (r q : Read A)
    → Ends n r
    → Ends n q
    → Ends n (elim b [ true ↦ r | false ↦ q ])
pick-Ends n true r q h k = h
pick-Ends n false r q h k = k

read_uint8-Ends : (s : Bytes) → Ends (length s) (read_uint8 s)
unfolding read_uint8
read_uint8-Ends [] = tt
read_uint8-Ends (a ∷ s) = omega arith

read_uint16-Ends : (s : Bytes) → Ends (length s) (read_uint16 s)
unfolding read_uint16
read_uint16-Ends [] = tt
read_uint16-Ends (a ∷ []) = tt
read_uint16-Ends (a ∷ b ∷ s) = omega arith

read_uint32-Ends : (s : Bytes) → Ends (length s) (read_uint32 s)
unfolding read_uint32
read_uint32-Ends [] = tt
read_uint32-Ends (a ∷ []) = tt
read_uint32-Ends (a ∷ b ∷ []) = tt
read_uint32-Ends (a ∷ b ∷ c ∷ []) = tt
read_uint32-Ends (a ∷ b ∷ c ∷ d ∷ s) = omega arith

read_uint64-Ends : (s : Bytes) → Ends (length s) (read_uint64 s)
unfolding read_uint64
read_uint64-Ends [] = tt
read_uint64-Ends (a ∷ []) = tt
read_uint64-Ends (a ∷ b ∷ []) = tt
read_uint64-Ends (a ∷ b ∷ c ∷ []) = tt
read_uint64-Ends (a ∷ b ∷ c ∷ d ∷ []) = tt
read_uint64-Ends (a ∷ b ∷ c ∷ d ∷ e ∷ []) = tt
read_uint64-Ends (a ∷ b ∷ c ∷ d ∷ e ∷ f ∷ []) = tt
read_uint64-Ends (a ∷ b ∷ c ∷ d ∷ e ∷ f ∷ g ∷ []) = tt
read_uint64-Ends (a ∷ b ∷ c ∷ d ∷ e ∷ f ∷ g ∷ h ∷ s) = omega arith

drop-length-le : (n : ℕ) (s : Bytes) → length (drop n s) ≤ length s
drop-length-le zero s = omega arith
drop-length-le (suc n) [] = omega arith
drop-length-le (suc n) (a ∷ s) = omega (arith, drop-length-le n s)

read_bytes-Ends : (n : ℕ) (s : Bytes) → Ends (suc (length s)) (read_bytes n s)
unfolding read_bytes
read_bytes-Ends n s = if-Ends _ (leb n (length s)) _ _ (omega (arith, drop-length-le n s)) tt

read_short_string-Ends : (s : Bytes) → Ends (length s) (read_short_string s)
unfolding read_short_string
read_short_string-Ends s =
    bind-Ends (length s) (length s) (read_uint8 s) _ (read_uint8-Ends s)
      (λ n s' h. weaken-Ends _ _ (read_bytes n s') h (read_bytes-Ends n s'))

read_long_string-Ends : (s : Bytes) → Ends (length s) (read_long_string s)
unfolding read_long_string
read_long_string-Ends s =
    bind-Ends (length s) (length s) (read_uint32 s) _ (read_uint32-Ends s)
      (λ n s' h. weaken-Ends _ _ (read_bytes n s') h (read_bytes-Ends n s'))

read_scalar-Ends : (tag : ℕ) (s : Bytes) → Ends (suc (length s)) (read_scalar tag s)
unfolding read_scalar
read_scalar-Ends tag s =
    (if-Ends (suc (length s)) (tag == b't') _ _
      (made-Ends (length s) _ (read_uint8 s) (read_uint8-Ends s))
      (if-Ends (suc (length s)) (tag == b'b') _ _
        (made-Ends (length s) _ (read_uint8 s) (read_uint8-Ends s))
        (if-Ends (suc (length s)) (tag == b'B') _ _
          (made-Ends (length s) _ (read_uint8 s) (read_uint8-Ends s))
          (if-Ends (suc (length s)) (tag == b'U') _ _
            (made-Ends (length s) _ (read_uint16 s) (read_uint16-Ends s))
            (if-Ends (suc (length s)) (tag == b'u') _ _
              (made-Ends (length s) _ (read_uint16 s) (read_uint16-Ends s))
              (if-Ends (suc (length s)) (tag == b'I') _ _
                (made-Ends (length s) _ (read_uint32 s) (read_uint32-Ends s))
                (if-Ends (suc (length s)) (tag == b'i') _ _
                  (made-Ends (length s) _ (read_uint32 s) (read_uint32-Ends s))
                  (if-Ends (suc (length s)) (tag == b'L') _ _
                    (made-Ends (length s) _ (read_uint64 s) (read_uint64-Ends s))
                    (if-Ends (suc (length s)) (tag == b'l') _ _
                      (made-Ends (length s) _ (read_uint64 s) (read_uint64-Ends s))
                      (if-Ends (suc (length s)) (tag == b'f') _ _
                        (made-Ends (length s) _ (read_uint32 s) (read_uint32-Ends s))
                        (if-Ends (suc (length s)) (tag == b'd') _ _
                          (made-Ends (length s) _ (read_uint64 s) (read_uint64-Ends s))
                          (if-Ends (suc (length s)) (tag == b's') _ _
                            (made-Ends (length s) _ (read_short_string s)
                              (read_short_string-Ends s))
                            (if-Ends (suc (length s)) (tag == b'S') _ _
                              (made-Ends (length s) _ (read_long_string s)
                                (read_long_string-Ends s))
                              (if-Ends (suc (length s)) (tag == b'T') _ _
                                (made-Ends (length s) _ (read_uint64 s) (read_uint64-Ends s))
                                void))))))))))))))
  where
    nothing : Ends (suc (length s)) (ok (void_val, s))
    nothing = omega arith

    void : Ends (suc (length s)) (if tag == b'V' then ok (void_val, s) else err (unknown_type tag))
    void =
        if-Ends (suc (length s)) (tag == b'V') (ok (void_val, s)) (err (unknown_type tag)) nothing
          tt

-- The fuel that is enough: two units for each byte, and one or two more.
mutual
  unfolding read_field_value read_field_table read_array read_entries read_elems

  value-Ends :
      (f d : ℕ) (s : Bytes) → 2 * length s + 1 ≤ f → Ends (length s) (read_field_value f d s)
  value-Ends zero d s h = absurd (omega arith)
  value-Ends (suc f) d s h =
      bind-Ends (length s) (length s) (read_uint8 s) _ (read_uint8-Ends s) (λ tag s' lt.
        pick-Ends _ (tag == b'F') _ _
          (bind-Ends (suc (length s')) (length s) (read_field_table f (d + 1) s') _
            (table-Ends f (d + 1) s' (omega arith)) (λ t s'' le. omega arith))
          (pick-Ends _ (tag == b'A') _ _
            (bind-Ends (suc (length s')) (length s) (read_array f d s') _
              (array-Ends f d s' (omega arith)) (λ a s'' le. omega arith))
            (weaken-Ends _ _ (read_scalar tag s') lt (read_scalar-Ends tag s'))))

  table-Ends :
      (f d : ℕ) (s : Bytes) → 2 * length s + 2 ≤ f → Ends (suc (length s)) (read_field_table f d s)
  table-Ends zero d s h = absurd (omega arith)
  table-Ends (suc f) d s h = pick-Ends _ (ltb max_field_table_depth d) _ _ tt (
      bind-Ends (length s) (suc (length s)) (read_uint32 s) _ (read_uint32-Ends s) (λ len s' lt.
        weaken-Ends _ _ (read_entries f d (length s') len end s') (omega arith)
          (entries-Ends f d (length s') len end s' (omega arith))))

  array-Ends :
      (f d : ℕ) (s : Bytes) → 2 * length s + 2 ≤ f → Ends (suc (length s)) (read_array f d s)
  array-Ends zero d s h = absurd (omega arith)
  array-Ends (suc f) d s h = pick-Ends _ (ltb max_field_table_depth d) _ _ tt (
      bind-Ends (length s) (suc (length s)) (read_uint32 s) _ (read_uint32-Ends s) (λ len s' lt.
        weaken-Ends _ _ (read_elems f d (length s') len stop s') (omega arith)
          (elems-Ends f d (length s') len stop s' (omega arith))))

  entries-Ends :
      (f d start len : ℕ) (t : FieldTable) (s : Bytes)
      → 2 * length s + 2 ≤ f
      → Ends (suc (length s)) (read_entries f d start len t s)
  entries-Ends zero d start len t s h = absurd (omega arith)
  entries-Ends (suc f) d start len t s h =
      pick-Ends _ (ltb start (len + length s)) _ _
        (bind-Ends (length s) (suc (length s)) (read_short_string s) _ (read_short_string-Ends s)
          (λ name s' lt.
            bind-Ends (length s') (suc (length s)) (read_field_value f d s') _
              (value-Ends f d s' (omega arith))
              (λ v s'' le.
                weaken-Ends _ _ (read_entries f d start len (emplace name v t) s'') (omega arith)
                  (entries-Ends f d start len (emplace name v t) s'' (omega arith)))))
        (omega arith)

  elems-Ends :
      (f d start len : ℕ) (a : FieldArray) (s : Bytes)
      → 2 * length s + 2 ≤ f
      → Ends (suc (length s)) (read_elems f d start len a s)
  elems-Ends zero d start len a s h = absurd (omega arith)
  elems-Ends (suc f) d start len a s h =
      pick-Ends _ (ltb start (len + length s)) _ _
        (bind-Ends (length s) (suc (length s)) (read_field_value f (d + 1) s) _
          (value-Ends f (d + 1) s (omega arith))
          (λ v s' lt.
            weaken-Ends _ _ (read_elems f d start len (push_back a v) s') (omega arith)
              (elems-Ends f d start len (push_back a v) s' (omega arith))))
        (omega arith)

-- Reading a table never runs out of fuel, whatever bytes it is given.
pub read_table-total : (s : Bytes) → read_table s ≢ stuck
unfolding read_table
read_table-total s e = subst (Ends (suc (length s))) e (table-Ends (table_fuel s) 0 s (omega arith))
