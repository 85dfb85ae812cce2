-- ===== src/Amqp/Table/Steps.antt =====
-- Reading back one value, and one round of each loop.
use native.Mathlib.Nat.{mod-eq_of_lt}
use ganshin_mq.Base.{
  ℕ, suc, ◌+◌, ◌%◌, ◌^◌, ◌<◌, ◌≤◌, true, false, Bytes, ◌++◌, nat_eq, ltb, length, ◌≡◌, refl, ap,
  arith, append_assoc, lt→ltb,
}
use ganshin_mq.Base.Int.{ℤ, pos, negsuc}
use ganshin_mq.Amqp.FieldValue.{
  FieldValue, FieldTable, FieldArray, boolean, short_short_int, short_short_uint, short_int,
  short_uint, long_int, long_uint, long_long_int, long_long_uint, float_val, double_val,
  short_string, long_string, timestamp, table, array, void_val, end, stop, emplace, push_back,
}
use ganshin_mq.Amqp.Buffer.{ok, read_uint8, write_uint8, write_uint32, write_short_string}
use ganshin_mq.Amqp.Buffer.Int.{to_unsigned}
use ganshin_mq.Amqp.Buffer.IntProofs.{
  read-write_uint8, read-write_uint16, read-write_uint32, read-write_uint64,
  read-write_short_string, read-write_long_string, to_signed-to_unsigned, to_unsigned-lt,
}
use ganshin_mq.Amqp.Table.{
  max_field_table_depth, read_scalar, read_field_value, read_field_table, read_array, read_entries,
  read_elems, write_field_value, write_entries, write_elems,
}
use ganshin_mq.Amqp.Table.Fits.{IsUnsigned, FitsValue}
use ganshin_mq.Amqp.Table.Cost.{cost_value-le}

-- The values that hold no other value.
abbrev pub IsScalar : FieldValue → Type 0
IsScalar (table t) = ⊥
IsScalar (array a) = ⊥
IsScalar v = Unit

pub unsigned_lem : (modulus : ℕ) (z : ℤ) → IsUnsigned modulus z → pos (to_unsigned modulus z) ≡ z
unfolding to_unsigned
unsigned_lem modulus (pos n) h = ap pos (mod-eq_of_lt h)
unsigned_lem modulus (negsuc n) h = absurd h

module _ (f d : ℕ) (rest : Bytes) where
  abbrev pub ReadsBack : FieldValue → Type 0
  ReadsBack v = read_field_value (suc f) d (write_field_value v ++ rest) ≡ ok (v, rest)

  pub scalar_back : (v : FieldValue) → IsScalar v → FitsValue d v → ReadsBack v
  unfolding read_field_value read_scalar write_field_value FitsValue read_uint8
  scalar_back (boolean true) s h = unfold write_uint8 in refl
  scalar_back (boolean false) s h = unfold write_uint8 in refl
  scalar_back (short_short_int z) s h = rw (
    read-write_uint8 _ rest (to_unsigned-lt (2 ^ 8) z (omega arith)),
    to_signed-to_unsigned 128 z h,
  )
  scalar_back (short_short_uint z) s h =
      rw
        (read-write_uint8 _ rest (to_unsigned-lt (2 ^ 8) z (omega arith)), unsigned_lem (2 ^ 8) z h)
  scalar_back (short_int z) s h = rw (
    read-write_uint16 _ rest (to_unsigned-lt (2 ^ 16) z (omega arith)),
    to_signed-to_unsigned (2 ^ 15) z h,
  )
  scalar_back (short_uint z) s h = rw (
    read-write_uint16 _ rest (to_unsigned-lt (2 ^ 16) z (omega arith)),
    unsigned_lem (2 ^ 16) z h,
  )
  scalar_back (long_int z) s h = rw (
    read-write_uint32 _ rest (to_unsigned-lt (2 ^ 32) z (omega arith)),
    to_signed-to_unsigned (2 ^ 31) z h,
  )
  scalar_back (long_uint z) s h = rw (
    read-write_uint32 _ rest (to_unsigned-lt (2 ^ 32) z (omega arith)),
    unsigned_lem (2 ^ 32) z h,
  )
  scalar_back (long_long_int z) s h = rw (
    read-write_uint64 _ rest (to_unsigned-lt (2 ^ 64) z (omega arith)),
    to_signed-to_unsigned (2 ^ 63) z h,
  )
  scalar_back (long_long_uint z) s h = rw (
    read-write_uint64 _ rest (to_unsigned-lt (2 ^ 64) z (omega arith)),
    to_signed-to_unsigned (2 ^ 63) z h,
  )
  scalar_back (float_val bits) s h = rw (read-write_uint32 bits rest h)
  scalar_back (double_val bits) s h = rw (read-write_uint64 bits rest h)
  scalar_back (short_string t) s h = rw (read-write_short_string t rest h)
  scalar_back (long_string t) s h = rw (read-write_long_string t rest h)
  scalar_back (timestamp z) s h = rw (
    read-write_uint64 _ rest (to_unsigned-lt (2 ^ 64) z (omega arith)),
    to_signed-to_unsigned (2 ^ 63) z h,
  )
  scalar_back (table t) s h = absurd s
  scalar_back (array a) s h = absurd s
  scalar_back void_val s h = refl

-- One round of each loop, and its end.
pub entries_step :
    (f d start len : ℕ) (acc : FieldTable) (k : Bytes) (v : FieldValue) (s : Bytes)
    → length k < 256
    → start < len + length (write_short_string k ++ (write_field_value v ++ s))
    → read_field_value f d (write_field_value v ++ s) ≡ ok (v, s)
    → read_entries (suc f) d start len acc (write_short_string k ++ (write_field_value v ++ s))
      ≡ read_entries f d start len (emplace k v acc) s
unfolding read_entries
entries_step f d start len acc k v s hk more e =
    rw (lt→ltb _ _ more, read_entries)
      (rw (read-write_short_string k (write_field_value v ++ s) hk) (rw e refl))

pub entries_end :
    (f d start len : ℕ) (acc : FieldTable) (s : Bytes)
    → start ≡ len + length s
    → read_entries (suc f) d start len acc s ≡ ok (acc, s)
unfolding read_entries
entries_end f d start len acc s e = ground arith

pub elems_step :
    (f d start len : ℕ) (acc : FieldArray) (v : FieldValue) (s : Bytes)
    → start < len + length (write_field_value v ++ s)
    → read_field_value f (d + 1) (write_field_value v ++ s) ≡ ok (v, s)
    → read_elems (suc f) d start len acc (write_field_value v ++ s)
      ≡ read_elems f d start len (push_back acc v) s
unfolding read_elems
elems_step f d start len acc v s more e = rw (lt→ltb _ _ more, read_elems) (rw e refl)

pub elems_end :
    (f d start len : ℕ) (acc : FieldArray) (s : Bytes)
    → start ≡ len + length s
    → read_elems (suc f) d start len acc s ≡ ok (acc, s)
unfolding read_elems
elems_end f d start len acc s e = ground arith

pub length-write_field_value : (v : FieldValue) → 1 ≤ length (write_field_value v)
length-write_field_value v = omega (arith, cost_value-le v)

-- A table, by its entries.
pub table_step :
    (f d : ℕ) (t : FieldTable) (rest : Bytes)
    → d ≤ 32
    → length (write_entries t) < 2 ^ 32
    → read_entries f d
        (length (write_entries t ++ rest))
        (length (write_entries t))
        end
        (write_entries t ++ rest)
      ≡ ok (t, rest)
    → read_field_table
        (suc f)
        d
        (write_uint32 (length (write_entries t) % 2 ^ 32) ++ (write_entries t ++ rest))
      ≡ ok (t, rest)
unfolding read_field_table
table_step f d t rest hd hl e =
    let small : length (write_entries t) % 2 ^ 32 ≡ length (write_entries t) = omega arith in
    let shallow : ltb max_field_table_depth d ≡ false = ground arith in
    rw (shallow, read_field_table)
      (rw small (rw (read-write_uint32 _ (write_entries t ++ rest) hl) e))

pub table_value :
    (f d : ℕ) (t : FieldTable) (rest : Bytes)
    → read_field_table f
        (d + 1)
        (write_uint32 (length (write_entries t) % 2 ^ 32) ++ (write_entries t ++ rest))
      ≡ ok (t, rest)
    → read_field_value (suc f) d (write_field_value (table t) ++ rest) ≡ ok (table t, rest)
unfolding read_field_value write_field_value read_uint8
table_value f d t rest e =
    rw (append_assoc (write_uint32 (length (write_entries t) % 2 ^ 32)) (write_entries t) rest)
      (rw e refl)

pub array_step :
    (f d : ℕ) (a : FieldArray) (rest : Bytes)
    → d ≤ 32
    → length (write_elems a) < 2 ^ 32
    → read_elems f d
        (length (write_elems a ++ rest))
        (length (write_elems a))
        stop
        (write_elems a ++ rest)
      ≡ ok (a, rest)
    → read_array
        (suc f)
        d
        (write_uint32 (length (write_elems a) % 2 ^ 32) ++ (write_elems a ++ rest))
      ≡ ok (a, rest)
unfolding read_array
array_step f d a rest hd hl e =
    let small : length (write_elems a) % 2 ^ 32 ≡ length (write_elems a) = omega arith in
    let shallow : ltb max_field_table_depth d ≡ false = ground arith in
    rw (shallow, read_array) (rw small (rw (read-write_uint32 _ (write_elems a ++ rest) hl) e))

pub array_value :
    (f d : ℕ) (a : FieldArray) (rest : Bytes)
    → read_array f d (write_uint32 (length (write_elems a) % 2 ^ 32) ++ (write_elems a ++ rest))
      ≡ ok (a, rest)
    → read_field_value (suc f) d (write_field_value (array a) ++ rest) ≡ ok (array a, rest)
unfolding read_field_value write_field_value read_uint8
array_value f d a rest e =
    rw (append_assoc (write_uint32 (length (write_elems a) % 2 ^ 32)) (write_elems a) rest)
      (rw e refl)
