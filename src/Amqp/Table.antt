-- ===== src/Amqp/Table.antt =====
-- amqp/types.h: reading and writing of field values, field tables and arrays.
pub mod Fits
pub mod Cost
pub mod Steps
pub mod RoundTrip
pub mod Total
use ganshin_mq.Base.{
  ℕ, zero, suc, ◌+◌, ◌-◌, ◌*◌, ◌%◌, ◌^◌, Bool, true, false, not, Bytes, List, [], ◌∷◌, ◌++◌, ◌==◌,
  nat_eq, if◌then◌else◌, leb, ltb, length,
}
use ganshin_mq.Base.Int.{ℤ, pos, negsuc}
use ganshin_mq.Amqp.FieldValue.{
  FieldValue, FieldTable, FieldArray, boolean, short_short_int, short_short_uint, short_int,
  short_uint, long_int, long_uint, long_long_int, long_long_uint, float_val, double_val,
  short_string, long_string, timestamp, table, array, void_val, end, entry, stop, elem, emplace,
  push_back,
}
use ganshin_mq.Amqp.Buffer.{
  Error, depth_exceeded, unknown_type, Result, ok, err, stuck, ◌>>=◌, Read, read_uint8, read_uint16,
  read_uint32, read_uint64, read_short_string, read_long_string, write_uint8, write_uint16,
  write_uint32, write_uint64, write_short_string, write_long_string,
}
use ganshin_mq.Amqp.Buffer.Int.{to_signed, to_unsigned}

abbrev pub max_field_table_depth : ℕ
max_field_table_depth = 32

-- A read value, made a field value.
abbrev pub made : {A : Type 0} → (A → FieldValue) → Read A → Read FieldValue
made f r = r >>= λ (v, s). ok (f v, s)

-- The cases of the switch that read no further field value.
unfoldable pub read_scalar : ℕ → Bytes → Read FieldValue
read_scalar tag s =
    if tag == b't'
    then made (λ v. boolean (not (v == 0))) (read_uint8 s)
    else if tag == b'b'
    then made (λ v. short_short_int (to_signed 128 v)) (read_uint8 s)
    else if tag == b'B'
    then made (λ v. short_short_uint (pos v)) (read_uint8 s)
    else if tag == b'U'
    then made (λ v. short_int (to_signed (2 ^ 15) v)) (read_uint16 s)
    else if tag == b'u'
    then made (λ v. short_uint (pos v)) (read_uint16 s)
    else if tag == b'I'
    then made (λ v. long_int (to_signed (2 ^ 31) v)) (read_uint32 s)
    else if tag == b'i'
    then made (λ v. long_uint (pos v)) (read_uint32 s)
    else if tag == b'L'
    then made (λ v. long_long_int (to_signed (2 ^ 63) v)) (read_uint64 s)
    else if tag == b'l'
    then made (λ v. long_long_uint (to_signed (2 ^ 63) v)) (read_uint64 s)
    else if tag == b'f'
    then made float_val (read_uint32 s)
    else if tag == b'd'
    then made double_val (read_uint64 s)
    else if tag == b's'
    then made short_string (read_short_string s)
    else if tag == b'S'
    then made long_string (read_long_string s)
    else if tag == b'T'
    then made (λ v. timestamp (to_signed (2 ^ 63) v)) (read_uint64 s)
    else if tag == b'V'
    then ok (void_val, s)
    else err (unknown_type tag)

-- The loops run while `pos_ < end`: `start` bytes were left at the beginning of the table or
-- array, `len` is its length, and `s` is left now. Every call takes one unit of fuel.
unfoldable mutual
  pub read_field_value : ℕ → ℕ → Bytes → Read FieldValue
  read_field_value zero depth s = stuck
  read_field_value (suc fuel) depth s = read_uint8 s >>= λ (tag, s'). elim (tag == b'F') [
    | true ↦ read_field_table fuel (depth + 1) s' >>= λ (t, s''). ok (table t, s'')
    | false ↦ elim (tag == b'A') [
      | true ↦ read_array fuel depth s' >>= λ (a, s''). ok (array a, s'')
      | false ↦ read_scalar tag s'
    ]
  ]

  pub read_field_table : ℕ → ℕ → Bytes → Read FieldTable
  read_field_table zero depth s = stuck
  read_field_table (suc fuel) depth s = elim (ltb max_field_table_depth depth) [
    | true ↦ err depth_exceeded
    | false ↦ read_uint32 s >>= λ (len, s'). read_entries fuel depth (length s') len end s'
  ]

  pub read_array : ℕ → ℕ → Bytes → Read FieldArray
  read_array zero depth s = stuck
  read_array (suc fuel) depth s = elim (ltb max_field_table_depth depth) [
    | true ↦ err depth_exceeded
    | false ↦ read_uint32 s >>= λ (len, s'). read_elems fuel depth (length s') len stop s'
  ]

  pub read_entries : ℕ → ℕ → ℕ → ℕ → FieldTable → Bytes → Read FieldTable
  read_entries zero depth start len t s = stuck
  read_entries (suc fuel) depth start len t s = elim (ltb start (len + length s)) [
    | true ↦ read_short_string s >>= λ (name, s'). read_field_value fuel depth s' >>= λ (v, s'').
        read_entries fuel depth start len (emplace name v t) s''
    | false ↦ ok (t, s)
  ]

  pub read_elems : ℕ → ℕ → ℕ → ℕ → FieldArray → Bytes → Read FieldArray
  read_elems zero depth start len a s = stuck
  read_elems (suc fuel) depth start len a s = elim (ltb start (len + length s)) [
    | true ↦ read_field_value fuel (depth + 1) s >>= λ (v, s').
        read_elems fuel depth start len (push_back a v) s'
    | false ↦ ok (a, s)
  ]

unfoldable mutual
  pub write_field_value : FieldValue → Bytes
  write_field_value (boolean b) = b't' ∷ write_uint8 (if b then 1 else 0)
  write_field_value (short_short_int z) = b'b' ∷ write_uint8 (to_unsigned (2 ^ 8) z)
  write_field_value (short_short_uint z) = b'B' ∷ write_uint8 (to_unsigned (2 ^ 8) z)
  write_field_value (short_int z) = b'U' ∷ write_uint16 (to_unsigned (2 ^ 16) z)
  write_field_value (short_uint z) = b'u' ∷ write_uint16 (to_unsigned (2 ^ 16) z)
  write_field_value (long_int z) = b'I' ∷ write_uint32 (to_unsigned (2 ^ 32) z)
  write_field_value (long_uint z) = b'i' ∷ write_uint32 (to_unsigned (2 ^ 32) z)
  write_field_value (long_long_int z) = b'L' ∷ write_uint64 (to_unsigned (2 ^ 64) z)
  write_field_value (long_long_uint z) = b'l' ∷ write_uint64 (to_unsigned (2 ^ 64) z)
  write_field_value (float_val bits) = b'f' ∷ write_uint32 bits
  write_field_value (double_val bits) = b'd' ∷ write_uint64 bits
  write_field_value (short_string s) = b's' ∷ write_short_string s
  write_field_value (long_string s) = b'S' ∷ write_long_string s
  write_field_value (timestamp z) = b'T' ∷ write_uint64 (to_unsigned (2 ^ 64) z)
  write_field_value (table t) =
      b'F' ∷ (write_uint32 (length (write_entries t) % 2 ^ 32) ++ write_entries t)
  write_field_value (array a) =
      b'A' ∷ (write_uint32 (length (write_elems a) % 2 ^ 32) ++ write_elems a)
  write_field_value void_val = b'V' ∷ []

  pub write_entries : FieldTable → Bytes
  write_entries end = []
  write_entries (entry name v t) =
      write_short_string name ++ (write_field_value v ++ write_entries t)

  pub write_elems : FieldArray → Bytes
  write_elems stop = []
  write_elems (elem v a) = write_field_value v ++ write_elems a

unfoldable pub write_field_table : FieldTable → Bytes
write_field_table t = write_uint32 (length (write_entries t) % 2 ^ 32) ++ write_entries t

-- Enough fuel for any table in so many bytes.
abbrev pub table_fuel : Bytes → ℕ
table_fuel s = 2 * length s + 2

-- `readFieldTable()` on its default depth.
unfoldable pub read_table : Bytes → Read FieldTable
read_table s = read_field_table (table_fuel s) 0 s
