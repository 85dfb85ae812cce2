-- ===== src/Amqp/Table/Cost.antt =====
-- The fuel that reading takes, against the length of what was written.
use ganshin_mq.Base.{ℕ, ◌+◌, ◌*◌, ◌≤◌, Bytes, ◌++◌, nat_eq, length, arith, length-append}
use ganshin_mq.Amqp.FieldValue.{
  FieldValue, FieldTable, FieldArray, table, array, end, entry, stop, elem,
}
use ganshin_mq.Amqp.Buffer.{write_uint8, write_uint32, write_short_string}
use ganshin_mq.Amqp.Table.{write_field_value, write_entries, write_elems}

-- The fuel that reading a value takes.
unfoldable mutual
  pub cost_value : FieldValue → ℕ
  cost_value (table t) = 2 + cost_entries t
  cost_value (array a) = 2 + cost_elems a
  cost_value v = 1

  pub cost_entries : FieldTable → ℕ
  cost_entries end = 1
  cost_entries (entry k v t) = 1 + (cost_value v + cost_entries t)

  pub cost_elems : FieldArray → ℕ
  cost_elems stop = 1
  cost_elems (elem v a) = 1 + (cost_value v + cost_elems a)

pub length-write_short_string : (s : Bytes) → 1 ≤ length (write_short_string s)
unfolding write_short_string write_uint8
length-write_short_string s = omega arith

mutual
  unfolding cost_value cost_entries cost_elems write_field_value write_entries write_elems
      write_uint8 write_uint32

  pub cost_value-le : (v : FieldValue) → cost_value v + 1 ≤ 2 * length (write_field_value v)
  cost_value-le (table t) = omega (arith, cost_entries-le t)
  cost_value-le (array a) = omega (arith, cost_elems-le a)
  cost_value-le v = omega arith

  pub cost_entries-le : (t : FieldTable) → cost_entries t ≤ 2 * length (write_entries t) + 1
  cost_entries-le end = omega arith
  cost_entries-le (entry k v t) = omega (
    arith,
    cost_value-le v,
    cost_entries-le t,
    length-write_short_string k,
    length-append (write_short_string k) (write_field_value v ++ write_entries t),
    length-append (write_field_value v) (write_entries t),
  )

  pub cost_elems-le : (a : FieldArray) → cost_elems a ≤ 2 * length (write_elems a) + 1
  cost_elems-le stop = omega arith
  cost_elems-le (elem v a) =
      omega (
        arith,
        cost_value-le v,
        cost_elems-le a,
        length-append (write_field_value v) (write_elems a),
      )
