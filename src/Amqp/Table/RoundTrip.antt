-- ===== src/Amqp/Table/RoundTrip.antt =====
-- A well-formed field table is read back from what was written of it.
use ganshin_mq.Base.{
  ℕ, zero, suc, ◌+◌, ◌*◌, ◌%◌, ◌^◌, ◌<◌, ◌≤◌, Bytes, ◌++◌, nat_eq, length, ◌≡◌, ap, ◌∙◌, arith,
  append_assoc, length-append,
}
use ganshin_mq.Amqp.FieldValue.{
  FieldValue, FieldTable, FieldArray, table, array, end, entry, stop, elem, push_back,
}
use ganshin_mq.Amqp.Buffer.{ok, Read, write_uint32, write_short_string}
use ganshin_mq.Amqp.Table.{
  read_field_value, read_field_table, read_entries, read_elems, write_field_value, write_entries,
  write_elems, write_field_table, table_fuel, read_table,
}
use ganshin_mq.Amqp.Table.Fits.{
  FitsValue, FitsTable, FitsElems, joined, Precede, emplace-last, joined_assoc, joined_end,
  Precede-next, chained, push_back-chained, chained_done,
}
use ganshin_mq.Amqp.Table.Cost.{
  cost_value, cost_entries, cost_elems, length-write_short_string, cost_entries-le,
}
use ganshin_mq.Amqp.Table.Steps.{
  scalar_back, entries_step, entries_end, elems_step, elems_end, length-write_field_value,
  table_step, table_value, array_step, array_value,
}

write_entries_rest :
    (k : Bytes) (v : FieldValue) (t : FieldTable) (rest : Bytes)
    → write_entries (entry k v t) ++ rest
      ≡ write_short_string k ++ (write_field_value v ++ (write_entries t ++ rest))
unfolding write_entries
write_entries_rest k v t rest = simp append_assoc

more_entries :
    (start len : ℕ) (k : Bytes) (v : FieldValue) (t : FieldTable) (rest : Bytes)
    → start ≡ len + length rest
    → start
      < len + length (write_short_string k ++ (write_field_value v ++ (write_entries t ++ rest)))
more_entries start len k v t rest e = omega (
  arith,
  length-write_short_string k,
  length-append (write_short_string k) (write_field_value v ++ (write_entries t ++ rest)),
  length-append (write_field_value v) (write_entries t ++ rest),
  length-append (write_entries t) rest,
)

more_elems :
    (start len : ℕ) (v : FieldValue) (a : FieldArray) (rest : Bytes)
    → start ≡ len + length rest
    → start < len + length (write_field_value v ++ (write_elems a ++ rest))
more_elems start len v a rest e = omega (
  arith,
  length-write_field_value v,
  length-append (write_field_value v) (write_elems a ++ rest),
  length-append (write_elems a) rest,
)

mutual
  unfolding FitsValue FitsTable FitsElems write_elems cost_value cost_entries cost_elems

  value_back :
      (v : FieldValue) (f d : ℕ) (rest : Bytes)
      → FitsValue d v
      → cost_value v ≤ f
      → read_field_value f d (write_field_value v ++ rest) ≡ ok (v, rest)
  value_back (table t) zero d rest h c = absurd (omega arith)
  value_back (table t) (suc zero) d rest h c = absurd (omega arith)
  value_back (table t) (suc (suc f)) d rest h c = table_value (suc f) d t rest (
      table_step f (d + 1) t rest (h.0) (h.2) (
        entries_back t f (d + 1) _ _ end rest h.1 tt (length-append (write_entries t) rest)
          (omega arith)))
  value_back (array a) zero d rest h c = absurd (omega arith)
  value_back (array a) (suc zero) d rest h c = absurd (omega arith)
  value_back (array a) (suc (suc f)) d rest h c = array_value (suc f) d a rest (
      array_step f d a rest (h.0) (h.2)
        (elems_back a f d _ _ stop rest h.1 (length-append (write_elems a) rest) (omega arith)))
  value_back v zero d rest h c = absurd (omega arith)
  value_back v (suc f) d rest h c = scalar_back f d rest v tt h

  entries_back :
      (t : FieldTable) (f d start len : ℕ) (acc : FieldTable) (rest : Bytes)
      → FitsTable d t
      → Precede acc t
      → start ≡ len + length rest
      → cost_entries t ≤ f
      → read_entries f d start len acc (write_entries t ++ rest) ≡ ok (joined acc t, rest)
  entries_back end zero d start len acc rest h p e c = absurd (omega arith)
  entries_back end (suc f) d start len acc rest h p e c =
      rw (joined_end acc) (entries_end f d start len acc rest e)
  entries_back (entry k v t) zero d start len acc rest h p e c = absurd (omega arith)
  entries_back (entry k v t) (suc f) d start len acc rest h p e c =
      rw (write_entries_rest k v t rest) (
        entries_step f d start len acc k v (write_entries t ++ rest) h.0
          (more_entries start len k v t rest e)
          (value_back v f d (write_entries t ++ rest) h.1 (omega arith))
        ∙ rw (emplace-last k v acc t p, ← joined_assoc acc (entry k v end) t)
            (entries_back t f d start len (joined acc (entry k v end)) rest h.2
              (Precede-next k v acc t p h.3) e (omega arith)))

  elems_back :
      (a : FieldArray) (f d start len : ℕ) (acc : FieldArray) (rest : Bytes)
      → FitsElems (d + 1) a
      → start ≡ len + length rest
      → cost_elems a ≤ f
      → read_elems f d start len acc (write_elems a ++ rest) ≡ ok (chained acc a, rest)
  elems_back stop zero d start len acc rest h e c = absurd (omega arith)
  elems_back stop (suc f) d start len acc rest h e c =
      rw (chained_done acc) (elems_end f d start len acc rest e)
  elems_back (elem v a) zero d start len acc rest h e c = absurd (omega arith)
  elems_back (elem v a) (suc f) d start len acc rest h e c =
      rw (append_assoc (write_field_value v) (write_elems a) rest) (
        elems_step f d start len acc v (write_elems a ++ rest) (more_elems start len v a rest e)
          (value_back v f (d + 1) (write_elems a ++ rest) h.0 (omega arith))
        ∙ elems_back a f d start len (push_back acc v) rest h.1 e (omega arith)
        ∙ ap (λ x. let r : Read FieldArray = ok (x, rest) in r) (push_back-chained acc v a))

-- A field table that the wire format can carry, nested tables and arrays included, is read back
-- from what was written of it, and what follows it is left; reading it does not run out of fuel.
pub read-write_field_table :
    (t : FieldTable) (rest : Bytes)
    → FitsTable 0 t
    → length (write_entries t) < 2 ^ 32
    → read_table (write_field_table t ++ rest) ≡ ok (t, rest)
unfolding read_table write_field_table
read-write_field_table t rest h hl =
    let s : Bytes = write_uint32 (length (write_entries t) % 2 ^ 32) ++ (write_entries t ++ rest) in
    let enough : cost_entries t ≤ 2 * length s + 1 = omega (
      arith,
      cost_entries-le t,
      length-append (write_uint32 (length (write_entries t) % 2 ^ 32)) (write_entries t ++ rest),
      length-append (write_entries t) rest,
    ) in
    let fuel : table_fuel s ≡ suc (2 * length s + 1) = omega arith in
    let back : read_field_table (suc (2 * length s + 1)) 0 s ≡ ok (t, rest) =
      table_step (2 * length s + 1) 0 t rest (omega arith) hl (
        entries_back t (2 * length s + 1) 0 _ _ end rest h tt (length-append (write_entries t) rest)
          enough) in
    ap (λ r. read_field_table (table_fuel r) 0 r)
      (append_assoc (write_uint32 (length (write_entries t) % 2 ^ 32)) (write_entries t) rest)
    ∙ ap (λ n. read_field_table n 0 s) fuel
    ∙ back
