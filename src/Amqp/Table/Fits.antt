-- ===== src/Amqp/Table/Fits.antt =====
-- The field tables that the wire format can carry, and tables joined to one another.
use ganshin_mq.Base.{
  ℕ, ◌+◌, ◌^◌, ◌<◌, ◌≤◌, Bytes, nat_eq, length, ◌≡◌, refl, ap, lex_compare, lex_compare_flip,
  Ordering,
}
use ganshin_mq.Base.Int.{ℤ, pos, negsuc}
use ganshin_mq.Amqp.FieldValue.{
  FieldValue, FieldTable, FieldArray, boolean, short_short_int, short_short_uint, short_int,
  short_uint, long_int, long_uint, long_long_int, long_long_uint, float_val, double_val,
  short_string, long_string, timestamp, table, array, void_val, end, entry, stop, elem, emplace,
  push_back,
}
use ganshin_mq.Amqp.Buffer.IntProofs.{IsSigned}
use ganshin_mq.Amqp.Table.{write_entries, write_elems}

abbrev pub IsUnsigned : ℕ → ℤ → Type 0
IsUnsigned modulus (pos n) = n < modulus
IsUnsigned modulus (negsuc n) = ⊥

-- The name comes before every name of the table.
abbrev pub Before : Bytes → FieldTable → Type 0
Before k end = Unit
Before k (entry j v t) = (lex_compare k j ≡ Ordering.lt) × Before k t

-- A value that the wire format can carry at a depth: numbers in range, texts short enough, names
-- in rising order, and no deeper than 32 tables.
unfoldable mutual
  pub FitsValue : ℕ → FieldValue → Type 0
  FitsValue d (boolean b) = Unit
  FitsValue d (short_short_int z) = IsSigned 128 z
  FitsValue d (short_short_uint z) = IsUnsigned 256 z
  FitsValue d (short_int z) = IsSigned (2 ^ 15) z
  FitsValue d (short_uint z) = IsUnsigned (2 ^ 16) z
  FitsValue d (long_int z) = IsSigned (2 ^ 31) z
  FitsValue d (long_uint z) = IsUnsigned (2 ^ 32) z
  FitsValue d (long_long_int z) = IsSigned (2 ^ 63) z
  FitsValue d (long_long_uint z) = IsSigned (2 ^ 63) z
  FitsValue d (float_val bits) = bits < 2 ^ 32
  FitsValue d (double_val bits) = bits < 2 ^ 64
  FitsValue d (short_string s) = length s < 256
  FitsValue d (long_string s) = length s < 2 ^ 32
  FitsValue d (timestamp z) = IsSigned (2 ^ 63) z
  FitsValue d (table t) = (d + 1 ≤ 32) × FitsTable (d + 1) t × (length (write_entries t) < 2 ^ 32)
  FitsValue d (array a) = (d ≤ 32) × FitsElems (d + 1) a × (length (write_elems a) < 2 ^ 32)
  FitsValue d void_val = Unit

  pub FitsTable : ℕ → FieldTable → Type 0
  FitsTable d end = Unit
  FitsTable d (entry k v t) = (length k < 256) × FitsValue d v × FitsTable d t × Before k t

  pub FitsElems : ℕ → FieldArray → Type 0
  FitsElems d stop = Unit
  FitsElems d (elem v a) = FitsValue d v × FitsElems d a

-- A table joined to another, and its keys before those of the other.
abbrev pub joined : FieldTable → FieldTable → FieldTable
joined end u = u
joined (entry k v t) u = entry k v (joined t u)

abbrev pub Precede : FieldTable → FieldTable → Type 0
Precede end u = Unit
Precede (entry k v t) u = Before k u × Precede t u

pub emplace-last :
    (k : Bytes) (v : FieldValue) (acc u : FieldTable)
    → Precede acc (entry k v u)
    → emplace k v acc ≡ joined acc (entry k v end)
unfolding emplace
emplace-last k v end u p = refl
emplace-last k v (entry j w acc) u p =
    rw (lex_compare_flip j k p.0.0, emplace) (ap (entry j w) (emplace-last k v acc u p.1))

pub joined_assoc : (t u w : FieldTable) → joined (joined t u) w ≡ joined t (joined u w)
joined_assoc end u w = refl
joined_assoc (entry k v t) u w = ap (entry k v) (joined_assoc t u w)

pub joined_end : (t : FieldTable) → joined t end ≡ t
joined_end end = refl
joined_end (entry k v t) = ap (entry k v) (joined_end t)

pub Precede-next :
    (k : Bytes) (v : FieldValue) (acc u : FieldTable)
    → Precede acc (entry k v u)
    → Before k u
    → Precede (joined acc (entry k v end)) u
Precede-next k v end u p b = (b, tt)
Precede-next k v (entry j w acc) u p b = (p.0.1, Precede-next k v acc u p.1 b)

abbrev pub chained : FieldArray → FieldArray → FieldArray
chained stop b = b
chained (elem v a) b = elem v (chained a b)

pub push_back-chained :
    (a : FieldArray) (v : FieldValue) (b : FieldArray)
    → chained (push_back a v) b ≡ chained a (elem v b)
unfolding push_back
push_back-chained stop v b = refl
push_back-chained (elem w a) v b = ap (elem w) (push_back-chained a v b)

pub chained_done : (a : FieldArray) → chained a stop ≡ a
chained_done stop = refl
chained_done (elem v a) = ap (elem v) (chained_done a)
