-- ===== src/Amqp/FieldValue.antt =====
-- amqp/types.h: `FieldValue`, `FieldTable` and `FieldArray`. A value has one constructor for each
-- factory function; the struct's other members keep their defaults, which the accessors give.
pub mod Assigned
use ganshin_mq.Base.{
  ℕ, [], Bool, Bytes, Option, none, some, ◌==◌, bytes_eq, if◌then◌else◌, lex_compare, Ordering,
}
use ganshin_mq.Base.Int.{ℤ, pos}

-- A table is the list of its entries in the order of `std::map`. A float is its bit pattern.
mutual
  pub data FieldValue : Type 0 where
    boolean : Bool → FieldValue
    short_short_int short_short_uint short_int short_uint : ℤ → FieldValue
    long_int long_uint long_long_int long_long_uint : ℤ → FieldValue
    float_val double_val : ℕ → FieldValue
    short_string long_string : Bytes → FieldValue
    timestamp : ℤ → FieldValue
    table : FieldTable → FieldValue
    array : FieldArray → FieldValue
    void_val : FieldValue

  pub data FieldTable : Type 0 where
    end : FieldTable
    entry : Bytes → FieldValue → FieldTable → FieldTable

  pub data FieldArray : Type 0 where
    stop : FieldArray
    elem : FieldValue → FieldArray → FieldArray

unfoldable pub string_val : FieldValue → Bytes
string_val (short_string s) = s
string_val (long_string s) = s
string_val v = []

unfoldable pub int_val : FieldValue → ℤ
int_val (short_short_int n) = n
int_val (short_short_uint n) = n
int_val (short_int n) = n
int_val (short_uint n) = n
int_val (long_int n) = n
int_val (long_uint n) = n
int_val (long_long_int n) = n
int_val (long_long_uint n) = n
int_val (timestamp n) = n
int_val v = pos 0

-- `table.find(name)`.
unfoldable pub find : Bytes → FieldTable → Option FieldValue
find k end = none
find k (entry j v t) = if j == k then some v else find k t

-- `table.emplace(name, value)`: a key that is there keeps its value.
unfoldable pub emplace : Bytes → FieldValue → FieldTable → FieldTable
emplace k v end = entry k v end
emplace k v (entry j w t) = elim (lex_compare k j) [
  | Ordering.lt ↦ entry k v (entry j w t)
  | Ordering.eq ↦ entry j w t
  | Ordering.gt ↦ entry j w (emplace k v t)
]

-- `table[name] = value`.
unfoldable pub assign : Bytes → FieldValue → FieldTable → FieldTable
assign k v end = entry k v end
assign k v (entry j w t) = elim (lex_compare k j) [
  | Ordering.lt ↦ entry k v (entry j w t)
  | Ordering.eq ↦ entry j v t
  | Ordering.gt ↦ entry j w (assign k v t)
]

-- `array.push_back(value)`.
unfoldable pub push_back : FieldArray → FieldValue → FieldArray
push_back stop v = elem v stop
push_back (elem w a) v = elem w (push_back a v)
