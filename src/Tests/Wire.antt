-- ===== src/Tests/Wire.antt =====
-- The round trips of the wire format, at one table and one set of properties.
use ganshin_mq.Base.{
  ◌^◌, ◌<◌, true, codes, ◌++◌, some, ◌≡◌, length, [], ◌∷◌, refl, ◌≢◌, arith, lex_compare,
}
use ganshin_mq.Base.Int.{negsuc}
use ganshin_mq.Amqp.FieldValue.{
  FieldTable, end, entry, boolean, long_int, array, elem, stop, void_val,
}
use ganshin_mq.Amqp.Properties.{BasicProperties, no_properties}
use ganshin_mq.Amqp.Buffer.{ok, stuck, write_uint8, write_uint32, write_short_string}
use ganshin_mq.Amqp.Buffer.Int.{to_unsigned}
use ganshin_mq.Amqp.Table.{
  read_table, write_field_table, write_entries, write_field_value, write_elems,
}
use ganshin_mq.Amqp.Table.Fits.{FitsTable, FitsValue, FitsElems}
use ganshin_mq.Amqp.Table.RoundTrip.{read-write_field_table}
use ganshin_mq.Amqp.Table.Total.{read_table-total}
use ganshin_mq.Amqp.Content.{decode, encode}
use ganshin_mq.Amqp.Content.RoundTrip.{FitsProperties, decode-encode}

abbrev headers : FieldTable
headers =
    entry (codes "a") (long_int (negsuc 4))
      (entry (codes "b") (array (elem (boolean true) (elem void_val stop))) end)

headers-FitsTable : FitsTable 0 headers
unfolding FitsTable FitsValue FitsElems write_entries write_field_value write_elems write_uint8
    lex_compare
headers-FitsTable = (
  ground arith,
  ground arith,
  (ground arith, (ground arith, (tt, (tt, tt)), ground arith), tt, tt),
  (refl, tt),
)

headers-length : length (write_entries headers) < 2 ^ 32
unfolding write_entries write_short_string write_uint8 write_uint32 to_unsigned
headers-length = ground arith

read-write_field_table_example :
    read_table (write_field_table headers ++ codes "x") ≡ ok (headers, codes "x")
read-write_field_table_example =
    read-write_field_table headers (codes "x") headers-FitsTable headers-length

abbrev json : BasicProperties
json = record no_properties {
  content_type = some (codes "json");
  headers = some headers;
  delivery_mode = some 2;
}

json-FitsProperties : FitsProperties json
json-FitsProperties = record {
  content_type = ground arith;
  content_encoding = tt;
  headers = (headers-FitsTable, headers-length);
  delivery_mode = ground arith;
  priority = tt;
  correlation_id = tt;
  reply_to = tt;
  expiration = tt;
  message_id = tt;
  timestamp = tt;
  type = tt;
  user_id = tt;
  app_id = tt;
  cluster_id = tt;
}

decode-encode_example : decode (encode json ++ codes "x") ≡ ok (json, codes "x")
decode-encode_example = decode-encode json (codes "x") json-FitsProperties

-- An array of one table, cut short.
read_table-total_example :
    read_table (0 ∷ 0 ∷ 0 ∷ 9 ∷ 1 ∷ 97 ∷ 65 ∷ 0 ∷ 0 ∷ 0 ∷ 5 ∷ 70 ∷ []) ≢ stuck
read_table-total_example = read_table-total (0 ∷ 0 ∷ 0 ∷ 9 ∷ 1 ∷ 97 ∷ 65 ∷ 0 ∷ 0 ∷ 0 ∷ 5 ∷ 70 ∷ [])
