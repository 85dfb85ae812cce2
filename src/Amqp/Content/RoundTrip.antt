-- ===== src/Amqp/Content/RoundTrip.antt =====
-- Message properties are read back from what was written of them.
use ganshin_mq.Base.{
  ℕ, ◌+◌, ◌*◌, ◌/◌, ◌%◌, ◌^◌, ◌<◌, ◌≤◌, Bytes, ◌++◌, Option, none, some, nat_eq, length, ◌≡◌, arith,
  append_assoc,
}
use ganshin_mq.Amqp.Properties.{BasicProperties}
use ganshin_mq.Amqp.Buffer.{
  ok, Read, read_uint8, read_uint64, read_short_string, write_uint8, write_uint16, write_uint64,
  write_short_string,
}
use ganshin_mq.Amqp.Buffer.IntProofs.{
  read-write_uint8, read-write_uint16, read-write_uint64, read-write_short_string,
}
use ganshin_mq.Amqp.FieldValue.{FieldTable}
use ganshin_mq.Amqp.Table.{read_table, write_field_table, write_entries}
use ganshin_mq.Amqp.Table.Fits.{FitsTable}
use ganshin_mq.Amqp.Table.RoundTrip.{read-write_field_table}
use ganshin_mq.Amqp.Content.{read_if, write_if, given, flags, decode, encode}

-- The value, if there is one, is within its bound.
abbrev pub IfGiven : {A : Type 0} → (A → Type 0) → Option A → Type 0
IfGiven P none = Unit
IfGiven P (some v) = P v

abbrev pub IsShort : Bytes → Type 0
IsShort s = length s < 256

abbrev pub FitsHeaders : FieldTable → Type 0
FitsHeaders t = FitsTable 0 t × (length (write_entries t) < 2 ^ 32)

-- Properties that the wire format can carry.
pub record FitsProperties (p : BasicProperties) : Type 0 where
  pub content_type : IfGiven IsShort p.content_type
  pub content_encoding : IfGiven IsShort p.content_encoding
  pub headers : IfGiven FitsHeaders p.headers
  pub delivery_mode : IfGiven (λ n. n < 2 ^ 8) p.delivery_mode
  pub priority : IfGiven (λ n. n < 2 ^ 8) p.priority
  pub correlation_id : IfGiven IsShort p.correlation_id
  pub reply_to : IfGiven IsShort p.reply_to
  pub expiration : IfGiven IsShort p.expiration
  pub message_id : IfGiven IsShort p.message_id
  pub timestamp : IfGiven (λ n. n < 2 ^ 64) p.timestamp
  pub type : IfGiven IsShort p.type
  pub user_id : IfGiven IsShort p.user_id
  pub app_id : IfGiven IsShort p.app_id
  pub cluster_id : IfGiven IsShort p.cluster_id

read-write_if :
    {A : Type 0} (P : A → Type 0) (read : Bytes → Read A) (write : A → Bytes)
    → ((v : A) (rest : Bytes) → P v → read (write v ++ rest) ≡ ok (v, rest))
    → (bit n : ℕ) (o : Option A) (rest : Bytes) → IfGiven P o
    → n / 2 ^ bit % 2 ≡ given o
    → read_if bit n read (write_if write o ++ rest) ≡ ok (o, rest)
unfolding read_if write_if
read-write_if P read write back bit n none rest h e = rw e
read-write_if P read write back bit n (some v) rest h e = rw (e, back v rest h)

module _ (n bit : ℕ) where
  text_back :
      (o : Option Bytes) (rest : Bytes)
      → IfGiven IsShort o
      → n / 2 ^ bit % 2 ≡ given o
      → read_if bit n read_short_string (write_if write_short_string o ++ rest) ≡ ok (o, rest)
  text_back o rest h e =
      read-write_if IsShort read_short_string write_short_string read-write_short_string bit n o
        rest h e

  byte_back :
      (o : Option ℕ) (rest : Bytes)
      → IfGiven (λ k. k < 2 ^ 8) o
      → n / 2 ^ bit % 2 ≡ given o
      → read_if bit n read_uint8 (write_if write_uint8 o ++ rest) ≡ ok (o, rest)
  byte_back o rest h e =
      read-write_if (λ k. k < 2 ^ 8) read_uint8 write_uint8 read-write_uint8 bit n o rest h e

  long_back :
      (o : Option ℕ) (rest : Bytes)
      → IfGiven (λ k. k < 2 ^ 64) o
      → n / 2 ^ bit % 2 ≡ given o
      → read_if bit n read_uint64 (write_if write_uint64 o ++ rest) ≡ ok (o, rest)
  long_back o rest h e =
      read-write_if (λ k. k < 2 ^ 64) read_uint64 write_uint64 read-write_uint64 bit n o rest h e

  table_back :
      (o : Option FieldTable) (rest : Bytes)
      → IfGiven FitsHeaders o
      → n / 2 ^ bit % 2 ≡ given o
      → read_if bit n read_table (write_if write_field_table o ++ rest) ≡ ok (o, rest)
  table_back o rest h e =
      read-write_if FitsHeaders read_table write_field_table
        (λ t r f. read-write_field_table t r f.0 f.1) bit n o rest h e

given-le : {A : Type 0} (o : Option A) → given o ≤ 1
given-le none = omega arith
given-le (some v) = omega arith

-- Fourteen bits, from 15 down to 2, add up to a number that has them.
bits_back :
    (a b c d e f g h i j k l m o : ℕ)
    → (a ≤ 1)
      × (b ≤ 1)
      × (c ≤ 1)
      × (d ≤ 1)
      × (e ≤ 1)
      × (f ≤ 1)
      × (g ≤ 1)
      × (h ≤ 1)
      × (i ≤ 1)
      × (j ≤ 1)
      × (k ≤ 1)
      × (l ≤ 1)
      × (m ≤ 1)
      × (o ≤ 1)
    → let n =
        a * 2 ^ 15
        + b * 2 ^ 14
        + c * 2 ^ 13
        + d * 2 ^ 12
        + e * 2 ^ 11
        + f * 2 ^ 10
        + g * 2 ^ 9
        + h * 2 ^ 8
        + i * 2 ^ 7
        + j * 2 ^ 6
        + k * 2 ^ 5
        + l * 2 ^ 4
        + m * 2 ^ 3
        + o * 2 ^ 2 in
      (n < 2 ^ 16)
      × (n / 2 ^ 15 % 2 ≡ a)
      × (n / 2 ^ 14 % 2 ≡ b)
      × (n / 2 ^ 13 % 2 ≡ c)
      × (n / 2 ^ 12 % 2 ≡ d)
      × (n / 2 ^ 11 % 2 ≡ e)
      × (n / 2 ^ 10 % 2 ≡ f)
      × (n / 2 ^ 9 % 2 ≡ g)
      × (n / 2 ^ 8 % 2 ≡ h)
      × (n / 2 ^ 7 % 2 ≡ i)
      × (n / 2 ^ 6 % 2 ≡ j)
      × (n / 2 ^ 5 % 2 ≡ k)
      × (n / 2 ^ 4 % 2 ≡ l)
      × (n / 2 ^ 3 % 2 ≡ m)
      × (n / 2 ^ 2 % 2 ≡ o)
bits_back a b c d e f g h i j k l m o bound = omega arith

flags_lem :
    (p : BasicProperties)
    → let n = flags p in
      (n < 2 ^ 16)
      × (n / 2 ^ 15 % 2 ≡ given p.content_type)
      × (n / 2 ^ 14 % 2 ≡ given p.content_encoding)
      × (n / 2 ^ 13 % 2 ≡ given p.headers)
      × (n / 2 ^ 12 % 2 ≡ given p.delivery_mode)
      × (n / 2 ^ 11 % 2 ≡ given p.priority)
      × (n / 2 ^ 10 % 2 ≡ given p.correlation_id)
      × (n / 2 ^ 9 % 2 ≡ given p.reply_to)
      × (n / 2 ^ 8 % 2 ≡ given p.expiration)
      × (n / 2 ^ 7 % 2 ≡ given p.message_id)
      × (n / 2 ^ 6 % 2 ≡ given p.timestamp)
      × (n / 2 ^ 5 % 2 ≡ given p.type)
      × (n / 2 ^ 4 % 2 ≡ given p.user_id)
      × (n / 2 ^ 3 % 2 ≡ given p.app_id)
      × (n / 2 ^ 2 % 2 ≡ given p.cluster_id)
unfolding flags
flags_lem p =
    bits_back (given p.content_type) (given p.content_encoding) (given p.headers)
      (given p.delivery_mode) (given p.priority) (given p.correlation_id) (given p.reply_to)
      (given p.expiration) (given p.message_id) (given p.timestamp) (given p.type) (given p.user_id)
      (given p.app_id) (given p.cluster_id)
      (
        given-le _,
        given-le _,
        given-le _,
        given-le _,
        given-le _,
        given-le _,
        given-le _,
        given-le _,
        given-le _,
        given-le _,
        given-le _,
        given-le _,
        given-le _,
        given-le _,
      )

encode_rest :
    (p : BasicProperties) (rest : Bytes)
    → encode p ++ rest
      ≡ write_uint16 (flags p)
        ++ (write_if write_short_string p.content_type
            ++ (write_if write_short_string p.content_encoding
                ++ (write_if write_field_table p.headers
                    ++ (write_if write_uint8 p.delivery_mode
                        ++ (write_if write_uint8 p.priority
                            ++ (write_if write_short_string p.correlation_id
                                ++ (write_if write_short_string p.reply_to
                                    ++ (write_if write_short_string p.expiration
                                        ++ (write_if write_short_string p.message_id
                                            ++ (write_if write_uint64 p.timestamp
                                                ++ (write_if write_short_string p.type
                                                    ++ (write_if write_short_string p.user_id
                                                        ++ (write_if write_short_string p.app_id
                                                            ++ (write_if write_short_string
                                                            p.cluster_id
                                                            ++ rest))))))))))))))
unfolding encode
encode_rest p rest = simp append_assoc

-- Properties that the wire format can carry, headers included, are read back from what was
-- written of them, and what follows is left.
pub decode-encode :
    (p : BasicProperties) (rest : Bytes)
    → FitsProperties p
    → decode (encode p ++ rest) ≡ ok (p, rest)
unfolding decode
decode-encode p rest h =
    let n : ℕ = flags p in
    let (small, a, b, c, d, e, f, g, i, j, k, l, m, o, q) = flags_lem p in
    rw (
      encode_rest p rest,
      read-write_uint16 n _ small,
      text_back n 15 p.content_type _ h.content_type a,
      text_back n 14 p.content_encoding _ h.content_encoding b,
      table_back n 13 p.headers _ h.headers c,
      byte_back n 12 p.delivery_mode _ h.delivery_mode d,
      byte_back n 11 p.priority _ h.priority e,
      text_back n 10 p.correlation_id _ h.correlation_id f,
      text_back n 9 p.reply_to _ h.reply_to g,
      text_back n 8 p.expiration _ h.expiration i,
      text_back n 7 p.message_id _ h.message_id j,
      long_back n 6 p.timestamp _ h.timestamp k,
      text_back n 5 p.type _ h.type l,
      text_back n 4 p.user_id _ h.user_id m,
      text_back n 3 p.app_id _ h.app_id o,
      text_back n 2 p.cluster_id rest h.cluster_id q,
    )
