-- ===== src/Amqp/Content.antt =====
-- amqp/content.h: `BasicProperties::decode` and `BasicProperties::encode`. Each property has one
-- bit of the flags, which `encode` sets at most once, so `|=` is a sum.
pub mod RoundTrip
pub mod Decided
use ganshin_mq.Base.{
  ℕ, ◌+◌, ◌*◌, ◌/◌, ◌%◌, ◌^◌, Bool, Bytes, List, [], ◌∷◌, ◌++◌, Option, none, some, ◌==◌, nat_eq,
  if◌then◌else◌,
}
use ganshin_mq.Amqp.Properties.{BasicProperties}
use ganshin_mq.Amqp.Buffer.{
  Result, ok, err, stuck, ◌>>=◌, Read, read_uint8, read_uint16, read_uint64, read_short_string,
  write_uint8, write_uint16, write_uint64, write_short_string,
}
use ganshin_mq.Amqp.Table.{read_table, write_field_table}

-- `if (flags & (1 << bit)) member = read();`
unfoldable pub read_if : {A : Type 0} → ℕ → ℕ → (Bytes → Read A) → Bytes → Read (Option A)
read_if bit flags read s =
    if flags / 2 ^ bit % 2 == 1 then (read s >>= λ (v, s'). ok (some v, s')) else ok (none, s)

-- `if (member) write(*member);`
unfoldable pub write_if : {A : Type 0} → (A → Bytes) → Option A → Bytes
write_if write none = []
write_if write (some v) = write v

abbrev pub given : {A : Type 0} → Option A → ℕ
given none = 0
given (some v) = 1

unfoldable pub flags : BasicProperties → ℕ
flags p =
    given p.content_type * 2 ^ 15
    + given p.content_encoding * 2 ^ 14
    + given p.headers * 2 ^ 13
    + given p.delivery_mode * 2 ^ 12
    + given p.priority * 2 ^ 11
    + given p.correlation_id * 2 ^ 10
    + given p.reply_to * 2 ^ 9
    + given p.expiration * 2 ^ 8
    + given p.message_id * 2 ^ 7
    + given p.timestamp * 2 ^ 6
    + given p.type * 2 ^ 5
    + given p.user_id * 2 ^ 4
    + given p.app_id * 2 ^ 3
    + given p.cluster_id * 2 ^ 2

unfoldable pub decode : Bytes → Read BasicProperties
decode s = do
  (flags, s0) ← read_uint16 s
  (content_type, s1) ← read_if 15 flags read_short_string s0
  (content_encoding, s2) ← read_if 14 flags read_short_string s1
  (headers, s3) ← read_if 13 flags read_table s2
  (delivery_mode, s4) ← read_if 12 flags read_uint8 s3
  (priority, s5) ← read_if 11 flags read_uint8 s4
  (correlation_id, s6) ← read_if 10 flags read_short_string s5
  (reply_to, s7) ← read_if 9 flags read_short_string s6
  (expiration, s8) ← read_if 8 flags read_short_string s7
  (message_id, s9) ← read_if 7 flags read_short_string s8
  (timestamp, s10) ← read_if 6 flags read_uint64 s9
  (type, s11) ← read_if 5 flags read_short_string s10
  (user_id, s12) ← read_if 4 flags read_short_string s11
  (app_id, s13) ← read_if 3 flags read_short_string s12
  (cluster_id, s14) ← read_if 2 flags read_short_string s13
  ok (
    record {
      content_type = content_type;
      content_encoding = content_encoding;
      headers = headers;
      delivery_mode = delivery_mode;
      priority = priority;
      correlation_id = correlation_id;
      reply_to = reply_to;
      expiration = expiration;
      message_id = message_id;
      timestamp = timestamp;
      type = type;
      user_id = user_id;
      app_id = app_id;
      cluster_id = cluster_id;
    },
    s14,
  )

unfoldable pub encode : BasicProperties → Bytes
encode p =
    write_uint16 (flags p)
    ++ (write_if write_short_string p.content_type
        ++ (write_if write_short_string p.content_encoding
            ++ (write_if write_field_table p.headers
                ++ (write_if write_uint8 p.delivery_mode
                    ++ (write_if write_uint8 p.priority
                        ++ (write_if write_short_string p.correlation_id
                            ++ (write_if write_short_string p.reply_to
                                ++ (write_if write_short_string p.expiration
                                    ++ (write_if write_short_string p.message_id
                                        ++ (write_if write_uint64 p.timestamp
                                            ++ (write_if write_short_string p.type
                                                ++ (write_if write_short_string p.user_id
                                                    ++ (write_if write_short_string p.app_id
                                                        ++ write_if write_short_string
                                                            p.cluster_id)))))))))))))
