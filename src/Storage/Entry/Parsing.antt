-- ===== src/Storage/Entry/Parsing.antt =====
-- Each entry's payload is parsed back to the entry.
use ganshin_mq.Base.{
  ℕ, ◌^◌, ◌<◌, ◌≤◌, Bool, true, false, Bytes, [], ◌++◌, length, ◌≡◌, refl, sym, ap, ◌∙◌, arith,
  append_assoc, append-nil, length-append,
}
use ganshin_mq.Amqp.Buffer.{
  ok, read_long_string, write_uint8, write_uint64, write_long_string, write_uint32, read_uint8,
}
use ganshin_mq.Amqp.Buffer.IntProofs.{read-write_uint64, read-write_long_string}
use ganshin_mq.Amqp.Content.{encode, decode}
use ganshin_mq.Amqp.Content.RoundTrip.{FitsProperties, decode-encode}
use ganshin_mq.Storage.Entry.{
  StoredMessage, StoredQueueDecl, StoredExchangeDecl, StoredBinding, Entry, message, ack,
  queue_declare, exchange_declare, binding, queue_delete, exchange_delete, unbind, entry_type,
  write_flag, payload, read_flag, parse_message, parse_ack, parse_queue_declare,
  parse_exchange_declare, parse_binding, entry, parse,
}

-- What the log can hold of an entry: ids of 64 bits, and properties that the wire format carries.
abbrev pub FitsEntry : Entry → Type 0
FitsEntry (message m) = (m.id < 2 ^ 64) × FitsProperties m.properties
FitsEntry (ack q id) = id < 2 ^ 64
FitsEntry e = Unit

length-write_long_string : (s : Bytes) → length s ≤ length (write_long_string s)
unfolding write_long_string write_uint32
length-write_long_string s = omega arith

back-flag : (b : Bool) (rest : Bytes) → read_flag (write_flag b ++ rest) ≡ ok (b, rest)
unfolding read_flag read_uint8 write_uint8
back-flag true rest = refl
back-flag false rest = refl

parts : (a b : Bytes) (n : ℕ) → length (a ++ b) < n → (length a < n) × (length b < n)
parts a b n h = (omega (arith, length-append a b), omega (arith, length-append a b))

back-string :
    (s rest : Bytes)
    → length (write_long_string s) < 2 ^ 32
    → read_long_string (write_long_string s ++ rest) ≡ ok (s, rest)
back-string s rest h = read-write_long_string s rest (omega (arith, length-write_long_string s))

back-binding :
    (b : StoredBinding) (rest : Bytes)
    → length (payload (binding b)) < 2 ^ 32
    → parse_binding (payload (binding b) ++ rest) ≡ ok (b, rest)
unfolding parse_binding payload
back-binding b rest h =
    let (queue, r1) = parts (write_long_string b.queue) _ (2 ^ 32) h in
    let (exchange, routing_key) = parts (write_long_string b.exchange) _ (2 ^ 32) r1 in
    let flat : payload (binding b) ++ rest
        ≡ write_long_string b.queue
          ++ (write_long_string b.exchange ++ (write_long_string b.routing_key ++ rest)) =
      simp append_assoc in
    ap parse_binding flat
    ∙ rw (
      back-string b.queue _ queue,
      back-string b.exchange _ exchange,
      back-string b.routing_key rest routing_key,
    )

back-queue_declare :
    (d : StoredQueueDecl) (rest : Bytes)
    → length (payload (queue_declare d)) < 2 ^ 32
    → parse_queue_declare (payload (queue_declare d) ++ rest) ≡ ok (d, rest)
unfolding parse_queue_declare payload
back-queue_declare d rest h =
    let (name, flags) = parts (write_long_string d.name) _ (2 ^ 32) h in
    let flat : payload (queue_declare d) ++ rest
        ≡ write_long_string d.name ++ (write_flag d.durable ++ (write_flag d.auto_delete ++ rest)) =
      simp append_assoc in
    ap parse_queue_declare flat
    ∙ rw (back-string d.name _ name, back-flag d.durable _, back-flag d.auto_delete rest)

back-exchange_declare :
    (d : StoredExchangeDecl) (rest : Bytes)
    → length (payload (exchange_declare d)) < 2 ^ 32
    → parse_exchange_declare (payload (exchange_declare d) ++ rest) ≡ ok (d, rest)
unfolding parse_exchange_declare payload
back-exchange_declare d rest h =
    let (name, r1) = parts (write_long_string d.name) _ (2 ^ 32) h in
    let (type, flags) = parts (write_long_string d.type) _ (2 ^ 32) r1 in
    let flat : payload (exchange_declare d) ++ rest
        ≡ write_long_string d.name
          ++ (write_long_string d.type
              ++ (write_flag d.durable
                  ++ (write_flag d.auto_delete ++ (write_flag d.internal ++ rest)))) =
      simp append_assoc in
    ap parse_exchange_declare flat
    ∙ rw (
      back-string d.name _ name,
      back-string d.type _ type,
      back-flag d.durable _,
      back-flag d.auto_delete _,
      back-flag d.internal rest,
    )

back-ack :
    (q : Bytes) (id : ℕ) (rest : Bytes)
    → id < 2 ^ 64
    → length (payload (ack q id)) < 2 ^ 32
    → parse_ack (payload (ack q id) ++ rest) ≡ ok (ack q id, rest)
unfolding parse_ack payload
back-ack q id rest fits h =
    let (number, queue) = parts (write_uint64 id) _ (2 ^ 32) h in
    ap parse_ack (append_assoc (write_uint64 id) (write_long_string q) rest)
    ∙ rw (read-write_uint64 id _ fits, back-string q rest queue)

back-message :
    (m : StoredMessage) (rest : Bytes)
    → FitsEntry (message m)
    → length (payload (message m)) < 2 ^ 32
    → parse_message (payload (message m) ++ rest) ≡ ok (m, rest)
unfolding parse_message payload
back-message m rest fits h =
    let (number, r1) = parts (write_uint64 m.id) _ (2 ^ 32) h in
    let (queue, r2) = parts (write_long_string m.queue_name) _ (2 ^ 32) r1 in
    let (exchange, r3) = parts (write_long_string m.exchange) _ (2 ^ 32) r2 in
    let (key, r4) = parts (write_long_string m.routing_key) _ (2 ^ 32) r3 in
    let (props, body) = parts (write_long_string (encode m.properties)) _ (2 ^ 32) r4 in
    let flat : payload (message m) ++ rest
        ≡ write_uint64 m.id
          ++ (write_long_string m.queue_name
              ++ (write_long_string m.exchange
                  ++ (write_long_string m.routing_key
                      ++ (write_long_string (encode m.properties)
                          ++ (write_long_string m.body ++ rest))))) =
      simp append_assoc in
    let decoded : decode (encode m.properties) ≡ ok (m.properties, []) =
      ap decode (sym (append-nil (encode m.properties))) ∙ decode-encode m.properties [] fits.1 in
    ap parse_message flat
    ∙ rw (
      read-write_uint64 m.id _ fits.0,
      back-string m.queue_name _ queue,
      back-string m.exchange _ exchange,
      back-string m.routing_key _ key,
      back-string (encode m.properties) _ props,
      decoded,
      back-string m.body rest body,
    )

parse-rest :
    (e : Entry) (rest : Bytes)
    → FitsEntry e
    → length (payload e) < 2 ^ 32
    → parse (entry_type e) (payload e ++ rest) ≡ ok (entry e)
unfolding parse entry_type
parse-rest (message m) rest fits h = rw (back-message m rest fits h)
parse-rest (ack q id) rest fits h = rw (back-ack q id rest fits h)
parse-rest (queue_declare d) rest fits h = rw (back-queue_declare d rest h)
parse-rest (exchange_declare d) rest fits h = rw (back-exchange_declare d rest h)
parse-rest (binding b) rest fits h = rw (back-binding b rest h)
parse-rest (queue_delete name) rest fits h = unfold payload in rw (back-string name rest h)
parse-rest (exchange_delete name) rest fits h = unfold payload in rw (back-string name rest h)
parse-rest (unbind b) rest fits h = unbind_case b (back-binding b rest (unfold payload in h))
  where
    unbind_case :
        (b : StoredBinding)
        → parse_binding (payload (binding b) ++ rest) ≡ ok (b, rest)
        → parse 8 (payload (unbind b) ++ rest) ≡ ok (entry (unbind b))
    unbind_case b e = unfold payload in rw e

-- An entry that fits is parsed back from its payload.
pub parse-payload :
    (e : Entry)
    → FitsEntry e
    → length (payload e) < 2 ^ 32
    → parse (entry_type e) (payload e) ≡ ok (entry e)
parse-payload e fits h =
    ap (parse (entry_type e)) (sym (append-nil (payload e))) ∙ parse-rest e [] fits h
