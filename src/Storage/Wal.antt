-- ===== src/Storage/Wal.antt =====
-- storage/message_store.h: the frames of the log, the recovery and the compaction.
pub mod Frames
pub mod Recovery
pub mod Acks
use Prim.Native.Nat.{bit_xor, bit_and}
use ganshin_mq.Base.{
  ℕ, zero, suc, ◌+◌, ◌-◌, ◌*◌, ◌/◌, ◌%◌, ◌^◌, Bool, true, false, not, ◌&&◌, ◌||◌, Bytes, List, [],
  ◌∷◌, ◌++◌, Option, none, some, ◌==◌, nat_eq, bytes_eq, if◌then◌else◌, length, take, drop, keep_if,
  any_of, leb, ltb, map,
}
use ganshin_mq.Base.Map.{lookup, insert}
use ganshin_mq.Amqp.Buffer.{Result, ok, err, stuck, Read, read_uint32, write_uint32}
use ganshin_mq.Storage.Entry.{
  StoredMessage, StoredQueueDecl, StoredExchangeDecl, StoredBinding, Entry, message, ack,
  queue_declare, exchange_declare, binding, queue_delete, exchange_delete, unbind, entry_type,
  payload, Parsed, entry, skip, parse,
}

-- `crc = (crc >> 1) ^ (0xEDB88320 & -(crc & 1));`, `rounds` times.
unfoldable pub crc_bits : ℕ → ℕ → ℕ
crc_bits zero crc = crc
crc_bits (suc rounds) crc =
    crc_bits rounds
      (bit_xor (crc / 2) (bit_and 0xEDB88320 ((2 ^ 32 - bit_and crc 1) % 2 ^ 32)) % 2 ^ 32)

unfoldable pub crc_loop : Bytes → ℕ → ℕ
unfolding crc_bits
crc_loop [] crc = crc
crc_loop (b ∷ s) crc = crc_loop s (crc_bits 8 (bit_xor crc b % 2 ^ 32))

unfoldable pub crc32 : Bytes → ℕ
unfolding crc_loop
crc32 s = 2 ^ 32 - 1 - crc_loop s 0xFFFFFFFF % 2 ^ 32

-- `writeEntry`: what it appends to the file.
unfoldable pub write_frame : ℕ → Bytes → Bytes
write_frame type s =
    write_uint32 ((1 + length s % 2 ^ 32 + 4) % 2 ^ 32) ++ (type ∷ (s ++ write_uint32 (crc32 s)))

unfoldable pub write_entry : Entry → Bytes
write_entry e = write_frame (entry_type e) (payload e)

abbrev pub max_entry_size : ℕ
max_entry_size = 64 * 1024 * 1024

-- The entry's bytes, if its checksum is right: the type and the payload.
unfoldable pub check_entry : ℕ → Bytes → Option (ℕ × Bytes)
check_entry total [] = none
check_entry total (type ∷ s) = elim (read_uint32 (drop (total - 5) s)) [
  | ok (crc, rest) ↦
      if crc == crc32 (take (total - 5) s) then some (type, take (total - 5) s) else none
  | err e ↦ none
  | stuck ↦ none
]

-- One round of the loop of `recoverLocked` up to the switch: the entry's type, its payload and the
-- file behind it. `none` is a `break`: the file is at its end or cut short, or the entry's size or
-- checksum is wrong.
unfoldable pub read_frame : Bytes → Option (ℕ × Bytes × Bytes)
read_frame file = elim (read_uint32 file) [
  | ok (total, s) ↦
      if ltb total 5 || ltb max_entry_size total
      then none
      else if ltb (length s) total
      then none
      else elim (check_entry total (take total s)) [
        | none ↦ none
        | some (type, body) ↦ some (type, body, drop total s)
      ]
  | err e ↦ none
  | stuck ↦ none
]

pub record RecoveryData : Type 0 where
  pub exchanges : List StoredExchangeDecl
  pub queues : List StoredQueueDecl
  pub bindings : List StoredBinding
  pub messages : List StoredMessage
  pub acked_messages : List (Bytes × List ℕ)

-- The state of the loop: the data, and `nextMsgId_`.
pub record Recovering : Type 0 where
  pub result : RecoveryData
  pub next_msg_id : ℕ

abbrev pub no_data : RecoveryData
no_data = record { exchanges = []; queues = []; bindings = []; messages = []; acked_messages = [] }

abbrev pub ids_of : Option (List ℕ) → List ℕ
ids_of none = []
ids_of (some ids) = ids

abbrev pub same_binding : StoredBinding → StoredBinding → Bool
same_binding b c = c.queue == b.queue && c.exchange == b.exchange && c.routing_key == b.routing_key

unfoldable pub apply_data : Entry → RecoveryData → RecoveryData
apply_data (message m) d = record d { messages = d.messages ++ (m ∷ []) }
apply_data (ack q id) d = record d {
  acked_messages = insert q (ids_of (lookup q d.acked_messages) ++ (id ∷ [])) d.acked_messages;
}
apply_data (queue_declare q) d = record d { queues = d.queues ++ (q ∷ []) }
apply_data (exchange_declare e) d = record d { exchanges = d.exchanges ++ (e ∷ []) }
apply_data (binding b) d = record d { bindings = d.bindings ++ (b ∷ []) }
apply_data (queue_delete name) d = record d {
  queues = keep_if (λ q. not (q.name == name)) d.queues;
  messages = keep_if (λ m. not (m.queue_name == name)) d.messages;
  bindings = keep_if (λ b. not (b.queue == name)) d.bindings;
}
apply_data (exchange_delete name) d = record d {
  exchanges = keep_if (λ e. not (e.name == name)) d.exchanges;
  bindings = keep_if (λ b. not (b.exchange == name)) d.bindings;
}
apply_data (unbind b) d = record d { bindings = keep_if (λ c. not (same_binding b c)) d.bindings }

-- `if (sm.id >= nextMsgId_) nextMsgId_ = sm.id + 1;`
unfoldable pub apply_id : Entry → ℕ → ℕ
apply_id (message m) next = if leb next m.id then (m.id + 1) % 2 ^ 64 else next
apply_id e next = next

unfoldable pub apply : Entry → Recovering → Recovering
apply e r = record { result = apply_data e r.result; next_msg_id = apply_id e r.next_msg_id }

-- The loop. A parse that throws breaks it, as a bad frame does.
unfoldable pub recover_loop : ℕ → Bytes → Recovering → Recovering
recover_loop zero file r = r
recover_loop (suc fuel) file r = elim (read_frame file) [
  | none ↦ r
  | some (type, s, rest) ↦ elim (parse type s) [
    | ok (entry e) ↦ recover_loop fuel rest (apply e r)
    | ok skip ↦ recover_loop fuel rest r
    | err x ↦ r
    | stuck ↦ r
  ]
]

-- The last loop: the acknowledged messages of each queue are erased.
unfoldable pub is_acked : Bytes → List ℕ → StoredMessage → Bool
is_acked queue ids m = m.queue_name == queue && any_of (λ id. m.id == id) ids

unfoldable pub drop_acked : List (Bytes × List ℕ) → List StoredMessage → List StoredMessage
unfolding is_acked
drop_acked [] ms = ms
drop_acked ((queue, ids) ∷ acked) ms =
    drop_acked acked (keep_if (λ m. not (is_acked queue ids m)) ms)

abbrev pub without_acked : RecoveryData → RecoveryData
without_acked d = record d { messages = drop_acked d.acked_messages d.messages }

-- `recover()`, with the `nextMsgId_` that it starts from. Each round takes a byte at least.
unfoldable pub recover : Bytes → ℕ → Recovering
recover file next =
    let r = recover_loop (length file) file (record { result = no_data; next_msg_id = next }) in
    record r { result = without_acked r.result }

-- What `compactIfNeeded` writes into the new file.
unfoldable pub write_all : List Entry → Bytes
unfolding write_entry
write_all [] = []
write_all (e ∷ es) = write_entry e ++ write_all es

unfoldable pub live_entries : RecoveryData → List Entry
live_entries d =
    map exchange_declare d.exchanges
    ++ (map queue_declare d.queues ++ (map binding d.bindings ++ map message d.messages))

unfoldable pub compact : Bytes → ℕ → Bytes × ℕ
unfolding recover write_all live_entries
compact file next = let r = recover file next in (write_all (live_entries r.result), r.next_msg_id)
