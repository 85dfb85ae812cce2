-- ===== src/Storage/Store.antt =====
-- storage/message_store.h: the operations of an open `MessageStore`. Its state is the log file and
-- the next message id; every `store…` writes and syncs one entry.
use ganshin_mq.Base.{ℕ, ◌+◌, ◌%◌, ◌^◌, Bool, Bytes, ◌++◌}
use ganshin_mq.Broker.Message.{Message}
use ganshin_mq.Storage.Entry.{
  StoredMessage, StoredBinding, Entry, message, ack, queue_declare, exchange_declare, binding,
  queue_delete, exchange_delete, unbind,
}
use ganshin_mq.Storage.Wal.{write_entry, recover, RecoveryData, compact}

pub record MessageStore : Type 0 where
  pub wal : Bytes
  pub next_msg_id : ℕ

unfoldable pub store_entry : Entry → MessageStore → MessageStore
store_entry e s = record s { wal = s.wal ++ write_entry e }

abbrev pub stored_message : ℕ → Bytes → Message → StoredMessage
stored_message id queue m = record {
  id = id;
  queue_name = queue;
  exchange = m.exchange;
  routing_key = m.routing_key;
  properties = m.properties;
  body = m.body;
}

-- The new store, and the message's id.
unfoldable pub store_message : Bytes → Message → MessageStore → MessageStore × ℕ
unfolding store_entry
store_message queue m s =
    let id = s.next_msg_id in
    (
      record (store_entry (message (stored_message id queue m)) s) {
        next_msg_id = (id + 1) % 2 ^ 64;
      },
      id,
    )

unfoldable pub store_ack : Bytes → ℕ → MessageStore → MessageStore
unfolding store_entry
store_ack queue id s = store_entry (ack queue id) s

unfoldable pub store_queue_declare : Bytes → Bool → Bool → MessageStore → MessageStore
unfolding store_entry
store_queue_declare name durable auto_delete s =
    store_entry
      (queue_declare (record { name = name; durable = durable; auto_delete = auto_delete })) s

unfoldable pub store_exchange_declare :
    Bytes → Bytes → Bool → Bool → Bool → MessageStore → MessageStore
unfolding store_entry
store_exchange_declare name type durable auto_delete internal s =
    store_entry
      (exchange_declare (record {
        name = name;
        type = type;
        durable = durable;
        auto_delete = auto_delete;
        internal = internal;
      }))
      s

abbrev pub stored_binding : Bytes → Bytes → Bytes → StoredBinding
stored_binding queue exchange routing_key = record {
  queue = queue;
  exchange = exchange;
  routing_key = routing_key;
}

unfoldable pub store_binding : Bytes → Bytes → Bytes → MessageStore → MessageStore
unfolding store_entry
store_binding queue exchange routing_key s =
    store_entry (binding (stored_binding queue exchange routing_key)) s

unfoldable pub store_queue_delete : Bytes → MessageStore → MessageStore
unfolding store_entry
store_queue_delete name s = store_entry (queue_delete name) s

unfoldable pub store_exchange_delete : Bytes → MessageStore → MessageStore
unfolding store_entry
store_exchange_delete name s = store_entry (exchange_delete name) s

unfoldable pub store_unbind : Bytes → Bytes → Bytes → MessageStore → MessageStore
unfolding store_entry
store_unbind queue exchange routing_key s =
    store_entry (unbind (stored_binding queue exchange routing_key)) s

-- `recover()`: the data, and the store with its next id.
unfoldable pub recover_store : MessageStore → MessageStore × RecoveryData
recover_store s =
    let r = recover s.wal s.next_msg_id in (record s { next_msg_id = r.next_msg_id }, r.result)

unfoldable pub compact_if_needed : MessageStore → MessageStore
compact_if_needed s = let r = compact s.wal s.next_msg_id in record { wal = r.0; next_msg_id = r.1 }
