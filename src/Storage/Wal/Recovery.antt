-- ===== src/Storage/Wal/Recovery.antt =====
-- Recovery replays the log up to its first bad frame; compaction keeps what recovery finds.
use ganshin_mq.Base.{
  ℕ, zero, suc, ◌+◌, ◌^◌, ◌<◌, ◌≤◌, Bytes, List, [], ◌∷◌, ◌++◌, none, length, All, map, ◌≡◌, refl,
  sym, ap, ◌∙◌, arith, append_assoc, append-nil, length-append, ◌⊎◌, inl, inr,
}
use ganshin_mq.Amqp.Buffer.{write_uint32, read_uint32}
use ganshin_mq.Storage.Entry.{
  StoredMessage, StoredQueueDecl, StoredExchangeDecl, StoredBinding, Entry, message, queue_declare,
  exchange_declare, binding, entry_type, payload,
}
use ganshin_mq.Storage.Entry.Parsing.{FitsEntry, parse-payload}
use ganshin_mq.Storage.Wal.{
  max_entry_size, write_frame, write_entry, read_frame, RecoveryData, Recovering, no_data,
  apply_data, apply, recover_loop, without_acked, drop_acked, recover, write_all, live_entries,
  compact,
}
use ganshin_mq.Storage.Wal.Frames.{
  read-write_frame, read-oversize_frame, read-unfinished_frame, read-torn_frame,
}

-- An entry that fits, in a frame that recovery accepts.
abbrev pub Storable : Entry → Type 0
Storable e = FitsEntry e × (length (payload e) + 5 ≤ max_entry_size)

-- The effect of the entries, one after the other.
unfoldable pub replay : List Entry → Recovering → Recovering
replay [] r = r
replay (e ∷ es) r = replay es (apply e r)

-- What `recover` makes of the entries.
unfoldable pub recovered : List Entry → ℕ → Recovering
recovered es next =
    let r = replay es (record { result = no_data; next_msg_id = next }) in
    record r { result = without_acked r.result }

recover_loop-stops :
    (fuel : ℕ) (tail : Bytes) (r : Recovering)
    → read_frame tail ≡ none
    → recover_loop fuel tail r ≡ r
unfolding recover_loop
recover_loop-stops zero tail r e = refl
recover_loop-stops (suc fuel) tail r e = rw (e, recover_loop)

recover_loop-entry :
    (fuel : ℕ) (e : Entry) (rest : Bytes) (r : Recovering)
    → Storable e
    → recover_loop (suc fuel) (write_entry e ++ rest) r ≡ recover_loop fuel rest (apply e r)
unfolding recover_loop write_entry
recover_loop-entry fuel e rest r (fits, small) =
    rw (read-write_frame (entry_type e) (payload e) rest small, recover_loop)
      (rw (parse-payload e fits (omega arith)) refl)

recover_loop-log :
    (es : List Entry) (tail : Bytes) (fuel : ℕ) (r : Recovering)
    → All Storable es
    → read_frame tail ≡ none
    → length es ≤ fuel
    → recover_loop fuel (write_all es ++ tail) r ≡ replay es r
unfolding write_all replay
recover_loop-log [] tail fuel r s e h = recover_loop-stops fuel tail r e
recover_loop-log (x ∷ es) tail zero r s e h = absurd (omega arith)
recover_loop-log (x ∷ es) tail (suc fuel) r s e h =
    ap (λ file. recover_loop (suc fuel) file r) (append_assoc (write_entry x) (write_all es) tail)
    ∙ recover_loop-entry fuel x (write_all es ++ tail) r s.0
    ∙ recover_loop-log es tail fuel (apply x r) s.1 e (omega arith)

length-write_entry : (e : Entry) → 1 ≤ length (write_entry e)
unfolding write_entry write_frame write_uint32
length-write_entry e = omega arith

length-write_all : (es : List Entry) → length es ≤ length (write_all es)
unfolding write_all
length-write_all [] = omega arith
length-write_all (e ∷ es) =
    omega (
      arith,
      length-write_all es,
      length-write_entry e,
      length-append (write_entry e) (write_all es),
    )

-- Recovery of a log with anything unreadable behind it.
recover-log :
    (es : List Entry) (tail : Bytes) (next : ℕ)
    → All Storable es
    → read_frame tail ≡ none
    → recover (write_all es ++ tail) next ≡ recovered es next
unfolding recover recovered
recover-log es tail next s e =
    let looped : recover_loop (length (write_all es ++ tail)) (write_all es ++ tail)
          (record { result = no_data; next_msg_id = next })
        ≡ replay es (record { result = no_data; next_msg_id = next }) =
      recover_loop-log es tail _ _ s e
        (omega (arith, length-append (write_all es) tail, length-write_all es)) in
    ap (λ (r : Recovering). record r { result = without_acked r.result }) looped

-- A log that ends in a frame which was cut short anywhere, also before its first byte, recovers to
-- the effect of the whole entries before it, in order, less the acknowledged messages. What is
-- written behind a torn frame that has its size is not recovered either, as long as it is shorter
-- than what the frame lacks.
pub recover-torn :
    (es : List Entry) (e : Entry) (front : Bytes) (x : ℕ) (back more : Bytes) (next : ℕ)
    → All Storable es
    → length (payload e) + 5 < 2 ^ 32
    → write_entry e ≡ front ++ x ∷ back
    → (more ≡ []) ⊎ (4 ≤ length front) × (length more ≤ length back)
    → recover (write_all es ++ (front ++ more)) next ≡ recovered es next
unfolding write_entry
recover-torn es e front x back more next s small cut (inl none_behind) =
    recover-log es (front ++ more) next s (
      ap (λ bytes. read_frame (front ++ bytes)) none_behind
      ∙ ap read_frame (append-nil front)
      ∙ read-torn_frame (entry_type e) (payload e) front x back small cut)
recover-torn es e front x back more next s small cut (inr (sized, less)) =
    recover-log es (front ++ more) next s
      (read-unfinished_frame (entry_type e) (payload e) front x back more small cut sized less)

pub recover-whole :
    (es : List Entry) (next : ℕ) → All Storable es → recover (write_all es) next ≡ recovered es next
recover-whole es next s =
    ap (λ f. recover f next) (sym (append-nil (write_all es)))
    ∙ recover-log es [] next s (unfold read_frame read_uint32 in refl)

-- An entry of which the frame is above the largest size, but below 4 GB, hides itself and every
-- entry that is written behind it from recovery: the log recovers to the effect of the entries
-- before it.
pub recover-oversize :
    (es : List Entry) (big : Entry) (more : Bytes) (next : ℕ)
    → All Storable es
    → max_entry_size < length (payload big) + 5
    → length (payload big) + 5 < 2 ^ 32
    → recover (write_all es ++ (write_entry big ++ more)) next ≡ recovered es next
unfolding write_entry
recover-oversize es big more next s large h =
    recover-log es (write_frame (entry_type big) (payload big) ++ more) next s
      (read-oversize_frame (entry_type big) (payload big) more large h)

-- The data alone.
unfoldable pub replay_data : List Entry → RecoveryData → RecoveryData
replay_data [] d = d
replay_data (e ∷ es) d = replay_data es (apply_data e d)

pub replay-data :
    (es : List Entry) (r : Recovering) → (replay es r).result ≡ replay_data es r.result
unfolding replay replay_data apply
replay-data [] r = refl
replay-data (e ∷ es) r = replay-data es (apply e r)

replay_data-append :
    (es fs : List Entry) (d : RecoveryData)
    → replay_data (es ++ fs) d ≡ replay_data fs (replay_data es d)
unfolding replay_data
replay_data-append [] fs d = refl
replay_data-append (e ∷ es) fs d = replay_data-append es fs (apply_data e d)

replay-exchanges :
    (xs : List StoredExchangeDecl) (d : RecoveryData)
    → replay_data (map exchange_declare xs) d ≡ record d { exchanges = d.exchanges ++ xs }
unfolding replay_data apply_data
replay-exchanges [] d = ap (λ xs. record d { exchanges = xs }) (sym (append-nil d.exchanges))
replay-exchanges (x ∷ xs) d =
    replay-exchanges xs _
    ∙ ap (λ ys. record d { exchanges = ys }) (append_assoc d.exchanges (x ∷ []) xs)

replay-queues :
    (xs : List StoredQueueDecl) (d : RecoveryData)
    → replay_data (map queue_declare xs) d ≡ record d { queues = d.queues ++ xs }
unfolding replay_data apply_data
replay-queues [] d = ap (λ xs. record d { queues = xs }) (sym (append-nil d.queues))
replay-queues (x ∷ xs) d =
    replay-queues xs _ ∙ ap (λ ys. record d { queues = ys }) (append_assoc d.queues (x ∷ []) xs)

replay-bindings :
    (xs : List StoredBinding) (d : RecoveryData)
    → replay_data (map binding xs) d ≡ record d { bindings = d.bindings ++ xs }
unfolding replay_data apply_data
replay-bindings [] d = ap (λ xs. record d { bindings = xs }) (sym (append-nil d.bindings))
replay-bindings (x ∷ xs) d =
    replay-bindings xs _
    ∙ ap (λ ys. record d { bindings = ys }) (append_assoc d.bindings (x ∷ []) xs)

replay-messages :
    (xs : List StoredMessage) (d : RecoveryData)
    → replay_data (map message xs) d ≡ record d { messages = d.messages ++ xs }
unfolding replay_data apply_data
replay-messages [] d = ap (λ xs. record d { messages = xs }) (sym (append-nil d.messages))
replay-messages (x ∷ xs) d =
    replay-messages xs _
    ∙ ap (λ ys. record d { messages = ys }) (append_assoc d.messages (x ∷ []) xs)

replay-live :
    (d : RecoveryData) → replay_data (live_entries d) no_data ≡ record d { acked_messages = [] }
unfolding live_entries
replay-live d =
    replay_data-append (map exchange_declare d.exchanges) _ no_data
    ∙ rw (replay-exchanges d.exchanges no_data, replay_data-append (map queue_declare d.queues))
        (rw (replay-queues d.queues, replay_data-append (map binding d.bindings))
          (rw (replay-bindings d.bindings, replay-messages d.messages) refl))

recovered-live :
    (d : RecoveryData) (next : ℕ)
    → (recovered (live_entries d) next).result ≡ record d { acked_messages = [] }
unfolding recovered drop_acked
recovered-live d next =
    ap without_acked (
      replay-data (live_entries d) (record { result = no_data; next_msg_id = next })
      ∙ replay-live d)

-- Compaction is lossless: the compacted log recovers to the exchanges, queues, bindings and
-- messages that the log recovered to, with no acknowledgements left, provided these fit the log.
pub recover-compact :
    (file : Bytes) (next later : ℕ)
    → All Storable (live_entries (recover file next).result)
    → (recover (compact file next).0 later).result
      ≡ record ((recover file next).result) { acked_messages = [] }
unfolding compact
recover-compact file next later s =
    ap (λ (r : Recovering). r.result)
      (recover-whole (live_entries (recover file next).result) later s)
    ∙ recovered-live (recover file next).result later
