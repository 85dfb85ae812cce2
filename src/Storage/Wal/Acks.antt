-- ===== src/Storage/Wal/Acks.antt =====
-- Which messages come back: those that were stored, neither acknowledged nor deleted with their
-- queue. Which ids new messages get.
use ganshin_mq.Base.{
  ℕ, ◌-◌, ◌^◌, ◌<◌, ◌≤◌, Bool, true, false, not, ◌&&◌, ◌||◌, Bytes, List, [], ◌∷◌, ◌++◌, ◌==◌,
  nat_eq, bytes_eq, bytes_beq_iff, keep_if, any_of, All, ◌≡◌, refl, sym, ap, ◌∙◌, arith, subst,
}
use ganshin_mq.Base.Map.{lookup, insert}
use ganshin_mq.Storage.Entry.{StoredMessage, Entry, message, ack, queue_delete}
use ganshin_mq.Storage.Wal.{
  RecoveryData, Recovering, no_data, ids_of, apply_data, apply_id, apply, is_acked, drop_acked,
  recover, write_all,
}
use ganshin_mq.Storage.Wal.Recovery.{
  Storable, replay, recovered, recover-whole, replay_data, replay-data,
}

-- The log acknowledges the message somewhere.
unfoldable pub acked_in : List Entry → StoredMessage → Bool
acked_in [] m = false
acked_in (ack q id ∷ es) m = (m.queue_name == q && m.id == id) || acked_in es m
acked_in (e ∷ es) m = acked_in es m

-- The messages that were stored, in order, without those of a queue that was deleted later.
unfoldable pub stored : List Entry → List StoredMessage → List StoredMessage
stored [] ms = ms
stored (message m ∷ es) ms = stored es (ms ++ (m ∷ []))
stored (queue_delete name ∷ es) ms = stored es (keep_if (λ m. not (m.queue_name == name)) ms)
stored (e ∷ es) ms = stored es ms

any_acked : List (Bytes × List ℕ) → StoredMessage → Bool
any_acked [] m = false
any_acked ((queue, ids) ∷ acked) m = is_acked queue ids m || any_acked acked m

any_of-append :
    {A : Type 0} (p : A → Bool) (xs ys : List A)
    → any_of p (xs ++ ys) ≡ (any_of p xs || any_of p ys)
any_of-append p [] ys = refl
any_of-append p (x ∷ xs) ys = ground (arith, any_of-append p xs ys)

any_acked-insert :
    (q : Bytes) (id : ℕ) (acked : List (Bytes × List ℕ)) (m : StoredMessage)
    → any_acked (insert q (ids_of (lookup q acked) ++ (id ∷ [])) acked) m
      ≡ (any_acked acked m || (m.queue_name == q && m.id == id))
unfolding any_acked insert lookup is_acked
any_acked-insert q id [] m = ground arith
any_acked-insert q id ((k, ids) ∷ acked) m = ground (
  arith,
  bytes_beq_iff k q,
  bytes_beq_iff m.queue_name k,
  bytes_beq_iff m.queue_name q,
  any_of-append (λ i. m.id == i) ids (id ∷ []),
  any_acked-insert q id acked m,
)

keep_if_twice :
    {A : Type 0} (p q : A → Bool) (xs : List A)
    → keep_if q (keep_if p xs) ≡ keep_if (λ x. p x && q x) xs
keep_if_twice p q [] = refl
keep_if_twice p q (x ∷ xs) = ground (arith, keep_if_twice p q xs)

keep_if_cong :
    {A : Type 0} (p q : A → Bool)
    → ((x : A) → p x ≡ q x)
    → (xs : List A) → keep_if p xs ≡ keep_if q xs
keep_if_cong p q e [] = refl
keep_if_cong p q e (x ∷ xs) = ground (arith, e x, keep_if_cong p q e xs)

drop_acked-keep_if :
    (acked : List (Bytes × List ℕ)) (ms : List StoredMessage)
    → drop_acked acked ms ≡ keep_if (λ m. not (any_acked acked m)) ms
unfolding drop_acked any_acked
drop_acked-keep_if [] ms = keep_all ms
  where
    keep_all : (ms : List StoredMessage) → ms ≡ keep_if (λ m. true) ms
    keep_all [] = refl
    keep_all (m ∷ ms) = ap (◌∷◌ m) (keep_all ms)
drop_acked-keep_if ((queue, ids) ∷ acked) ms =
    drop_acked-keep_if acked _
    ∙ keep_if_twice (λ m. not (is_acked queue ids m)) (λ m. not (any_acked acked m)) ms
    ∙ keep_if_cong _ _ (λ m. ground arith) ms

replay_data-acked :
    (es : List Entry) (d : RecoveryData) (m : StoredMessage)
    → any_acked (replay_data es d).acked_messages m
      ≡ (any_acked d.acked_messages m || acked_in es m)
unfolding replay_data apply_data acked_in
replay_data-acked [] d m = ground arith
replay_data-acked (ack q id ∷ es) d m = ground (
  arith,
  any_acked-insert q id d.acked_messages m,
  replay_data-acked es (apply_data (ack q id) d) m,
)
replay_data-acked (e ∷ es) d m = replay_data-acked es (apply_data e d) m

replay_data-stored :
    (es : List Entry) (d : RecoveryData) → (replay_data es d).messages ≡ stored es d.messages
unfolding replay_data apply_data stored
replay_data-stored [] d = refl
replay_data-stored (message m ∷ es) d = replay_data-stored es (apply_data (message m) d)
replay_data-stored (e ∷ es) d = replay_data-stored es (apply_data e d)

recovered-messages :
    (es : List Entry) (next : ℕ)
    → (recovered es next).result.messages ≡ keep_if (λ m. not (acked_in es m)) (stored es [])
unfolding recovered any_acked
recovered-messages es next =
    ap (λ (d : RecoveryData). drop_acked d.acked_messages d.messages)
      (replay-data es (record { result = no_data; next_msg_id = next }))
    ∙ drop_acked-keep_if (replay_data es no_data).acked_messages _
    ∙ keep_if_cong _ _ (λ m. ap not (replay_data-acked es no_data m)) _
    ∙ ap (keep_if (λ m. not (acked_in es m))) (replay_data-stored es no_data)

-- The messages that recovery brings back are, in order, those that were stored, except those of a
-- queue that was deleted later and those that the log acknowledges anywhere, before or after.
pub recover-messages :
    (es : List Entry) (next : ℕ)
    → All Storable es
    → (recover (write_all es) next).result.messages
      ≡ keep_if (λ m. not (acked_in es m)) (stored es [])
recover-messages es next s =
    ap (λ (r : Recovering). r.result.messages) (recover-whole es next s)
    ∙ recovered-messages es next

-- The entry stores no message with this id or a higher one.
abbrev pub IdBelow : ℕ → Entry → Type 0
IdBelow n (message m) = m.id < n
IdBelow n e = Unit

IdBelow-mono : (n k : ℕ) (e : Entry) → n ≤ k → IdBelow n e → IdBelow k e
IdBelow-mono n k (message m) h b = omega arith
IdBelow-mono n k (ack q id) h b = tt
IdBelow-mono n k e h b = tt

apply_id-le :
    (e : Entry) (n : ℕ) → IdBelow (2 ^ 64 - 1) e → (n ≤ apply_id e n) × IdBelow (apply_id e n) e
unfolding apply_id
apply_id-le (message m) n b = ground arith
apply_id-le (ack q id) n b = (omega arith, tt)
apply_id-le e n b = (omega arith, tt)

replay-next-le :
    (es : List Entry) (r : Recovering)
    → All (IdBelow (2 ^ 64 - 1)) es
    → (r.next_msg_id ≤ (replay es r).next_msg_id) × All (IdBelow (replay es r).next_msg_id) es
unfolding replay apply
replay-next-le [] r b = (omega arith, tt)
replay-next-le (e ∷ es) r b =
    let (grows, own) = apply_id-le e r.next_msg_id b.0 in
    let (later, all) = replay-next-le es (apply e r) b.1 in
    (omega arith, (IdBelow-mono _ _ e later own, all))

-- After recovery the next message id is above the id of every message that the log has an entry
-- of, also of those that the log acknowledges or that went with their queue, and not below what it
-- was. Messages of which compaction has dropped the entry, or that stand behind an unreadable one,
-- are none of these. Ids are assumed not to have reached the end of their 64 bits.
pub recover-next_msg_id :
    (es : List Entry) (next : ℕ)
    → All Storable es
    → All (IdBelow (2 ^ 64 - 1)) es
    → (next ≤ (recover (write_all es) next).next_msg_id)
      × All (IdBelow (recover (write_all es) next).next_msg_id) es
unfolding recovered
recover-next_msg_id es next s b =
    subst (λ (r : Recovering). (next ≤ r.next_msg_id) × All (IdBelow r.next_msg_id) es)
      (sym (recover-whole es next s))
      (replay-next-le es (record { result = no_data; next_msg_id = next }) b)
