-- ===== src/Broker/Queue/Expiry.antt =====
-- broker/queue.h: `effectiveTtl`, `hasPerMessageTtl` and `collectExpired`.
use ganshin_mq.Base.{
  ℕ, ◌-◌, ◌/◌, Bool, true, false, not, ◌&&◌, List, [], ◌∷◌, none, some, if◌then◌else◌, any_of,
}
use ganshin_mq.Base.Int.{ℤ, pos, negsuc, is_neg, min_ℤ, leb_ℤ}
use ganshin_mq.Broker.Message.{Message}
use ganshin_mq.Broker.Queue.Stoll.{stoll}

-- The message's own time to live; -1 where it has none, or one that is no number.
unfoldable pub message_ttl : Message → ℤ
message_ttl m = elim m.properties.expiration [
  | none ↦ negsuc 0
  | some text ↦ elim (stoll text) [ none ↦ negsuc 0 | some n ↦ n ]
]

unfoldable pub effective_ttl : ℤ → Message → ℤ
unfolding message_ttl
effective_ttl queue_ttl m =
    let per_msg = message_ttl m in
    if not (is_neg per_msg) && not (is_neg queue_ttl)
    then min_ℤ per_msg queue_ttl
    else if not (is_neg per_msg)
    then per_msg
    else queue_ttl

unfoldable pub has_per_message_ttl : List Message → Bool
has_per_message_ttl messages =
    any_of (λ m. elim m.properties.expiration [ none ↦ false | some e ↦ true ]) messages

-- The age in whole milliseconds has reached the time to live.
unfoldable pub expired : ℤ → ℕ → Message → Bool
unfolding effective_ttl
expired queue_ttl now m =
    let ttl = effective_ttl queue_ttl m in
    not (is_neg ttl) && leb_ℤ ttl (pos ((now - m.enqueued_at) / 1_000_000))

-- The loop takes expired messages off the front: the expired ones, and what is left.
unfoldable pub expire_loop : ℤ → ℕ → List Message → List Message × List Message
unfolding expired
expire_loop queue_ttl now [] = ([], [])
expire_loop queue_ttl now (m ∷ ms) =
    let rest = expire_loop queue_ttl now ms in
    if expired queue_ttl now m then (m ∷ rest.0, rest.1) else ([], m ∷ ms)

unfoldable pub collect_expired : ℤ → ℕ → List Message → List Message × List Message
unfolding has_per_message_ttl expire_loop
collect_expired queue_ttl now messages =
    if is_neg queue_ttl && not (has_per_message_ttl messages)
    then ([], messages)
    else expire_loop queue_ttl now messages
