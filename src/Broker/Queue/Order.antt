-- ===== src/Broker/Queue/Order.antt =====
-- Which messages expire, and the order that the priorities give.
use ganshin_mq.Base.{
  ℕ, suc, ◌≤◌, Bool, true, false, not, ◌&&◌, List, [], ◌∷◌, ◌++◌, ◌==◌, nat_eq, length, All,
  keep_if, ◌≡◌, refl, ap, ◌∙◌, arith, Bool-cases, inl, inr,
}
use ganshin_mq.Base.Int.{ℤ, is_neg}
use ganshin_mq.Broker.Message.{Message, effective_priority}
use ganshin_mq.Broker.Queue.Expiry.{
  message_ttl, effective_ttl, has_per_message_ttl, expired, expire_loop, collect_expired,
}
use ganshin_mq.Broker.Queue.Sort.{insert_sorted, stable_sort}

-- The message in front, if there is one, passes no test.
abbrev pub HeadFails : (Message → Bool) → List Message → Type 0
HeadFails p [] = Unit
HeadFails p (m ∷ ms) = p m ≡ false

-- Without a queue limit and without limits of their own no message ever expires.
never_expires :
    (ttl : ℤ) (now : ℕ) (ms : List Message)
    → is_neg ttl ≡ true
    → has_per_message_ttl ms ≡ false
    → HeadFails (expired ttl now) ms
unfolding has_per_message_ttl expired effective_ttl message_ttl
never_expires ttl now [] h k = tt
never_expires ttl now (m ∷ ms) h k = ground arith

expire_loop_lem :
    (ttl : ℤ) (now : ℕ) (ms : List Message)
    → let r = expire_loop ttl now ms in
      (r.0 ++ r.1 ≡ ms) × All (λ m. expired ttl now m ≡ true) r.0 × HeadFails (expired ttl now) r.1
unfolding expire_loop
expire_loop_lem ttl now [] = (refl, tt, tt)
expire_loop_lem ttl now (m ∷ ms) = elim (Bool-cases (expired ttl now m)) [
  | inl t ↦
      let (joined, all, head) = expire_loop_lem ttl now ms in
      rw (t, expire_loop) (ap (◌∷◌ m) joined, (t, all), head)
  | inr f ↦ rw (f, expire_loop) (refl, tt, f)
]

-- Expiry takes messages off the front of the queue, as long as they have reached their time to
-- live: it takes expired messages only, the next one is not expired, and taken and kept messages
-- are, in order, those that were there. The early return changes nothing of that.
pub collect_expired_lem :
    (ttl : ℤ) (now : ℕ) (ms : List Message)
    → let r = collect_expired ttl now ms in
      (r.0 ++ r.1 ≡ ms) × All (λ m. expired ttl now m ≡ true) r.0 × HeadFails (expired ttl now) r.1
unfolding collect_expired
collect_expired_lem ttl now ms = elim (Bool-cases (is_neg ttl && not (has_per_message_ttl ms))) [
  | inl t ↦
      rw (t, collect_expired) (refl, tt, never_expires ttl now ms (ground arith) (ground arith))
  | inr f ↦ rw (f, collect_expired) (expire_loop_lem ttl now ms)
]

pub collect_expired_none :
    (ttl : ℤ) (now : ℕ) (m : Message) (ms : List Message)
    → expired ttl now m ≡ false
    → collect_expired ttl now (m ∷ ms) ≡ ([], m ∷ ms)
unfolding collect_expired expire_loop
collect_expired_none ttl now m ms h = ground arith

-- Priorities do not rise from one message to the next.
abbrev pub IsSorted : List Message → Type 0
IsSorted [] = Unit
IsSorted (m ∷ []) = Unit
IsSorted (m ∷ x ∷ xs) = (effective_priority x ≤ effective_priority m) × IsSorted (x ∷ xs)

insert_sorted-IsSorted :
    (m : Message) (xs : List Message) → IsSorted xs → IsSorted (insert_sorted m xs)
unfolding insert_sorted
insert_sorted-IsSorted m [] h = tt
insert_sorted-IsSorted m (x ∷ []) h = ground arith
insert_sorted-IsSorted m (x ∷ y ∷ xs) h = ground (arith, insert_sorted-IsSorted m (y ∷ xs))

stable_sort-IsSorted : (ms : List Message) → IsSorted (stable_sort ms)
unfolding stable_sort
stable_sort-IsSorted [] = tt
stable_sort-IsSorted (m ∷ ms) = insert_sorted-IsSorted m (stable_sort ms) (stable_sort-IsSorted ms)

-- The messages of one priority.
abbrev pub of_priority : ℕ → List Message → List Message
of_priority p ms = keep_if (λ m. effective_priority m == p) ms

insert_sorted-of_priority :
    (p : ℕ) (m : Message) (xs : List Message)
    → of_priority p (insert_sorted m xs) ≡ of_priority p (m ∷ xs)
unfolding insert_sorted
insert_sorted-of_priority p m [] = refl
insert_sorted-of_priority p m (x ∷ xs) = ground (arith, insert_sorted-of_priority p m xs)

stable_sort-of_priority :
    (p : ℕ) (ms : List Message) → of_priority p (stable_sort ms) ≡ of_priority p ms
unfolding stable_sort
stable_sort-of_priority p [] = refl
stable_sort-of_priority p (m ∷ ms) =
    insert_sorted-of_priority p m (stable_sort ms) ∙ ground (arith, stable_sort-of_priority p ms)

-- Sorting by priority puts higher priorities first, and keeps of each priority the messages that
-- there were, in their order.
pub stable_sort_lem :
    (ms : List Message)
    → IsSorted (stable_sort ms) × ((p : ℕ) → of_priority p (stable_sort ms) ≡ of_priority p ms)
stable_sort_lem ms = (stable_sort-IsSorted ms, λ p. stable_sort-of_priority p ms)

insert_sorted-length :
    (m : Message) (xs : List Message) → length (insert_sorted m xs) ≡ suc (length xs)
unfolding insert_sorted
insert_sorted-length m [] = refl
insert_sorted-length m (x ∷ xs) = ground (arith, insert_sorted-length m xs)

pub stable_sort-length : (ms : List Message) → length (stable_sort ms) ≡ length ms
unfolding stable_sort
stable_sort-length [] = refl
stable_sort-length (m ∷ ms) =
    insert_sorted-length m (stable_sort ms) ∙ ap suc (stable_sort-length ms)
