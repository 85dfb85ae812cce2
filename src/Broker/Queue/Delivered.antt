-- ===== src/Broker/Queue/Delivered.antt =====
-- What a dispatch does: which messages it delivers, to whom, and when it stops.
use ganshin_mq.Base.{
  ℕ, zero, suc, ◌+◌, ◌-◌, ◌*◌, ◌%◌, ◌^◌, ◌<◌, ◌≤◌, dec_lt, true, false, List, [], ◌∷◌, ◌++◌, none,
  some, length, get_elem?, set, All, map, ◌≡◌, refl, ap, arith, Bool-cases, Option-cases, inl, inr,
  ◌⊎◌, length-set, subst,
}
use ganshin_mq.Broker.Message.{Message}
use ganshin_mq.Broker.Consumer.{Consumer}
use ganshin_mq.Broker.Queue.Dispatch.{
  Delivery, ready, take_slot, find_consumer, dispatch_loop, dispatch,
}

abbrev pub takens : List Delivery → List Message
takens out = map (λ d. d.taken) out

-- The outcome of the inner loop, with its consumer taken from the list.
found_cases :
    (n : ℕ) (cs : List Consumer) (rr : ℕ) (m : Message)
    → ((find_consumer n cs rr m).1 ≡ none)
      ⊎ ((i : ℕ) × (c : Consumer) × ((find_consumer n cs rr m).1 ≡ some (i, c))
          × (get_elem? cs i ≡ some c)
          × (ready c m ≡ true))
unfolding find_consumer
found_cases zero cs rr m = inl refl
found_cases (suc n) cs rr m = elim (Option-cases (get_elem? cs (rr % length cs))) [
  | inl e ↦ rw (e, find_consumer) (found_cases n cs ((rr + 1) % 2 ^ 64) m)
  | inr (c, e) ↦ elim (Bool-cases (ready c m)) [
    | inl t ↦ inr (rr % length cs, c, rw (e, find_consumer) (rw t refl), e, t)
    | inr f ↦ rw (e, find_consumer) (rw f (found_cases n cs ((rr + 1) % 2 ^ 64) m))
  ]
]

dispatch_loop-takens :
    (ms : List Message) (cs : List Consumer) (rr : ℕ)
    → let r = dispatch_loop ms cs rr in takens r.3 ++ r.0 ≡ ms
unfolding dispatch_loop
dispatch_loop-takens [] cs rr = refl
dispatch_loop-takens (m ∷ ms) cs rr = elim (found_cases (length cs) cs rr m) [
  | inl e ↦ rw (e, dispatch_loop)
  | inr (i, c, e, _, _) ↦
      rw (e, dispatch_loop)
        (ap (◌∷◌ m)
          (dispatch_loop-takens ms (set cs i (take_slot c)) (find_consumer (length cs) cs rr m).0))
]

-- A dispatch delivers messages off the front of the queue, in their order: those that it delivers
-- and those that it leaves are, one after the other, the messages that were there.
pub dispatch-takens :
    (ms : List Message) (cs : List Consumer) (rr : ℕ)
    → let r = dispatch ms cs rr in takens r.3 ++ r.0 ≡ ms
unfolding dispatch
dispatch-takens ms [] rr = refl
dispatch-takens ms (c ∷ cs) rr = dispatch_loop-takens ms (c ∷ cs) rr

-- The consumer holds no more unacknowledged messages than its prefetch count, if it has one.
abbrev pub WithinPrefetch : Consumer → Type 0
WithinPrefetch c =
    (c.prefetch_count < 2 ^ 16) × ((c.prefetch_count ≡ 0) ⊎ (c.in_flight ≤ c.prefetch_count))

All-set {ℓ κ} :
    {A : Type ℓ} (P : A → Type κ) (xs : List A) (i : ℕ) (v : A)
    → All P xs
    → P v
    → All P (set xs i v)
All-set P [] i v h p = h
All-set P (x ∷ xs) zero v h p = (p, h.1)
All-set P (x ∷ xs) (suc i) v h p = (h.0, All-set P xs i v h.1 p)

All_get {ℓ κ} :
    {A : Type ℓ} (P : A → Type κ) (xs : List A) (i : ℕ) {v : A}
    → All P xs
    → get_elem? xs i ≡ some v
    → P v
All_get P [] i h e = absurd (cc)
All_get P (x ∷ xs) zero {v} h e = let e' : x ≡ v = cc in subst P e' h.0
All_get P (x ∷ xs) (suc i) h e = All_get P xs i h.1 e

take_slot-WithinPrefetch :
    (c : Consumer) (m : Message)
    → ready c m ≡ true
    → WithinPrefetch c
    → WithinPrefetch (take_slot c)
unfolding ready take_slot
take_slot-WithinPrefetch c m h w = ground arith

dispatch_loop-WithinPrefetch :
    (ms : List Message) (cs : List Consumer) (rr : ℕ)
    → All WithinPrefetch cs
    → All WithinPrefetch (dispatch_loop ms cs rr).1
unfolding dispatch_loop
dispatch_loop-WithinPrefetch [] cs rr w = w
dispatch_loop-WithinPrefetch (m ∷ ms) cs rr w = elim (found_cases (length cs) cs rr m) [
  | inl e ↦ rw (e, dispatch_loop) w
  | inr (i, c, e, at, can) ↦
      rw (e, dispatch_loop)
        (dispatch_loop-WithinPrefetch ms (set cs i (take_slot c)) _ (
          All-set WithinPrefetch cs i (take_slot c) w
            (take_slot-WithinPrefetch c m can (All_get WithinPrefetch cs i w at))))
]

-- No dispatch takes a consumer over its prefetch count, if it was not over it before.
pub dispatch-WithinPrefetch :
    (ms : List Message) (cs : List Consumer) (rr : ℕ)
    → All WithinPrefetch cs
    → All WithinPrefetch (dispatch ms cs rr).1
unfolding dispatch
dispatch-WithinPrefetch ms [] rr w = w
dispatch-WithinPrefetch ms (c ∷ cs) rr w = dispatch_loop-WithinPrefetch ms (c ∷ cs) rr w

-- `attempts` rounds from `rr` on that find nobody have met a consumer that is not ready at each
-- of the places `(rr + k) % length cs`.
not_found :
    (n : ℕ) (cs : List Consumer) (rr : ℕ) (m : Message)
    → rr + n < 2 ^ 64
    → (find_consumer n cs rr m).1 ≡ none
    → (k : ℕ) (c : Consumer) → k < n
    → get_elem? cs ((rr + k) % length cs) ≡ some c
    → ready c m ≡ false
unfolding find_consumer
not_found zero cs rr m b e k c h at = absurd (omega arith)
not_found (suc n) cs rr m b e zero c h at =
    let at' : get_elem? cs (rr % length cs) ≡ some c =
      subst (λ i. get_elem? cs (i % length cs) ≡ some c) (omega arith) at in
    ground (arith, at')
not_found (suc n) cs rr m b e (suc k) c h at =
    let next : (rr + 1) % 2 ^ 64 ≡ rr + 1 = omega arith in
    let at' : get_elem? cs ((rr + 1 + k) % length cs) ≡ some c =
      subst (λ i. get_elem? cs (i % length cs) ≡ some c) (omega arith) at in
    not_found n cs (rr + 1) m (omega arith) (ground (arith, next)) k c (omega arith) at'

-- Some round of `n` meets the place `i`.
round_of : (rr i n : ℕ) → i < n → (k : ℕ) × (k < n) × ((rr + k) % n ≡ i)
round_of rr i n h = elim (dec_lt i (rr % n)) [
  | yes low ↦ (i + n - rr % n, omega arith, grind arith)
  | no high ↦ (i - rr % n, omega arith, grind arith)
]

get_elem-All {ℓ κ} :
    {A : Type ℓ} (P : A → Type κ) (xs : List A)
    → ((i : ℕ) (v : A) → i < length xs → get_elem? xs i ≡ some v → P v)
    → All P xs
get_elem-All P [] h = tt
get_elem-All P (x ∷ xs) h =
    (h 0 x (omega arith) refl, get_elem-All P xs (λ i v lt e. h (suc i) v (omega arith) e))

-- A scan over all consumers that finds nobody means that none of them is ready.
nobody_missed :
    (cs : List Consumer) (rr : ℕ) (m : Message)
    → rr + length cs < 2 ^ 64
    → (find_consumer (length cs) cs rr m).1 ≡ none
    → All (λ c. ready c m ≡ false) cs
nobody_missed cs rr m b e =
    get_elem-All (λ c. ready c m ≡ false) cs
      λ i c lt at.
        let (k, small, hit) = round_of rr i (length cs) lt in
        not_found (length cs) cs rr m b e k c small (rw hit at)

find_consumer-index-le :
    (n : ℕ) (cs : List Consumer) (rr : ℕ) (m : Message)
    → rr + n < 2 ^ 64
    → (find_consumer n cs rr m).0 ≤ rr + n
unfolding find_consumer
find_consumer-index-le zero cs rr m b = omega arith
find_consumer-index-le (suc n) cs rr m b =
    ground (arith, find_consumer-index-le n cs ((rr + 1) % 2 ^ 64) m)

dispatch_loop_stops :
    (ms : List Message) (cs : List Consumer) (rr : ℕ) (m : Message) (left : List Message)
    → rr + length ms * length cs < 2 ^ 64
    → (dispatch_loop ms cs rr).0 ≡ m ∷ left
    → All (λ c. ready c m ≡ false) (dispatch_loop ms cs rr).1
unfolding dispatch_loop
dispatch_loop_stops [] cs rr m left b e = absurd (cc)
dispatch_loop_stops (x ∷ ms) cs rr m left b e = elim (found_cases (length cs) cs rr x) [
  | inl nobody ↦
      let e' : x ∷ ms ≡ m ∷ left = rw (nobody, dispatch_loop) at e in
      let e'' : x ≡ m = cc in
      rw (nobody, dispatch_loop)
        (subst (λ y. All (λ c. ready c y ≡ false) cs) e''
          (nobody_missed cs rr x (omega arith) nobody))
  | inr (i, c, some_one, _, _) ↦
      rw (some_one, dispatch_loop)
        (dispatch_loop_stops ms (set cs i (take_slot c)) _ m left
          (rw (length-set cs i (take_slot c))
            (omega (arith, find_consumer-index-le (length cs) cs rr x (omega arith))))
          (rw (some_one, dispatch_loop) at e))
]

-- No consumer can take the message in front, if there is one.
abbrev pub NextRefused : List Message → List Consumer → Type 0
NextRefused [] cs = Unit
NextRefused (m ∷ ms) cs = All (λ c. ready c m ≡ false) cs

-- A dispatch stops with messages left only if no consumer can take the next one: each is at its
-- prefetch count, has lost its callback, or refuses the message as its own. The index of the next
-- consumer is assumed not to wrap around at 2 ^ 64 meanwhile.
pub dispatch_stops :
    (ms : List Message) (cs : List Consumer) (rr : ℕ)
    → rr + length ms * length cs < 2 ^ 64
    → NextRefused (dispatch ms cs rr).0 (dispatch ms cs rr).1
unfolding dispatch
dispatch_stops ms [] rr b = nobody ms
  where
    nobody : (ms : List Message) → NextRefused ms []
    nobody [] = tt
    nobody (m ∷ ms) = tt
dispatch_stops ms (c ∷ cs) rr b =
    let r = dispatch_loop ms (c ∷ cs) rr in
    with r.0 r.1 (λ m left e. dispatch_loop_stops ms (c ∷ cs) rr m left b e)
  where
    with :
        (left : List Message) (cs' : List Consumer)
        → ((m : Message) (rest : List Message) → left ≡ m ∷ rest → All (λ d. ready d m ≡ false) cs')
        → NextRefused left cs'
    with [] cs' h = tt
    with (m ∷ left) cs' h = h m left refl
