-- ===== src/Broker/VirtualHost/Routed.antt =====
-- Which queues a message reaches, and what the removal of queues does to it.
use ganshin_mq.Base.{
  Bool, true, false, Bytes, List, [], ◌∷◌, Option, none, some, ◌==◌, bytes_eq, bytes_beq_iff,
  keep_if, any_of, ◌≡◌, refl, sym, ap, ◌∙◌, ◌↔◌, arith, Bool-cases, Option-cases, inl, inr, ==_refl,
}
use ganshin_mq.Base.Map.{lookup}
use ganshin_mq.Amqp.FieldValue.{FieldTable}
use ganshin_mq.Broker.Exchange.{Exchange, route}
use ganshin_mq.Broker.Exchange.Routing.{Listed, first, later, Leads, route_iff}
use ganshin_mq.Broker.VirtualHost.State.{VirtualHost}
use ganshin_mq.Broker.VirtualHost.Delivery.{dedup, route_message}

module _ {ℓ} {A : Type ℓ} where
  pub Listed-keep_if :
      (p : A → Bool) (a : A) (xs : List A) → Listed a (keep_if p xs) ↔ ((p a ≡ true) × Listed a xs)
  Listed-keep_if p a [] = (λ l. elim l [ ], λ (t, l). elim l [ ])
  Listed-keep_if p a (x ∷ xs) = elim (Bool-cases (p x)) [
    | inl t ↦ rw t (kept t (Listed-keep_if p a xs))
    | inr f ↦ rw f (dropped f (Listed-keep_if p a xs))
  ]
    where
      kept :
          p x ≡ true
          → (Listed a (keep_if p xs) ↔ ((p a ≡ true) × Listed a xs))
          → Listed a (x ∷ keep_if p xs) ↔ ((p a ≡ true) × Listed a (x ∷ xs))
      kept t ih = (there, back)
        where
          there : Listed a (x ∷ keep_if p xs) → (p a ≡ true) × Listed a (x ∷ xs)
          there (first e) = (sym (ap p e) ∙ t, first e)
          there (later l) = ((ih.0 l).0, later (ih.0 l).1)

          back : (p a ≡ true) × Listed a (x ∷ xs) → Listed a (x ∷ keep_if p xs)
          back (h, first e) = first e
          back (h, later l) = later (ih.1 (h, l))

      dropped :
          p x ≡ false
          → (Listed a (keep_if p xs) ↔ ((p a ≡ true) × Listed a xs))
          → Listed a (keep_if p xs) ↔ ((p a ≡ true) × Listed a (x ∷ xs))
      dropped f ih = (λ l. ((ih.0 l).0, later (ih.0 l).1), back)
        where
          back : (p a ≡ true) × Listed a (x ∷ xs) → Listed a (keep_if p xs)
          back (h, first e) = absurd (cc (f, h, ap p e))
          back (h, later l) = ih.1 (h, l)

-- The names of a list are distinct.
pub Distinct : List Bytes → Type 0
Distinct [] = Unit
Distinct (q ∷ qs) = ((Listed q qs → ⊥) × Distinct qs)

-- Whether a name is among those seen.
abbrev pub among : List Bytes → Bytes → Bool
among seen q = any_of (λ s. s == q) seen

dedup_iff :
    (seen qs : List Bytes) (q : Bytes)
    → Listed q (dedup seen qs) ↔ ((among seen q ≡ false) × Listed q qs)
unfolding dedup
dedup_iff seen [] q = (λ l. elim l [ ], λ (t, l). elim l [ ])
dedup_iff seen (x ∷ qs) q = elim (Bool-cases (among seen x)) [
  | inl t ↦ rw (t, dedup) (skipped t (dedup_iff seen qs q))
  | inr f ↦ rw (f, dedup) (taken f (dedup_iff (x ∷ seen) qs q))
]
  where
    skipped :
        among seen x ≡ true
        → Listed q (dedup seen qs) ↔ ((among seen q ≡ false) × Listed q qs)
        → Listed q (dedup seen qs) ↔ ((among seen q ≡ false) × Listed q (x ∷ qs))
    skipped t ih = (λ l. ((ih.0 l).0, later (ih.0 l).1), back)
      where
        back : (among seen q ≡ false) × Listed q (x ∷ qs) → Listed q (dedup seen qs)
        back (h, first e) = absurd (cc (h, t, ap (among seen) e))
        back (h, later l) = ih.1 (h, l)

    taken :
        among seen x ≡ false
        → Listed q (dedup (x ∷ seen) qs) ↔ ((among (x ∷ seen) q ≡ false) × Listed q qs)
        → Listed q (x ∷ dedup (x ∷ seen) qs) ↔ ((among seen q ≡ false) × Listed q (x ∷ qs))
    taken f ih = (there, back)
      where
        there : Listed q (x ∷ dedup (x ∷ seen) qs) → (among seen q ≡ false) × Listed q (x ∷ qs)
        there (first e) = (sym (ap (among seen) e) ∙ f, first e)
        there (later l) = (ground (arith, (ih.0 l).0), later (ih.0 l).1)

        back : (among seen q ≡ false) × Listed q (x ∷ qs) → Listed q (x ∷ dedup (x ∷ seen) qs)
        back (h, first e) = first e
        back (h, later l) = elim (Bool-cases (x == q)) [
          | inl t ↦ first ((bytes_beq_iff x q).0 t)
          | inr n ↦ later (ih.1 (ground arith, l))
        ]

dedup-Distinct : (seen qs : List Bytes) → Distinct (dedup seen qs)
unfolding dedup Distinct
dedup-Distinct seen [] = tt
dedup-Distinct seen (x ∷ qs) = elim (Bool-cases (among seen x)) [
  | inl t ↦ rw (t, dedup) (dedup-Distinct seen qs)
  | inr f ↦
      rw (f, dedup)
        (
          λ l. ground (arith, (dedup_iff (x ∷ seen) qs x).0 l, ==_refl x),
          dedup-Distinct (x ∷ seen) qs,
        )
]

-- A message published to an exchange is routed to no queue twice, and to a queue exactly when a
-- binding of the exchange leads to it.
pub route_message_lem :
    (exchange key : Bytes) (headers : Option FieldTable) (v : VirtualHost) (ex : Exchange)
    → lookup exchange v.exchanges ≡ some ex
    → Distinct (route_message exchange key headers v)
      × ((q : Bytes)
          → Listed q (route_message exchange key headers v)
            ↔ Leads ex.kind key headers q ex.bindings)
unfolding route_message
route_message_lem exchange key headers v ex h =
    rw (h, route_message)
      (
        dedup-Distinct [] _,
        λ q. (
          λ l. (route_iff ex key headers q).0 ((dedup_iff [] _ q).0 l).1,
          λ l. (dedup_iff [] _ q).1 (refl, (route_iff ex key headers q).1 l),
        ),
      )

-- A queue's name in the exchange's targets.
pub route_message_iff :
    (exchange key : Bytes) (headers : Option FieldTable) (v : VirtualHost) (q : Bytes)
    → Listed q (route_message exchange key headers v)
      ↔ Listed q (elim (lookup exchange v.exchanges) [ none ↦ [] | some ex ↦ route ex key headers ])
unfolding route_message
route_message_iff exchange key headers v q = elim (Option-cases (lookup exchange v.exchanges)) [
  | inl n ↦ rw (n, route_message) (λ l. l, λ l. l)
  | inr (ex, s) ↦
      rw (s, route_message) (λ l. ((dedup_iff [] _ q).0 l).1, λ l. (dedup_iff [] _ q).1 (refl, l))
]
