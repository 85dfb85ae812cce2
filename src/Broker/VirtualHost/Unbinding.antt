-- ===== src/Broker/VirtualHost/Unbinding.antt =====
-- The removal of all bindings of a queue.
use ganshin_mq.Base.{
  Bool, true, false, not, ◌&&◌, Bytes, List, [], ◌∷◌, Option, none, some, ◌==◌, bytes_eq, keep_if,
  any_of, ◌≡◌, refl, sym, ap, ◌∙◌, subst, ◌↔◌, arith, Bool-cases, inl, inr, ==_refl,
}
use ganshin_mq.Base.Map.{lookup}
use ganshin_mq.Amqp.FieldValue.{FieldTable}
use ganshin_mq.Broker.Exchange.{Binding, Exchange, remove_binding, binding_matches, route}
use ganshin_mq.Broker.Exchange.Routing.{Listed, first, later, targets, route-targets}
use ganshin_mq.Broker.Queue.{MessageQueue}
use ganshin_mq.Broker.VirtualHost.Queues.{unbind_loop, unbind_all}
use ganshin_mq.Broker.VirtualHost.Cleanup.{unbind_each}
use ganshin_mq.Broker.VirtualHost.Routed.{Listed-keep_if}

-- A binding of the queue that has one of the list's keys.
abbrev hit : Bytes → List Binding → Binding → Bool
hit q bs b =
    any_of (λ c. c.queue_name == q && (b.queue_name == q && b.routing_key == c.routing_key)) bs

keep_if-keep_if :
    (f g h : Binding → Bool) (bs : List Binding)
    → ((b : Binding) → h b ≡ (f b && g b))
    → keep_if g (keep_if f bs) ≡ keep_if h bs
keep_if-keep_if f g h [] e = refl
keep_if-keep_if f g h (b ∷ bs) e = ground (arith, e b, keep_if-keep_if f g h bs e)

keep_if-true : (bs : List Binding) → keep_if (λ b. true) bs ≡ bs
keep_if-true [] = refl
keep_if-true (b ∷ bs) = ap (◌∷◌ b) (keep_if-true bs)

unbind_loop-hit :
    (q : Bytes) (bs : List Binding) (ex : Exchange)
    → unbind_loop q bs ex ≡ record ex { bindings = keep_if (λ b. not (hit q bs b)) ex.bindings }
unfolding unbind_loop remove_binding
unbind_loop-hit q [] ex = ap (λ bs. record ex { bindings = bs }) (sym (keep_if-true ex.bindings))
unbind_loop-hit q (c ∷ bs) ex = elim (Bool-cases (c.queue_name == q)) [
  | inl t ↦
      rw (t, unbind_loop)
        (unbind_loop-hit q bs (remove_binding ex q c.routing_key)
          ∙ ap (λ bs. record ex { bindings = bs })
              (keep_if-keep_if _ _ _ ex.bindings (λ b. ground (arith, t))))
  | inr f ↦ rw (f, unbind_loop) (unbind_loop-hit q bs ex)
]

hit-Listed :
    (q : Bytes) (c : Binding) {bs : List Binding} → Listed c bs → hit q bs c ≡ (c.queue_name == q)
hit-Listed q c (first {x} {xs} e) = elim (Bool-cases (c.queue_name == q)) [
  | inl t ↦ ground (
    arith,
    t,
    ap (λ b. b.queue_name == q) e,
    ap (λ b. c.routing_key == b.routing_key) e,
    ==_refl c.routing_key,
  )
  | inr f ↦ missed f (x ∷ xs)
]
  where
    missed : (c.queue_name == q) ≡ false → (bs : List Binding) → hit q bs c ≡ (c.queue_name == q)
    missed f [] = sym f
    missed f (b ∷ bs) = ground (arith, f, missed f bs)
hit-Listed q c (later {x} {xs} l) = ground (arith, hit-Listed q c l)

-- A binding of the list is hit exactly if it is the queue's.
keep_if-hit :
    (q : Bytes) (all bs : List Binding)
    → ((b : Binding) → Listed b bs → Listed b all)
    → keep_if (λ b. not (hit q all b)) bs ≡ keep_if (λ b. not (b.queue_name == q)) bs
keep_if-hit q all [] sub = refl
keep_if-hit q all (b ∷ bs) sub =
    ground
      (arith, keep_if-hit q all bs (λ c l. sub c (later l)), hit-Listed q b (sub b (first refl)))

pub unbind_loop_lem :
    (q : Bytes) (ex : Exchange)
    → unbind_loop q ex.bindings ex
      ≡ record ex { bindings = keep_if (λ b. not (b.queue_name == q)) ex.bindings }
unbind_loop_lem q ex =
    unbind_loop-hit q ex.bindings ex
    ∙ ap (λ bs. record ex { bindings = bs }) (keep_if-hit q ex.bindings ex.bindings (λ b l. l))

targets-keep_if :
    (m : Binding → Bool) (q : Bytes) (bs : List Binding)
    → targets m (keep_if (λ b. not (b.queue_name == q)) bs)
      ≡ keep_if (λ n. not (n == q)) (targets m bs)
targets-keep_if m q [] = refl
targets-keep_if m q (b ∷ bs) = ground (arith, targets-keep_if m q bs)

pub lookup-unbind_all :
    (q e : Bytes) (exs : List (Bytes × Exchange))
    → lookup e (unbind_all q exs)
      ≡ elim (lookup e exs) [ none ↦ none | some ex ↦ some (unbind_loop q ex.bindings ex) ]
unfolding lookup unbind_all
lookup-unbind_all q e [] = refl
lookup-unbind_all q e ((n, ex) ∷ exs) = ground (arith, lookup-unbind_all q e exs)

abbrev pub named : Option Exchange → Bytes → Option FieldTable → List Bytes
named found key headers = elim found [ none ↦ [] | some ex ↦ route ex key headers ]

-- The queues that an exchange of the map names.
abbrev pub routed : List (Bytes × Exchange) → Bytes → Bytes → Option FieldTable → List Bytes
routed exs e key headers = named (lookup e exs) key headers

route-unbind_loop :
    (q : Bytes) (ex : Exchange) (key : Bytes) (headers : Option FieldTable)
    → route (unbind_loop q ex.bindings ex) key headers
      ≡ keep_if (λ n. not (n == q)) (route ex key headers)
route-unbind_loop q ex key headers =
    ap (λ x. route x key headers) (unbind_loop_lem q ex)
    ∙ route-targets (record ex { bindings = keep_if (λ b. not (b.queue_name == q)) ex.bindings })
        key headers
    ∙ targets-keep_if (binding_matches ex.kind key headers) q ex.bindings
    ∙ ap (keep_if (λ n. not (n == q))) (sym (route-targets ex key headers))

pub routed-unbind_all :
    (q e key : Bytes) (headers : Option FieldTable) (exs : List (Bytes × Exchange))
    → routed (unbind_all q exs) e key headers
      ≡ keep_if (λ n. not (n == q)) (routed exs e key headers)
routed-unbind_all q e key headers exs =
    ap (λ found. named found key headers) (lookup-unbind_all q e exs) ∙ with (lookup e exs)
  where
    with :
        (found : Option Exchange)
        → named
            (elim found [ none ↦ none | some ex ↦ some (unbind_loop q ex.bindings ex) ])
            key
            headers
          ≡ keep_if (λ n. not (n == q)) (named found key headers)
    with none = refl
    with (some ex) = route-unbind_loop q ex key headers

-- Whether the queue's name is one of those removed.
abbrev pub gone : {A : Type 0} → List (Bytes × A) → Bytes → Bool
gone removed n = any_of (λ (m, q). n == m) removed

pub routed-unbind_each :
    (removed : List (Bytes × MessageQueue)) (e key : Bytes) (headers : Option FieldTable)
    (exs : List (Bytes × Exchange)) (n : Bytes)
    → Listed n (routed (unbind_each removed exs) e key headers)
      ↔ ((gone removed n ≡ false) × Listed n (routed exs e key headers))
unfolding unbind_each
routed-unbind_each [] e key headers exs n = (λ l. (refl, l), λ (f, l). l)
routed-unbind_each ((m, q) ∷ removed) e key headers exs n =
    let ih = routed-unbind_each removed e key headers (unbind_all m exs) n in
    let step = routed-unbind_all m e key headers exs in
    (
      λ l.
          (let (f, k) = ih.0 l in
            let (g, j) = (Listed-keep_if _ n _).0 (subst (Listed n) step k) in
            (ground (arith, f, g), j)),
      λ (f, l). ih.1 (
        ground (arith, f),
        subst (Listed n) (sym step) ((Listed-keep_if _ n _).1 (ground (arith, f), l)),
      ),
    )
