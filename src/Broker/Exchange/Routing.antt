-- ===== src/Broker/Exchange/Routing.antt =====
-- What `route` returns for each type of exchange, and the effect of binding and unbinding.
use ganshin_mq.Base.{
  Bool, true, false, not, Bytes, codes, List, [], ◌∷◌, ◌++◌, Option, none, some, ◌==◌, bytes_eq,
  bytes_beq_iff, if◌then◌else◌, keep_if, any_of, starts_with, map, ◌≡◌, refl, sym, subst, ◌∙◌, ◌↔◌,
  arith, append_assoc, append-nil, Bool-cases, inl, inr,
}
use ganshin_mq.Amqp.FieldValue.{FieldValue, FieldTable, end, entry, find, string_val}
use ganshin_mq.Broker.Exchange.{
  Binding, Exchange, Kind, direct_exchange, fanout_exchange, topic_exchange, headers_exchange,
  match_arguments, match_all_mode, match_headers, binding_matches, route_loop, route,
}
use ganshin_mq.Broker.Exchange.TopicMatch.{topic_match_iff}
use ganshin_mq.Broker.Exchange.Topic.{split_dot}
use ganshin_mq.Broker.Exchange.TopicProofs.{Matches}

-- The queues of the bindings that pass a test, in order.
abbrev pub targets : (Binding → Bool) → List Binding → List Bytes
targets matches bs = map (λ b. b.queue_name) (keep_if matches bs)

route_loop-targets :
    (m : Binding → Bool) (bs : List Binding) (out : List Bytes)
    → route_loop m bs out ≡ out ++ targets m bs
unfolding route_loop
route_loop-targets m [] out = sym (append-nil out)
route_loop-targets m (b ∷ bs) out = elim (Bool-cases (m b)) [
  | inl t ↦
      rw (t, route_loop)
        (route_loop-targets m bs (out ++ (b.queue_name ∷ [])) ∙ append_assoc out _ _)
  | inr f ↦ rw (f, route_loop) (route_loop-targets m bs out)
]

pub route-targets :
    (ex : Exchange) (key : Bytes) (headers : Option FieldTable)
    → route ex key headers ≡ targets (binding_matches ex.kind key headers) ex.bindings
unfolding route
route-targets ex key headers = route_loop-targets _ ex.bindings []

-- The names of a binding's arguments that are looked for: all that do not start with `x-`.
pub wanted : FieldTable → List Bytes
wanted end = []
wanted (entry name v t) = if starts_with name (codes "x-") then wanted t else name ∷ wanted t

pub present : FieldTable → Bytes → Bool
present headers name = elim (find name headers) [ none ↦ false | some v ↦ true ]

match_arguments-all :
    (t headers : FieldTable)
    → match_arguments true t headers ≡ not (any_of (λ name. not (present headers name)) (wanted t))
unfolding match_arguments wanted present
match_arguments-all end headers = refl
match_arguments-all (entry name v t) headers = ground (arith, match_arguments-all t headers)

match_arguments-any :
    (t headers : FieldTable) → match_arguments false t headers ≡ any_of (present headers) (wanted t)
unfolding match_arguments wanted present
match_arguments-any end headers = refl
match_arguments-any (entry name v t) headers = ground (arith, match_arguments-any t headers)

-- The binding has `x-match: any`.
abbrev pub asks_any : FieldTable → Bool
asks_any args = elim (find (codes "x-match") args) [
  | none ↦ false
  | some v ↦ string_val v == codes "any"
]

-- One of the wanted names is a header, if the binding asks for any, else all of them are.
pub has_wanted : FieldTable → FieldTable → Bool
has_wanted args headers =
    if asks_any args
    then any_of (present headers) (wanted args)
    else not (any_of (λ name. not (present headers name)) (wanted args))

-- A headers binding with `x-match: any` matches a message that has one of the wanted header
-- names; any other one matches a message that lacks none of them. Header values play no part.
pub match_headers_lem :
    (args headers : FieldTable) → match_headers args headers ≡ has_wanted args headers
unfolding match_headers match_all_mode has_wanted
match_headers_lem args headers = by_mode (find (codes "x-match") args)
  where
    by_mode :
        (found : Option FieldValue)
        → match_arguments
            (elim found [ none ↦ true | some v ↦ not (string_val v == codes "any") ])
            args
            headers
          ≡ (if elim found [ none ↦ false | some v ↦ string_val v == codes "any" ]
              then any_of (present headers) (wanted args)
              else not (any_of (λ name. not (present headers name)) (wanted args)))
    by_mode none = match_arguments-all args headers
    by_mode (some v) =
        ground (arith, match_arguments-all args headers, match_arguments-any args headers)

-- What each type of exchange asks of a binding.
unfoldable pub MustMatch : Kind → Bytes → Option FieldTable → Binding → Type 0
MustMatch direct_exchange key headers b = b.routing_key ≡ key
MustMatch fanout_exchange key headers b = Unit
MustMatch topic_exchange key headers b = Matches (split_dot b.routing_key) (split_dot key)
MustMatch headers_exchange key headers b =
    (h : FieldTable) × (headers ≡ some h) × (has_wanted b.arguments h ≡ true)

-- The queue stands in the list.
pub data Listed {ℓ} {A : Type ℓ} (a : A) : List A → Type ℓ where
  first : {x : A} {xs : List A} → x ≡ a → Listed a (x ∷ xs)
  later : {x : A} {xs : List A} → Listed a xs → Listed a (x ∷ xs)

-- Some binding of the list leads to the queue.
pub data Leads (k : Kind) (key : Bytes) (headers : Option FieldTable) (q : Bytes)
    : List Binding → Type 0 where
  by_first :
      {b : Binding} {bs : List Binding}
      → b.queue_name ≡ q
      → MustMatch k key headers b
      → Leads k key headers q (b ∷ bs)
  by_later :
      {b : Binding} {bs : List Binding} → Leads k key headers q bs → Leads k key headers q (b ∷ bs)

binding_matches_iff :
    (k : Kind) (key : Bytes) (headers : Option FieldTable) (b : Binding)
    → (binding_matches k key headers b ≡ true) ↔ MustMatch k key headers b
unfolding binding_matches MustMatch
binding_matches_iff direct_exchange key headers b = bytes_beq_iff b.routing_key key
binding_matches_iff fanout_exchange key headers b = (λ _. tt, λ _. refl)
binding_matches_iff topic_exchange key headers b = topic_match_iff b.routing_key key
binding_matches_iff headers_exchange key none b = (λ h. cc, λ (h, e, m). cc)
binding_matches_iff headers_exchange key (some h) b =
    let same = match_headers_lem b.arguments h in
    (
      λ m. (h, refl, sym same ∙ m),
      λ (h', e, m). same ∙ subst (λ x. has_wanted b.arguments x ≡ true) (unwrap e) m,
    )
  where
    unwrap : {h' : FieldTable} → ◌≡◌ {A = Option FieldTable} (some h) (some h') → h' ≡ h
    unwrap e = cc

Listed-Leads :
    (k : Kind) (key : Bytes) (headers : Option FieldTable) (q : Bytes) (bs : List Binding)
    → Listed q (targets (binding_matches k key headers) bs)
    → Leads k key headers q bs
Listed-Leads k key headers q [] l = elim l [ ]
Listed-Leads k key headers q (b ∷ bs) l = elim (Bool-cases (binding_matches k key headers b)) [
  | inl t ↦
      head_case ((binding_matches_iff k key headers b).0 t) (rw t at l)
        (Listed-Leads k key headers q bs)
  | inr f ↦ by_later (Listed-Leads k key headers q bs (rw f at l))
]
  where
    head_case :
        MustMatch k key headers b
        → {rest : List Bytes} → Listed q (b.queue_name ∷ rest)
        → (Listed q rest → Leads k key headers q bs)
        → Leads k key headers q (b ∷ bs)
    head_case m (first e) ih = by_first e m
    head_case m (later r) ih = by_later (ih r)

Leads-Listed :
    {k : Kind} {key : Bytes} {headers : Option FieldTable} {q : Bytes} {bs : List Binding}
    → Leads k key headers q bs
    → Listed q (targets (binding_matches k key headers) bs)
Leads-Listed {k} {key} {headers} (by_first {b = b} e m) =
    rw ((binding_matches_iff k key headers b).1 m) (first e)
Leads-Listed {k} {key} {headers} (by_later {b = b} r) =
    elim (Bool-cases (binding_matches k key headers b)) [
      | inl t ↦ rw t (later (Leads-Listed r))
      | inr f ↦ rw f (Leads-Listed r)
    ]

-- `route` names a queue exactly when one of the exchange's bindings leads to it: by an equal key
-- for a direct exchange, always for a fanout exchange, by the pattern's words for a topic
-- exchange, and for a headers exchange, when the message has headers, by the names of the binding's
-- arguments that do not start with `x-`: one of them must be the name of a header if the argument
-- `x-match` is `any`, else all must be.
pub route_iff :
    (ex : Exchange) (key : Bytes) (headers : Option FieldTable) (q : Bytes)
    → Listed q (route ex key headers) ↔ Leads ex.kind key headers q ex.bindings
route_iff ex key headers q =
    rw (route-targets ex key headers) (Listed-Leads ex.kind key headers q ex.bindings, Leads-Listed)
