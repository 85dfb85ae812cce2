-- ===== src/Broker/VirtualHost/Kinds.antt =====
-- What keeps the kind of the exchange under a name.
use ganshin_mq.Base.{
  Bool, ◌||◌, Bytes, codes, List, [], ◌∷◌, Option, none, some, ◌==◌, bytes_eq, nat_eq,
  bytes_beq_iff, if◌then◌else◌, starts_with, ◌≡◌, refl, sym, ap, ◌∙◌, arith, Bool-cases,
  Option-cases, inl, inr,
}
use ganshin_mq.Base.Map.{lookup, insert, lookup-insert}
use ganshin_mq.Amqp.FieldValue.{end}
use ganshin_mq.Broker.Exchange.{Exchange, Kind, add_binding}
use ganshin_mq.Broker.Queue.{MessageQueue}
use ganshin_mq.Broker.VirtualHost.Queues.{auto_bind, unbind_loop, unbind_all}
use ganshin_mq.Broker.VirtualHost.Cleanup.{unbind_each}
use ganshin_mq.Broker.VirtualHost.Unbinding.{lookup-unbind_all, unbind_loop_lem}

-- The kind of the exchange under a name.
unfoldable pub kind_of : Bytes → List (Bytes × Exchange) → Option Kind
kind_of n exs = elim (lookup n exs) [ none ↦ none | some ex ↦ some ex.kind ]

-- The names that no client can take away.
abbrev pub is_protected : Bytes → Bool
is_protected n = starts_with n (codes "amq.") || n == []

-- A change of the exchanges that keeps the kind under a name.
abbrev pub Keeps : Bytes → List (Bytes × Exchange) → List (Bytes × Exchange) → Type 0
Keeps n old new = (k : Kind) → kind_of n old ≡ some k → kind_of n new ≡ some k

abbrev pub found_kind : Option Exchange → Option Kind
found_kind found = elim found [ none ↦ none | some ex ↦ some ex.kind ]

pub kind_of-insert :
    (n e : Bytes) (new : Exchange) (exs : List (Bytes × Exchange))
    → kind_of n (insert e new exs) ≡ (if e == n then some new.kind else kind_of n exs)
unfolding kind_of
kind_of-insert n e new exs = ap found_kind (lookup-insert e n new exs) ∙ ground arith

pub kind_of-lookup :
    (e : Bytes) (exs : List (Bytes × Exchange)) (ex : Exchange)
    → lookup e exs ≡ some ex
    → kind_of e exs ≡ some ex.kind
unfolding kind_of
kind_of-lookup e exs ex h = ap found_kind h

pub insert-Keeps :
    (n e : Bytes) (old new : Exchange) (exs : List (Bytes × Exchange))
    → lookup e exs ≡ some old
    → new.kind ≡ old.kind
    → Keeps n exs (insert e new exs)
insert-Keeps n e old new exs h same k was = elim (Bool-cases (e == n)) [
  | inl t ↦
      kind_of-insert n e new exs
      ∙ ap (λ b. if b then some new.kind else kind_of n exs) t
      ∙ ap some same
      ∙ sym (kind_of-lookup e exs old h)
      ∙ ap (λ m. kind_of m exs) ((bytes_beq_iff e n).0 t)
      ∙ was
  | inr f ↦
      kind_of-insert n e new exs ∙ ap (λ b. if b then some new.kind else kind_of n exs) f ∙ was
]

pub insert_new-Keeps :
    (n e : Bytes) (new : Exchange) (exs : List (Bytes × Exchange))
    → lookup e exs ≡ none
    → Keeps n exs (insert e new exs)
unfolding kind_of
insert_new-Keeps n e new exs h k was = elim (Bool-cases (e == n)) [
  | inl t ↦
      absurd
        (cc (sym was ∙ ap (λ m. kind_of m exs) (sym ((bytes_beq_iff e n).0 t)) ∙ ap found_kind h))
  | inr f ↦
      kind_of-insert n e new exs ∙ ap (λ b. if b then some new.kind else kind_of n exs) f ∙ was
]

pub auto_bind-Keeps : (n q : Bytes) (exs : List (Bytes × Exchange)) → Keeps n exs (auto_bind q exs)
unfolding auto_bind add_binding
auto_bind-Keeps n q exs = elim (Option-cases (lookup [] exs)) [
  | inl h ↦ rw (h, auto_bind) (λ k was. was)
  | inr (ex, h) ↦ rw (h, auto_bind) (insert-Keeps n [] ex (add_binding ex q q end) exs h refl)
]

pub unbind_all-Keeps :
    (n q : Bytes) (exs : List (Bytes × Exchange)) → Keeps n exs (unbind_all q exs)
unfolding kind_of
unbind_all-Keeps n q exs k was =
    ap found_kind (lookup-unbind_all q n exs) ∙ with (lookup n exs) ∙ was
  where
    with :
        (found : Option Exchange)
        → found_kind (elim found [ none ↦ none | some ex ↦ some (unbind_loop q ex.bindings ex) ])
          ≡ found_kind found
    with none = refl
    with (some ex) = ap (λ x. some x.kind) (unbind_loop_lem q ex)

pub unbind_each-Keeps :
    (n : Bytes) (removed : List (Bytes × MessageQueue)) (exs : List (Bytes × Exchange))
    → Keeps n exs (unbind_each removed exs)
unfolding unbind_each
unbind_each-Keeps n [] exs k was = was
unbind_each-Keeps n ((m, q) ∷ removed) exs k was =
    unbind_each-Keeps n removed (unbind_all m exs) k (unbind_all-Keeps n m exs k was)
