-- ===== src/Amqp/FieldValue/Assigned.antt =====
-- What a table has under a name after an assignment.
use ganshin_mq.Base.{
  Bytes, some, ◌==◌, bytes_eq, bytes_beq_iff, if◌then◌else◌, lex_compare, Ordering, lex_compare_eq,
  lex_compare_refl, Ordering-cases, ◌≡◌, refl, sym, ap, ◌∙◌, arith, inl, inr,
}
use ganshin_mq.Amqp.FieldValue.{FieldValue, FieldTable, end, entry, find, assign}

pub find-assign :
    (k asked : Bytes) (v : FieldValue) (t : FieldTable)
    → find asked (assign k v t) ≡ (if k == asked then some v else find asked t)
unfolding find assign
find-assign k asked v end = refl
find-assign k asked v (entry j w t) = elim (Ordering-cases (lex_compare k j)) [
  | inl before ↦ rw (before, assign) refl
  | inr (inl same) ↦
      rw (same, assign)
        (ground (arith, lex_compare_eq k j same, bytes_beq_iff k asked, bytes_beq_iff j asked))
  | inr (inr behind) ↦
      rw (behind, assign)
        (ground (
          arith,
          find-assign k asked v t,
          later behind,
          bytes_beq_iff k asked,
          bytes_beq_iff j asked,
        ))
]
  where
    apart : ◌≡◌ {A = Ordering} Ordering.gt Ordering.eq → ⊥
    apart e = cc

    later : lex_compare k j ≡ Ordering.gt → k ≡ j → ⊥
    later h e = apart (sym h ∙ ap (lex_compare k) (sym e) ∙ lex_compare_refl k)
