-- ===== src/Broker/Exchange/TopicMatch.antt =====
-- `topicMatch` decides the matching relation, and `splitDot` splits a text into its words.
use ganshin_mq.Base.{
  ℕ, zero, suc, ◌+◌, Bool, true, false, ◌&&◌, Bytes, codes, List, [], ◌∷◌, ◌++◌, ◌==◌, bytes_eq,
  bytes_beq_iff, if◌then◌else◌, length, get_or, replicate, ◌≡◌, refl, sym, ap, ◌∙◌, arith, ◌↔◌,
  length-set, length-replicate, append_assoc, append-nil, Bool-cases, inl, inr, All, not, nat_eq,
  fun_ext, nat_beq_iff,
}
use ganshin_mq.Broker.Exchange.Topic.{
  split_loop, split_dot, hash_loop, word_loop, pattern_step, pattern_loop, topic_match,
}
use ganshin_mq.Broker.Exchange.TopicProofs.{
  Matches, done, hash_none, hash_word, word, matches, hash_match, word_match, alive,
  pattern_step-alive, word_loop-length,
}

hash_loop-length : (n j : ℕ) (dp : List Bool) → length (hash_loop n j dp) ≡ length dp
unfolding hash_loop
hash_loop-length zero j dp = refl
hash_loop-length (suc n) j dp = hash_loop-length n (j + 1) _ ∙ length-set dp j _

pattern_step-length :
    (p : Bytes) (ks : List Bytes) (dp : List Bool) → length (pattern_step p ks dp) ≡ length dp
unfolding pattern_step
pattern_step-length p ks dp = ground (
  arith,
  hash_loop-length (length ks) 1 dp,
  word_loop-length p ks (length ks) dp,
  length-set (word_loop p ks (length ks) dp) 0 false,
)

alive_nil :
    (dp : List Bool) (ks : List Bytes)
    → length dp ≡ suc (length ks)
    → get_or dp (length ks) false ≡ alive (matches []) dp ks
unfolding alive matches
alive_nil [] ks e = absurd (omega arith)
alive_nil (d ∷ ds) [] e = ground arith
alive_nil (d ∷ ds) (k ∷ ks) e = ground (arith, alive_nil ds ks)

matches-cons :
    (p : Bytes) (ps : List Bytes)
    → (if p == codes "#" then hash_match (matches ps) else word_match (matches ps) p)
      ≡ matches (p ∷ ps)
unfolding matches
matches-cons p ps = fun_ext λ ks. ground arith

pattern_loop-alive :
    (ps ks : List Bytes) (dp : List Bool)
    → length dp ≡ suc (length ks)
    → get_or (pattern_loop ps ks dp) (length ks) false ≡ alive (matches ps) dp ks
unfolding pattern_loop
pattern_loop-alive [] ks dp e = alive_nil dp ks e
pattern_loop-alive (p ∷ ps) ks [] e = absurd (omega arith)
pattern_loop-alive (p ∷ ps) ks (d ∷ ds) e =
    pattern_loop-alive ps ks (pattern_step p ks (d ∷ ds)) (pattern_step-length p ks (d ∷ ds) ∙ e)
    ∙ pattern_step-alive (matches ps) p d ds ks (omega arith)
    ∙ ap (λ m. alive m (d ∷ ds) ks) (matches-cons p ps)

alive_none :
    (m : List Bytes → Bool) (ks : List Bytes)
    → alive m (replicate (suc (length ks)) false) ks ≡ false
unfolding alive
alive_none m [] = refl
alive_none m (k ∷ ks) = alive_none m ks

alive_start :
    (m : List Bytes → Bool) (ks : List Bytes)
    → alive m (true ∷ replicate (length ks) false) ks ≡ m ks
unfolding alive
alive_start m [] = refl
alive_start m (k ∷ ks) = ground (arith, alive_none m ks)

topic_match-matches :
    (pattern key : Bytes) → topic_match pattern key ≡ matches (split_dot pattern) (split_dot key)
unfolding topic_match
topic_match-matches pattern key =
    let ks : List Bytes = split_dot key in
    pattern_loop-alive (split_dot pattern) ks _ (omega (arith, length-replicate (length ks) false))
    ∙ alive_start (matches (split_dot pattern)) ks

Matches-matches : {ps ks : List Bytes} → Matches ps ks → matches ps ks ≡ true
unfolding matches hash_match word_match
Matches-matches done = refl
Matches-matches (hash_none {p = p} {ks = []} e m) =
    ground (arith, bytes_beq_iff p (codes "#"), Matches-matches m)
Matches-matches (hash_none {p = p} {ks = k ∷ ks} e m) =
    ground (arith, bytes_beq_iff p (codes "#"), Matches-matches m)
Matches-matches (hash_word {p = p} e m) =
    ground (arith, bytes_beq_iff p (codes "#"), Matches-matches m)
Matches-matches (word {p = p} ne w m) =
    ground (arith, bytes_beq_iff p (codes "#"), Matches-matches m)

matches-Matches : (ps ks : List Bytes) → matches ps ks ≡ true → Matches ps ks
unfolding matches hash_match word_match
matches-Matches [] [] h = done
matches-Matches [] (k ∷ ks) h = cc
matches-Matches (p ∷ ps) [] h = elim (Bool-cases (p == codes "#")) [
  | inl t ↦ hash_none ((bytes_beq_iff p (codes "#")).0 t) (matches-Matches ps [] (rw t at h))
  | inr f ↦ absurd (ground arith)
]
matches-Matches (p ∷ ps) (k ∷ ks) h = elim (Bool-cases (p == codes "#")) [
  | inl t ↦ elim (Bool-cases (matches ps (k ∷ ks))) [
    | inl here ↦ hash_none ((bytes_beq_iff p (codes "#")).0 t) (matches-Matches ps (k ∷ ks) here)
    | inr later ↦
        hash_word ((bytes_beq_iff p (codes "#")).0 t)
          (matches-Matches (p ∷ ps) ks (rw t (rw (t, later) at h)))
  ]
  | inr f ↦
      word (λ e. ground (arith, bytes_beq_iff p (codes "#"))) (ground arith)
        (matches-Matches ps ks (ground arith))
]

-- A topic exchange matches a routing key against a binding's pattern exactly when the words of
-- the pattern match the words of the key: `#` any number of words, `*` one word, any other word
-- itself.
pub topic_match_iff :
    (pattern key : Bytes)
    → (topic_match pattern key ≡ true) ↔ Matches (split_dot pattern) (split_dot key)
topic_match_iff pattern key =
    let e : topic_match pattern key ≡ matches (split_dot pattern) (split_dot key) =
      topic_match-matches pattern key in
    (λ h. matches-Matches _ _ (sym e ∙ h), λ m. e ∙ Matches-matches m)

-- The words joined by dots again.
unfoldable pub join_dot : List Bytes → Bytes
join_dot [] = []
join_dot (w ∷ []) = w
join_dot (w ∷ v ∷ ws) = w ++ b'.' ∷ join_dot (v ∷ ws)

unfoldable pub no_dot : Bytes → Bool
no_dot [] = true
no_dot (c ∷ s) = not (c == b'.') && no_dot s

split_loop-parts :
    (s w : Bytes) (parts : List Bytes) → split_loop s w parts ≡ parts ++ split_loop s w []
unfolding split_loop
split_loop-parts [] w parts = refl
split_loop-parts (c ∷ s) w parts = elim (Bool-cases (c == b'.')) [
  | inl t ↦
      rw (t, split_loop)
        (split_loop-parts s [] (parts ++ (w ∷ []))
          ∙ append_assoc parts (w ∷ []) _
          ∙ ap (◌++◌ parts) (sym (split_loop-parts s [] (w ∷ []))))
  | inr f ↦ rw (f, split_loop) (split_loop-parts s (w ++ (c ∷ [])) parts)
]

-- `split_loop` gives one word at least.
split_loop_cons : (s w : Bytes) → (v : Bytes) × (vs : List Bytes) × (split_loop s w [] ≡ v ∷ vs)
unfolding split_loop
split_loop_cons [] w = (w, [], refl)
split_loop_cons (c ∷ s) w = elim (Bool-cases (c == b'.')) [
  | inl t ↦ (w, split_loop s [] [], rw (t, split_loop) (split_loop-parts s [] (w ∷ [])))
  | inr f ↦ rw (f, split_loop) (split_loop_cons s (w ++ (c ∷ [])))
]

join_dot_cons :
    (w : Bytes) (ws : List Bytes) (v : Bytes) (vs : List Bytes)
    → ws ≡ v ∷ vs
    → join_dot (w ∷ ws) ≡ w ++ b'.' ∷ join_dot ws
unfolding join_dot
join_dot_cons w ws v vs e = rw e

join_dot-split_loop : (s w : Bytes) → join_dot (split_loop s w []) ≡ w ++ s
unfolding join_dot split_loop
join_dot-split_loop [] w = sym (append-nil w)
join_dot-split_loop (c ∷ s) w = elim (Bool-cases (c == b'.')) [
  | inl t ↦
      let (v, vs, e) = split_loop_cons s [] in
      rw (t, split_loop)
        (ap join_dot (split_loop-parts s [] (w ∷ []))
          ∙ join_dot_cons w (split_loop s [] []) v vs e
          ∙ rw (join_dot-split_loop s [], (nat_beq_iff c b'.').0 t))
  | inr f ↦ rw (f, split_loop) (join_dot-split_loop s (w ++ (c ∷ [])) ∙ append_assoc w (c ∷ []) s)
]

no_dot-append :
    (w : Bytes) (c : ℕ) → no_dot w ≡ true → (c == b'.') ≡ false → no_dot (w ++ (c ∷ [])) ≡ true
unfolding no_dot
no_dot-append [] c h f = ground arith
no_dot-append (x ∷ w) c h f = ground (arith, no_dot-append w c)

split_loop-no_dot : (s w : Bytes) → no_dot w ≡ true → All (λ v. no_dot v ≡ true) (split_loop s w [])
unfolding split_loop
split_loop-no_dot [] w h = (h, tt)
split_loop-no_dot (c ∷ s) w h = elim (Bool-cases (c == b'.')) [
  | inl t ↦
      rw (t, split_loop, split_loop-parts s [] (w ∷ []))
        (h, split_loop-no_dot s [] (unfold no_dot in refl))
  | inr f ↦ rw (f, split_loop) (split_loop-no_dot s (w ++ (c ∷ [])) (no_dot-append w c h f))
]

-- `split_dot` cuts a text at its dots and nowhere else: no word holds a dot, and the words joined
-- by dots are the text again.
pub join_dot-split_dot :
    (s : Bytes) → (join_dot (split_dot s) ≡ s) × All (λ w. no_dot w ≡ true) (split_dot s)
unfolding split_dot
join_dot-split_dot s = (join_dot-split_loop s [], split_loop-no_dot s [] (unfold no_dot in refl))
