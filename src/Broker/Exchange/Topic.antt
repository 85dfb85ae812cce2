-- ===== src/Broker/Exchange/Topic.antt =====
-- broker/exchange.h: `splitDot` and `topicMatch` of the topic exchange.
use ganshin_mq.Base.{
  ℕ, zero, suc, ◌+◌, ◌-◌, Bool, true, false, ◌&&◌, ◌||◌, Bytes, codes, List, [], ◌∷◌, ◌++◌, ◌==◌,
  bytes_eq, nat_eq, if◌then◌else◌, length, get_or, set, replicate,
}

-- The loop at index `i`: `word` is s[start .. i), and the list is s[i ..].
unfoldable pub split_loop : Bytes → Bytes → List Bytes → List Bytes
split_loop [] word parts = parts ++ (word ∷ [])
split_loop (c ∷ s) word parts = elim (c == b'.') [
  | true ↦ split_loop s [] (parts ++ (word ∷ []))
  | false ↦ split_loop s (word ++ (c ∷ [])) parts
]

unfoldable pub split_dot : Bytes → List Bytes
unfolding split_loop
split_dot s = split_loop s [] []

-- `for (j = 1; j <= K; ++j) dp[j] = dp[j] || dp[j - 1];` with the rounds that are left.
unfoldable pub hash_loop : ℕ → ℕ → List Bool → List Bool
hash_loop zero j dp = dp
hash_loop (suc n) j dp =
    hash_loop n (j + 1) (set dp j (get_or dp j false || get_or dp (j - 1) false))

-- `for (j = K; j >= 1; --j) dp[j] = dp[j - 1] && (pat[i] == "*" || pat[i] == kp[j - 1]);`
unfoldable pub word_loop : Bytes → List Bytes → ℕ → List Bool → List Bool
word_loop p kp zero dp = dp
word_loop p kp (suc j) dp =
    word_loop p kp j (set dp (suc j) (get_or dp j false && (p == codes "*" || p == get_or kp j [])))

-- One round of the loop over the pattern's words.
unfoldable pub pattern_step : Bytes → List Bytes → List Bool → List Bool
unfolding hash_loop word_loop
pattern_step p kp dp =
    if p == codes "#"
    then hash_loop (length kp) 1 dp
    else set (word_loop p kp (length kp) dp) 0 false

unfoldable pub pattern_loop : List Bytes → List Bytes → List Bool → List Bool
unfolding pattern_step
pattern_loop [] kp dp = dp
pattern_loop (p ∷ ps) kp dp = pattern_loop ps kp (pattern_step p kp dp)

unfoldable pub topic_match : Bytes → Bytes → Bool
unfolding split_dot pattern_loop
topic_match pattern key =
    let kp = split_dot key in
    get_or (pattern_loop (split_dot pattern) kp (set (replicate (suc (length kp)) false) 0 true))
      (length kp) false
