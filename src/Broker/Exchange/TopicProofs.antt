-- ===== src/Broker/Exchange/TopicProofs.antt =====
-- The topic matcher against a relation between patterns and keys.
use ganshin_mq.Base.{
  ℕ, zero, suc, ◌+◌, ◌-◌, ◌<◌, Bool, true, false, ◌&&◌, ◌||◌, Bytes, codes, List, [], ◌∷◌, ◌++◌,
  ◌==◌, bytes_eq, if◌then◌else◌, ltb, length, get_or, set, ◌≡◌, refl, sym, ap, ◌∙◌, arith, ◌≢◌,
  ℕ_discrete, length-append, length-set, get_or-set_self, get_or-set_ne, get_or_ext, append_assoc,
  Bool-cases, inl, inr,
}
use ganshin_mq.Broker.Exchange.Topic.{hash_loop, word_loop, pattern_step}

-- One word of a pattern, other than `#`, against one word of a key.
abbrev pub word_ok : Bytes → Bytes → Bool
word_ok p w = p == codes "*" || p == w

-- What the topic exchange promises: `#` stands for any number of words, `*` for one word, and
-- any other word for itself.
pub data Matches : List Bytes → List Bytes → Type 0 where
  done : Matches [] []
  hash_none : {p : Bytes} {ps ks : List Bytes} → p ≡ codes "#" → Matches ps ks → Matches (p ∷ ps) ks
  hash_word :
      {p k : Bytes} {ps ks : List Bytes}
      → p ≡ codes "#"
      → Matches (p ∷ ps) ks
      → Matches (p ∷ ps) (k ∷ ks)
  word :
      {p k : Bytes} {ps ks : List Bytes}
      → p ≢ codes "#"
      → word_ok p k ≡ true
      → Matches ps ks
      → Matches (p ∷ ps) (k ∷ ks)

-- The relation as a test.
unfoldable pub hash_match : (List Bytes → Bool) → List Bytes → Bool
hash_match m [] = m []
hash_match m (k ∷ ks) = m (k ∷ ks) || hash_match m ks

unfoldable pub word_match : (List Bytes → Bool) → Bytes → List Bytes → Bool
word_match m p [] = false
word_match m p (k ∷ ks) = word_ok p k && m ks

unfoldable pub matches : List Bytes → List Bytes → Bool
matches [] [] = true
matches [] (k ∷ ks) = false
matches (p ∷ ps) ks =
    if p == codes "#" then hash_match (matches ps) ks else word_match (matches ps) p ks

-- Some position at which the table is true has a rest of the key that the test accepts.
unfoldable pub alive : (List Bytes → Bool) → List Bool → List Bytes → Bool
alive m [] ks = false
alive m (d ∷ ds) [] = d && m []
alive m (d ∷ ds) (k ∷ ks) = (d && m (k ∷ ks)) || alive m ds ks

-- The two scans of a row, from the old row alone.
hash_scan : Bool → List Bool → List Bool
hash_scan prev [] = []
hash_scan prev (d ∷ ds) = (d || prev) ∷ hash_scan (d || prev) ds

word_scan : Bytes → List Bytes → Bool → List Bool → List Bool
word_scan p [] d ds = []
word_scan p (k ∷ ks) d [] = []
word_scan p (k ∷ ks) d (x ∷ ds) = (d && word_ok p k) ∷ word_scan p ks x ds

get_or-mid {ℓ} :
    {A : Type ℓ} (xs : List A) (y : A) (ys : List A) (d : A)
    → get_or (xs ++ y ∷ ys) (length xs) d ≡ y
get_or-mid [] y ys d = refl
get_or-mid (x ∷ xs) y ys d = get_or-mid xs y ys d

get_or-mid_next {ℓ} :
    {A : Type ℓ} (xs : List A) (y z : A) (ys : List A) (d : A)
    → get_or (xs ++ y ∷ z ∷ ys) (suc (length xs)) d ≡ z
get_or-mid_next [] y z ys d = refl
get_or-mid_next (x ∷ xs) y z ys d = get_or-mid_next xs y z ys d

set-mid_next {ℓ} :
    {A : Type ℓ} (xs : List A) (y z v : A) (ys : List A)
    → set (xs ++ y ∷ z ∷ ys) (suc (length xs)) v ≡ xs ++ y ∷ v ∷ ys
set-mid_next [] y z v ys = refl
set-mid_next (x ∷ xs) y z v ys = ap (◌∷◌ x) (set-mid_next xs y z v ys)

-- One write of the scan from the left.
hash_write :
    (pre : List Bool) (d x : Bool) (ds : List Bool) (j : ℕ)
    → j ≡ suc (length pre)
    → set
        (pre ++ d ∷ x ∷ ds)
        j
        (get_or (pre ++ d ∷ x ∷ ds) j false || get_or (pre ++ d ∷ x ∷ ds) (j - 1) false)
      ≡ (pre ++ d ∷ []) ++ (x || d) ∷ ds
hash_write pre d x ds j e =
    let back : suc (length pre) - 1 ≡ length pre = omega arith in
    rw
      (
        e,
        back,
        get_or-mid pre d (x ∷ ds) false,
        get_or-mid_next pre d x ds false,
        set-mid_next pre d x (x || d) ds,
      )
      (sym (append_assoc pre (d ∷ []) ((x || d) ∷ ds)))

-- The in-place scan from the left writes what `hash_scan` gives.
hash_loop-scan :
    (pre : List Bool) (d : Bool) (ds : List Bool) (j : ℕ)
    → j ≡ suc (length pre)
    → hash_loop (length ds) j (pre ++ d ∷ ds) ≡ pre ++ d ∷ hash_scan d ds
unfolding hash_loop hash_scan
hash_loop-scan pre d [] j e = refl
hash_loop-scan pre d (x ∷ ds) j e =
    ap (hash_loop (length ds) (j + 1)) (hash_write pre d x ds j e)
    ∙ hash_loop-scan (pre ++ d ∷ []) (x || d) ds (j + 1) (omega (arith, length-append pre (d ∷ [])))
    ∙ append_assoc pre (d ∷ []) ((x || d) ∷ hash_scan (x || d) ds)

-- The value that the scan from the right writes at index `suc j`.
abbrev word_value : Bytes → List Bytes → ℕ → List Bool → Bool
word_value p kp j dp = get_or dp j false && word_ok p (get_or kp j [])

-- The in-place scan from the right, at each index.
word_loop_get :
    (p : Bytes) (kp : List Bytes) (n : ℕ) (dp : List Bool) (i : ℕ)
    → n < length dp
    → get_or (word_loop p kp n dp) i false
      ≡ (if ltb i 1 || ltb n i then get_or dp i false else word_value p kp (i - 1) dp)
unfolding word_loop
word_loop_get p kp zero dp i h = ground arith
word_loop_get p kp (suc n) dp i h =
    let v : Bool = word_value p kp n dp in
    let back : suc n - 1 ≡ n = omega arith in
    elim (ℕ_discrete i (suc n)) [
      | yes e ↦ rw e (
          ground (
            arith,
            word_loop_get p kp n (set dp (suc n) v) (suc n),
            length-set dp (suc n) v,
            back,
            get_or-set_self dp (suc n) v false,
          ))
      | no ne ↦ ground (
        arith,
        word_loop_get p kp n (set dp (suc n) v) i,
        length-set dp (suc n) v,
        get_or-set_ne dp (suc n) i v false,
        get_or-set_ne dp (suc n) (i - 1) v false,
      )
    ]

pub word_loop-length :
    (p : Bytes) (kp : List Bytes) (n : ℕ) (dp : List Bool)
    → length (word_loop p kp n dp) ≡ length dp
unfolding word_loop
word_loop-length p kp zero dp = refl
word_loop-length p kp (suc n) dp =
    word_loop-length p kp n _ ∙ length-set dp (suc n) (word_value p kp n dp)

word_scan-length :
    (p : Bytes) (ks : List Bytes) (d : Bool) (ds : List Bool)
    → length ds ≡ length ks
    → length (word_scan p ks d ds) ≡ length ks
unfolding word_scan
word_scan-length p [] d ds e = refl
word_scan-length p (k ∷ ks) d [] e = absurd (omega arith)
word_scan-length p (k ∷ ks) d (x ∷ ds) e = omega (arith, word_scan-length p ks x ds)

word_scan_get :
    (p : Bytes) (ks : List Bytes) (d : Bool) (ds : List Bool) (i : ℕ)
    → length ds ≡ length ks
    → i < length ks
    → get_or (word_scan p ks d ds) i false ≡ word_value p ks i (d ∷ ds)
unfolding word_scan
word_scan_get p [] d ds i e h = absurd (omega arith)
word_scan_get p (k ∷ ks) d [] i e h = absurd (omega arith)
word_scan_get p (k ∷ ks) d (x ∷ ds) zero e h = refl
word_scan_get p (k ∷ ks) d (x ∷ ds) (suc i) e h =
    word_scan_get p ks x ds i (omega arith) (omega arith)

-- So the scan from the right, in place, writes what `word_scan` gives.
word_loop-scan :
    (p : Bytes) (ks : List Bytes) (d : Bool) (ds : List Bool)
    → length ds ≡ length ks
    → set (word_loop p ks (length ks) (d ∷ ds)) 0 false ≡ false ∷ word_scan p ks d ds
word_loop-scan p ks d ds e =
    get_or_ext _ _ false
      (length-set _ 0 false
        ∙ word_loop-length p ks (length ks) (d ∷ ds)
        ∙ omega (arith, word_scan-length p ks d ds))
      (at_index)
  where
    row : List Bool
    row = word_loop p ks (length ks) (d ∷ ds)

    at_index :
        (i : ℕ)
        → i < length (set row 0 false)
        → get_or (set row 0 false) i false ≡ get_or (false ∷ word_scan p ks d ds) i false
    at_index zero h = ground (arith, get_or-set_self row 0 false false, length-set row 0 false)
    at_index (suc i) h =
        get_or-set_ne row 0 (suc i) false false (λ z. cc)
        ∙ word_loop_get p ks (length ks) (d ∷ ds) (suc i) (omega arith)
        ∙ ground (
          arith,
          word_scan_get p ks d ds i e,
          length-set row 0 false,
          word_loop-length p ks (length ks) (d ∷ ds),
        )

alive_head :
    (m : List Bytes → Bool) (c d : Bool) (ds : List Bool) (ks : List Bytes)
    → alive m ((c || d) ∷ ds) ks ≡ ((d && m ks) || alive m (c ∷ ds) ks)
unfolding alive
alive_head m c d ds [] = ground arith
alive_head m c d ds (k ∷ ks) = ground arith

alive-hash_scan :
    (m : List Bytes → Bool) (d : Bool) (ds : List Bool) (ks : List Bytes)
    → length ds ≡ length ks
    → alive m (d ∷ hash_scan d ds) ks ≡ alive (hash_match m) (d ∷ ds) ks
unfolding alive hash_scan hash_match
alive-hash_scan m d ds [] e = refl
alive-hash_scan m d [] (k ∷ ks) e = absurd (omega arith)
alive-hash_scan m d (x ∷ ds) (k ∷ ks) e =
    ground (arith, alive-hash_scan m (x || d) ds ks, alive_head (hash_match m) x d ds ks)

alive-word_scan :
    (m : List Bytes → Bool) (p : Bytes) (d : Bool) (ds : List Bool) (ks : List Bytes)
    → length ds ≡ length ks
    → alive m (false ∷ word_scan p ks d ds) ks ≡ alive (word_match m p) (d ∷ ds) ks
unfolding alive word_scan word_match
alive-word_scan m p d ds [] e = ground arith
alive-word_scan m p d [] (k ∷ ks) e = absurd (omega arith)
alive-word_scan m p d (x ∷ ds) (k ∷ ks) e = ground (
  arith,
  alive-word_scan m p x ds ks,
  alive_head m false (d && word_ok p k) (word_scan p ks x ds) ks,
)

-- One word of the pattern moves the table on.
pub pattern_step-alive :
    (m : List Bytes → Bool) (p : Bytes) (d : Bool) (ds : List Bool) (ks : List Bytes)
    → length ds ≡ length ks
    → alive m (pattern_step p ks (d ∷ ds)) ks
      ≡ alive (if p == codes "#" then hash_match m else word_match m p) (d ∷ ds) ks
unfolding pattern_step
pattern_step-alive m p d ds ks e = elim (Bool-cases (p == codes "#")) [
  | inl t ↦
      rw (t, ← e)
        (ap (λ r. alive m r ks) (hash_loop-scan [] d ds 1 refl) ∙ alive-hash_scan m d ds ks e)
  | inr f ↦ rw (f, word_loop-scan p ks d ds e) (alive-word_scan m p d ds ks e)
]
