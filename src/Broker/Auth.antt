-- ===== src/Broker/Auth.antt =====
-- broker/auth.h: the user store. A file is the list of its lines, as `std::getline` gives them.
pub mod Login
use ganshin_mq.Base.{
  ℕ, Bool, true, false, not, ◌&&◌, ◌||◌, Bytes, codes, List, [], ◌∷◌, ◌++◌, Option, none, some,
  ◌==◌, nat_eq, bytes_eq, if◌then◌else◌, map,
}
use ganshin_mq.Base.Map.{lookup, insert}

pub record UserStore : Type 0 where
  pub users : List (Bytes × Bytes)
  pub loaded : Bool

abbrev pub new_user_store : UserStore
new_user_store = record { users = []; loaded = false }

-- `if (!line.empty() && line.back() == '\r') line.pop_back();`
unfoldable pub trim_cr : Bytes → Bytes
trim_cr [] = []
trim_cr (c ∷ []) = if c == 13 then [] else c ∷ []
trim_cr (c ∷ d ∷ s) = c ∷ trim_cr (d ∷ s)

-- The parts before and behind the first `:`, if there is one.
unfoldable pub split_colon : Bytes → Option (Bytes × Bytes)
split_colon [] = none
split_colon (c ∷ s) =
    let more = split_colon s in
    if c == b':'
    then some ([], s)
    else elim more [ none ↦ none | some (user, pass) ↦ some (c ∷ user, pass) ]

-- A blank line or a comment.
unfoldable pub is_skipped : Bytes → Bool
is_skipped [] = true
is_skipped (c ∷ s) = c == b'#'

-- One round of the loop over the lines.
unfoldable pub load_line : Bytes → List (Bytes × Bytes) → List (Bytes × Bytes)
unfolding trim_cr split_colon is_skipped
load_line line users =
    if is_skipped (trim_cr line) then users else elim (split_colon (trim_cr line)) [
      | none ↦ users
      | some (user, pass) ↦ insert user pass users
    ]

unfoldable pub load_lines : List Bytes → List (Bytes × Bytes) → List (Bytes × Bytes)
unfolding load_line
load_lines [] users = users
load_lines (line ∷ lines) users = load_lines lines (load_line line users)

-- `none` is a file that cannot be opened.
unfoldable pub load_from_file : Option (List Bytes) → UserStore → UserStore × Bool
unfolding load_lines
load_from_file none s = (s, false)
load_from_file (some lines) s = (record { users = load_lines lines []; loaded = true }, true)

unfoldable pub verify : UserStore → Bytes → Bytes → Bool
verify s user password =
    if not s.loaded
    then user == codes "guest" && password == codes "guest"
    else elim (lookup user s.users) [ none ↦ false | some p ↦ p == password ]

unfoldable pub list_users : UserStore → List Bytes
list_users s = if not s.loaded then codes "guest" ∷ [] else map (λ (user, pass). user) s.users
