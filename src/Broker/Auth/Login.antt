-- ===== src/Broker/Auth/Login.antt =====
-- Who is let in.
use ganshin_mq.Base.{
  Bool, true, false, Bytes, codes, List, [], ◌∷◌, Option, none, some, ◌==◌, nat_eq, bytes_eq,
  bytes_beq_iff, if◌then◌else◌, ◌≡◌, refl, ap, ◌∙◌, ◌↔◌, arith,
}
use ganshin_mq.Base.Map.{lookup, insert, lookup-insert}
use ganshin_mq.Broker.Auth.{
  trim_cr, split_colon, is_skipped, load_line, load_lines, load_from_file, verify,
}

-- The password that the lines give a user: that of the last line for the user that is no comment
-- and has a colon.
unfoldable pub password_of : List Bytes → Bytes → Option Bytes
password_of [] user = none
password_of (line ∷ lines) user =
    let later = password_of lines user in
    elim later [
      | some p ↦ some p
      | none ↦ if is_skipped (trim_cr line) then none else elim (split_colon (trim_cr line)) [
        | none ↦ none
        | some (u, p) ↦ if u == user then some p else none
      ]
    ]

-- The user's password after one line.
load_line-lookup :
    (line : Bytes) (users : List (Bytes × Bytes)) (user : Bytes)
    → lookup user (load_line line users) ≡ (
        if is_skipped (trim_cr line) then lookup user users else elim (split_colon (trim_cr line)) [
          | none ↦ lookup user users
          | some (u, p) ↦ if u == user then some p else lookup user users
        ])
unfolding load_line
load_line-lookup line users user = after (is_skipped (trim_cr line)) (split_colon (trim_cr line))
  where
    after :
        (skip : Bool) (parts : Option (Bytes × Bytes))
        → lookup user
            (if skip then users else elim parts [ none ↦ users | some (u, p) ↦ insert u p users ])
          ≡ (if skip then lookup user users else elim parts [
            | none ↦ lookup user users
            | some (u, p) ↦ if u == user then some p else lookup user users
          ])
    after true parts = refl
    after false none = refl
    after false (some (u, p)) = lookup-insert u user p users

load_lines-lookup :
    (lines : List Bytes) (users : List (Bytes × Bytes)) (user : Bytes)
    → lookup user (load_lines lines users)
      ≡ elim (password_of lines user) [ some p ↦ some p | none ↦ lookup user users ]
unfolding load_lines load_line password_of
load_lines-lookup [] users user = refl
load_lines-lookup (line ∷ lines) users user =
    load_lines-lookup lines (load_line line users) user
    ∙ ap (λ o. elim (password_of lines user) [ some p ↦ some p | none ↦ o ])
        (load_line-lookup line users user)
    ∙ ground arith

abbrev given : Option Bytes → Option Bytes
given found = elim found [ some p ↦ some p | none ↦ none ]

abbrev checked : Option Bytes → Bytes → Bool
checked found password = elim found [ none ↦ false | some p ↦ p == password ]

-- A user is let in exactly with the password that the users file gives last; before any file was
-- read, and when it could not be opened, exactly as guest with the password guest.
pub verify_iff :
    (file : Option (List Bytes)) (user password : Bytes)
    → let s = (load_from_file file (record { users = []; loaded = false })).0 in
      (verify s user password ≡ true) ↔ elim file [
        | none ↦ (user ≡ codes "guest") × (password ≡ codes "guest")
        | some lines ↦ password_of lines user ≡ some password
      ]
unfolding load_from_file verify lookup
verify_iff none user password =
    ground (arith, bytes_beq_iff user (codes "guest"), bytes_beq_iff password (codes "guest"))
verify_iff (some lines) user password =
    rw (load_lines-lookup lines [] user) (with (password_of lines user))
  where
    with :
        (found : Option Bytes) → (checked (given found) password ≡ true) ↔ (found ≡ some password)
    with none = ground arith
    with (some p) = ground (arith, bytes_beq_iff p password)
