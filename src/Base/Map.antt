-- ===== src/Base/Map.antt =====
-- `std::unordered_map` as an association list, in some order of iteration.
use mathlib.Core.Path.{◌≡◌, refl}
use mathlib.Core.List.{List, [], ◌∷◌}
use mathlib.Core.Option.{Option, none, some}
use native.Mathlib.Omega.{arith}
use ganshin_mq.Base.Tests.{Comparable, ◌==◌, if◌then◌else◌}

module _ {κ ν} {K : Type κ} {V : Type ν} ⦃c : Comparable K⦄ where
  unfoldable pub lookup : K → List (K × V) → Option V
  lookup key [] = none
  lookup key ((name, value) ∷ more) = if name == key then some value else lookup key more

  -- `m[key] = new;`
  unfoldable pub insert : K → V → List (K × V) → List (K × V)
  insert key new [] = (key, new) ∷ []
  insert key new ((name, value) ∷ more) =
      if name == key then (key, new) ∷ more else (name, value) ∷ insert key new more

  unfoldable pub erase : K → List (K × V) → List (K × V)
  erase key [] = []
  erase key ((name, value) ∷ more) =
      if name == key then erase key more else (name, value) ∷ erase key more

  pub lookup-insert :
      (key asked : K) (new : V) (entries : List (K × V))
      → lookup asked (insert key new entries)
        ≡ (if key == asked then some new else lookup asked entries)
  unfolding lookup insert
  lookup-insert key asked new [] = refl
  lookup-insert key asked new ((name, value) ∷ more) = ground (
    arith,
    lookup-insert key asked new more,
    c.same_iff key asked,
    c.same_iff name key,
    c.same_iff name asked,
  )

  pub lookup-erase :
      (key asked : K) (entries : List (K × V))
      → lookup asked (erase key entries) ≡ (if key == asked then none else lookup asked entries)
  unfolding lookup erase
  lookup-erase key asked [] = ground arith
  lookup-erase key asked ((name, value) ∷ more) = ground (
    arith,
    lookup-erase key asked more,
    c.same_iff key asked,
    c.same_iff name key,
    c.same_iff name asked,
  )

  pub lookup-insert_self :
      (key : K) (new : V) (entries : List (K × V)) → lookup key (insert key new entries) ≡ some new
  lookup-insert_self key new entries =
      ground (arith, lookup-insert key key new entries, c.same_iff key key)
