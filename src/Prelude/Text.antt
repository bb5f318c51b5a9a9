-- ===== src/Prelude/Text.antt =====
-- Go strings. They are texts, compared by `==` and ordered as Go's `<` orders their UTF-8; a map
-- with string keys is an association list, and `sort.Strings` an insertion sort.
use Prim.Native.Nat.{Ordering}
use Prim.Native.String.{String, compare}
use mathlib.Core.Path.{◌≡◌, refl}
use mathlib.Core.Bool.{Bool, true, false, ◌||◌}
use mathlib.Core.Option.{Option, none, some}
use mathlib.Core.List.{List, [], ◌∷◌}
use native.Mathlib.Omega.{arith}
use text.Mathlib.Text.{◌==◌}
use text.Mathlib.TextEquality.{eq_iff}
use mywork_automate.Prelude.Tests.{if◌then◌else◌}

abbrev pub or_eq : Ordering → Bool
or_eq Ordering.gt = false
or_eq _ = true

-- Go's `s <= t`.
unfoldable pub str_leb : String → String → Bool
str_leb s t = or_eq (compare s t)

-- Go's `s < t`.
unfoldable pub str_ltb : String → String → Bool
str_ltb s t = elim (compare s t) [ Ordering.lt ↦ true | _ ↦ false ]

-- A string set as a list: Go's `map[string]bool`, read at a key.
unfoldable pub contains : String → List String → Bool
contains k [] = false
contains k (j ∷ js) = (j == k) || contains k js

-- A Go map with string keys: its entries, with the key of each before its value.
module _ {ℓ} {V : Type ℓ} where
  unfoldable pub lookup : String → List (String × V) → Option V
  lookup key [] = none
  lookup key (entry ∷ rest) = if entry.0 == key then some entry.1 else lookup key rest

  -- Go's `delete(m, key)`.
  unfoldable pub delete : String → List (String × V) → List (String × V)
  delete key [] = []
  delete key (entry ∷ rest) =
      let kept = delete key rest in if entry.0 == key then kept else entry ∷ kept

  pub lookup-delete :
      (key other : String) (m : List (String × V))
      → lookup other (delete key m) ≡ (if key == other then none else lookup other m)
  unfolding lookup delete
  lookup-delete key other [] = ground arith
  lookup-delete key other (entry ∷ rest) = ground (
    arith,
    lookup-delete key other rest,
    eq_iff key other,
    eq_iff entry.0 other,
    eq_iff entry.0 key,
  )

  -- Go's `m[key] = value`.
  unfoldable pub insert : String → V → List (String × V) → List (String × V)
  insert key value [] = (key, value) ∷ []
  insert key value (entry ∷ rest) =
      if entry.0 == key then (key, value) ∷ rest else entry ∷ insert key value rest

  pub lookup-insert :
      (key other : String) (value : V) (m : List (String × V))
      → lookup other (insert key value m) ≡ (if key == other then some value else lookup other m)
  unfolding insert lookup
  lookup-insert key other value [] = refl
  lookup-insert key other value (entry ∷ rest) = ground (
    arith,
    lookup-insert key other value rest,
    eq_iff entry.0 key,
    eq_iff entry.0 other,
    eq_iff key other,
  )

unfoldable pub sort_insert : String → List String → List String
sort_insert x [] = x ∷ []
sort_insert x (y ∷ ys) = if str_leb x y then x ∷ y ∷ ys else y ∷ sort_insert x ys

-- Go's `sort.Strings`.
unfoldable pub sort : List String → List String
unfolding sort_insert str_leb
sort [] = []
sort (x ∷ xs) = sort_insert x (sort xs)
