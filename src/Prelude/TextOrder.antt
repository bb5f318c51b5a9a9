-- ===== src/Prelude/TextOrder.antt =====
-- Laws of the order of texts, of sorting, and of string sets.
use Prim.Native.Nat.{Ordering, ◌+◌}
use Prim.Native.String.{String, compare}
use Prim.Native.String.compare as Compare
use mathlib.Core.Path.{◌≡◌, refl, sym, ◌∙◌, subst}
use mathlib.Core.Logic.{inl, inr}
use mathlib.Core.Bool.{true, false, ◌||◌}
use mathlib.Core.List.{List, [], ◌∷◌, ◌++◌, Permᴰ}
use native.Mathlib.Omega.{arith}
use text.Mathlib.TextEquality.{eq_iff, path_by_compare}
use text.Mathlib.TextPositions.{compare_refl, eq_refl}
use text.Mathlib.Text.{◌==◌}
use mywork_automate.Prelude.Tests.{Bool-cases}
use mywork_automate.Prelude.Lists.{length, All}
use mywork_automate.Prelude.Text.{contains, or_eq, str_leb, str_ltb, sort_insert, sort}

abbrev swap : Ordering → Ordering
swap Ordering.lt = Ordering.gt
swap Ordering.eq = Ordering.eq
swap Ordering.gt = Ordering.lt

pub compare-swap : (s t : String) → compare t s ≡ swap (compare s t)
compare-swap String.[] String.[] = refl
compare-swap String.[] (String.◌∷◌ d t) = rw (Compare.nil-cons, Compare.cons-nil)
compare-swap (String.◌∷◌ c s) String.[] = rw (Compare.nil-cons, Compare.cons-nil)
compare-swap (String.◌∷◌ c s) (String.◌∷◌ d t) =
    ground (arith, Compare.cons-cons c d s t, Compare.cons-cons d c t s, compare-swap s t)

pub compare_trans :
    (s t u : String)
    → or_eq (compare s t) ≡ true
    → or_eq (compare t u) ≡ true
    → or_eq (compare s u) ≡ true
compare_trans String.[] t String.[] h k = refl
compare_trans String.[] t (String.◌∷◌ e u) h k = rw (Compare.nil-cons)
compare_trans (String.◌∷◌ c s) String.[] u h k = cc (Compare.cons-nil c s)
compare_trans (String.◌∷◌ c s) (String.◌∷◌ d t) String.[] h k = cc (Compare.cons-nil d t)
compare_trans (String.◌∷◌ c s) (String.◌∷◌ d t) (String.◌∷◌ e u) h k = ground (
  arith,
  Compare.cons-cons c d s t,
  Compare.cons-cons d e t u,
  Compare.cons-cons c e s u,
  compare_trans s t u,
)

pub str_leb_total : (s t : String) → str_leb s t ≡ false → str_leb t s ≡ true
unfolding str_leb
str_leb_total s t h = ground (arith, compare-swap s t)

pub str_leb_antisym : (s t : String) → str_leb s t ≡ true → str_leb t s ≡ true → s ≡ t
unfolding str_leb
str_leb_antisym s t h k =
    let e : compare s t ≡ Ordering.eq = ground (arith, compare-swap s t) in path_by_compare s t e

pub str_leb_trans : (s t u : String) → str_leb s t ≡ true → str_leb t u ≡ true → str_leb s u ≡ true
unfolding str_leb
str_leb_trans s t u h k = compare_trans s t u h k

pub str_leb_refl : (s : String) → str_leb s s ≡ true
unfolding str_leb
str_leb_refl s = rw (compare_refl s)

pub str_ltb-leb : (s t : String) → str_ltb s t ≡ true → str_leb s t ≡ true
unfolding str_ltb str_leb
str_ltb-leb s t h = ground arith

pub leb_of_not-str_ltb : (s t : String) → str_ltb s t ≡ false → str_leb t s ≡ true
unfolding str_ltb str_leb
leb_of_not-str_ltb s t h = ground (arith, compare-swap s t)

pub length-sort_insert : (x : String) (l : List String) → length (sort_insert x l) ≡ length l + 1
unfolding sort_insert
length-sort_insert x [] = omega arith
length-sort_insert x (y ∷ l) = ground (arith, length-sort_insert x l)

pub length-sort : (l : List String) → length (sort l) ≡ length l
unfolding sort
length-sort [] = refl
length-sort (x ∷ l) = omega (arith, length-sort_insert x (sort l), length-sort l)

pub contains-sort_insert :
    (a x : String) (l : List String) → contains a (sort_insert x l) ≡ ((x == a) || contains a l)
unfolding sort_insert contains
contains-sort_insert a x [] = refl
contains-sort_insert a x (y ∷ l) = ground (arith, contains-sort_insert a x l)

pub contains-sort : (a : String) (l : List String) → contains a (sort l) ≡ contains a l
unfolding sort contains
contains-sort a [] = refl
contains-sort a (x ∷ l) = rw (contains-sort_insert a x (sort l), contains-sort a l)

pub sort_insert_comm :
    (a b : String) (l : List String)
    → sort_insert a (sort_insert b l) ≡ sort_insert b (sort_insert a l)
unfolding sort_insert
sort_insert_comm a b [] = ground (arith, str_leb_total a b, str_leb_total b a, str_leb_antisym a b)
sort_insert_comm a b (x ∷ l) = ground (
  arith,
  str_leb_total a b,
  str_leb_total b a,
  str_leb_antisym a b,
  str_leb_total a x,
  str_leb_total b x,
  str_leb_trans a b x,
  str_leb_trans b a x,
  sort_insert_comm a b l,
)

-- Sorting forgets the order of its input.
pub sort-perm : {l m : List String} → Permᴰ l m → sort l ≡ sort m
unfolding sort
sort-perm Permᴰ.nil = refl
sort-perm (Permᴰ.cons e p) = rw (e, sort-perm p)
sort-perm (Permᴰ.swap {l = l} e f) = rw (e, f) (sort_insert_comm _ _ (sort l))
sort-perm (Permᴰ.trans p q) = sort-perm p ∙ sort-perm q

pub contains-append :
    (a : String) (l m : List String) → contains a (l ++ m) ≡ (contains a l || contains a m)
unfolding contains
contains-append a [] m = refl
contains-append a (x ∷ l) m = ground (arith, contains-append a l m)

pub contains-head : (x : String) (l : List String) → contains x (x ∷ l) ≡ true
unfolding contains
contains-head x l = rw (eq_refl x)

pub All-contains {κ} :
    (P : String → Type κ) (a : String) (l : List String) → All P l → contains a l ≡ true → P a
unfolding contains
All-contains P a [] h m = cc
All-contains P a (x ∷ l) h m = elim (Bool-cases (x == a)) [
  | inl same ↦ subst P ((eq_iff x a).0 same) h.0
  | inr other ↦ All-contains P a l h.1 (ground arith)
]

pub All-of_contains {κ} :
    (P : String → Type κ) (l : List String) → ((a : String) → contains a l ≡ true → P a) → All P l
unfolding contains
All-of_contains P [] h = tt
All-of_contains P (x ∷ l) h =
    (h x (rw (eq_refl x)), All-of_contains P l (λ a m. h a (ground arith)))

-- The head of a sorted list is its least entry.
All-leb-sort_insert :
    (a x : String) (l : List String)
    → str_leb a x ≡ true
    → All (λ y. str_leb a y ≡ true) l
    → All (λ y. str_leb a y ≡ true) (sort_insert x l)
unfolding sort_insert
All-leb-sort_insert a x [] h k = (h, tt)
All-leb-sort_insert a x (y ∷ l) h k = ground (arith, All-leb-sort_insert a x l h k.1)

-- Sorted, as every entry with all that follow it.
abbrev pub IsSorted : List String → Type 0
IsSorted [] = Unit
IsSorted (x ∷ l) = All (λ y. str_leb x y ≡ true) l × IsSorted l

All-leb_weaken :
    (a x : String) (l : List String)
    → str_leb a x ≡ true
    → All (λ y. str_leb x y ≡ true) l
    → All (λ y. str_leb a y ≡ true) l
All-leb_weaken a x [] h k = tt
All-leb_weaken a x (y ∷ l) h k = (str_leb_trans a x y h k.0, All-leb_weaken a x l h k.1)

sort_insert-IsSorted : (x : String) (l : List String) → IsSorted l → IsSorted (sort_insert x l)
unfolding sort_insert
sort_insert-IsSorted x [] h = (tt, tt)
sort_insert-IsSorted x (y ∷ l) h = elim (Bool-cases (str_leb x y)) [
  | inl le ↦ rw le ((le, All-leb_weaken x y l le h.0), h)
  | inr gt ↦
      rw gt (All-leb-sort_insert y x l (str_leb_total x y gt) h.0, sort_insert-IsSorted x l h.1)
]

pub sort-IsSorted : (l : List String) → IsSorted (sort l)
unfolding sort
sort-IsSorted [] = tt
sort-IsSorted (x ∷ l) = sort_insert-IsSorted x (sort l) (sort-IsSorted l)

pub sort-head_le :
    (l : List String) {x : String} {r : List String}
    → sort l ≡ x ∷ r
    → (a : String) → contains a l ≡ true
    → str_leb x a ≡ true
sort-head_le l {x} {r} e a m =
    let sorted : IsSorted (x ∷ r) = rw e at (sort-IsSorted l) in
    let here : contains a (x ∷ r) ≡ true = rw (← e, contains-sort a l) m in
    All-contains (λ y. str_leb x y ≡ true) a (x ∷ r) (str_leb_refl x, sorted.0) here

-- No text stands twice in the list.
abbrev pub Distinct : List String → Type 0
Distinct [] = Unit
Distinct (x ∷ l) = (contains x l ≡ false) × Distinct l

pub Distinct-concat :
    (l : List String) (x : String) → Distinct l → contains x l ≡ false → Distinct (l ++ x ∷ [])
unfolding contains
Distinct-concat [] x h k = (refl, tt)
Distinct-concat (y ∷ l) x h k =
    let apart : contains y (l ++ x ∷ []) ≡ false =
      rw (contains-append y l (x ∷ [])) (ground (arith, eq_iff y x, eq_iff x y)) in
    (apart, Distinct-concat l x h.1 (ground arith))

pub All-sort {κ} : (P : String → Type κ) (l : List String) → All P l → All P (sort l)
All-sort P l h =
    All-of_contains P (sort l) (λ a m. All-contains P a l h (sym (contains-sort a l) ∙ m))
