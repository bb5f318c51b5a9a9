-- ===== src/Expression/Pipes/Padded.antt =====
-- The padding functions of pkg/expression/pipes.go: what they add, and how much.
use Prim.Native.Nat.{ℕ, zero, suc, ◌+◌, ◌-◌, ◌%◌, ◌<◌, ◌≤◌}
use Prim.Native.String.{String, ◌++◌}
use Prim.Native.String.append as Append
use mathlib.Core.Path.{◌≡◌, refl, ap, sym, ◌∙◌}
use mathlib.Core.Logic.{inl, inr}
use mathlib.Core.Bool.{Bool, true, false}
use mathlib.Core.List.{[], ◌∷◌}
use native.Mathlib.Omega.{arith}
use text.Mathlib.TextLemmas.{append-nil}
use mywork_automate.Prelude.{ℤ, pos, negsuc, pos_part, ltb_ℤ, if◌then◌else◌, Bool-cases}
use mywork_automate.Prelude.Chars.{size}
use mywork_automate.Prelude.Results.{ok, err}
use mywork_automate.Expression.Values.{Runtime, Value, str, pad_too_wide, quoted, number}
use mywork_automate.Expression.Coerce.{coerce_string}
use mywork_automate.Expression.Pipes.{max_pad_width, rune_at, fill_from, pad_or_space, pad_to, pad}

size-fill_from : (p : String) (from n : ℕ) → size (fill_from p from n) ≡ n
unfolding fill_from size
size-fill_from p from zero = refl
size-fill_from p from (suc n) = ap suc (size-fill_from p (suc from) n)

rune_at-fill_from :
    (p : String) (from n i : ℕ)
    → i < n
    → rune_at i (fill_from p from n) ≡ rune_at ((from + i) % size p) p
unfolding fill_from rune_at
rune_at-fill_from p from zero i lt = absurd (omega arith)
rune_at-fill_from p from (suc n) zero lt = ap (λ (k : ℕ). rune_at (k % size p) p) (omega arith)
rune_at-fill_from p from (suc n) (suc i) lt =
    rune_at-fill_from p (suc from) n i (omega arith)
    ∙ ap (λ (k : ℕ). rune_at (k % size p) p) (omega arith)

-- A side of padding: runes of the pad in turn, to the width.
abbrev pub IsFill : String → ℕ → String → Type 0
IsFill p n fill = (size fill ≡ n) × ((i : ℕ) → i < n → rune_at i fill ≡ rune_at (i % size p) p)

fill_from-IsFill : (p : String) (n : ℕ) → IsFill p n (fill_from p 0 n)
fill_from-IsFill p n = (
  size-fill_from p 0 n,
  λ i lt. rune_at-fill_from p 0 n i lt ∙ ap (λ (k : ℕ). rune_at (k % size p) p) (omega arith),
)

-- A text with its padding on one side.
abbrev pub beside : Bool → String → String → String
beside left fill s = if left then fill ++ s else s ++ fill

beside_nothing : (left : Bool) (s : String) → beside left "" s ≡ s
beside_nothing true s = rw (Append.nil)
beside_nothing false s = append-nil s

no_deficit : (n : ℕ) (width : ℤ) → ltb_ℤ (pos n) width ≡ false → pos_part width - n ≡ 0
no_deficit n (pos w) h = ground arith
no_deficit n (negsuc w) h = omega arith

at_most : (m : ℕ) (width : ℤ) → ltb_ℤ (pos m) width ≡ false → pos_part width ≤ m
at_most m (pos w) h = ground arith
at_most m (negsuc w) h = omega arith

module _ (R : Runtime) (sprint : Value R → String) where
  -- Where the text is as wide as asked, the fill is empty.
  pad_to-IsFill :
      (left : Bool) (width : ℤ) (p : String) (v : Value R)
      → let s = coerce_string R sprint v in
        (fill : String) × (pad_to R sprint left width p v ≡ beside left fill s)
        × IsFill p (pos_part width - size s) fill
  unfolding pad_to
  pad_to-IsFill left width p v =
      let s = coerce_string R sprint v in
      elim (Bool-cases (ltb_ℤ (pos (size s)) width)) [
        | inl short ↦ (
          fill_from p 0 (pos_part width - size s),
          rw short,
          fill_from-IsFill p (pos_part width - size s),
        )
        | inr wide ↦
            let none_added = no_deficit (size s) width wide in
            (
              "",
              rw wide (sym (beside_nothing left s)),
              (unfold size in omega arith, λ i lt. absurd (omega arith)),
            )
      ]

  -- Padding to a width with a pad, on either side, for every value and every text of the pad. A
  -- width above 65,536 is refused. Any other gives the text of the value with a fill beside it: as
  -- many runes as the text falls short of the width, none where it does not, at most 65,536 of them,
  -- each the rune of the pad at its place modulo the size of the pad, where an empty pad counts as a
  -- space. Without a pad the result is the same as with an empty one.
  pub pad-IsFill :
      (left : Bool) (v : Value R) (w : R.Float) (p : String)
      → let width = R.to_int w in
        let s = coerce_string R sprint v in
        let padded = pad R sprint left v (number w ∷ quoted p ∷ []) in
        (pad R sprint left v (number w ∷ []) ≡ pad R sprint left v (number w ∷ quoted "" ∷ []))
        × (ltb_ℤ (pos max_pad_width) width ≡ true → padded ≡ err (pad_too_wide width))
        × (ltb_ℤ (pos max_pad_width) width ≡ false
            → (fill : String) × (padded ≡ ok (str (beside left fill s)))
              × IsFill (pad_or_space p) (pos_part width - size s) fill
              × (size fill ≤ max_pad_width))
  unfolding pad
  pad-IsFill left v w p = (
    refl,
    λ wide. rw wide,
    λ narrow.
        let (fill, padded, filled) = pad_to-IsFill left (R.to_int w) (pad_or_space p) v in
        (
          fill,
          rw narrow (ap (λ r. ok (str r)) padded),
          filled,
          omega (arith, filled.0, at_most max_pad_width (R.to_int w) narrow),
        ),
  )
