-- ===== src/Masking/Partial.antt =====
-- About the partial style of pkg/masking/masking.go, and masking twice.
use Prim.Native.Nat.{ℕ, zero, suc, ◌-◌, ◌≤◌}
use Prim.Native.String.{String, ◌++◌}
use Prim.Native.String.append as Append
use mathlib.Core.Path.{◌≡◌, refl, ap, ap₂, ◌∙◌}
use mathlib.Core.Logic.{◌⊎◌, inl, inr}
use mathlib.Core.Bool.{true, false}
use mathlib.Core.Option.{none, some}
use native.Mathlib.Omega.{arith}
use mywork_automate.Prelude.{leb, if◌then◌else◌, Bool-cases, Option-cases}
use mywork_automate.Prelude.Chars.{size, size-append}
use mywork_automate.Value.{Value, str}
use mywork_automate.Masking.{
  mask_token, style_full, style_partial_last4, stars, drop_chars, partial_last4, stringify,
  mask_text, mask_value,
}

size-stars : (n : ℕ) → size (stars n) ≡ n
unfolding stars size
size-stars zero = refl
size-stars (suc n) = omega (arith, size-stars n)

size-drop_chars : (n : ℕ) (s : String) → size (drop_chars n s) ≡ size s - n
unfolding size drop_chars
size-drop_chars zero s = omega arith
size-drop_chars (suc n) String.[] = omega arith
size-drop_chars (suc n) (String.◌∷◌ c s) = omega (arith, size-drop_chars n s)

drop_chars-stars : (n : ℕ) (t : String) → drop_chars n (stars n ++ t) ≡ t
unfolding stars drop_chars
drop_chars-stars zero t = rw (Append.nil)
drop_chars-stars (suc n) t = rw (Append.cons) (drop_chars-stars n t)

empty_le : size "" ≤ 4
unfolding size
empty_le = omega arith

four_of_long : (n : ℕ) → leb n 4 ≡ false → 4 ≤ n
four_of_long n h = ground arith

-- What the partial style leaves to see.
abbrev pub visible : String → String
visible s = if leb (size s) 4 then "" else drop_chars (size s - 4) s

-- The partial style keeps the length, shows at most four characters, and shows nothing else: texts of
-- one length with the same visible characters look the same.
pub partial_last4-hides :
    (s t : String)
    → size s ≡ size t
    → visible s ≡ visible t
    → (partial_last4 s ≡ partial_last4 t)
      × (size (partial_last4 s) ≡ size s)
      × (size (visible s) ≤ 4)
unfolding partial_last4
partial_last4-hides s t h k = elim (Bool-cases (leb (size s) 4)) [
  | inl short ↦
      let short' : leb (size t) 4 ≡ true = rw (← h) short in
      rw (short, short', h) (refl, size-stars (size t), empty_le)
  | inr long ↦
      let long' : leb (size t) 4 ≡ false = rw (← h) long in
      let same : drop_chars (size s - 4) s ≡ drop_chars (size t - 4) t = rw (long, long') at k in
      let shown = size-drop_chars (size s - 4) s in
      rw (long, long')
        (
          ap₂ (λ n u. stars n ++ u) (ap (λ n. n - 4) h) same,
          size-append (stars (size s - 4)) (drop_chars (size s - 4) s)
              ∙ omega (arith, size-stars (size s - 4), shown, four_of_long (size s) long),
          omega (arith, shown),
        )
]

partial_last4_idem : (s : String) → partial_last4 (partial_last4 s) ≡ partial_last4 s
unfolding partial_last4
partial_last4_idem s = elim (Bool-cases (leb (size s) 4)) [
  | inl short ↦ rw (short, size-stars (size s), short) refl
  | inr long ↦
      let k = size s - 4 in
      let n : size (stars k ++ drop_chars k s) ≡ size s =
        size-append (stars k) (drop_chars k s)
        ∙ omega (arith, size-stars k, size-drop_chars k s, four_of_long (size s) long) in
      rw (long, n, long, drop_chars-stars k (drop_chars k s)) refl
]

module _ (format_float : ℕ → ℕ → String) (sha256_hex : String → String) where
  abbrev masked : Value → String → Value
  masked = mask_value format_float sha256_hex

  masked_plain :
      (v : Value) (style : String) → stringify format_float sha256_hex v ≡ none → masked v style ≡ v
  unfolding mask_value
  masked_plain v style h = rw (h, mask_value)

  masked_full :
      (v : Value) {s : String}
      → stringify format_float sha256_hex v ≡ some s
      → masked v style_full ≡ str mask_token
  unfolding mask_value mask_text
  masked_full v h = rw (h, mask_value)

  masked_partial :
      (v : Value) {s : String}
      → stringify format_float sha256_hex v ≡ some s
      → masked v style_partial_last4 ≡ str (partial_last4 s)
  unfolding mask_value mask_text
  masked_partial v h = rw (h, mask_value)

  stringify-str : (s : String) → stringify format_float sha256_hex (str s) ≡ some s
  unfolding stringify
  stringify-str s = refl

  -- Masking again in the full or in the partial style changes nothing.
  mask_value_idem :
      (v : Value) (style : String)
      → (style ≡ style_full) ⊎ (style ≡ style_partial_last4)
      → mask_value format_float sha256_hex (mask_value format_float sha256_hex v style) style
        ≡ mask_value format_float sha256_hex v style
  mask_value_idem v style h = elim (Option-cases (stringify format_float sha256_hex v)) [
    | inl plain ↦ let same = masked_plain v style plain in rw (same, same)
    | inr (s, text) ↦ elim h [
      | inl full ↦
          rw (full, masked_full v text) (masked_full (str mask_token) (stringify-str mask_token))
      | inr last ↦
          rw (last, masked_partial v text)
            (masked_partial (str (partial_last4 s)) (stringify-str (partial_last4 s))
              ∙ ap str (partial_last4_idem s))
    ]
  ]
