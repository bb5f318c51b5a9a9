-- ===== src/SqlBuilder/Pieces.antt =====
-- The pieces that pkg/sqlbuilder/sqlbuilder.go puts together: which characters they have, and how many
-- placeholders.
use Prim.Native.Nat.{ℕ, zero, suc, ◌+◌, ◌/◌, ◌%◌}
use Prim.Native.Char.{Char}
use Prim.Native.String.{String, ◌++◌}
use mathlib.Core.Path.{◌≡◌, refl}
use mathlib.Core.Logic.{inl, inr}
use mathlib.Core.Bool.{Bool, true, not, ◌||◌}
use mathlib.Core.List.{List, [], ◌∷◌}
use native.Mathlib.Omega.{arith}
use text.Mathlib.Text.{◌==◌}
use mywork_automate.Prelude.{ltb, pos, Bool-cases, All}
use mywork_automate.Prelude.Results.{ok, bind-ok, refuse_if-ok}
use mywork_automate.Prelude.Chars.{
  within, trim_space, all_chars, count_chars, join_with, digit, digits, decimal, all_chars-append,
  count_chars-append,
}
use mywork_automate.SqlBuilder.{
  is_ident_part, is_ident, check_ident, quote, table_ref, qualified, must_qualified,
}

abbrev pub is_dollar : Char → Bool
is_dollar c = within 36 36 c

-- Letters, digits, underscore, space, and the signs " $ . , ! < = >: no quote of a literal, no
-- semicolon, no parenthesis, no sign that starts a comment.
abbrev pub is_sql_char : Char → Bool
is_sql_char c =
    is_ident_part c
    || within 32 34 c
    || within 36 36 c
    || within 44 44 c
    || within 46 46 c
    || within 60 62 c

-- A text of harmless characters with `n` placeholders.
pub record IsPiece (n : ℕ) (s : String) : Type 0 where
  pub harmless : all_chars is_sql_char s ≡ true
  pub placeholders : count_chars is_dollar s ≡ n

abbrev pub piece :
    {n : ℕ} {s : String}
    → all_chars is_sql_char s ≡ true
    → count_chars is_dollar s ≡ n
    → IsPiece n s
piece h k = record { harmless = h; placeholders = k }

pub append-IsPiece : (a b : ℕ) (s t : String) → IsPiece a s → IsPiece b t → IsPiece (a + b) (s ++ t)
append-IsPiece a b s t h k =
    let harmless = all_chars-append is_sql_char s t in
    let counted = count_chars-append is_dollar s t in
    let h₁ = h.harmless in
    let h₂ = h.placeholders in
    let k₁ = k.harmless in let k₂ = k.placeholders in piece (ground arith) (ground arith)

-- A text with no placeholder in front.
pub prepend-IsPiece : (n : ℕ) (s t : String) → IsPiece 0 s → IsPiece n t → IsPiece n (s ++ t)
prepend-IsPiece n s t h k =
    let e : 0 + n ≡ n = omega arith in let joined = append-IsPiece 0 n s t h k in rw e at joined

-- The characters of identifiers are harmless, and no placeholders.
parts-IsPiece : (s : String) → all_chars is_ident_part s ≡ true → IsPiece 0 s
unfolding all_chars count_chars
parts-IsPiece String.[] h = piece refl refl
parts-IsPiece (String.◌∷◌ c s) h =
    let rest = parts-IsPiece s (ground arith) in
    let k = rest.harmless in let l = rest.placeholders in piece (ground arith) (ground arith)

ident-IsPiece : (s : String) → is_ident s ≡ true → IsPiece 0 s
unfolding is_ident all_chars
ident-IsPiece String.[] h = absurd (cc)
ident-IsPiece (String.◌∷◌ c s) h = parts-IsPiece (String.◌∷◌ c s) (ground arith)

pub check_ident-ok :
    (name : String) {u : Unit {0}} → check_ident name ≡ ok u → is_ident (trim_space name) ≡ true
unfolding check_ident
check_ident-ok name h = let e = refuse_if-ok (not (is_ident (trim_space name))) _ h in ground arith

pub quote-IsPiece : (name : String) → is_ident (trim_space name) ≡ true → IsPiece 0 (quote name)
unfolding quote all_chars count_chars
quote-IsPiece name h =
    let mark : IsPiece 0 "\"" = piece refl refl in
    append-IsPiece 0 0 "\"" (trim_space name ++ "\"") mark
      (append-IsPiece 0 0 (trim_space name) "\"" (ident-IsPiece (trim_space name) h) mark)

table_ref-IsPiece :
    (table col : String) {ref : String}
    → is_ident (trim_space col) ≡ true
    → table_ref table col ≡ ok ref
    → IsPiece 0 ref
unfolding all_chars count_chars
table_ref-IsPiece table col {ref} c h =
    let (u, t, e) = bind-ok (check_ident table) _ h in
    let same : quote table ++ ("." ++ quote col) ≡ ref = ground arith in
    rw (← same) (
      append-IsPiece 0 0 (quote table) ("." ++ quote col)
        (quote-IsPiece table (check_ident-ok table t))
        (append-IsPiece 0 0 "." (quote col) (piece refl refl) (quote-IsPiece col c)))

pub qualified-IsPiece :
    (table col : String) {ref : String} → qualified table col ≡ ok ref → IsPiece 0 ref
unfolding qualified
qualified-IsPiece table col {ref} h =
    let (u, c, e) = bind-ok (check_ident col) _ h in
    let good = check_ident-ok col c in
    elim (Bool-cases (trim_space table == "")) [
      | inl bare ↦ let same : quote col ≡ ref = ground arith in rw (← same) (quote-IsPiece col good)
      | inr given ↦ table_ref-IsPiece table col {ref = ref} good (ground arith)
    ]

pub must_qualified-IsPiece :
    (table col : String) {ref : String} → must_qualified table col ≡ ok ref → IsPiece 0 ref
unfolding must_qualified
must_qualified-IsPiece table col {ref} h =
    let (u, c, e) = bind-ok (check_ident table) _ h in qualified-IsPiece table col {ref = ref} e

digit-IsPiece : (n : ℕ) → IsPiece 0 (digit n)
unfolding all_chars count_chars
digit-IsPiece zero = piece refl refl
digit-IsPiece (suc zero) = piece refl refl
digit-IsPiece (suc (suc zero)) = piece refl refl
digit-IsPiece (suc (suc (suc zero))) = piece refl refl
digit-IsPiece (suc (suc (suc (suc zero)))) = piece refl refl
digit-IsPiece (suc (suc (suc (suc (suc zero))))) = piece refl refl
digit-IsPiece (suc (suc (suc (suc (suc (suc zero)))))) = piece refl refl
digit-IsPiece (suc (suc (suc (suc (suc (suc (suc zero))))))) = piece refl refl
digit-IsPiece (suc (suc (suc (suc (suc (suc (suc (suc zero)))))))) = piece refl refl
digit-IsPiece (suc (suc (suc (suc (suc (suc (suc (suc (suc n))))))))) = piece refl refl

digits-IsPiece : (fuel n : ℕ) → IsPiece 0 (digits fuel n)
unfolding digits
digits-IsPiece zero n = digit-IsPiece (n % 10)
digits-IsPiece (suc fuel) n = elim (Bool-cases (ltb n 10)) [
  | inl small ↦ rw small (digit-IsPiece n)
  | inr big ↦ rw big (
      append-IsPiece 0 0 (digits fuel (n / 10)) (digit (n % 10)) (digits-IsPiece fuel (n / 10))
        (digit-IsPiece (n % 10)))
]

pub decimal-IsPiece : (n : ℕ) → IsPiece 0 (decimal (pos n))
unfolding decimal
decimal-IsPiece n = digits-IsPiece 18 n

-- `n` placeholders for each of some parts.
abbrev pub count_of : ℕ → List String → ℕ
count_of n [] = 0
count_of n (_ ∷ parts) = n + count_of n parts

-- Joined pieces, with the placeholders of all of them.
pub join_with-IsPiece :
    (sep : String) (parts : List String) (n : ℕ)
    → IsPiece 0 sep
    → All (λ s. IsPiece n s) parts
    → IsPiece (count_of n parts) (join_with sep parts)
unfolding join_with all_chars count_chars
join_with-IsPiece sep [] n s h = piece refl refl
join_with-IsPiece sep (part ∷ []) n s h = let e : n + 0 ≡ n = omega arith in rw e h.0
join_with-IsPiece sep (part ∷ next ∷ parts) n s h =
    append-IsPiece n (count_of n (next ∷ parts)) part (sep ++ join_with sep (next ∷ parts)) h.0 (
      prepend-IsPiece (count_of n (next ∷ parts)) sep (join_with sep (next ∷ parts)) s
        (join_with-IsPiece sep (next ∷ parts) n s h.1))
