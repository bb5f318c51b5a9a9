-- ===== src/SqlBuilder/Clauses.antt =====
-- The characters of the clauses of a query of pkg/sqlbuilder/sqlbuilder.go.
use Prim.Native.Nat.{ℕ}
use Prim.Native.String.{String, ◌++◌}
use mathlib.Core.Path.{◌≡◌, refl}
use mathlib.Core.Logic.{◌⊎◌, inl, inr}
use mathlib.Core.Bool.{true}
use mathlib.Core.List.{List, [], ◌∷◌}
use native.Mathlib.Omega.{arith}
use text.Mathlib.Text.{◌==◌}
use mywork_automate.Prelude.{Bool-cases, All, contains}
use mywork_automate.Prelude.Results.{Result, ok, bind-ok, refuse_if}
use mywork_automate.Prelude.TextOrder.{All-contains}
use mywork_automate.Prelude.Chars.{all_chars, count_chars, join_with}
use mywork_automate.SqlBuilder.{
  SqlError, OnCond, Join, Column, check_ident, quote, qualified, must_qualified, with_alias,
  column_ref, collect, join_keyword, on_part, is_empty, join_clause, allowed_ops, sql_op, comb_text,
}
use mywork_automate.SqlBuilder.Pieces.{
  IsPiece, piece, prepend-IsPiece, check_ident-ok, quote-IsPiece, qualified-IsPiece,
  must_qualified-IsPiece, count_of, join_with-IsPiece,
}

pieces : Unit {0}
unfolding all_chars count_chars
pieces = tt

pub column_ref-IsPiece : (c : Column) {ref : String} → column_ref c ≡ ok ref → IsPiece 0 ref
unfolding column_ref pieces
column_ref-IsPiece c {ref} h =
    let (r, q, e) = bind-ok (qualified c.table c.name) _ h in
    let good = qualified-IsPiece c.table c.name q in
    elim (Bool-cases (c.alias == "")) [
      | inl bare ↦ let same : r ≡ ref = ground arith in rw (← same) good
      | inr named ↦
          let e' : with_alias c.alias r ≡ ok ref = ground arith in
          let (u, a, k) = bind-ok (check_ident c.alias) _ e' in
          let same : r ++ (" AS " ++ quote c.alias) ≡ ref = ground arith in
          rw (← same) (
            prepend-IsPiece 0 r _ good (
              prepend-IsPiece 0 " AS " _ (piece refl refl)
                (quote-IsPiece c.alias (check_ident-ok c.alias a))))
    ]

on_part-IsPiece : (o : OnCond) {part : String} → on_part o ≡ ok part → IsPiece 0 part
unfolding on_part pieces
on_part-IsPiece o {part} h =
    let (l, hl, e) = bind-ok (must_qualified o.left_table o.left_col) _ h in
    let (r, hr, k) = bind-ok (must_qualified o.right_table o.right_col) _ e in
    let same : l ++ (" = " ++ r) ≡ part = ground arith in
    rw (← same) (
      prepend-IsPiece 0 l _ (must_qualified-IsPiece o.left_table o.left_col hl) (
        prepend-IsPiece 0 " = " r (piece refl refl)
          (must_qualified-IsPiece o.right_table o.right_col hr)))

join_keyword-IsPiece : (type : String) {kw : String} → join_keyword type ≡ ok kw → IsPiece 0 kw
unfolding join_keyword pieces
join_keyword-IsPiece type {kw} h =
    let either : (kw ≡ "LEFT JOIN") ⊎ (kw ≡ "INNER JOIN") = ground arith in
    elim either [ inl e ↦ rw e (piece refl refl) | inr e ↦ rw e (piece refl refl) ]

pub collect-All :
    {A : Type 0} (f : A → Result SqlError String) (n : ℕ) (l : List A) {parts : List String}
    → ((a : A) (s : String) → f a ≡ ok s → IsPiece n s)
    → collect f l ≡ ok parts
    → All (λ s. IsPiece n s) parts
collect-All f n [] {parts} g h = let same : [] ≡ parts = ground arith in rw (← same) tt
collect-All f n (a ∷ l) {parts} g h =
    let (s, made, e) = bind-ok (f a) _ h in
    let (ss, rest, k) = bind-ok (collect f l) _ e in
    let same : s ∷ ss ≡ parts = ground arith in
    rw (← same) (g a s made, collect-All f n l {parts = ss} g rest)

count_of_zero : (parts : List String) → count_of 0 parts ≡ 0
count_of_zero [] = refl
count_of_zero (_ ∷ parts) = omega (arith, count_of_zero parts)

pub join_with-plain :
    (sep : String) (parts : List String)
    → IsPiece 0 sep
    → All (λ s. IsPiece 0 s) parts
    → IsPiece 0 (join_with sep parts)
join_with-plain sep parts s h =
    let e = count_of_zero parts in let joined = join_with-IsPiece sep parts 0 s h in rw e at joined

pub join_clause-IsPiece :
    (j : Join) {clause : String} → join_clause j ≡ ok clause → IsPiece 0 clause
unfolding join_clause pieces
join_clause-IsPiece j {clause} h =
    let (u, t, h₁) = bind-ok (check_ident j.table) _ h in
    let (v, some_on, h₂) = bind-ok (refuse_if (is_empty j.on) _) _ h₁ in
    let (kw, k, h₃) = bind-ok (join_keyword j.type) _ h₂ in
    let (parts, p, h₄) = bind-ok (collect on_part j.on) _ h₃ in
    let text = " " ++ (kw ++ (" " ++ (quote j.table ++ (" ON " ++ join_with " AND " parts)))) in
    let same : text ≡ clause = ground arith in
    rw (← same) (
      prepend-IsPiece 0 " " _ (piece refl refl) (
        prepend-IsPiece 0 kw _ (join_keyword-IsPiece j.type k) (
          prepend-IsPiece 0 " " _ (piece refl refl) (
            prepend-IsPiece 0 (quote j.table) _ (quote-IsPiece j.table (check_ident-ok j.table t)) (
              prepend-IsPiece 0 " ON " _ (piece refl refl) (
                join_with-plain " AND " parts (piece refl refl)
                  (collect-All on_part 0 j.on (λ o s. on_part-IsPiece o {part = s}) p)))))))

pub sql_op-IsPiece : (op : String) → contains op allowed_ops ≡ true → IsPiece 0 (sql_op op)
unfolding pieces
sql_op-IsPiece op h =
    All-contains (λ o. IsPiece 0 (sql_op o)) op allowed_ops
      (
        (piece refl refl),
        (
          (piece refl refl),
          (
            (piece refl refl),
            ((piece refl refl), ((piece refl refl), ((piece refl refl), ((piece refl refl), tt)))),
          ),
        ),
      )
      h

pub comb_text-IsPiece : (comb : String) → IsPiece 0 (comb_text comb)
unfolding pieces
comb_text-IsPiece comb = elim (Bool-cases (comb == "or")) [
  | inl any ↦ rw any (piece refl refl)
  | inr all ↦ rw all (piece refl refl)
]
