-- ===== src/SqlBuilder/Safe.antt =====
-- What stands in a whole query of pkg/sqlbuilder/sqlbuilder.go.
use Prim.Native.Nat.{ℕ, suc, ◌+◌}
use Prim.Native.String.{String, ◌++◌}
use mathlib.Core.Path.{◌≡◌, refl, ap, sym, ◌∙◌}
use mathlib.Core.Bool.{true, not}
use mathlib.Core.List.{List, [], ◌∷◌, map}
use native.Mathlib.Omega.{arith}
use text.Mathlib.Text.{◌==◌}
use mywork_automate.Prelude.{ℤ, pos, pos_part, All, length, contains}
use mywork_automate.Prelude.Results.{ok, bind-ok, refuse_if, refuse_if-ok}
use mywork_automate.Prelude.Chars.{trim_space, all_chars, count_chars, join_with, decimal}
use mywork_automate.Value.{Value}
use mywork_automate.SqlBuilder.{
  no_table, Filter, Spec, check_ident, quote, qualified, column_ref, collect, join_clause,
  allowed_ops, sql_op, comb_text, effective_limit, predicate, predicates, where_sql, check_sizes,
  select_text, build,
}
use mywork_automate.SqlBuilder.Pieces.{
  is_dollar, is_sql_char, IsPiece, piece, append-IsPiece, prepend-IsPiece, check_ident-ok,
  quote-IsPiece, qualified-IsPiece, decimal-IsPiece, count_of, join_with-IsPiece,
}
use mywork_automate.SqlBuilder.Clauses.{
  column_ref-IsPiece, collect-All, join_with-plain, join_clause-IsPiece, sql_op-IsPiece,
  comb_text-IsPiece,
}
use mywork_automate.SqlBuilder.Limit.{effective_limit-bounds}

pieces : Unit {0}
unfolding all_chars count_chars
pieces = tt

length-map : {A B : Type 0} (f : A → B) (l : List A) → length (map f l) ≡ length l
length-map f [] = refl
length-map f (a ∷ l) = ap suc (length-map f l)

module _ (to_lower : String → String) where
  predicate-IsPiece :
      (n : ℕ) (f : Filter) {pred : String} → predicate to_lower n f ≡ ok pred → IsPiece 1 pred
  unfolding predicate pieces
  predicate-IsPiece n f {pred} h =
      let op = to_lower f.op in
      let (u, allowed, h₁) = bind-ok (refuse_if (not (contains op allowed_ops)) _) _ h in
      let (ref, q, h₂) = bind-ok (qualified f.table f.column) _ h₁ in
      let listed : contains op allowed_ops ≡ true =
        let e = refuse_if-ok (not (contains op allowed_ops)) _ allowed in ground arith in
      let same : ref ++ (" " ++ (sql_op op ++ (" $" ++ decimal (pos n)))) ≡ pred = ground arith in
      rw (← same) (
        prepend-IsPiece 1 ref _ (qualified-IsPiece f.table f.column q) (
          prepend-IsPiece 1 " " _ (piece refl refl) (
            prepend-IsPiece 1 (sql_op op) _ (sql_op-IsPiece op listed)
              (append-IsPiece 1 0 " $" (decimal (pos n)) (piece refl refl) (decimal-IsPiece n)))))

  predicates-IsPiece :
      (n : ℕ) (fs : List Filter) {preds : List String}
      → predicates to_lower n fs ≡ ok preds
      → All (λ s. IsPiece 1 s) preds × (count_of 1 preds ≡ length fs)
  predicates-IsPiece n [] {preds} h = let same : [] ≡ preds = ground arith in rw (← same) (tt, refl)
  predicates-IsPiece n (f ∷ fs) {preds} h =
      let (s, made, e) = bind-ok (predicate to_lower n f) _ h in
      let (ss, rest, k) = bind-ok (predicates to_lower (suc n) fs) _ e in
      let same : s ∷ ss ≡ preds = ground arith in
      let (all, count) = predicates-IsPiece (suc n) fs {preds = ss} rest in
      rw (← same) ((predicate-IsPiece n f {pred = s} made, all), omega (arith, count))

  where_sql-IsPiece :
      (comb : String) (fs : List Filter) {text : String}
      → where_sql to_lower comb fs ≡ ok text
      → IsPiece (length fs) text
  unfolding pieces
  where_sql-IsPiece comb [] {text} h =
      let same : "" ≡ text = ground arith in rw (← same) (piece refl refl)
  where_sql-IsPiece comb (f ∷ fs) {text} h =
      let (preds, made, e) = bind-ok (predicates to_lower 1 (f ∷ fs)) _ h in
      let (all, count) = predicates-IsPiece 1 (f ∷ fs) made in
      let same : " WHERE " ++ join_with (comb_text comb) preds ≡ text = ground arith in
      let joined = join_with-IsPiece (comb_text comb) preds 1 (comb_text-IsPiece comb) all in
      rw (← same)
        (prepend-IsPiece (length (f ∷ fs)) " WHERE " _ (piece refl refl) (rw count at joined))

  select_text-IsPiece_pos :
      (table : String) (cols joins : List String) (filters : String) (n k : ℕ)
      → IsPiece 0 (quote table)
      → All (λ s. IsPiece 0 s) cols
      → All (λ s. IsPiece 0 s) joins
      → IsPiece n filters
      → IsPiece n (select_text to_lower table cols joins filters (pos k))
  unfolding pieces
  select_text-IsPiece_pos table cols joins filters n k t c j f =
      let tail : IsPiece n (filters ++ (" LIMIT " ++ decimal (pos k))) =
        let e : n + 0 ≡ n = omega arith in
        let joined =
          append-IsPiece n 0 filters (" LIMIT " ++ decimal (pos k)) f
            (prepend-IsPiece 0 " LIMIT " (decimal (pos k)) (piece refl refl) (decimal-IsPiece k)) in
        rw e at joined in
      let from : IsPiece 0 (quote table ++ join_with "" joins) =
        prepend-IsPiece 0 (quote table) _ t (join_with-plain "" joins (piece refl refl) j) in
      prepend-IsPiece n "SELECT " _ (piece refl refl) (
        prepend-IsPiece n (join_with ", " cols) _ (join_with-plain ", " cols (piece refl refl) c) (
          prepend-IsPiece n " FROM " _ (piece refl refl)
            (prepend-IsPiece n (quote table ++ join_with "" joins) _ from tail)))

  select_text-IsPiece :
      (table : String) (cols joins : List String) (filters : String) (n k : ℕ)
      → IsPiece 0 (quote table)
      → All (λ s. IsPiece 0 s) cols
      → All (λ s. IsPiece 0 s) joins
      → IsPiece n filters
      → (limit : ℤ) → limit ≡ pos k
      → IsPiece n (select_text to_lower table cols joins filters limit)
  unfolding pieces
  select_text-IsPiece table cols joins filters n k t c j f limit e =
      rw e (select_text-IsPiece_pos table cols joins filters n k t c j f)

  build_text :
      (spec : Spec) (max_rows : ℤ) {sql : String} {args : List Value}
      → build to_lower spec max_rows ≡ ok (sql, args)
      → IsPiece (length spec.filters) sql × (args ≡ map (λ f. f.value) spec.filters)
  unfolding build check_sizes
  build_text spec max_rows {sql} {args} h =
      let (u, sized, h₁) = bind-ok (check_sizes to_lower spec) _ h in
      let (cols, c, h₂) = bind-ok (collect column_ref spec.columns) _ h₁ in
      let (joins, j, h₃) = bind-ok (collect join_clause spec.joins) _ h₂ in
      let (filters, w, h₄) = bind-ok (where_sql to_lower spec.combinator spec.filters) _ h₃ in
      let (v, named, s₁) = bind-ok (refuse_if (trim_space spec.table == "") no_table) _ sized in
      let (x, ident, s₂) = bind-ok (check_ident spec.table) _ s₁ in
      let limit = effective_limit spec.limit max_rows in
      let k = pos_part limit in
      let positive = (effective_limit-bounds spec.limit max_rows).0 in
      let text = select_text to_lower spec.table cols joins filters limit in
      let same : text ≡ sql = ground arith in
      let values : map (λ f. f.value) spec.filters ≡ args = ground arith in
      rw (← same, ← values)
        (
          select_text-IsPiece spec.table cols joins filters (length spec.filters) k
              (quote-IsPiece spec.table (check_ident-ok spec.table ident))
              (collect-All column_ref 0 spec.columns (λ c s. column_ref-IsPiece c {ref = s}) c)
              (collect-All join_clause 0 spec.joins (λ j s. join_clause-IsPiece j {clause = s}) j)
              (where_sql-IsPiece spec.combinator spec.filters w) limit positive,
          refl,
        )

  -- A query that is built has harmless characters only: letters, digits, underscores, spaces and the
  -- signs " $ . , ! < = >. Its placeholders are as many as its arguments, which are the values of the
  -- filters in their order.
  pub build-IsPiece :
      (spec : Spec) (max_rows : ℤ) {sql : String} {args : List Value}
      → build to_lower spec max_rows ≡ ok (sql, args)
      → (all_chars is_sql_char sql ≡ true)
        × (count_chars is_dollar sql ≡ length args)
        × (args ≡ map (λ f. f.value) spec.filters)
  build-IsPiece spec max_rows {sql} {args} h =
      let (p, values) = build_text spec max_rows h in
      (
        p.harmless,
        p.placeholders ∙ sym (ap length values ∙ length-map (λ (f : Filter). f.value) spec.filters),
        values,
      )
