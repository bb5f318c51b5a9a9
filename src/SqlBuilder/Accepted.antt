-- ===== src/SqlBuilder/Accepted.antt =====
-- Which queries pkg/sqlbuilder/sqlbuilder.go accepts.
use Prim.Native.Nat.{ℕ, suc}
use Prim.Native.String.{String}
use mathlib.Core.Path.{◌≡◌, refl, ◌∙◌}
use mathlib.Core.Bool.{Bool, true, false, not, ◌&&◌, ◌||◌}
use mathlib.Core.List.{List, [], ◌∷◌}
use native.Mathlib.Omega.{arith}
use text.Mathlib.Text.{◌==◌}
use text.Mathlib.TextEquality.{eq_iff}
use mywork_automate.Prelude.{ℤ, leb, ltb, length, contains}
use mywork_automate.Prelude.Results.{Result, ok, err, ◌>>=◌, refuse_if}
use mywork_automate.Prelude.Chars.{trim_space}
use mywork_automate.SqlBuilder.{
  SqlError, OnCond, Join, Column, Filter, Spec, is_ident, check_ident, table_ref, qualified,
  must_qualified, with_alias, column_ref, collect, join_keyword, on_part, is_empty, join_clause,
  allowed_ops, predicate, predicates, where_sql, check_sizes, build, invalid_ident,
}

abbrev pub is_ok : {A : Type 0} → Result SqlError A → Bool
is_ok (ok _) = true
is_ok (err _) = false

abbrev pub all_of : {A : Type 0} → (A → Bool) → List A → Bool
all_of p [] = true
all_of p (a ∷ l) = p a && all_of p l

abbrev pub well_named : String → Bool
well_named name = is_ident (trim_space name)

abbrev pub good_ref : String → String → Bool
good_ref table col = well_named col && (trim_space table == "" || well_named table)

abbrev pub good_column : Column → Bool
good_column c = good_ref c.table c.name && (c.alias == "" || well_named c.alias)

abbrev pub good_on : OnCond → Bool
good_on o =
    well_named o.left_table
    && well_named o.left_col
    && well_named o.right_table
    && well_named o.right_col

abbrev pub good_join : Join → Bool
good_join j =
    well_named j.table
    && not (is_empty j.on)
    && (j.type == "left" || j.type == "inner" || j.type == "")
    && all_of good_on j.on

-- A chain is accepted where each step is, if what follows a step does not depend on its value.
then_lem :
    {A B : Type 0} (r : Result SqlError A) (f : A → Result SqlError B) {a b : Bool}
    → is_ok r ≡ a
    → ((x : A) → is_ok (f x) ≡ b)
    → is_ok (r >>= f) ≡ (a && b)
then_lem (ok x) f h k = rw (← h) (k x)
then_lem (err e) f h k = rw (← h)

-- The last fallible step of a chain.
last_lem :
    {A B : Type 0} (r : Result SqlError A) (f : A → Result SqlError B) {a : Bool}
    → is_ok r ≡ a
    → ((x : A) → is_ok (f x) ≡ true)
    → is_ok (r >>= f) ≡ a
last_lem (ok x) f h k = k x ∙ h
last_lem (err e) f h k = h

refuse_if_lem : (test : Bool) (e : SqlError) → is_ok (refuse_if test e) ≡ not test
refuse_if_lem true e = refl
refuse_if_lem false e = refl

check_ident_lem : (name : String) → is_ok (check_ident name) ≡ well_named name
unfolding check_ident
check_ident_lem name =
    ground (arith, refuse_if_lem (not (is_ident (trim_space name))) (invalid_ident name))

table_ref_lem : (table col : String) → is_ok (table_ref table col) ≡ well_named table
table_ref_lem table col = last_lem (check_ident table) _ (check_ident_lem table) (λ _. refl)

qualified_lem : (table col : String) → is_ok (qualified table col) ≡ good_ref table col
unfolding qualified
qualified_lem table col =
    then_lem (check_ident col) _ (check_ident_lem col)
      (λ _. ground (arith, table_ref_lem table col))

must_qualified_lem :
    (table col : String) → is_ok (must_qualified table col) ≡ (well_named table && well_named col)
unfolding must_qualified
must_qualified_lem table col =
    then_lem (check_ident table) _ (check_ident_lem table) (λ _. qualified_lem table col)
    ∙ ground arith

with_alias_lem : (alias ref : String) → is_ok (with_alias alias ref) ≡ well_named alias
with_alias_lem alias ref = last_lem (check_ident alias) _ (check_ident_lem alias) (λ _. refl)

column_ref_lem : (c : Column) → is_ok (column_ref c) ≡ good_column c
unfolding column_ref
column_ref_lem c =
    then_lem (qualified c.table c.name) _ (qualified_lem c.table c.name)
      (λ ref. ground (arith, with_alias_lem c.alias ref))

collect_lem :
    {A : Type 0} (f : A → Result SqlError String) (p : A → Bool) (l : List A)
    → ((a : A) → is_ok (f a) ≡ p a)
    → is_ok (collect f l) ≡ all_of p l
collect_lem f p [] h = refl
collect_lem f p (a ∷ l) h =
    then_lem (f a) _ (h a) (λ s. last_lem (collect f l) _ (collect_lem f p l h) (λ _. refl))

join_keyword_lem :
    (type : String) → is_ok (join_keyword type) ≡ (type == "left" || type == "inner" || type == "")
unfolding join_keyword
join_keyword_lem type = ground arith

on_part_lem : (o : OnCond) → is_ok (on_part o) ≡ good_on o
unfolding on_part
on_part_lem o =
    then_lem (must_qualified o.left_table o.left_col) _ (must_qualified_lem o.left_table o.left_col)
      (λ l.
        last_lem (must_qualified o.right_table o.right_col) _
          (must_qualified_lem o.right_table o.right_col) (λ _. refl))
    ∙ ground arith

join_clause_lem : (j : Join) → is_ok (join_clause j) ≡ good_join j
unfolding join_clause
join_clause_lem j =
    then_lem (check_ident j.table) _ (check_ident_lem j.table) (λ _.
      then_lem (refuse_if (is_empty j.on) _) _ (refuse_if_lem (is_empty j.on) _) (λ _.
        then_lem (join_keyword j.type) _ (join_keyword_lem j.type) (λ kw.
          last_lem (collect on_part j.on) _ (collect_lem on_part good_on j.on on_part_lem)
            (λ _. refl))))
    ∙ ground arith

module _ (to_lower : String → String) where
  abbrev pub good_filter : Filter → Bool
  good_filter f = contains (to_lower f.op) allowed_ops && good_ref f.table f.column

  -- A query over valid names: one table, at most five joins with conditions, from one to 200 columns,
  -- and at most 50 filters with operators of the list.
  abbrev pub is_whitelisted : Spec → Bool
  is_whitelisted spec =
      (well_named spec.table
        && leb (length spec.joins) 5
        && not (is_empty spec.columns)
        && leb (length spec.columns) 200
        && leb (length spec.filters) 50)
      && all_of good_column spec.columns
      && all_of good_join spec.joins
      && all_of good_filter spec.filters

  predicate_lem : (n : ℕ) (f : Filter) → is_ok (predicate to_lower n f) ≡ good_filter f
  unfolding predicate
  predicate_lem n f =
      then_lem (refuse_if (not (contains (to_lower f.op) allowed_ops)) _) _
        (refuse_if_lem (not (contains (to_lower f.op) allowed_ops)) _)
        (λ _. last_lem (qualified f.table f.column) _ (qualified_lem f.table f.column) (λ _. refl))
      ∙ ground arith

  predicates_lem :
      (n : ℕ) (fs : List Filter) → is_ok (predicates to_lower n fs) ≡ all_of good_filter fs
  predicates_lem n [] = refl
  predicates_lem n (f ∷ fs) =
      then_lem (predicate to_lower n f) _ (predicate_lem n f)
        (λ s. last_lem (predicates to_lower (suc n) fs) _ (predicates_lem (suc n) fs) (λ _. refl))

  where_sql_lem :
      (comb : String) (fs : List Filter)
      → is_ok (where_sql to_lower comb fs) ≡ all_of good_filter fs
  where_sql_lem comb [] = refl
  where_sql_lem comb (f ∷ fs) =
      last_lem (predicates to_lower 1 (f ∷ fs)) _ (predicates_lem 1 (f ∷ fs)) (λ _. refl)

  unnamed : (name : String) → trim_space name == "" ≡ true → well_named name ≡ false
  unfolding is_ident
  unnamed name h = let e : trim_space name ≡ "" = (eq_iff (trim_space name) "").0 h in rw e refl

  check_sizes_lem :
      (spec : Spec)
      → is_ok (check_sizes to_lower spec) ≡ (
          well_named spec.table
          && leb (length spec.joins) 5
          && not (is_empty spec.columns)
          && leb (length spec.columns) 200
          && leb (length spec.filters) 50)
  unfolding check_sizes
  check_sizes_lem spec =
      then_lem (refuse_if (trim_space spec.table == "") _) _
        (refuse_if_lem (trim_space spec.table == "") _)
        (λ _. then_lem (check_ident spec.table) _ (check_ident_lem spec.table) (λ _.
          then_lem (refuse_if (ltb 5 (length spec.joins)) _) _
            (refuse_if_lem (ltb 5 (length spec.joins)) _)
            (λ _.
              then_lem (refuse_if (is_empty spec.columns) _) _
                (refuse_if_lem (is_empty spec.columns) _)
                (λ _.
                  then_lem (refuse_if (ltb 200 (length spec.columns)) _) _
                    (refuse_if_lem (ltb 200 (length spec.columns)) _)
                    (λ _. refuse_if_lem (ltb 50 (length spec.filters)) _)))))
      ∙ ground (arith, unnamed spec.table)

  -- A query is built exactly where its spec is whitelisted.
  pub build-is_whitelisted :
      (spec : Spec) (max_rows : ℤ) → is_ok (build to_lower spec max_rows) ≡ is_whitelisted spec
  unfolding build
  build-is_whitelisted spec max_rows =
      then_lem (check_sizes to_lower spec) _ (check_sizes_lem spec) (λ _.
        then_lem (collect column_ref spec.columns) _
          (collect_lem column_ref good_column spec.columns column_ref_lem)
          (λ cols.
            then_lem (collect join_clause spec.joins) _
              (collect_lem join_clause good_join spec.joins join_clause_lem)
              (λ joins.
                last_lem (where_sql to_lower spec.combinator spec.filters) _
                  (where_sql_lem spec.combinator spec.filters) (λ _. refl))))
      ∙ ground arith
