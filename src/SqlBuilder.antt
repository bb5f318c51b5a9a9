-- ===== src/SqlBuilder.antt =====
-- pkg/sqlbuilder/sqlbuilder.go: from a whitelisted query to one parameterised SELECT.
pub mod Pieces
pub mod Clauses
pub mod Limit
pub mod Safe
pub mod Accepted
mod Tests
use Prim.Native.Nat.{ℕ, suc}
use Prim.Native.Char.{Char}
use Prim.Native.String.{String, ◌++◌}
use mathlib.Core.Bool.{Bool, true, false, not, ◌&&◌, ◌||◌}
use mathlib.Core.List.{List, [], ◌∷◌, map}
use text.Mathlib.Text.{◌==◌}
use mywork_automate.Prelude.{ℤ, pos, negsuc, ltb, ltb_ℤ, if◌then◌else◌, length, contains}
use mywork_automate.Prelude.Results.{Result, ok, err, ◌>>=◌, ◌>>◌, refuse_if}
use mywork_automate.Prelude.Chars.{within, trim_space, all_chars, join_with, decimal}
use mywork_automate.Value.{Value}

abbrev pub max_joins : ℕ
max_joins = 5

abbrev pub max_row_ceiling : ℤ
max_row_ceiling = pos 100000

abbrev pub max_columns : ℕ
max_columns = 200

abbrev pub max_filters : ℕ
max_filters = 50

pub data SqlError : Type 0 where
  invalid_ident : String → SqlError
  no_table : SqlError
  no_columns : SqlError
  join_no_on : String → SqlError
  too_many_joins : SqlError
  bad_operator : String → SqlError
  too_big : String → SqlError

-- `identRe`
abbrev pub is_ident_start : Char → Bool
is_ident_start c = within 65 90 c || within 97 122 c || within 95 95 c

abbrev pub is_ident_part : Char → Bool
is_ident_part c = is_ident_start c || within 48 57 c

unfoldable pub is_ident : String → Bool
is_ident String.[] = false
is_ident (String.◌∷◌ c s) = is_ident_start c && all_chars is_ident_part s

abbrev pub inner_join : String
inner_join = "inner"

abbrev pub left_join : String
left_join = "left"

pub record OnCond : Type 0 where
  pub left_table : String
  pub left_col : String
  pub right_table : String
  pub right_col : String

pub record Join : Type 0 where
  pub type : String
  pub table : String
  pub on : List OnCond

pub record Column : Type 0 where
  pub table : String
  pub name : String
  pub alias : String

abbrev pub allowed_ops : List String
allowed_ops = "=" ∷ "!=" ∷ ">" ∷ ">=" ∷ "<" ∷ "<=" ∷ "like" ∷ []

pub record Filter : Type 0 where
  pub table : String
  pub column : String
  pub op : String
  pub value : Value

pub record Spec : Type 0 where
  pub table : String
  pub joins : List Join
  pub columns : List Column
  pub filters : List Filter
  pub combinator : String
  pub limit : ℤ

unfoldable pub check_ident : String → Result SqlError (Unit {0})
check_ident name = refuse_if (not (is_ident (trim_space name))) (invalid_ident name)

unfoldable pub quote : String → String
quote name = "\"" ++ (trim_space name ++ "\"")

abbrev pub table_ref : String → String → Result SqlError String
table_ref table col = do _ ← check_ident table; ok (quote table ++ ("." ++ quote col))

unfoldable pub qualified : String → String → Result SqlError String
qualified table col = do
  _ ← check_ident col
  if trim_space table == "" then ok (quote col) else table_ref table col

unfoldable pub must_qualified : String → String → Result SqlError String
must_qualified table col = do _ ← check_ident table; qualified table col

-- The body of the loop over the columns.
abbrev pub with_alias : String → String → Result SqlError String
with_alias alias ref = do _ ← check_ident alias; ok (ref ++ (" AS " ++ quote alias))

unfoldable pub column_ref : Column → Result SqlError String
column_ref c = do
  ref ← qualified c.table c.name
  if c.alias == "" then ok ref else with_alias c.alias ref

-- A loop that appends what its body gives, or returns the body's error.
abbrev pub collect :
    {A : Type 0} → (A → Result SqlError String) → List A → Result SqlError (List String)
collect f [] = ok []
collect f (a ∷ rest) = do part ← f a; parts ← collect f rest; ok (part ∷ parts)

unfoldable pub join_keyword : String → Result SqlError String
join_keyword type =
    if type == left_join
    then ok "LEFT JOIN"
    else if not (type == inner_join) && not (type == "")
    then err (bad_operator type)
    else ok "INNER JOIN"

unfoldable pub on_part : OnCond → Result SqlError String
on_part o = do
  l ← must_qualified o.left_table o.left_col
  r ← must_qualified o.right_table o.right_col
  ok (l ++ (" = " ++ r))

abbrev pub is_empty : {A : Type 0} → List A → Bool
is_empty [] = true
is_empty (_ ∷ _) = false

-- The body of the loop over the joins: what is appended to `from`.
unfoldable pub join_clause : Join → Result SqlError String
join_clause j = do
  _ ← check_ident j.table
  _ ← refuse_if (is_empty j.on) (join_no_on j.table)
  kw ← join_keyword j.type
  parts ← collect on_part j.on
  ok (" " ++ (kw ++ (" " ++ (quote j.table ++ (" ON " ++ join_with " AND " parts)))))

abbrev pub sql_op : String → String
sql_op op = if op == "like" then "LIKE" else op

abbrev pub comb_text : String → String
comb_text combinator = if combinator == "or" then " OR " else " AND "

unfoldable pub effective_limit : ℤ → ℤ → ℤ
effective_limit requested max_rows =
    let ceiling =
      if ltb_ℤ (pos 0) max_rows && ltb_ℤ max_rows max_row_ceiling
      then max_rows
      else max_row_ceiling in
    if ltb_ℤ requested (pos 1) || ltb_ℤ ceiling requested then ceiling else requested

-- `strings.ToLower` is a parameter.
module _ (to_lower : String → String) where
  -- The body of the loop over the filters, where `n` is the number of args with this one.
  unfoldable pub predicate : ℕ → Filter → Result SqlError String
  predicate n f = do
    _ ← refuse_if (not (contains (to_lower f.op) allowed_ops)) (bad_operator f.op)
    ref ← qualified f.table f.column
    ok (ref ++ (" " ++ (sql_op (to_lower f.op) ++ (" $" ++ decimal (pos n)))))

  abbrev pub predicates : ℕ → List Filter → Result SqlError (List String)
  predicates n [] = ok []
  predicates n (f ∷ fs) = do pred ← predicate n f; preds ← predicates (suc n) fs; ok (pred ∷ preds)

  abbrev pub where_sql : String → List Filter → Result SqlError String
  where_sql combinator [] = ok ""
  where_sql combinator (f ∷ fs) = do
    preds ← predicates 1 (f ∷ fs)
    ok (" WHERE " ++ join_with (comb_text combinator) preds)

  -- The guards before anything is built.
  unfoldable pub check_sizes : Spec → Result SqlError (Unit {0})
  check_sizes spec = do
    _ ← refuse_if (trim_space spec.table == "") no_table
    _ ← check_ident spec.table
    _ ← refuse_if (ltb max_joins (length spec.joins)) too_many_joins
    _ ← refuse_if (is_empty spec.columns) no_columns
    _ ← refuse_if (ltb max_columns (length spec.columns)) (too_big "too many columns")
    refuse_if (ltb max_filters (length spec.filters)) (too_big "too many filters")

  abbrev pub select_text : String → List String → List String → String → ℤ → String
  select_text table cols joins filters limit =
      "SELECT "
      ++ (join_with ", " cols
          ++ (" FROM "
              ++ ((quote table ++ join_with "" joins)
                  ++ (filters ++ (" LIMIT " ++ decimal limit)))))

  unfoldable pub build : Spec → ℤ → Result SqlError (String × List Value)
  build spec max_rows = do
    _ ← check_sizes spec
    cols ← collect column_ref spec.columns
    joins ← collect join_clause spec.joins
    filters ← where_sql spec.combinator spec.filters
    ok (
      select_text spec.table cols joins filters (effective_limit spec.limit max_rows),
      map (λ f. f.value) spec.filters,
    )
