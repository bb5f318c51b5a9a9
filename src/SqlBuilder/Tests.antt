-- ===== src/SqlBuilder/Tests.antt =====
-- A query with a join and two filters and one that is refused, and the theorems at them.
use Prim.Native.String.{String}
use mathlib.Core.Path.{◌≡◌, refl}
use mathlib.Core.Bool.{true}
use mathlib.Core.List.{[], ◌∷◌, map}
use mywork_automate.Prelude.{pos, length, contains}
use mywork_automate.Prelude.Results.{ok, err}
use mywork_automate.Prelude.Chars.{trim_space, all_chars, count_chars, join_with, digits, decimal}
use mywork_automate.Value.{Value, str, int}
use mywork_automate.SqlBuilder.{
  Spec, Filter, invalid_ident, is_ident, check_ident, quote, qualified, must_qualified, column_ref,
  join_keyword, on_part, join_clause, effective_limit, predicate, check_sizes, build,
}
use mywork_automate.SqlBuilder.Pieces.{is_sql_char, is_dollar}
use mywork_automate.SqlBuilder.Safe.{build-IsPiece}
use mywork_automate.SqlBuilder.Accepted.{is_ok, is_whitelisted, build-is_whitelisted}

builder : Unit {0}
unfolding build check_sizes predicate join_clause on_part join_keyword column_ref must_qualified
    qualified quote check_ident is_ident trim_space all_chars join_with digits decimal
    effective_limit contains
builder = tt

-- `ToLower` on operators, of which the tests use only lower-case ones.
abbrev same : String → String
same s = s

abbrev staff : Spec
staff = record {
  table = "staff";
  joins =
      record {
        type = "left";
        table = "dept";
        on =
            record {
              left_table = "staff";
              left_col = "dept_id";
              right_table = "dept";
              right_col = "id";
            }
            ∷ [];
      }
      ∷ [];
  columns =
      record { table = "staff"; name = "name"; alias = "" }
      ∷ record { table = ""; name = "pay"; alias = "salary" }
      ∷ [];
  filters =
      record { table = ""; column = "grade"; op = ">="; value = int (pos 7) }
      ∷ record { table = "dept"; column = "name"; op = "like"; value = str "IT%" }
      ∷ [];
  combinator = "or";
  limit = pos 0;
}

abbrev staff_sql : String
staff_sql =
    "SELECT \"staff\".\"name\", \"pay\" AS \"salary\" FROM \"staff\" LEFT JOIN \"dept\" ON \"staff\".\"dept_id\" = \"dept\".\"id\" WHERE \"grade\" >= $1 OR \"dept\".\"name\" LIKE $2 LIMIT 500"

staff_built : build same staff (pos 500) ≡ ok (staff_sql, int (pos 7) ∷ str "IT%" ∷ [])
unfolding builder
staff_built = refl

smuggled :
    build same (record staff { table = "staff; drop table staff" }) (pos 500)
    ≡ err (invalid_ident "staff; drop table staff")
unfolding builder
smuggled = refl

build-IsPiece_example :
    (all_chars is_sql_char staff_sql ≡ true)
    × (count_chars is_dollar staff_sql ≡ length {A = Value} (int (pos 7) ∷ str "IT%" ∷ []))
    × (int (pos 7) ∷ str "IT%" ∷ [] ≡ map (λ (f : Filter). f.value) staff.filters)
build-IsPiece_example = build-IsPiece same staff (pos 500) staff_built

build-is_whitelisted_example : is_ok (build same staff (pos 500)) ≡ is_whitelisted same staff
build-is_whitelisted_example = build-is_whitelisted same staff (pos 500)
