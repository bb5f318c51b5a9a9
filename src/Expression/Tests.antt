-- ===== src/Expression/Tests.antt =====
-- Tests of the expression language on a small runtime, and the theorems at concrete inputs.
use Prim.Native.Nat.{ℕ, ◌+◌, ◌*◌, ◌-◌, ◌/◌, ◌<◌, ◌≤◌}
use Prim.Native.Char.{code}
use Prim.Native.String.{String}
use mathlib.Core.Path.{◌≡◌, refl}
use mathlib.Core.Logic.{◌≢◌, ◌↔◌}
use mathlib.Core.Bool.{Bool, true, false, not, ◌&&◌}
use mathlib.Core.Option.{none, some}
use mathlib.Core.List.{List, [], ◌∷◌, ◌++◌ as ◌+++◌}
use text.Mathlib.Text.{◌==◌}
use mywork_automate.Prelude.{All, ℤ, pos, pos_part, ltb_ℤ, if◌then◌else◌}
use mywork_automate.Prelude.Chars.{within, decimal, size, digits}
use mywork_automate.Prelude.Results.{ok, err}
use mywork_automate.Expression.Values.{
  Runtime, Value, str, float64, int, arr, obj, Values, nil, cons, end, field, Literal, quoted,
  EvalContext, Error, unterminated_string, malformed_number, expected_argument, unknown_field,
  index_out_of_range, out_of_fuel, pad_too_wide,
}
use mywork_automate.Expression.Lexer.{Token, eof, dollar, dot, pipe, colon, ident, string, tokenize}
use mywork_automate.Expression.Lexer.Rendered.{
  IsToken, is_word, is_numeral, render, tokenize-render,
}
use mywork_automate.Expression.Parser.{name, vars, ref, ExprNode, parse}
use mywork_automate.Expression.Parser.Grammar.{SpellsExpr}
use mywork_automate.Expression.Parser.Accepted.{parse-render_iff, parse-ends}
use mywork_automate.Expression.Coerce.{coerce_string}
use mywork_automate.Expression.Pipes.{pad_or_space, pad, max_pad_width}
use mywork_automate.Expression.Pipes.Padded.{beside, IsFill, pad-IsFill}
use mywork_automate.Expression.Eval.{eval, eval_string, max_steps}
use mywork_automate.Expression.Eval.Budget.{eval_iff, meaning, cost}

-- Numbers are integers, read and printed in decimal, and times are counted in days.
abbrev digits_from : ℕ → String → ℕ × Bool
digits_from n String.[] = (n, true)
digits_from n (String.◌∷◌ c s) =
    let r = digits_from (n * 10 + (code c - 48)) s in (r.0, within b'0' b'9' c && r.1)

abbrev parse_number : String → ℤ × Bool
parse_number s = let r = digits_from 0 s in (pos r.0, r.1)

abbrev days : Runtime
days = record {
  Float = ℤ;
  Float32 = ℕ;
  Time = ℕ;
  Zone = String;
  of_int = λ n. n;
  of_float32 = pos;
  to_int = λ n. n;
  float_eq = λ a b. not (ltb_ℤ a b) && not (ltb_ℤ b a);
  add = λ a b. pos (pos_part a + pos_part b);
  divide = λ a b. pos (pos_part a / pos_part b);
  parse_float = parse_number;
  format_float = λ a n. decimal a;
  format_float32 = λ a n. decimal (pos a);
  parse_time = λ s. if s == "today" then some 0 else none;
  format_time = λ t layout. decimal (pos t);
  load_location = λ s. if s == "UTC" then some s else none;
  in_zone = λ t z. t;
  add_days = λ t n. t + pos_part n;
  to_upper = λ s. s;
  to_lower = λ s. s;
}

abbrev no_print : Value days → String
no_print v = "?"

abbrev rows : Values days
rows =
    cons (obj (field "amount" (int (pos 3)) end))
      (cons (obj (field "amount" (float64 (pos 4)) end)) nil)

abbrev context : EvalContext days
context = record {
  nodes = ("Query Payroll", record { items = []; meta = field "rows" (arr rows) end }) ∷ [];
  flow = record { run_date = 7; params = none };
  vars = some (field "name" (str "ann") (field "rows" (arr rows) end));
}

abbrev never : ℕ → Bool
never n = false

Renders : String → String → Type 0
Renders body out = eval_string days no_print never body context ≡ ok out

padded : Renders "$vars[\"name\"] | padLeft:5:\"ab\"" "abann"
unfolding Renders eval_string digits
padded = refl

indexed : Renders "$vars.rows[1].amount" "4"
unfolding Renders eval_string digits
indexed = refl

summed : Renders " $node[\"Query Payroll\"].meta.rows|sum:\"amount\"" "7"
unfolding Renders eval_string digits
summed = refl

averaged : Renders "$vars.rows | avg:\"amount\" | number" "3"
unfolding Renders eval_string digits
averaged = refl

three_days_on : Renders "$flow.runDate | addDays:3" "10"
unfolding Renders eval_string digits
three_days_on = refl

Fails : String → Error → Type 0
Fails body e = eval_string days no_print never body context ≡ err e

unclosed : Fails "\"abc\\" unterminated_string
unfolding Fails eval_string
unclosed = refl

two_dots : Fails "1.2.3" malformed_number
unfolding Fails eval_string
two_dots = refl

no_argument : Fails "1 | number:" expected_argument
unfolding Fails eval_string
no_argument = refl

beyond : Fails "$vars.rows[2]" (index_out_of_range (pos 2) 2)
unfolding Fails eval_string
beyond = refl

absent : Fails "$vars.nobody" (unknown_field "nobody")
unfolding Fails eval_string
absent = refl

too_wide : Fails "1 | padLeft:70000" (pad_too_wide (pos 70000))
unfolding Fails eval_string
too_wide = refl

-- $vars.name | padLeft:5:"a\"b"
abbrev tokens : List (Token days)
tokens =
    dollar
    ∷ ident "vars"
    ∷ dot
    ∷ ident "name"
    ∷ pipe
    ∷ ident "padLeft"
    ∷ colon
    ∷ Token.number "5" (pos 5)
    ∷ colon
    ∷ string "a\"b"
    ∷ []

tokens-IsToken : All (IsToken days) tokens
unfolding is_word is_numeral
tokens-IsToken = (tt, (refl, (tt, (refl, (tt, (refl, (tt, ((refl, refl), (tt, (tt, tt))))))))))

tokenize-render_example : tokenize days (render tokens) ≡ ok (tokens +++ eof ∷ [])
tokenize-render_example = tokenize-render days tokens tokens-IsToken

abbrev tree : ExprNode days
tree = record {
  primary = ref (record { root = vars; accessors = name "name" ∷ [] });
  pipes = record { fn = "padLeft"; args = Literal.number (pos 5) ∷ quoted "a\"b" ∷ [] } ∷ [];
}

parse-render_iff_example :
    (parse days (render tokens) ≡ ok tree) ↔ SpellsExpr days tree (tokens +++ eof ∷ [])
parse-render_iff_example = parse-render_iff days tokens tree tokens-IsToken

parse-ends_example : parse days "$vars[" ≢ err out_of_fuel
parse-ends_example = parse-ends days "$vars["

eval_iff_example : (eval days no_print never "$vars.name" context ≡ ok (str "ann")) ↔ (
    (e : ExprNode days) × (parse days "$vars.name" ≡ ok e)
    × (meaning days no_print context e ≡ ok (str "ann"))
    × (cost e ≤ max_steps)
    × ((i : ℕ) → max_steps - cost e < i → i ≤ max_steps → never i ≡ false))
eval_iff_example = eval_iff days no_print never "$vars.name" context (str "ann")

pad-IsFill_example :
    let padded = pad days no_print true (str "ann") (Literal.number (pos 5) ∷ quoted "ab" ∷ []) in
    (pad days no_print true (str "ann") (Literal.number (pos 5) ∷ [])
      ≡ pad days no_print true (str "ann") (Literal.number (pos 5) ∷ quoted "" ∷ []))
    × (ltb_ℤ (pos max_pad_width) (pos 5) ≡ true → padded ≡ err (pad_too_wide (pos 5)))
    × (ltb_ℤ (pos max_pad_width) (pos 5) ≡ false
        → (fill : String) × (padded
            ≡ ok (str (beside true fill (coerce_string days no_print (str "ann")))))
          × IsFill
              (pad_or_space "ab")
              (pos_part (pos 5) - size (coerce_string days no_print (str "ann")))
              fill
          × (size fill ≤ max_pad_width))
pad-IsFill_example = pad-IsFill days no_print true (str "ann") (pos 5) "ab"
