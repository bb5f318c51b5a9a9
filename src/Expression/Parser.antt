-- ===== src/Expression/Parser.antt =====
-- pkg/expression/parser.go. The parser's state is the list of tokens from its position on. The list
-- ends with EOF, and each `advance` of the code follows a test that the token is another one, so
-- `advance` takes the tail. Each turn of a loop takes a token, and the fuel is the number of tokens.
pub mod Grammar
pub mod Accepted
use Prim.Native.Nat.{ℕ, zero, suc, ◌+◌}
use Prim.Native.String.{String}
use mathlib.Core.Bool.{Bool, true, false}
use mathlib.Core.List.{List, [], ◌∷◌}
use text.Mathlib.Text.{◌==◌}
use mywork_automate.Prelude.{ℤ, length, if◌then◌else◌}
use mywork_automate.Prelude.Results.{Result, ok, err, ◌>>=◌}
use mywork_automate.Expression.Values.{
  Runtime, Literal, quoted, Error, Checked, out_of_fuel, empty_expression, unexpected_token,
  expected_value, expected_reference_name, unknown_root, expected_node_bracket, expected_node_name,
  expected_node_close, expected_field_name, expected_index, fractional_index, expected_index_close,
  expected_function_name, expected_argument,
}
use mywork_automate.Expression.Lexer.{
  Token, eof, dollar, dot, lbrack, rbrack, pipe, colon, ident, string, number, tokenize,
}

-- `.name`, `["key"]` or `[number]`.
pub data Accessor : Type 0 where
  name : String → Accessor
  key : String → Accessor
  index : ℤ → Accessor

pub data Root : Type 0 where
  node : String → Root
  flow vars : Root

pub record RefNode : Type 0 where
  pub root : Root
  pub accessors : List Accessor

pub data Primary (R : Runtime) : Type 0 where
  ref : RefNode → Primary R
  literal : Literal R → Primary R

pub record PipeNode (R : Runtime) : Type 0 where
  pub fn : String
  pub args : List (Literal R)

pub record ExprNode (R : Runtime) : Type 0 where
  pub primary : Primary R
  pub pipes : List (PipeNode R)

module _ (R : Runtime) where
  abbrev pub Parsed : Type 0 → Type 0
  Parsed A = Checked (A × List (Token R))

  unfoldable pub close_index : Accessor → List (Token R) → Parsed Accessor
  close_index a (rbrack ∷ ts) = ok (a, ts)
  close_index a _ = err expected_index_close

  unfoldable pub is_integral : R.Float → Bool
  is_integral x = R.float_eq x (R.of_int (R.to_int x))

  unfoldable pub parse_index : List (Token R) → Parsed Accessor
  unfolding close_index is_integral
  parse_index (string s ∷ ts) = close_index (key s) ts
  parse_index (number raw x ∷ ts) =
      if is_integral x then close_index (index (R.to_int x)) ts else err fractional_index
  parse_index _ = err expected_index

  unfoldable pub parse_field : List (Token R) → Parsed Accessor
  parse_field (ident n ∷ ts) = ok (name n, ts)
  parse_field _ = err expected_field_name

  unfoldable pub parse_accessors : ℕ → List (Token R) → Parsed (List Accessor)
  unfolding parse_index parse_field
  parse_accessors zero ts = err out_of_fuel
  parse_accessors (suc fuel) (dot ∷ ts) =
      parse_field ts >>= λ (a, rest). parse_accessors fuel rest >>= λ (xs, left). ok (a ∷ xs, left)
  parse_accessors (suc fuel) (lbrack ∷ ts) =
      parse_index ts >>= λ (a, rest). parse_accessors fuel rest >>= λ (xs, left). ok (a ∷ xs, left)
  parse_accessors (suc fuel) ts = ok ([], ts)

  unfoldable pub with_accessors : Root → List (Token R) → Parsed RefNode
  unfolding parse_accessors
  with_accessors r ts = parse_accessors (suc (length ts)) ts >>= λ (xs, left).
      ok (record { root = r; accessors = xs }, left)

  unfoldable pub close_node : String → List (Token R) → Parsed RefNode
  unfolding with_accessors
  close_node n (rbrack ∷ ts) = with_accessors (node n) ts
  close_node n _ = err expected_node_close

  unfoldable pub node_name : List (Token R) → Parsed RefNode
  unfolding close_node
  node_name (string n ∷ ts) = close_node n ts
  node_name _ = err expected_node_name

  unfoldable pub parse_node_ref : List (Token R) → Parsed RefNode
  unfolding node_name
  parse_node_ref (lbrack ∷ ts) = node_name ts
  parse_node_ref _ = err expected_node_bracket

  -- Behind the `$`.
  unfoldable pub parse_ref : List (Token R) → Parsed RefNode
  unfolding parse_node_ref with_accessors
  parse_ref (ident head ∷ ts) =
      if head == "node"
      then parse_node_ref ts
      else if head == "flow"
      then with_accessors flow ts
      else if head == "vars"
      then with_accessors vars ts
      else err unknown_root
  parse_ref _ = err expected_reference_name

  unfoldable pub parse_primary : List (Token R) → Parsed (Primary R)
  unfolding parse_ref
  parse_primary (dollar ∷ ts) = parse_ref ts >>= λ (r, left). ok (ref r, left)
  parse_primary (string s ∷ ts) = ok (literal (quoted s), ts)
  parse_primary (number raw x ∷ ts) = ok (literal (Literal.number x), ts)
  parse_primary _ = err expected_value

  unfoldable pub parse_pipe_arg : List (Token R) → Parsed (Literal R)
  parse_pipe_arg (string s ∷ ts) = ok (quoted s, ts)
  parse_pipe_arg (number raw x ∷ ts) = ok (Literal.number x, ts)
  parse_pipe_arg _ = err expected_argument

  unfoldable pub parse_args : ℕ → List (Token R) → Parsed (List (Literal R))
  unfolding parse_pipe_arg
  parse_args zero ts = err out_of_fuel
  parse_args (suc fuel) (colon ∷ ts) =
      parse_pipe_arg ts >>= λ (a, rest). parse_args fuel rest >>= λ (xs, left). ok (a ∷ xs, left)
  parse_args (suc fuel) ts = ok ([], ts)

  unfoldable pub parse_pipe : List (Token R) → Parsed (PipeNode R)
  unfolding parse_args
  parse_pipe (ident f ∷ ts) =
      parse_args (suc (length ts)) ts >>= λ (xs, left). ok (record { fn = f; args = xs }, left)
  parse_pipe _ = err expected_function_name

  unfoldable pub parse_pipes : ℕ → List (Token R) → Parsed (List (PipeNode R))
  unfolding parse_pipe
  parse_pipes zero ts = err out_of_fuel
  parse_pipes (suc fuel) (pipe ∷ ts) =
      parse_pipe ts >>= λ (p, rest). parse_pipes fuel rest >>= λ (ps, left). ok (p ∷ ps, left)
  parse_pipes (suc fuel) ts = ok ([], ts)

  unfoldable pub parse_expr : List (Token R) → Parsed (ExprNode R)
  unfolding parse_primary parse_pipes
  parse_expr ts = parse_primary ts >>= λ (p, rest).
      parse_pipes (suc (length rest)) rest >>= λ (ps, left).
      ok (record { primary = p; pipes = ps }, left)

  unfoldable pub at_end : ExprNode R → List (Token R) → Checked (ExprNode R)
  at_end e (eof ∷ _) = ok e
  at_end e _ = err unexpected_token

  unfoldable pub parse_tokens : List (Token R) → Checked (ExprNode R)
  unfolding parse_expr at_end
  parse_tokens (eof ∷ _) = err empty_expression
  parse_tokens ts = parse_expr ts >>= λ (e, left). at_end e left

  unfoldable pub parse : String → Checked (ExprNode R)
  unfolding tokenize parse_tokens
  parse body = tokenize R body >>= λ ts. parse_tokens ts
