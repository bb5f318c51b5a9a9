-- ===== src/Expression/Values.antt =====
-- pkg/expression: what the parts of the engine share. The values that an expression can reach, the
-- evaluation context, the errors, and what the engine takes from Go's floats, times and texts.
use Prim.Native.Nat.{ℕ}
use Prim.Native.String.{String}
use mathlib.Core.Bool.{Bool}
use mathlib.Core.Option.{Option}
use mathlib.Core.List.{List}
use mywork_automate.Prelude.{ℤ}
use mywork_automate.Prelude.Results.{Result}

-- `parse_float` gives a value beside its error, as `strconv.ParseFloat` does: here whether it
-- succeeded. `format_float` is `FormatFloat` in the format 'f', `to_int` the conversion `int(f)`.
pub record Runtime : Type 1 where
  pub Float : Type 0
  pub Float32 : Type 0
  pub Time : Type 0
  pub Zone : Type 0
  pub of_int : ℤ → Float
  pub of_float32 : Float32 → Float
  pub to_int : Float → ℤ
  pub float_eq : Float → Float → Bool
  pub add : Float → Float → Float
  pub divide : Float → Float → Float
  pub parse_float : String → Float × Bool
  pub format_float : Float → ℤ → String
  pub format_float32 : Float32 → ℤ → String
  pub parse_time : String → Option Time
  pub format_time : Time → String → String
  pub load_location : String → Option Zone
  pub in_zone : Time → Zone → Time
  pub add_days : Time → ℤ → Time
  pub to_upper : String → String
  pub to_lower : String → String

-- Go's `any`. `int` stands for all signed and `uint` for all unsigned integer types, and `other` for
-- a value of any type that the engine does not tell apart, with the text that `%v` gives it.
mutual
  pub data Value (R : Runtime) : Type 0 where
    null : Value R
    bool : Bool → Value R
    str : String → Value R
    time : R.Time → Value R
    float64 : R.Float → Value R
    float32 : R.Float32 → Value R
    int : ℤ → Value R
    uint : ℕ → Value R
    other : String → Value R
    arr : Values R → Value R
    obj : Fields R → Value R

  -- `[]any`
  pub data Values (R : Runtime) : Type 0 where
    nil : Values R
    cons : Value R → Values R → Values R

  -- `map[string]any`
  pub data Fields (R : Runtime) : Type 0 where
    end : Fields R
    field : String → Value R → Fields R → Fields R

-- A literal argument: a string or a float64.
pub data Literal (R : Runtime) : Type 0 where
  quoted : String → Literal R
  number : R.Float → Literal R

pub record NodeResult (R : Runtime) : Type 0 where
  pub items : List (Fields R)
  pub meta : Fields R

pub record FlowContext (R : Runtime) : Type 0 where
  pub run_date : R.Time
  pub params : Option (Fields R)

-- A map that may be nil is an option where the code tests for nil.
pub record EvalContext (R : Runtime) : Type 0 where
  pub nodes : List (String × NodeResult R)
  pub flow : FlowContext R
  pub vars : Option (Fields R)

-- The errors of the engine, one constructor for each message. Positions in a message are left out.
-- `out_of_fuel` has no counterpart in the program.
pub data Error : Type 0 where
  out_of_fuel : Error
  unexpected_character unterminated_string malformed_number : Error
  empty_expression unexpected_token expected_value : Error
  expected_reference_name unknown_root : Error
  expected_node_bracket expected_node_name expected_node_close : Error
  expected_field_name expected_index fractional_index expected_index_close : Error
  expected_function_name expected_argument : Error
  timeout budget_exceeded : Error
  no_vars no_params bare_flow indexed_flow : Error
  unknown_node unknown_flow_field unknown_field : String → Error
  not_an_object not_an_array : Error
  index_out_of_range : ℤ → ℕ → Error
  unknown_function : String → Error
  wrong_arity : String → ℕ → Error
  wrong_argument : String → Error
  not_a_time not_numeric not_a_list : String → Error
  unknown_timezone : String → Error
  pad_too_wide : ℤ → Error
  item_not_object : String → Error
  item_lacks_field : String → Error

abbrev pub Checked : Type 0 → Type 0
Checked A = Result Error A
