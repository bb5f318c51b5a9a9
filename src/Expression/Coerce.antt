-- ===== src/Expression/Coerce.antt =====
-- pkg/expression/coerce.go: values as texts, numbers and times.
use Prim.Native.String.{String}
use mathlib.Core.Bool.{Bool, true, false}
use mathlib.Core.Option.{Option, none, some}
use mywork_automate.Prelude.{pos, negsuc, if◌then◌else◌}
use mywork_automate.Prelude.Chars.{decimal}
use mywork_automate.Expression.Values.{Runtime, Value, bool, str, time, float64, float32, int, uint}

-- `time.RFC3339`
abbrev pub rfc3339 : String
rfc3339 = "2006-01-02T15:04:05Z07:00"

-- `strconv.FormatBool`
abbrev pub format_bool : Bool → String
format_bool true = "true"
format_bool false = "false"

-- The text that `%v` gives to a value is a parameter where the code has no case for the type.
module _ (R : Runtime) (sprint : Value R → String) where
  unfoldable pub coerce_string : Value R → String
  unfolding decimal
  coerce_string (str s) = s
  coerce_string (bool b) = format_bool b
  coerce_string (time t) = R.format_time t rfc3339
  coerce_string (float64 x) = R.format_float x (negsuc 0)
  coerce_string (float32 x) = R.format_float32 x (negsuc 0)
  coerce_string (int n) = decimal n
  coerce_string (uint n) = decimal (pos n)
  coerce_string v = sprint v

module _ (R : Runtime) where
  abbrev pub parsed_float : R.Float × Bool → Option R.Float
  parsed_float r = if r.1 then some r.0 else none

  unfoldable pub to_float : Value R → Option R.Float
  to_float (float64 x) = some x
  to_float (float32 x) = some (R.of_float32 x)
  to_float (int n) = some (R.of_int n)
  to_float (uint n) = some (R.of_int (pos n))
  to_float (str s) = parsed_float (R.parse_float s)
  to_float _ = none

  unfoldable pub as_time : Value R → Option R.Time
  as_time (time t) = some t
  as_time (str s) = R.parse_time s
  as_time _ = none
