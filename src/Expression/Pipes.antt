-- ===== src/Expression/Pipes.antt =====
-- pkg/expression/pipes.go: the pipe functions.
pub mod Padded
use Prim.Native.Nat.{ℕ, zero, suc, ◌+◌, ◌-◌, ◌%◌}
use Prim.Native.Char.{Char}
use Prim.Native.String.{String, ◌++◌}
use mathlib.Core.Bool.{Bool, true, false, ◌||◌}
use mathlib.Core.Option.{Option, none, some}
use mathlib.Core.List.{List, [], ◌∷◌}
use text.Mathlib.Text.{◌==◌}
use mywork_automate.Prelude.{ℤ, pos, ltb_ℤ, pos_part, ltb, length, if◌then◌else◌}
use mywork_automate.Prelude.Chars.{size}
use mywork_automate.Prelude.Results.{Result, ok, err, ◌>>=◌}
use mywork_automate.Expression.Values.{
  Runtime, Value, null, bool, str, time, float64, float32, int, uint, other, arr, obj, Values, nil,
  cons, Fields, end, field, Literal, quoted, number, Error, Checked, unknown_function, wrong_arity,
  wrong_argument, not_a_time, not_numeric, not_a_list, unknown_timezone, pad_too_wide,
  item_not_object, item_lacks_field,
}
use mywork_automate.Expression.Coerce.{coerce_string, to_float, as_time}
use mywork_automate.Expression.Parser.{PipeNode}

abbrev pub max_pad_width : ℕ
max_pad_width = 65536

abbrev pub or_error : {A : Type 0} → Error → Option A → Checked A
or_error e none = err e
or_error e (some a) = ok a

unfoldable pub value_count : {R : Runtime} → Values R → ℕ
value_count nil = 0
value_count (cons v vs) = suc (value_count vs)

-- `m[key]`
unfoldable pub get : {R : Runtime} → String → Fields R → Option (Value R)
get key end = none
get key (field k v fs) = if k == key then some v else get key fs

-- The rune at a position; beyond the end, where Go panics, a space.
unfoldable pub rune_at : ℕ → String → Char
rune_at i String.[] = " "
rune_at zero (String.◌∷◌ c s) = c
rune_at (suc i) (String.◌∷◌ c s) = rune_at i s

-- `pad[i % len(pad)]` for `i` from `from`, `n` times.
unfoldable pub fill_from : String → ℕ → ℕ → String
unfolding rune_at size
fill_from pad from zero = ""
fill_from pad from (suc n) = String.◌∷◌ (rune_at (from % size pad) pad) (fill_from pad (suc from) n)

-- The padding of a text to a width.
unfoldable pub pad_text : Bool → ℤ → String → String → String
unfolding fill_from size
pad_text left width pad s =
    let fill = fill_from pad 0 (pos_part width - size s) in if left then fill ++ s else s ++ fill

-- An empty pad is the default, a space.
abbrev pub pad_or_space : String → String
pad_or_space p = if p == "" then " " else p

abbrev pub pad_name : Bool → String
pad_name true = "padLeft"
pad_name false = "padRight"

module _ (R : Runtime) (sprint : Value R → String) where
  unfoldable pub pipe_upper : Value R → List (Literal R) → Checked (Value R)
  unfolding coerce_string
  pipe_upper v [] = ok (str (R.to_upper (coerce_string R sprint v)))
  pipe_upper v args = err (wrong_arity "upper" (length args))

  unfoldable pub pipe_lower : Value R → List (Literal R) → Checked (Value R)
  unfolding coerce_string
  pipe_lower v [] = ok (str (R.to_lower (coerce_string R sprint v)))
  pipe_lower v args = err (wrong_arity "lower" (length args))

  abbrev pub time_of : String → Value R → Checked R.Time
  time_of name v = or_error (not_a_time name) (as_time R v)

  unfoldable pub pipe_format : Value R → List (Literal R) → Checked (Value R)
  unfolding as_time
  pipe_format v (quoted layout ∷ []) = time_of "format" v >>= λ t. ok (str (R.format_time t layout))
  pipe_format v (number x ∷ []) = err (wrong_argument "format")
  pipe_format v args = err (wrong_arity "format" (length args))

  unfoldable pub pipe_tz : Value R → List (Literal R) → Checked (Value R)
  unfolding as_time
  pipe_tz v (quoted zone ∷ []) = time_of "tz" v >>= λ t.
      or_error (unknown_timezone zone) (R.load_location zone) >>= λ loc. ok (time (R.in_zone t loc))
  pipe_tz v (number x ∷ []) = err (wrong_argument "tz")
  pipe_tz v args = err (wrong_arity "tz" (length args))

  unfoldable pub pipe_add_days : Value R → List (Literal R) → Checked (Value R)
  unfolding as_time
  pipe_add_days v (number x ∷ []) =
      time_of "addDays" v >>= λ t. ok (time (R.add_days t (R.to_int x)))
  pipe_add_days v (quoted s ∷ []) = err (wrong_argument "addDays")
  pipe_add_days v args = err (wrong_arity "addDays" (length args))

  unfoldable pub with_decimals : ℤ → Value R → Checked (Value R)
  unfolding to_float
  with_decimals decimals v =
      or_error (not_numeric "number") (to_float R v) >>= λ x. ok (str (R.format_float x decimals))

  unfoldable pub pipe_number : Value R → List (Literal R) → Checked (Value R)
  unfolding with_decimals
  pipe_number v [] = with_decimals (pos 0) v
  pipe_number v (number x ∷ []) = with_decimals (R.to_int x) v
  pipe_number v (quoted s ∷ []) = err (wrong_argument "number")
  pipe_number v args = err (wrong_arity "number" (length args))

  -- `pad` behind the checks of its arguments.
  unfoldable pub pad_to : Bool → ℤ → String → Value R → String
  unfolding pad_text size coerce_string
  pad_to left width pad v =
      let s = coerce_string R sprint v in
      if ltb_ℤ (pos (size s)) width then pad_text left width pad s else s

  unfoldable pub checked_pad : Bool → ℤ → String → Value R → Checked (Value R)
  unfolding pad_to
  checked_pad left width pad v =
      if ltb_ℤ (pos max_pad_width) width
      then err (pad_too_wide width)
      else ok (str (pad_to left width pad v))

  -- The width is refused before the pad is looked at.
  unfoldable pub pad : Bool → Value R → List (Literal R) → Checked (Value R)
  unfolding checked_pad
  pad left v (number w ∷ []) = checked_pad left (R.to_int w) " " v
  pad left v (number w ∷ quoted p ∷ []) = checked_pad left (R.to_int w) (pad_or_space p) v
  pad left v (number w ∷ number x ∷ []) =
      if ltb_ℤ (pos max_pad_width) (R.to_int w)
      then err (pad_too_wide (R.to_int w))
      else err (wrong_argument (pad_name left))
  pad left v (quoted s ∷ []) = err (wrong_argument (pad_name left))
  pad left v (quoted s ∷ _ ∷ []) = err (wrong_argument (pad_name left))
  pad left v args = err (wrong_arity (pad_name left) (length args))

  unfoldable pub item_number : String → Option String → Value R → Checked (Value R)
  unfolding get
  item_number fn none el = ok el
  item_number fn (some key) (obj m) = or_error (item_lacks_field fn) (get key m)
  item_number fn (some key) _ = err (item_not_object fn)

  -- The loop of `reduceNumbers`, from a total.
  unfoldable pub total_from : String → Option String → R.Float → Values R → Checked R.Float
  unfolding item_number to_float
  total_from fn key total nil = ok total
  total_from fn key total (cons el els) = item_number fn key el >>= λ num.
      or_error (not_numeric fn) (to_float R num) >>= λ x. total_from fn key (R.add total x) els

  abbrev pub elements : String → Value R → Checked (Values R)
  elements fn (arr vs) = ok vs
  elements fn v = err (not_a_list fn)

  -- The sum and the number of its terms.
  unfoldable pub reduce_numbers : String → Value R → List (Literal R) → Checked (R.Float × ℕ)
  unfolding total_from value_count
  reduce_numbers fn v [] = elements fn v >>= λ vs.
      total_from fn none (R.of_int (pos 0)) vs >>= λ total. ok (total, value_count vs)
  reduce_numbers fn v (a ∷ []) = elements fn v >>= λ vs. elim a [
    | number x ↦ err (wrong_argument fn)
    | quoted key ↦
        total_from fn (some key) (R.of_int (pos 0)) vs >>= λ total. ok (total, value_count vs)
  ]
  reduce_numbers fn v args = err (wrong_arity fn (length args))

  unfoldable pub pipe_sum : Value R → List (Literal R) → Checked (Value R)
  unfolding reduce_numbers
  pipe_sum v args = reduce_numbers "sum" v args >>= λ (total, n). ok (float64 total)

  abbrev pub average : R.Float → ℕ → R.Float
  average total zero = R.of_int (pos 0)
  average total (suc n) = R.divide total (R.of_int (pos (suc n)))

  unfoldable pub pipe_avg : Value R → List (Literal R) → Checked (Value R)
  unfolding reduce_numbers
  pipe_avg v args = reduce_numbers "avg" v args >>= λ (total, n). ok (float64 (average total n))

  unfoldable pub pipe_count : Value R → List (Literal R) → Checked (Value R)
  unfolding value_count
  pipe_count v [] = elements "count" v >>= λ vs. ok (int (pos (value_count vs)))
  pipe_count v args = err (wrong_arity "count" (length args))

  -- The entry of `pipeFuncs` for a name, applied.
  unfoldable pub apply_pipe : PipeNode R → Value R → Checked (Value R)
  unfolding pipe_upper pipe_lower pipe_format pipe_tz pipe_add_days pipe_number pad pipe_sum
      pipe_count pipe_avg
  apply_pipe p v =
      if p.fn == "upper"
      then pipe_upper v p.args
      else if p.fn == "lower"
      then pipe_lower v p.args
      else if p.fn == "format"
      then pipe_format v p.args
      else if p.fn == "tz"
      then pipe_tz v p.args
      else if p.fn == "addDays"
      then pipe_add_days v p.args
      else if p.fn == "number"
      then pipe_number v p.args
      else if p.fn == "padLeft"
      then pad true v p.args
      else if p.fn == "padRight"
      then pad false v p.args
      else if p.fn == "sum"
      then pipe_sum v p.args
      else if p.fn == "count"
      then pipe_count v p.args
      else if p.fn == "avg"
      then pipe_avg v p.args
      else err (unknown_function p.fn)
