-- ===== src/Expression/Eval.antt =====
-- pkg/expression/eval.go and expression.go: evaluation under a step budget and a deadline.
pub mod Budget
use Prim.Native.Nat.{ℕ, zero, suc}
use Prim.Native.String.{String}
use mathlib.Core.Bool.{Bool, true, false}
use mathlib.Core.Option.{Option, none, some}
use mathlib.Core.List.{List, [], ◌∷◌}
use text.Mathlib.Text.{◌==◌}
use mywork_automate.Prelude.{ℤ, pos, negsuc, ltb, if◌then◌else◌, lookup}
use mywork_automate.Prelude.Results.{Result, ok, err, ◌>>=◌}
use mywork_automate.Expression.Values.{
  Runtime, Value, null, bool, str, time, float64, float32, int, uint, other, arr, obj, Values, nil,
  cons, Fields, end, field, Literal, quoted, number, NodeResult, EvalContext, Error, Checked,
  timeout, budget_exceeded, no_vars, no_params, bare_flow, indexed_flow, unknown_node,
  unknown_flow_field, unknown_field, not_an_object, not_an_array, index_out_of_range,
}
use mywork_automate.Expression.Coerce.{coerce_string}
use mywork_automate.Expression.Parser.{
  Accessor, name, key, index, Root, node, flow, vars, RefNode, Primary, ref, literal, PipeNode,
  ExprNode, parse,
}
use mywork_automate.Expression.Pipes.{or_error, value_count, get, apply_pipe}

abbrev pub max_steps : ℕ
max_steps = 10000

-- `cur.([]any)[idx]` behind its tests.
unfoldable pub value_at : {R : Runtime} → Values R → ℕ → Option (Value R)
value_at nil i = none
value_at (cons v vs) zero = some v
value_at (cons v vs) (suc i) = value_at vs i

unfoldable pub index_slice : {R : Runtime} → Value R → ℤ → Checked (Value R)
unfolding value_at value_count
index_slice (arr vs) (pos i) =
    or_error (index_out_of_range (pos i) (value_count vs)) (value_at vs i)
index_slice (arr vs) (negsuc i) = err (index_out_of_range (negsuc i) (value_count vs))
index_slice v i = err not_an_array

unfoldable pub access_key : {R : Runtime} → Value R → String → Checked (Value R)
unfolding get
access_key (obj m) k = or_error (unknown_field k) (get k m)
access_key v k = err not_an_object

unfoldable pub access : {R : Runtime} → Value R → Accessor → Checked (Value R)
unfolding index_slice access_key
access v (name n) = access_key v n
access v (key k) = access_key v k
access v (index i) = index_slice v i

unfoldable pub item_values : {R : Runtime} → List (Fields R) → Values R
item_values [] = nil
item_values (m ∷ ms) = cons (obj m) (item_values ms)

-- A nil map reads as an empty one.
unfoldable pub node_value : {R : Runtime} → NodeResult R → Value R
unfolding item_values
node_value n = obj (field "items" (arr (item_values n.items)) (field "meta" (obj n.meta) end))

-- The value that an accessor of `$flow` starts from.
unfoldable pub flow_value : {R : Runtime} → EvalContext R → Accessor → Checked (Value R)
flow_value ec (name n) =
    if n == "runDate"
    then ok (time ec.flow.run_date)
    else if n == "params"
    then (or_error no_params ec.flow.params >>= λ m. ok (obj m))
    else err (unknown_flow_field n)
flow_value ec _ = err indexed_flow

-- What a reference is walked from, and the accessors that are left.
unfoldable pub start_of :
    {R : Runtime} → EvalContext R → Root → List Accessor → Checked (Value R × List Accessor)
unfolding flow_value node_value lookup
start_of ec flow [] = err bare_flow
start_of ec flow (a ∷ left) = flow_value ec a >>= λ v. ok (v, left)
start_of ec vars left = or_error no_vars ec.vars >>= λ m. ok (obj m, left)
start_of ec (node n) left =
    or_error (unknown_node n) (lookup n ec.nodes) >>= λ r. ok (node_value r, left)

-- `expired` tells whether the deadline has passed when that much of the budget is left. A result
-- comes with the budget that is left.
module _ (R : Runtime) (sprint : Value R → String) (expired : ℕ → Bool) where
  abbrev pub Stepped : Type 0 → Type 0
  Stepped A = Checked (A × ℕ)

  unfoldable pub step : ℕ → Checked ℕ
  step zero = if expired zero then err timeout else err budget_exceeded
  step (suc budget) = if expired (suc budget) then err timeout else ok budget

  unfoldable pub walk : ℕ → Value R → List Accessor → Stepped (Value R)
  unfolding step access
  walk budget v [] = ok (v, budget)
  walk budget v (a ∷ left) = step budget >>= λ b. access v a >>= λ v'. walk b v' left

  unfoldable pub eval_primary : ℕ → EvalContext R → Primary R → Stepped (Value R)
  unfolding start_of walk
  eval_primary budget ec (literal (quoted s)) = ok (str s, budget)
  eval_primary budget ec (literal (number x)) = ok (float64 x, budget)
  eval_primary budget ec (ref r) =
      start_of ec r.root r.accessors >>= λ (v, left). walk budget v left

  unfoldable pub eval_pipes : ℕ → Value R → List (PipeNode R) → Stepped (Value R)
  unfolding step apply_pipe
  eval_pipes budget v [] = ok (v, budget)
  eval_pipes budget v (p ∷ ps) =
      step budget >>= λ b. apply_pipe R sprint p v >>= λ v'. eval_pipes b v' ps

  unfoldable pub eval_node : ℕ → EvalContext R → ExprNode R → Stepped (Value R)
  unfolding eval_primary eval_pipes
  eval_node budget ec e =
      step budget >>= λ b. eval_primary b ec e.primary >>= λ (v, b'). eval_pipes b' v e.pipes

  unfoldable pub eval : String → EvalContext R → Checked (Value R)
  unfolding parse eval_node
  eval body ec = parse R body >>= λ e. eval_node max_steps ec e >>= λ (v, b). ok v

  unfoldable pub eval_string : String → EvalContext R → Checked String
  unfolding eval coerce_string
  eval_string body ec = eval body ec >>= λ v. ok (coerce_string R sprint v)
