-- ===== src/Execution/Steps.antt =====
-- `buildSteps` of apps/automate-api/internal/httpapi/handlers_write.go: the steps that are recorded
-- for a run.
use Prim.Native.Nat.{ℕ, zero, suc}
use Prim.Native.String.{String}
use mathlib.Core.Option.{Option, none, some}
use mathlib.Core.List.{List, [], ◌∷◌}
use text.Mathlib.Text.{◌==◌}
use mywork_automate.Prelude.{ℤ, pos, if◌then◌else◌, length, lookup}
use mywork_automate.Value.{Value, str, int, float64, Fields, end, field}
use mywork_automate.Flow.{NodeDef, FlowDef}
use mywork_automate.Interpreter.Graph.{of_spec}
use mywork_automate.Interpreter.Workflow.{
  NodeOutput, FlowResult, FlowInput, FlowError, Outcome, completed, failed, out_of_fuel,
}

-- A nil sample is the empty one. The duration and the input count of a step are always 0 here.
pub record ExecutionStep : Type 0 where
  pub node_id : String
  pub node_name : String
  pub node_type : String
  pub status : String
  pub output_count : ℤ
  pub error : Option String
  pub input_sample : List Fields
  pub output_sample : List Fields

-- What starts a run, and what the worker makes of it.
pub record RunInput : Type 0 where
  pub flow : FlowDef
  pub viewer_roles : List String
  pub params : Fields

abbrev pub worker_input : RunInput → FlowInput
worker_input input = record {
  flow = of_spec input.flow;
  viewer_roles = input.viewer_roles;
  params = input.params;
}

-- What `we.Get` gives the runner: a workflow that fails leaves the result as it was, the zero one. `text`
-- is the text of an error. A walk out of fuel has no counterpart.
abbrev pub zero_result : FlowResult
zero_result = record { path = []; outputs = [] }

unfoldable pub delivered : (FlowError → String) → Outcome → Option (FlowResult × Option String)
delivered text (completed res) = some (res, none)
delivered text (failed e) = some (zero_result, some (text e))
delivered text out_of_fuel = none

abbrev pub sample_limit : ℕ
sample_limit = 50

unfoldable pub truncate : List Fields → ℕ → List Fields
truncate [] n = []
truncate (x ∷ xs) zero = []
truncate (x ∷ xs) (suc n) = x ∷ truncate xs n

-- `m[key]` of a `map[string]any`.
unfoldable pub value_of_key : String → Fields → Option Value
value_of_key key end = none
value_of_key key (field k v fs) = if k == key then some v else value_of_key key fs

unfoldable pub name_from : String → List NodeDef → String
name_from id [] = id
name_from id (n ∷ ns) =
    if n.id == id then (if n.name == "" then id else n.name) else name_from id ns

unfoldable pub node_name : FlowDef → String → String
unfolding name_from
node_name def id = name_from id def.nodes

unfoldable pub type_from : String → List NodeDef → String
type_from id [] = ""
type_from id (n ∷ ns) = if n.id == id then n.type else type_from id ns

unfoldable pub node_type : FlowDef → String → String
unfolding type_from
node_type def id = type_from id def.nodes

-- The text under `error`, where it is a text that is not empty.
unfoldable pub error_text : Value → Option String
error_text (str e) = if e == "" then none else some e
error_text _ = none

unfoldable pub error_of : NodeOutput → Option String
unfolding value_of_key error_text
error_of out = elim (value_of_key "error" out.meta) [ none ↦ none | some v ↦ error_text v ]

abbrev pub status_of : Option String → String
status_of none = "success"
status_of (some e) = "failed"

-- `res.Outputs[id]`, the zero output where there is none.
unfoldable pub output_at : FlowResult → String → NodeOutput
output_at res id = elim (lookup id res.outputs) [
  | none ↦ record { items = []; meta = end }
  | some out ↦ out
]

-- `to_int` is `int64(f)` of a float.
module _ (to_int : ℕ → ℤ) where
  unfoldable pub to_int64 : Value → Option ℤ
  to_int64 (int n) = some n
  to_int64 (float64 f) = some (to_int f)
  to_int64 _ = none

  abbrev pub or_length : List Fields → Option ℤ → ℤ
  or_length items none = pos (length items)
  or_length items (some n) = n

  unfoldable pub output_count : NodeOutput → ℤ
  unfolding value_of_key to_int64
  output_count out = elim (value_of_key "rowCount" out.meta) [
    | none ↦ pos (length out.items)
    | some v ↦ or_length out.items (to_int64 v)
  ]

  -- The step of a node, whose input sample is the output sample of the step before.
  unfoldable pub step_of : FlowDef → FlowResult → List Fields → String → ExecutionStep
  unfolding output_at error_of node_name node_type output_count truncate
  step_of def res before id =
      let out = output_at res id in
      record {
        node_id = id;
        node_name = node_name def id;
        node_type = node_type def id;
        status = status_of (error_of out);
        output_count = output_count out;
        error = error_of out;
        input_sample = before;
        output_sample = truncate out.items sample_limit;
      }

  unfoldable pub steps_from : FlowDef → FlowResult → List Fields → List String → List ExecutionStep
  unfolding step_of
  steps_from def res before [] = []
  steps_from def res before (id ∷ ids) =
      let step = step_of def res before id in step ∷ steps_from def res step.output_sample ids

  unfoldable pub fail_last : String → List ExecutionStep → List ExecutionStep
  fail_last msg [] = []
  fail_last msg (s ∷ []) = record s { status = "failed"; error = some msg } ∷ []
  fail_last msg (s ∷ t ∷ steps) = s ∷ fail_last msg (t ∷ steps)

  -- The step of a run in which nothing ran.
  abbrev pub flow_step : String → ExecutionStep
  flow_step msg = record {
    node_id = "flow";
    node_name = "flow";
    node_type = "flow";
    status = "failed";
    output_count = pos 0;
    error = some msg;
    input_sample = [];
    output_sample = [];
  }

  abbrev pub with_error : String → List ExecutionStep → List ExecutionStep
  with_error msg [] = flow_step msg ∷ []
  with_error msg (s ∷ steps) = fail_last msg (s ∷ steps)

  -- The text of the error of the run, if it has one.
  unfoldable pub build_steps : FlowDef → FlowResult → Option String → List ExecutionStep
  unfolding steps_from fail_last
  build_steps def res none = steps_from def res [] res.path
  build_steps def res (some msg) = with_error msg (steps_from def res [] res.path)
