-- ===== src/Execution/Recorded.antt =====
-- What the steps that `buildSteps` records say of the run that the worker made.
use Prim.Native.Nat.{ℕ, zero, suc, ◌≤◌}
use Prim.Native.String.{String}
use mathlib.Core.Path.{◌≡◌, refl, ap, sym, subst}
use mathlib.Core.Logic.{◌↔◌, ◌⊎◌, inl, inr}
use mathlib.Core.Option.{Option, none, some}
use mathlib.Core.List.{List, [], ◌∷◌, ◌++◌}
use native.Mathlib.Omega.{arith}
use text.Mathlib.Text.{◌==◌}
use mywork_automate.Prelude.{ℤ, length, All}
use mywork_automate.Prelude.TextOrder.{Distinct}
use mywork_automate.Value.{Fields}
use mywork_automate.Flow.{NodeDef, FlowDef}
use mywork_automate.Interpreter.Graph.{of_spec, find_node, node_by_id}
use mywork_automate.Interpreter.Workflow.{
  ActivityOptions, NodeExecRequest, ActivityOutcome, FlowResult, Outcome, completed, failed,
  out_of_fuel, FlowError, flow_workflow,
}
use mywork_automate.Interpreter.Paths.{flow_workflow-path}
use mywork_automate.Execution.Steps.{
  RunInput, ExecutionStep, truncate, sample_limit, type_from, node_type, error_of, status_of,
  output_at, worker_input, step_of, steps_from, build_steps,
}

abbrev pub step_ids : List ExecutionStep → List String
step_ids [] = []
step_ids (s ∷ steps) = s.node_id ∷ step_ids steps

-- Each step's input sample is the output sample of the step before.
abbrev pub Linked : List Fields → List ExecutionStep → Type 0
Linked before [] = Unit
Linked before (s ∷ steps) = (s.input_sample ≡ before) × Linked s.output_sample steps

-- A sample is the items, or the first fifty of more.
abbrev pub IsSample : List Fields → List Fields → Type 0
IsSample sample items =
    (rest : List Fields) × (items ≡ sample ++ rest)
    × (length sample ≤ sample_limit)
    × ((length items ≤ sample_limit) → rest ≡ [])

-- A step has the type of its node, a sample of its output, and the status `failed` exactly where the
-- output carries an error, which it then shows.
abbrev pub IsRecord : FlowDef → FlowResult → ExecutionStep → Type 0
IsRecord def res s =
    ((n : NodeDef) → node_by_id (of_spec def) s.node_id ≡ some n → s.node_type ≡ n.type)
    × IsSample s.output_sample (output_at res s.node_id).items
    × (s.error ≡ error_of (output_at res s.node_id))
    × ((s.status ≡ "failed") ↔ ((e : String) × (s.error ≡ some e)))

type_from-found :
    (id : String) (ns : List NodeDef) (n : NodeDef)
    → find_node id ns ≡ some n
    → type_from id ns ≡ n.type
unfolding find_node type_from
type_from-found id [] n = λ h. ground arith
type_from-found id (m ∷ ns) n = ground (arith, type_from-found id ns n)

truncate-sample :
    (items : List Fields) (k : ℕ)
    → (rest : List Fields) × (items ≡ truncate items k ++ rest)
      × (length (truncate items k) ≤ k)
      × ((length items ≤ k) → rest ≡ [])
unfolding truncate
truncate-sample [] k = ([], refl, omega arith, λ h. refl)
truncate-sample (x ∷ xs) zero = (x ∷ xs, refl, omega arith, λ h. absurd (omega (arith, h)))
truncate-sample (x ∷ xs) (suc k) =
    let (rest, same, short, all) = truncate-sample xs k in
    (rest, ap (λ l. x ∷ l) same, omega arith, λ h. all (omega arith))

status_of_iff : (o : Option String) → (status_of o ≡ "failed") ↔ ((e : String) × (o ≡ some e))
status_of_iff none =
    (λ h. absurd (ground (arith, ap (λ s. s == "failed") h)), λ (e, h). ground arith)
status_of_iff (some e) = (λ h. (e, refl), λ h. refl)

module _ (to_int : ℕ → ℤ) (def : FlowDef) (res : FlowResult) where
  step_of-IsRecord :
      (before : List Fields) (id : String) → IsRecord def res (step_of to_int def res before id)
  unfolding step_of node_type node_by_id
  step_of-IsRecord before id = (
    λ n h. type_from-found id def.nodes n h,
    truncate-sample (output_at res id).items sample_limit,
    refl,
    status_of_iff (error_of (output_at res id)),
  )

  steps_from-IsRecord :
      (before : List Fields) (ids : List String)
      → All (IsRecord def res) (steps_from to_int def res before ids)
  unfolding steps_from
  steps_from-IsRecord before [] = tt
  steps_from-IsRecord before (id ∷ ids) =
      let step = step_of to_int def res before id in
      (step_of-IsRecord before id, steps_from-IsRecord step.output_sample ids)

  pub steps_from-Linked :
      (before : List Fields) (ids : List String)
      → (step_ids (steps_from to_int def res before ids) ≡ ids)
        × Linked before (steps_from to_int def res before ids)
  unfolding steps_from step_of
  steps_from-Linked before [] = (refl, tt)
  steps_from-Linked before (id ∷ ids) =
      let (same, linked) = steps_from-Linked (step_of to_int def res before id).output_sample ids in
      (ap (λ l. id ∷ l) same, (refl, linked))

-- The steps of a completed run are one for each node that the worker executed, in that order, none
-- twice; each shows its node's type, a sample of the output, and the error that the output carries, and
-- is fed by the step before.
pub completed_run-steps :
    (to_int : ℕ → ℤ) (input : RunInput)
    (execute : ℕ → ActivityOptions → NodeExecRequest → ActivityOutcome) (res : FlowResult)
    → flow_workflow execute (worker_input input) ≡ completed res
    → (step_ids (build_steps to_int input.flow res none) ≡ res.path)
      × Distinct (step_ids (build_steps to_int input.flow res none))
      × All (IsRecord input.flow res) (build_steps to_int input.flow res none)
      × Linked [] (build_steps to_int input.flow res none)
unfolding build_steps
completed_run-steps to_int input execute res h =
    let (same, linked) = steps_from-Linked to_int input.flow res [] res.path in
    let faithful = flow_workflow-path execute (worker_input input) res h in
    (
      same,
      subst Distinct (sym same) faithful.0,
      steps_from-IsRecord to_int input.flow res [] res.path,
      linked,
    )

pub Outcome-cases :
    (o : Outcome)
    → ((r : FlowResult) × (o ≡ completed r))
      ⊎ ((e : FlowError) × (o ≡ failed e))
      ⊎ (o ≡ out_of_fuel)
Outcome-cases (completed r) = inl (r, refl)
Outcome-cases (failed e) = inr (inl (e, refl))
Outcome-cases out_of_fuel = inr (inr refl)
