-- ===== src/Interpreter/Paths.antt =====
-- The path and the outputs of a run of apps/automate-worker/internal/interpreter/workflow.go.
use Prim.Native.Nat.{ℕ}
use Prim.Native.String.{String}
use mathlib.Core.Path.{◌≡◌, refl, ◌∙◌}
use mathlib.Core.Logic.{inl, inr}
use mathlib.Core.Bool.{Bool, true, false}
use mathlib.Core.Option.{none, some}
use mathlib.Core.List.{List, [], ◌∷◌, ◌++◌}
use native.Mathlib.Omega.{arith}
use mywork_automate.Prelude.{Option-cases, All, All-append, contains, lookup, insert, lookup-insert}
use mywork_automate.Prelude.TextOrder.{contains-append, Distinct, Distinct-concat}
use mywork_automate.Flow.{NodeDef}
use mywork_automate.Interpreter.Graph.{FlowDef, node_by_id, find_trigger}
use mywork_automate.Interpreter.Workflow.{
  FlowInput, FlowResult, NodeOutput, ActivityOptions, NodeExecRequest, ActivityOutcome, Walk,
  completed, settle, start_at, enough_fuel, flow_workflow,
}
use mywork_automate.Interpreter.Steps.{node_by_id-id, Step, skip, run}
use mywork_automate.Interpreter.Runs.{walk-invariant}

abbrev pub has_output : String → List (String × NodeOutput) → Bool
has_output x outputs = elim (lookup x outputs) [ none ↦ false | some _ ↦ true ]

-- What every state of a walk satisfies.
pub record IsFaithful (flow : FlowDef) (s : Walk) : Type 0 where
  pub distinct : Distinct s.path
  pub executed : (x : String) → contains x s.path ≡ contains x s.visited
  pub nodes : All (λ x. (n : NodeDef) × (node_by_id flow x ≡ some n)) s.path
  pub recorded : (x : String) → has_output x s.outputs ≡ contains x s.path

contains-visited :
    (x id : String) (path visited : List String)
    → contains x path ≡ contains x visited
    → contains x (path ++ id ∷ []) ≡ contains x (id ∷ visited)
unfolding contains
contains-visited x id path visited h = ground (arith, contains-append x path (id ∷ []))

has_output-insert :
    (x id : String) (out : NodeOutput) (path : List String) (outputs : List (String × NodeOutput))
    → has_output x outputs ≡ contains x path
    → has_output x (insert id out outputs) ≡ contains x (path ++ id ∷ [])
unfolding contains
has_output-insert x id out path outputs h =
    ground (arith, contains-append x path (id ∷ []), lookup-insert id x out outputs)

module _ (execute : ℕ → ActivityOptions → NodeExecRequest → ActivityOutcome)
    (input : FlowInput) where
  Step-IsFaithful :
      (s : Walk) (id : String) (s' : Walk)
      → IsFaithful input.flow s
      → Step execute input s id s'
      → IsFaithful input.flow s'
  unfolding settle
  Step-IsFaithful s id s' f (skip seen e) = rw e f
  Step-IsFaithful s id s' f (run node out decision fresh found answered e) =
      let same : node.id ≡ id = node_by_id-id input.flow id found in
      rw (e, same)
        (record {
          distinct = Distinct-concat s.path id f.distinct (f.executed id ∙ fresh);
          executed = λ x. contains-visited x id s.path s.visited (f.executed x);
          nodes =
              All-append (λ x. (n : NodeDef) × (node_by_id input.flow x ≡ some n)) s.path (id ∷ [])
                f.nodes ((node, found), tt);
          recorded = λ x. has_output-insert x id out s.path s.outputs (f.recorded x);
        })

  pub popped-IsFaithful :
      (s : Walk) (id : String) (rest : List String) (s' : Walk)
      → IsFaithful input.flow s
      → Step execute input (record s { queue = rest }) id s'
      → IsFaithful input.flow s'
  popped-IsFaithful s id rest s' f st =
      let f' : IsFaithful input.flow (record s { queue = rest }) = record {
        distinct = f.distinct;
        executed = f.executed;
        nodes = f.nodes;
        recorded = f.recorded;
      } in
      Step-IsFaithful (record s { queue = rest }) id s' f' st

  pub start-IsFaithful : (id : String) → IsFaithful input.flow (start_at execute input id)
  unfolding lookup contains
  start-IsFaithful id = record {
    distinct = tt;
    executed = λ x. refl;
    nodes = tt;
    recorded = λ x. refl;
  }

-- A completed run has executed no node twice, every node that it executed is a node of the flow,
-- and it has recorded an output for exactly the executed nodes.
pub flow_workflow-path :
    (execute : ℕ → ActivityOptions → NodeExecRequest → ActivityOutcome) (input : FlowInput)
    (r : FlowResult)
    → flow_workflow execute input ≡ completed r
    → Distinct r.path
      × All (λ x. (n : NodeDef) × (node_by_id input.flow x ≡ some n)) r.path
      × ((x : String) → has_output x r.outputs ≡ contains x r.path)
unfolding flow_workflow
flow_workflow-path execute input r h = elim (Option-cases (find_trigger input.flow)) [
  | inl missing ↦ absurd (ground arith)
  | inr (id, found) ↦
      let (t, f, empty, same) =
        walk-invariant execute input (IsFaithful input.flow)
          (λ s id rest s' q. popped-IsFaithful execute input s id rest s')
          (enough_fuel execute input) (start_at execute input id) r (rw (found, flow_workflow) at h)
          (start-IsFaithful execute input id) in
      rw same (f.distinct, f.nodes, f.recorded)
]
