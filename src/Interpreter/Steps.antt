-- ===== src/Interpreter/Steps.antt =====
-- The walk of apps/automate-worker/internal/interpreter/workflow.go as a step relation: what a round
-- that goes on has done.
use Prim.Native.Nat.{ℕ}
use Prim.Native.String.{String}
use mathlib.Core.Path.{◌≡◌, refl}
use mathlib.Core.Logic.{inl, inr}
use mathlib.Core.Bool.{true, false}
use mathlib.Core.Option.{none, some}
use mathlib.Core.List.{List, [], ◌∷◌}
use native.Mathlib.Omega.{arith}
use text.Mathlib.Text.{◌==◌}
use text.Mathlib.TextEquality.{eq_iff}
use mywork_automate.Prelude.{Bool-cases, Option-cases, length, contains}
use mywork_automate.Flow.{NodeDef}
use mywork_automate.Interpreter.Graph.{FlowDef, find_node, node_by_id}
use mywork_automate.Interpreter.Workflow.{
  FlowInput, NodeOutput, ActivityOptions, NodeExecRequest, NodeExecResult, ActivityOutcome,
  returned, raised, Walk, FlowError, node_failed, unknown_node, goes_on, stops, settle,
  failed_output, handle_error, activity_options_for, request, after_activity, visit, round,
}

pub find_node-id :
    (id : String) (ns : List NodeDef) {node : NodeDef} → find_node id ns ≡ some node → node.id ≡ id
unfolding find_node
find_node-id id [] h = cc
find_node-id id (n ∷ ns) {node} h = elim (Bool-cases (n.id == id)) [
  | inl same ↦ ground (arith, eq_iff n.id id)
  | inr other ↦ find_node-id id ns {node = node} (ground arith)
]

pub node_by_id-id :
    (flow : FlowDef) (id : String) {node : NodeDef} → node_by_id flow id ≡ some node → node.id ≡ id
unfolding node_by_id
node_by_id-id flow id {node} h = find_node-id id flow.nodes {node = node} h

module _ (execute : ℕ → ActivityOptions → NodeExecRequest → ActivityOutcome)
    (input : FlowInput) where
  -- The call of the activity for a node at the state `s`.
  abbrev pub call : Walk → NodeDef → ActivityOutcome
  call s node =
      execute (length s.path) (activity_options_for node.retry) (request execute input s node)

  -- What is recorded for a node, and the decision that the walk goes on with.
  pub data Answered (s : Walk) (node : NodeDef) (out : NodeOutput) (decision : String)
      : Type 0 where
    by_result :
        (res : NodeExecResult)
        → call s node ≡ returned res
        → out ≡ record { items = res.items; meta = res.meta }
        → decision ≡ res.decision
        → Answered s node out decision
    by_handled_error :
        (message : String)
        → call s node ≡ raised message
        → handle_error input.flow node ≡ some decision
        → out ≡ failed_output message
        → Answered s node out decision

  -- `s` is the state with the head of the queue taken off, `s'` the state after the round.
  pub data Step (s : Walk) (id : String) (s' : Walk) : Type 0 where
    skip : contains id s.visited ≡ true → s' ≡ s → Step s id s'
    run :
        (node : NodeDef) (out : NodeOutput) (decision : String)
        → contains id s.visited ≡ false
        → node_by_id input.flow id ≡ some node
        → Answered (record s { visited = id ∷ s.visited }) node out decision
        → s' ≡ settle input.flow (record s { visited = id ∷ s.visited }) node out decision
        → Step s id s'

  -- Why a round stops.
  pub data Stop (s : Walk) (id : String) (e : FlowError) : Type 0 where
    at_unknown : node_by_id input.flow id ≡ none → e ≡ unknown_node id → Stop s id e
    at_failure :
        (node : NodeDef) (message : String)
        → node_by_id input.flow id ≡ some node
        → call (record s { visited = id ∷ s.visited }) node ≡ raised message
        → handle_error input.flow node ≡ none
        → e ≡ node_failed node message
        → Stop s id e

  after_activity-Answered :
      (s : Walk) (node : NodeDef) (o : ActivityOutcome) {s' : Walk}
      → call s node ≡ o
      → after_activity execute input s node o ≡ goes_on s'
      → (out : NodeOutput) × (decision : String) × Answered s node out decision
        × (s' ≡ settle input.flow s node out decision)
  unfolding after_activity
  after_activity-Answered s node (returned res) c h =
      (record { items = res.items; meta = res.meta }, res.decision, by_result res c refl refl, cc)
  after_activity-Answered s node (raised message) c h =
      elim (Option-cases (handle_error input.flow node)) [
        | inl lost ↦ absurd (ground arith)
        | inr (decision, found) ↦
            (failed_output message, decision, by_handled_error message c found refl, ground arith)
      ]

  -- A round that goes on makes a step.
  pub round-Step :
      (s : Walk) (id : String) (rest : List String) {s' : Walk}
      → round execute input s id rest ≡ goes_on s'
      → Step (record s { queue = rest }) id s'
  unfolding round visit
  round-Step s id rest h = elim (Bool-cases (contains id s.visited)) [
    | inl seen ↦ skip seen (ground arith)
    | inr fresh ↦ elim (Option-cases (node_by_id input.flow id)) [
      | inl missing ↦ absurd (ground arith)
      | inr (node, found) ↦
          let s₁ : Walk = record s { queue = rest; visited = id ∷ s.visited } in
          let (out, decision, answered, e) =
            after_activity-Answered s₁ node (call s₁ node) refl (ground arith) in
          run node out decision fresh found answered e
    ]
  ]

  after_activity-Stop :
      (s : Walk) (node : NodeDef) (o : ActivityOutcome) {e : FlowError}
      → call s node ≡ o
      → after_activity execute input s node o ≡ stops e
      → (message : String) × (call s node ≡ raised message)
        × (handle_error input.flow node ≡ none)
        × (e ≡ node_failed node message)
  unfolding after_activity
  after_activity-Stop s node (returned res) c h = absurd (cc)
  after_activity-Stop s node (raised message) c h = (message, c, ground arith, ground arith)

  -- A round that stops has a reason.
  pub round-Stop :
      (s : Walk) (id : String) (rest : List String) {e : FlowError}
      → round execute input s id rest ≡ stops e
      → Stop (record s { queue = rest }) id e
  unfolding round visit
  round-Stop s id rest h = elim (Bool-cases (contains id s.visited)) [
    | inl seen ↦ absurd (ground arith)
    | inr fresh ↦ elim (Option-cases (node_by_id input.flow id)) [
      | inl missing ↦ at_unknown missing (ground arith)
      | inr (node, found) ↦
          let s₁ : Walk = record s { queue = rest; visited = id ∷ s.visited } in
          let (message, raises, unhandled, e) =
            after_activity-Stop s₁ node (call s₁ node) refl (ground arith) in
          at_failure node message found raises unhandled e
    ]
  ]
