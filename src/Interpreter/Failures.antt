-- ===== src/Interpreter/Failures.antt =====
-- How a run of apps/automate-worker/internal/interpreter/workflow.go fails, for definitions
-- that apps/automate-api/internal/flowvalidate/flowvalidate.go accepts.
use Prim.Native.Nat.{ℕ}
use Prim.Native.String.{String}
use mathlib.Core.Path.{◌≡◌, refl}
use mathlib.Core.Logic.{◌≢◌, inl, inr}
use mathlib.Core.Bool.{true, false}
use mathlib.Core.Option.{none, some}
use mathlib.Core.List.{List, [], ◌∷◌, ◌++◌}
use native.Mathlib.Omega.{arith}
use text.Mathlib.Text.{◌==◌}
use mywork_automate.Prelude.{Bool-cases, Option-cases, All, All-append, All-weaken, contains}
use mywork_automate.Prelude.TextOrder.{All-sort}
use mywork_automate.Flow
use mywork_automate.Flow.{EdgeDef, NodeDef}
use mywork_automate.Interpreter.Graph.{
  FlowDef, of_spec, find_node, node_by_id, follows, select_targets, out_edges, find_trigger,
}
use mywork_automate.Interpreter.Workflow.{
  FlowInput, ActivityOptions, NodeExecRequest, ActivityOutcome, raised, Walk, FlowError,
  node_failed, failed, enqueue, settle, handle_error, start_at, enough_fuel, flow_workflow,
}
use mywork_automate.Interpreter.Steps.{call, Step, skip, run, Stop, at_unknown, at_failure}
use mywork_automate.Interpreter.Runs.{IsState, initial, next, walk-failure}
use mywork_automate.Interpreter.Trigger.{
  ids, trigger_ids, least_of, least_of-none, find_trigger_lem, find_trigger-node,
}
use mywork_automate.FlowValidate.{validate, has_errors}
use mywork_automate.FlowValidate.Errors.{triggers}
use mywork_automate.FlowValidate.Verdict.{IsRunnable, validate_iff}

-- The queue holds ids of nodes.
abbrev QueuesNodes : FlowDef → Walk → Type 0
QueuesNodes flow s = All (λ x. contains x (ids flow.nodes) ≡ true) s.queue

-- The target of every edge is the id of a node.
abbrev TargetsNodes : FlowDef → Type 0
TargetsNodes flow = All (λ (e : EdgeDef). contains e.target (ids flow.nodes) ≡ true) flow.edges

find_node-total :
    (id : String) (ns : List NodeDef)
    → contains id (ids ns) ≡ true
    → (n : NodeDef) × (find_node id ns ≡ some n)
unfolding find_node contains
find_node-total id [] h = absurd (cc)
find_node-total id (n ∷ ns) h = elim (Bool-cases (n.id == id)) [
  | inl same ↦ (n, rw same)
  | inr other ↦ rw other (find_node-total id ns (ground arith))
]

module _ {κ} (P : String → Type κ) where
  All-enqueue :
      (visited queue nexts : List String)
      → All P queue
      → All P nexts
      → All P (enqueue visited queue nexts)
  unfolding enqueue
  All-enqueue visited queue [] h k = h
  All-enqueue visited queue (n ∷ ns) h k = elim (Bool-cases (contains n visited)) [
    | inl old ↦ rw (old, enqueue) (All-enqueue visited queue ns h k.1)
    | inr new ↦
        rw (new, enqueue)
          (All-enqueue visited (queue ++ n ∷ []) ns (All-append P queue (n ∷ []) h (k.0, tt)) k.1)
  ]

  All-select_targets :
      (id decision : String) (es : List EdgeDef)
      → All (λ (e : EdgeDef). P e.target) es
      → All P (select_targets id decision es)
  unfolding select_targets
  All-select_targets id decision [] h = tt
  All-select_targets id decision (e ∷ es) h = elim (Bool-cases (follows id decision e)) [
    | inl taken ↦ rw taken (h.0, All-select_targets id decision es h.1)
    | inr left ↦ rw left (All-select_targets id decision es h.1)
  ]

  All-out_edges :
      (id decision : String) (es : List EdgeDef)
      → All (λ (e : EdgeDef). P e.target) es
      → All P (out_edges es id decision)
  unfolding out_edges
  All-out_edges id decision es h =
      All-sort P (select_targets id decision es) (All-select_targets id decision es h)

Step-QueuesNodes :
    (execute : ℕ → ActivityOptions → NodeExecRequest → ActivityOutcome) (input : FlowInput)
    (s : Walk) (id : String) (s' : Walk)
    → TargetsNodes input.flow
    → QueuesNodes input.flow s
    → Step execute input s id s'
    → QueuesNodes input.flow s'
unfolding settle
Step-QueuesNodes execute input s id s' t q (skip seen e) = rw e q
Step-QueuesNodes execute input s id s' t q (run node out decision fresh found answered e) =
    let P = λ (x : String). contains x (ids input.flow.nodes) ≡ true in
    rw e (
      All-enqueue P (id ∷ s.visited) s.queue (out_edges input.flow.edges node.id decision) q
        (All-out_edges P node.id decision input.flow.edges t))

trigger_counted : (ns : List NodeDef) → trigger_ids ns ≡ [] → triggers ns ≡ 0
trigger_counted [] h = refl
trigger_counted (n ∷ ns) h = ground (arith, trigger_counted ns)

IsRunnable-starts :
    (def : Flow.FlowDef)
    → IsRunnable def
    → All (λ x. x ≢ "") (ids def.nodes)
    → find_trigger (of_spec def) ≢ none
IsRunnable-starts def r named h = elim (Option-cases (least_of (trigger_ids def.nodes))) [
  | inl missing ↦
      let none_counted =
        trigger_counted def.nodes (least_of-none (trigger_ids def.nodes) missing) in
      omega (arith, r.one_trigger)
  | inr (t, e) ↦ cc (find_trigger_lem (of_spec def) named)
]

-- The failure of a node of the flow: a state of the run from its trigger takes the node from the queue,
-- its activity raises there the error that is reported, and its `onError` mode does not handle it.
abbrev pub IsNodeFailure :
    (ℕ → ActivityOptions → NodeExecRequest → ActivityOutcome) → FlowInput → FlowError → Type 0
IsNodeFailure execute input err =
    (start : String) × (s : Walk) × (id : String) × (rest : List String) × (node : NodeDef)
    × (message : String) × (find_trigger input.flow ≡ some start)
    × IsState execute input start s
    × (s.queue ≡ id ∷ rest)
    × (node_by_id input.flow id ≡ some node)
    × (call execute input (record s { queue = rest; visited = id ∷ s.visited }) node
        ≡ raised message)
    × (handle_error input.flow node ≡ none)
    × (err ≡ node_failed node message)

failure_of_Stop :
    (execute : ℕ → ActivityOptions → NodeExecRequest → ActivityOutcome) (input : FlowInput)
    (start : String) (s : Walk) (id : String) (rest : List String) (err : FlowError)
    → find_trigger input.flow ≡ some start
    → IsState execute input start s
    → s.queue ≡ id ∷ rest
    → Stop execute input (record s { queue = rest }) id err
    → contains id (ids input.flow.nodes) ≡ true
    → IsNodeFailure execute input err
unfolding node_by_id
failure_of_Stop execute input start s id rest err begun state q (at_unknown missing e) h =
    let (n, found) = find_node-total id input.flow.nodes h in absurd (cc)
failure_of_Stop execute input start s id rest err begun state q
      (at_failure node message found raises unhandled e) h =
    (start, s, id, rest, node, message, begun, state, q, found, raises, unhandled, e)

-- A definition that the validator accepts, with no empty node id, fails only by a node: at a state that
-- the run goes through, the call of the activity for the node at the head of the queue raised the very
-- error that the run fails with, and the node's `onError` mode does not handle it. The run never meets
-- an unknown node and never lacks a trigger.
pub flow_workflow-failure :
    (execute : ℕ → ActivityOptions → NodeExecRequest → ActivityOutcome) (input : FlowInput)
    (def : Flow.FlowDef) (err : FlowError)
    → input.flow ≡ of_spec def
    → has_errors (validate def) ≡ false
    → All (λ x. x ≢ "") (ids def.nodes)
    → flow_workflow execute input ≡ failed err
    → IsNodeFailure execute input err
unfolding flow_workflow
flow_workflow-failure execute input def err same accepted named h =
    let runnable = (validate_iff def).0 accepted in
    elim (Option-cases (find_trigger input.flow)) [
      | inl missing ↦ absurd (IsRunnable-starts def runnable named (rw same at missing))
      | inr (start, found) ↦
          let targets : TargetsNodes input.flow =
            rw same (All-weaken def.edges (λ e k. k.1) runnable.joined) in
          let begun : QueuesNodes input.flow (start_at execute input start) =
            (find_trigger-node input.flow start found, tt) in
          let (t, id, rest, (queued, state), q, stop) =
            walk-failure execute input
              (λ s. QueuesNodes input.flow s × IsState execute input start s)
              (λ s id rest s' q (h, state) st. (
                Step-QueuesNodes execute input (record s { queue = rest }) id s' targets
                    (rw q at h).1 st,
                next state q st,
              ))
              (enough_fuel execute input) (start_at execute input start) err
              (rw (found, flow_workflow) at h) (begun, initial) in
          failure_of_Stop execute input start t id rest err found state q stop (rw q at queued).0
    ]
