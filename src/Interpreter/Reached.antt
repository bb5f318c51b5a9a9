-- ===== src/Interpreter/Reached.antt =====
-- Which nodes a run of apps/automate-worker/internal/interpreter/workflow.go reaches.
use Prim.Native.Nat.{ℕ}
use Prim.Native.String.{String}
use mathlib.Core.Path.{◌≡◌, ◌∙◌}
use mathlib.Core.Logic.{◌↔◌, inl, inr}
use mathlib.Core.Bool.{true, false}
use mathlib.Core.Option.{none, some}
use mathlib.Core.List.{List, [], ◌∷◌}
use native.Mathlib.Omega.{arith}
use text.Mathlib.Text.{◌==◌}
use text.Mathlib.TextEquality.{eq_iff}
use mywork_automate.Prelude.{Bool-cases, contains, lookup, insert, lookup-insert}
use mywork_automate.Flow.{NodeDef}
use mywork_automate.Interpreter.Graph.{node_by_id, find_trigger}
use mywork_automate.Interpreter.Workflow.{
  FlowInput, FlowResult, NodeOutput, ActivityOptions, NodeExecRequest, ActivityOutcome, Walk,
  completed, settle, start_at, enough_fuel, flow_workflow,
}
use mywork_automate.Interpreter.Steps.{node_by_id-id, Answered, Step, skip, run}
use mywork_automate.Interpreter.Runs.{IsState, initial, next, walk-invariant}
use mywork_automate.Interpreter.Led.{
  LedTo, IsExact, IsExact-skip, IsExact-run, IsExact-empty, start-IsExact,
}
use mywork_automate.Interpreter.Paths.{IsFaithful, popped-IsFaithful, start-IsFaithful}

module _ (execute : ℕ → ActivityOptions → NodeExecRequest → ActivityOutcome) (input : FlowInput)
    (start : String) where
  -- A state of the run takes the node from the queue, and its activity there answers with the decision.
  abbrev pub IsDecision : String → String → Type 0
  IsDecision id decision =
      (s : Walk) × (rest : List String) × (node : NodeDef) × (out : NodeOutput) × IsState execute
        input start s
      × (s.queue ≡ id ∷ rest)
      × (contains id s.visited ≡ false)
      × (node_by_id input.flow id ≡ some node)
      × Answered execute input (record s { queue = rest; visited = id ∷ s.visited }) node out
          decision

  record IsLogged (s : Walk) (log : List (String × String)) : Type 0 where
    exact : IsExact input.flow start log s.queue s.visited
    decided : (x d : String) → lookup x log ≡ some d → IsDecision x d

  Step-IsLogged :
      (s : Walk) (id : String) (rest : List String) (s' : Walk)
      → s.queue ≡ id ∷ rest
      → IsState execute input start s
      → (log : List (String × String)) × IsLogged s log
      → Step execute input (record s { queue = rest }) id s'
      → (log : List (String × String)) × IsLogged s' log
  unfolding settle
  Step-IsLogged s id rest s' q state (log, h) (skip seen e) = (
    log,
    record {
      exact = rw e (IsExact-skip input.flow start log id rest s.visited seen (rw q at h.exact));
      decided = h.decided;
    },
  )
  Step-IsLogged s id rest s' q state (log, h) (run node out decision fresh found answered e) =
      let same : node.id ≡ id = node_by_id-id input.flow id found in
      (
        insert id decision log,
        record {
          exact =
              rw (e, same)
                (IsExact-run input.flow start log id decision rest s.visited fresh
                  (rw q at h.exact));
          decided = λ x d m. elim (Bool-cases (id == x)) [
            | inl this ↦
                let e₁ : id ≡ x = (eq_iff id x).0 this in
                let e₂ : decision ≡ d = ground (arith, lookup-insert id x decision log) in
                rw (← e₁, ← e₂) (s, rest, node, out, state, q, fresh, found, answered)
            | inr other ↦ h.decided x d (ground (arith, lookup-insert id x decision log))
          ];
        },
      )

-- A completed run has a log of decisions, one for each node that it executed and each of them what the
-- activity of the node answered at the state where the run executed it, such that it executed exactly
-- the nodes that are led to from the trigger along the out-edges of the logged decisions.
pub flow_workflow-reached :
    (execute : ℕ → ActivityOptions → NodeExecRequest → ActivityOutcome) (input : FlowInput)
    (start : String) (r : FlowResult)
    → find_trigger input.flow ≡ some start
    → flow_workflow execute input ≡ completed r
    → (log : List (String × String)) × ((x : String)
        → (lookup x log ≡ none) ↔ (contains x r.path ≡ false))
      × ((x d : String) → lookup x log ≡ some d → IsDecision execute input start x d)
      × ((x : String) → (contains x r.path ≡ true) ↔ LedTo input.flow log start x)
unfolding flow_workflow contains lookup
flow_workflow-reached execute input start r found h =
    let (t, (f, state, (log, logged)), empty, same) =
      walk-invariant execute input
        (λ s.
          IsFaithful input.flow s
          × IsState execute input start s
          × ((log : List (String × String)) × IsLogged execute input start s log))
        (λ s id rest s' q (f, state, logs) st. (
          popped-IsFaithful execute input s id rest s' f st,
          next state q st,
          Step-IsLogged execute input start s id rest s' q state logs st,
        ))
        (enough_fuel execute input) (start_at execute input start) r
        (rw (found, flow_workflow) at h)
        (
          start-IsFaithful execute input start,
          initial,
          ([], record { exact = start-IsExact input.flow start; decided = λ x d m. absurd (cc) }),
        ) in
    rw same (
      log,
      λ x. rw (f.executed x) (logged.exact.logged x),
      logged.decided,
      λ x. (
        λ m. logged.exact.led x (rw (empty, ← f.executed x) m),
        λ l.
            f.executed x
            ∙ IsExact-empty input.flow start log t.visited (rw empty at logged.exact) x l,
      ),
    )
