-- ===== src/Interpreter/Runs.antt =====
-- Runs of the walk of apps/automate-worker/internal/interpreter/workflow.go: the invariant rule over
-- its rounds, and their number.
use Prim.Native.Nat.{ℕ, zero, suc, ◌+◌, ◌≤◌, ◌<◌}
use Prim.Native.String.{String}
use mathlib.Core.Path.{◌≡◌, refl, ap}
use mathlib.Core.Logic.{◌≢◌, ◌⊎◌, inl, inr}
use mathlib.Core.Bool.{false, not}
use mathlib.Core.List.{List, [], ◌∷◌, ◌++◌}
use native.Mathlib.Omega.{arith}
use text.Mathlib.TextEquality.{eq_iff}
use mywork_automate.Prelude.{Option-cases, List-cases, length, length-append, count_if, contains}
use mywork_automate.Prelude.TextOrder.{length-sort}
use mywork_automate.Flow.{EdgeDef}
use mywork_automate.Interpreter.Graph.{follows, select_targets, out_edges, find_trigger}
use mywork_automate.Interpreter.Workflow.{
  FlowInput, FlowResult, ActivityOptions, NodeExecRequest, ActivityOutcome, Walk, FlowError, Round,
  goes_on, stops, completed, failed, out_of_fuel, enqueue, settle, round, walk, start_at,
  enough_fuel, flow_workflow,
}
use mywork_automate.Interpreter.Steps.{node_by_id-id, Step, skip, run, Stop, round-Step, round-Stop}

-- The edges that a walk has still to follow.
abbrev pub pending : List String → List EdgeDef → ℕ
pending visited es = count_if (λ (e : EdgeDef). not (contains e.source visited)) es

abbrev pub work_left : List EdgeDef → Walk → ℕ
work_left es s = length s.queue + pending s.visited es

length-enqueue :
    (visited queue nexts : List String)
    → length (enqueue visited queue nexts) ≤ length queue + length nexts
unfolding enqueue
length-enqueue visited queue [] = omega arith
length-enqueue visited queue (next ∷ nexts) = ground (
  arith,
  length-enqueue visited queue nexts,
  length-enqueue visited (queue ++ next ∷ []) nexts,
  length-append queue (next ∷ []),
)

-- The edges out of a node are used up when it is visited.
select_targets-pending :
    (id decision : String) (visited : List String) (es : List EdgeDef)
    → contains id visited ≡ false
    → length (select_targets id decision es) + pending (id ∷ visited) es ≤ pending visited es
unfolding select_targets follows contains
select_targets-pending id decision visited [] h = omega arith
select_targets-pending id decision visited (e ∷ es) h =
    ground
      (arith, eq_iff e.source id, eq_iff id e.source, select_targets-pending id decision visited es)

length-out_edges :
    (id decision : String) (visited : List String) (es : List EdgeDef)
    → contains id visited ≡ false
    → length (out_edges es id decision) + pending (id ∷ visited) es ≤ pending visited es
unfolding out_edges
length-out_edges id decision visited es h = omega (
  arith,
  length-sort (select_targets id decision es),
  select_targets-pending id decision visited es h,
)

pending-le : (visited : List String) (es : List EdgeDef) → pending visited es ≤ length es
pending-le visited [] = omega arith
pending-le visited (e ∷ es) = ground (arith, pending-le visited es)

pub Round-cases : (r : Round) → ((s : Walk) × (r ≡ goes_on s)) ⊎ ((e : FlowError) × (r ≡ stops e))
Round-cases (goes_on s) = inl (s, refl)
Round-cases (stops e) = inr (e, refl)

module _ (execute : ℕ → ActivityOptions → NodeExecRequest → ActivityOutcome) (input : FlowInput)
    (start : String) where
  -- The states that the rounds of a run go through.
  pub data IsState : Walk → Type 0 where
    initial : IsState (start_at execute input start)
    next :
        {s s' : Walk} {id : String} {rest : List String}
        → IsState s
        → s.queue ≡ id ∷ rest
        → Step execute input (record s { queue = rest }) id s'
        → IsState s'

module _ (execute : ℕ → ActivityOptions → NodeExecRequest → ActivityOutcome)
    (input : FlowInput) where
  pub Step-work_left :
      (s : Walk) (id : String) {s' : Walk}
      → Step execute input s id s'
      → work_left input.flow.edges s' ≤ work_left input.flow.edges s
  unfolding settle
  Step-work_left s id (skip seen e) = rw e (omega arith)
  Step-work_left s id (run node out decision fresh found answered e) =
      let same : node.id ≡ id = node_by_id-id input.flow id found in
      let es = input.flow.edges in
      let nexts = out_edges es id decision in
      rw (e, same)
        (omega (
          arith,
          length-enqueue (id ∷ s.visited) s.queue nexts,
          length-out_edges id decision s.visited es fresh,
        ))

  -- The invariant rule: what every round keeps holds at the end, where the queue is empty.
  pub walk-invariant {κ} :
      (P : Walk → Type κ)
      → ((s : Walk) (id : String) (rest : List String) (s' : Walk)
          → s.queue ≡ id ∷ rest
          → P s
          → Step execute input (record s { queue = rest }) id s'
          → P s')
      → (fuel : ℕ) (s : Walk) (r : FlowResult) → walk execute input fuel s ≡ completed r
      → P s
      → (t : Walk) × P t × (t.queue ≡ []) × (r ≡ record { path = t.path; outputs = t.outputs })
  unfolding walk
  walk-invariant P keep zero s r h p = absurd (cc)
  walk-invariant P keep (suc fuel) s r h p = elim (List-cases s.queue) [
    | inl empty ↦ (s, p, empty, ground arith)
    | inr (id, rest, q) ↦ elim (Round-cases (round execute input s id rest)) [
      | inl (s', goes) ↦
          walk-invariant P keep fuel s' r (rw (q, goes, walk) at h)
            (keep s id rest s' q p (round-Step execute input s id rest goes))
      | inr (e, stops_) ↦ absurd (ground arith)
    ]
  ]

  -- The same for a run that fails: the invariant holds where it stops, and the stop has a reason.
  pub walk-failure {κ} :
      (P : Walk → Type κ)
      → ((s : Walk) (id : String) (rest : List String) (s' : Walk)
          → s.queue ≡ id ∷ rest
          → P s
          → Step execute input (record s { queue = rest }) id s'
          → P s')
      → (fuel : ℕ) (s : Walk) (err : FlowError) → walk execute input fuel s ≡ failed err
      → P s
      → (t : Walk) × (id : String) × (rest : List String) × P t
        × (t.queue ≡ id ∷ rest)
        × Stop execute input (record t { queue = rest }) id err
  unfolding walk
  walk-failure P keep zero s err h p = absurd (cc)
  walk-failure P keep (suc fuel) s err h p = elim (List-cases s.queue) [
    | inl empty ↦ absurd (ground arith)
    | inr (id, rest, q) ↦ elim (Round-cases (round execute input s id rest)) [
      | inl (s', goes) ↦
          walk-failure P keep fuel s' err (rw (q, goes, walk) at h)
            (keep s id rest s' q p (round-Step execute input s id rest goes))
      | inr (e, halts) ↦
          let same : e ≡ err = ground arith in
          (s, id, rest, p, q, round-Stop execute input s id rest (rw (← same) halts))
    ]
  ]

  -- Fuel above the work that is left is enough.
  walk_ends :
      (fuel : ℕ) (s : Walk)
      → work_left input.flow.edges s < fuel
      → walk execute input fuel s ≢ out_of_fuel
  unfolding walk
  walk_ends zero s h = elim h [ ]
  walk_ends (suc fuel) s h = elim (List-cases s.queue) [
    | inl empty ↦ ground arith
    | inr (id, rest, q) ↦ elim (Round-cases (round execute input s id rest)) [
      | inl (s', goes) ↦
          let less =
            Step-work_left (record s { queue = rest }) id
              (round-Step execute input s id rest goes) in
          let shorter : length s.queue ≡ suc (length rest) = ap length q in
          rw (q, goes, walk) (walk_ends fuel s' (omega arith))
      | inr (e, halts) ↦ ground arith
    ]
  ]

-- The workflow ends on every definition, cyclic ones too, whatever the activities answer: the fuel
-- that the model gives the loop is never used up.
pub flow_workflow_ends :
    (execute : ℕ → ActivityOptions → NodeExecRequest → ActivityOutcome) (input : FlowInput)
    → flow_workflow execute input ≢ out_of_fuel
unfolding flow_workflow
flow_workflow_ends execute input = elim (Option-cases (find_trigger input.flow)) [
  | inl missing ↦ ground arith
  | inr (id, found) ↦
      rw (found, flow_workflow)
        (walk_ends execute input (enough_fuel execute input) (start_at execute input id)
          (omega (arith, pending-le [] input.flow.edges)))
]
