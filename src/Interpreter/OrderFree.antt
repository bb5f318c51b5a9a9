-- ===== src/Interpreter/OrderFree.antt =====
-- Runs of apps/automate-worker/internal/interpreter/workflow.go over definitions that list the same
-- nodes and edges in another order.
use Prim.Native.Nat.{ℕ, zero, suc, ◌+◌}
use Prim.Native.String.{String}
use mathlib.Core.Path.{◌≡◌, refl, ap, ap₂, subst₂, fun_ext, sym, ◌∙◌}
use mathlib.Core.Logic.{◌≢◌, inl, inr}
use mathlib.Core.Bool.{Bool, not}
use mathlib.Core.List.{List, [], ◌∷◌, Permᴰ}
use native.Mathlib.Omega.{arith}
use text.Mathlib.Text.{◌==◌}
use text.Mathlib.TextEquality.{eq_iff}
use mywork_automate.Prelude.{Option-cases, List-cases, All, length, pick, contains, sort}
use mywork_automate.Prelude.TextOrder.{Distinct, All-contains, All-of_contains}
use mywork_automate.Interpreter.Runs.{Round-cases}
use mywork_automate.Prelude.Reorder.{
  length-perm, sort-pick_perm, contains-map_perm, Distinct-map_perm,
}
use mywork_automate.Value.{Fields}
use mywork_automate.Flow.{NodeDef, EdgeDef}
use mywork_automate.Interpreter.Graph.{
  FlowDef, is_trigger, targets, without_incoming, find_node, node_by_id, follows, select_targets,
  out_edges, find_trigger, first,
}
use mywork_automate.Interpreter.Workflow.{
  FlowInput, NodeOutput, ActivityOptions, NodeExecRequest, ActivityOutcome, returned, raised, Walk,
  goes_on, sources_of, first_output, predecessor_items, settle, handle_error, after_activity, visit,
  round, walk, flow_workflow,
}
use mywork_automate.Interpreter.Trigger.{ids, least_of, or_else, find_trigger_lem}

-- Two definitions with the same nodes and the same edges, in any order.
pub record Reordered (f g : FlowDef) : Type 0 where
  pub nodes : Permᴰ f.nodes g.nodes
  pub edges : Permᴰ f.edges g.edges

-- What the workflow reads of a definition.
record SameReads (f g : FlowDef) : Type 0 where
  start : find_trigger f ≡ find_trigger g
  node : (id : String) → node_by_id f id ≡ node_by_id g id
  out : (id decision : String) → out_edges f.edges id decision ≡ out_edges g.edges id decision
  items :
      (outputs : List (String × NodeOutput)) (id : String)
      → predecessor_items f outputs id ≡ predecessor_items g outputs id
  fuel : length f.edges ≡ length g.edges

find_node-perm :
    (id : String) {l m : List NodeDef}
    → Permᴰ l m
    → Distinct (ids l)
    → find_node id l ≡ find_node id m
unfolding find_node contains
find_node-perm id Permᴰ.nil d = refl
find_node-perm id (Permᴰ.cons {b = b} e q) d = rw (e, find_node-perm id q d.1)
find_node-perm id (Permᴰ.swap {a = a} {b = b} {a' = a'} {b' = b'} {l = l} e g) d =
    let d' : Distinct (ids (b' ∷ a' ∷ l)) = subst₂ (λ x y. Distinct (ids (x ∷ y ∷ l))) e g d in
    rw (e, g)
      (ground (arith, eq_iff a'.id b'.id, eq_iff a'.id id, eq_iff b'.id id, eq_iff b'.id a'.id))
find_node-perm id (Permᴰ.trans q r) d =
    find_node-perm id q d ∙ find_node-perm id r (Distinct-map_perm (λ n. n.id) q d)

least_of-without_incoming_perm :
    {es fs : List EdgeDef} {ns ms : List NodeDef}
    → Permᴰ es fs
    → Permᴰ ns ms
    → least_of (without_incoming es ns) ≡ least_of (without_incoming fs ms)
unfolding without_incoming
least_of-without_incoming_perm {es} {fs} {ns} {ms} p q =
    let tests : ◌≡◌ {A = NodeDef → Bool} (λ n. not (contains n.id (targets es)))
        (λ n. not (contains n.id (targets fs))) =
      fun_ext (λ n. ap not (contains-map_perm (λ e. e.target) n.id p)) in
    ap (λ t. first (sort (pick t (λ (n : NodeDef). n.id) ns))) tests
    ∙ ap first (sort-pick_perm (λ n. not (contains n.id (targets fs))) (λ n. n.id) q)

SameReads-of_Reordered :
    (f g : FlowDef)
    → Reordered f g
    → Distinct (ids f.nodes)
    → All (λ x. x ≢ "") (ids f.nodes)
    → All (λ x. x ≢ "") (ids g.nodes)
    → SameReads f g
unfolding node_by_id out_edges select_targets predecessor_items sources_of
SameReads-of_Reordered f g r d k k' = record {
  start =
      find_trigger_lem f k
      ∙ ap₂ or_else (ap first (sort-pick_perm is_trigger (λ n. n.id) r.nodes))
          (least_of-without_incoming_perm r.edges r.nodes)
      ∙ sym (find_trigger_lem g k');
  node = λ id. find_node-perm id r.nodes d;
  out = λ id decision. sort-pick_perm (follows id decision) (λ e. e.target) r.edges;
  items = λ outputs id.
      ap (first_output outputs) (sort-pick_perm (λ e. e.target == id) (λ e. e.source) r.edges);
  fuel = length-perm r.edges;
}

module _ (execute : ℕ → ActivityOptions → NodeExecRequest → ActivityOutcome) (f g : FlowDef)
    (same : SameReads f g) (roles : List String) (params : Fields) where
  abbrev over : FlowDef → FlowInput
  over flow = record { flow = flow; viewer_roles = roles; params = params }

  handle_error-same : (node : NodeDef) → handle_error f node ≡ handle_error g node
  unfolding handle_error
  handle_error-same node = rw (same.out node.id "error")

  settle-same :
      (s : Walk) (node : NodeDef) (out : NodeOutput) (decision : String)
      → settle f s node out decision ≡ settle g s node out decision
  unfolding settle
  settle-same s node out decision = rw (same.out node.id decision)

  after_activity-same :
      (s : Walk) (node : NodeDef) (o : ActivityOutcome)
      → after_activity execute (over f) s node o ≡ after_activity execute (over g) s node o
  unfolding after_activity
  after_activity-same s node (returned res) = ap goes_on (settle-same s node _ res.decision)
  after_activity-same s node (raised message) = elim (Option-cases (handle_error g node)) [
    | inl lost ↦ rw (handle_error-same node, lost, after_activity)
    | inr (decision, kept) ↦
        rw (handle_error-same node, kept, after_activity)
          (ap goes_on (settle-same s node _ decision))
  ]

  visit-same : (s : Walk) (id : String) → visit execute (over f) s id ≡ visit execute (over g) s id
  unfolding visit
  visit-same s id = elim (Option-cases (node_by_id g id)) [
    | inl missing ↦ rw (same.node id, missing, visit)
    | inr (node, found) ↦
        rw (same.node id, found, same.items s.outputs node.id, visit) (after_activity-same s node _)
  ]

  round-same :
      (s : Walk) (id : String) (rest : List String)
      → round execute (over f) s id rest ≡ round execute (over g) s id rest
  unfolding round
  round-same s id rest = rw (visit-same (record s { queue = rest; visited = id ∷ s.visited }) id)

  walk-same : (fuel : ℕ) (s : Walk) → walk execute (over f) fuel s ≡ walk execute (over g) fuel s
  unfolding walk
  walk-same zero s = refl
  walk-same (suc fuel) s = elim (List-cases s.queue) [
    | inl empty ↦ rw (empty, walk)
    | inr (id, rest, q) ↦ elim (Round-cases (round execute (over g) s id rest)) [
      | inl (s', goes) ↦ rw (q, round-same s id rest, goes, walk) (walk-same fuel s')
      | inr (e, halts) ↦ rw (q, round-same s id rest, halts, walk)
    ]
  ]

-- With distinct and non-empty node ids, the order in which the nodes and the edges of a definition
-- are listed does not change the outcome of a run.
pub flow_workflow-Reordered :
    (execute : ℕ → ActivityOptions → NodeExecRequest → ActivityOutcome) (f g : FlowDef)
    (roles : List String) (params : Fields)
    → Reordered f g
    → Distinct (ids f.nodes)
    → All (λ x. x ≢ "") (ids f.nodes)
    → flow_workflow execute (record { flow = f; viewer_roles = roles; params = params })
      ≡ flow_workflow execute (record { flow = g; viewer_roles = roles; params = params })
unfolding flow_workflow
flow_workflow-Reordered execute f g roles params r d k =
    let same = SameReads-of_Reordered f g r d k (
      All-of_contains (λ x. x ≢ "") (ids g.nodes)
        (λ a m.
          All-contains (λ x. x ≢ "") a (ids f.nodes) k
            (contains-map_perm (λ n. n.id) a r.nodes ∙ m))) in
    elim (Option-cases (find_trigger g)) [
      | inl missing ↦ rw (same.start, missing, flow_workflow)
      | inr (id, found) ↦
          rw (same.start, found, flow_workflow)
            (walk-same execute f g same roles params (length f.edges + 2) _
              ∙ ap
                  (λ n.
                    walk execute (record { flow = g; viewer_roles = roles; params = params })
                      (n + 2) (record { queue = id ∷ []; visited = []; path = []; outputs = [] }))
                  same.fuel)
    ]
