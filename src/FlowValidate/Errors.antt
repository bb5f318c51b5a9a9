-- ===== src/FlowValidate/Errors.antt =====
-- The errors that the loops of apps/automate-api/internal/flowvalidate/flowvalidate.go report.
use Prim.Native.Nat.{ℕ, ◌+◌}
use Prim.Native.String.{String}
use mathlib.Core.Path.{◌≡◌, refl, ◌∙◌}
use mathlib.Core.Bool.{Bool, true, false, not, ◌&&◌, ◌||◌}
use mathlib.Core.List.{List, [], ◌∷◌, ◌++◌, map}
use native.Mathlib.Omega.{arith}
use text.Mathlib.Text.{◌==◌}
use mywork_automate.Prelude.{ltb, count_if, contains}
use mywork_automate.Flow.{NodeDef, EdgeDef, FlowDef}
use mywork_automate.FlowValidate.{
  Issue, is_trigger, issue_of, report, NodePass, check_node, check_nodes, check_triggers, EdgePass,
  check_end, check_edge, check_edges, floating_warning, check_floating, first_pass, second_pass,
  validate, has_errors, severity_error,
}

abbrev pub ids : List NodeDef → List String
ids ns = map (λ n. n.id) ns

abbrev pub triggers : List NodeDef → ℕ
triggers ns = count_if (λ (n : NodeDef). is_trigger n.type) ns

pub has_errors-append :
    (is js : List Issue) → has_errors (is ++ js) ≡ (has_errors is || has_errors js)
unfolding has_errors
has_errors-append [] js = refl
has_errors-append (i ∷ is) js = ground (arith, has_errors-append is js)

pub has_errors-report :
    (test : Bool) (i : Issue) (is : List Issue)
    → has_errors (report test i is) ≡ (has_errors is || (test && (i.severity == severity_error)))
unfolding has_errors
has_errors-report true i is = ground (arith, has_errors-append is (i ∷ []))
has_errors-report false i is = ground arith

-- The errors of the first loop.
unfoldable pub bad_nodes : List String → List NodeDef → Bool
bad_nodes known [] = false
bad_nodes known (n ∷ ns) = contains n.id known || n.type == "" || bad_nodes (n.id ∷ known) ns

errors-check_node :
    (s : NodePass) (n : NodeDef)
    → has_errors (check_node s n).issues
      ≡ (has_errors s.issues || (contains n.id s.known || n.type == ""))
unfolding check_node
errors-check_node s n = ground (
  arith,
  has_errors-report (n.type == "") (issue_of n.id "node has empty type")
      (report (contains n.id s.known) (issue_of n.id "duplicate node id") s.issues),
  has_errors-report (contains n.id s.known) (issue_of n.id "duplicate node id") s.issues,
)

known-check_node : (s : NodePass) (n : NodeDef) → (check_node s n).known ≡ n.id ∷ s.known
unfolding check_node
known-check_node s n = refl

errors-check_nodes :
    (s : NodePass) (ns : List NodeDef)
    → has_errors (check_nodes s ns).issues ≡ (has_errors s.issues || bad_nodes s.known ns)
unfolding check_nodes bad_nodes
errors-check_nodes s [] = ground arith
errors-check_nodes s (n ∷ ns) =
    let rest = errors-check_nodes (check_node s n) ns in
    rest ∙ rw (errors-check_node s n, known-check_node s n) (ground arith)

pub known-check_nodes :
    (s : NodePass) (ns : List NodeDef) (x : String)
    → contains x (check_nodes s ns).known ≡ (contains x s.known || contains x (ids ns))
unfolding check_nodes check_node contains
known-check_nodes s [] x = ground arith
known-check_nodes s (n ∷ ns) x = known-check_nodes (check_node s n) ns x ∙ ground arith

count-check_nodes :
    (s : NodePass) (ns : List NodeDef)
    → (check_nodes s ns).trigger_count ≡ s.trigger_count + triggers ns
unfolding check_nodes check_node
count-check_nodes s [] = omega arith
count-check_nodes s (n ∷ ns) = ground (arith, count-check_nodes (check_node s n) ns)

errors-check_triggers :
    (count : ℕ) (is : List Issue)
    → has_errors (check_triggers count is) ≡ (has_errors is || not (ltb 0 count) || ltb 1 count)
unfolding check_triggers has_errors
errors-check_triggers count is = ground (
  arith,
  has_errors-append is (issue_of "" "flow has no trigger node" ∷ []),
  has_errors-append is (issue_of "" "flow has more than one trigger node" ∷ []),
)

-- The errors of the second loop.
unfoldable pub bad_edges : List String → List EdgeDef → Bool
bad_edges known [] = false
bad_edges known (e ∷ es) =
    not (contains e.source known) || not (contains e.target known) || bad_edges known es

errors-check_end :
    (known : List String) (id message : String) (s : EdgePass)
    → has_errors (check_end known id message s).issues
      ≡ (has_errors s.issues || not (contains id known))
unfolding check_end has_errors
errors-check_end known id message s =
    ground (arith, has_errors-append s.issues (issue_of id message ∷ []))

errors-check_edge :
    (known : List String) (s : EdgePass) (e : EdgeDef)
    → has_errors (check_edge known s e).issues
      ≡ (has_errors s.issues || (not (contains e.source known) || not (contains e.target known)))
unfolding check_edge
errors-check_edge known s e = ground (
  arith,
  errors-check_end known e.target "edge references unknown target node"
      (check_end known e.source "edge references unknown source node" s),
  errors-check_end known e.source "edge references unknown source node" s,
)

errors-check_edges :
    (known : List String) (s : EdgePass) (es : List EdgeDef)
    → has_errors (check_edges known s es).issues ≡ (has_errors s.issues || bad_edges known es)
unfolding check_edges bad_edges
errors-check_edges known s [] = ground arith
errors-check_edges known s (e ∷ es) =
    errors-check_edges known (check_edge known s e) es
    ∙ rw (errors-check_edge known s e) (ground arith)

errors-check_floating :
    (connected : List String) (is : List Issue) (ns : List NodeDef)
    → has_errors (check_floating connected is ns) ≡ has_errors is
unfolding check_floating
errors-check_floating connected is [] = refl
errors-check_floating connected is (n ∷ ns) =
    let floats = not (contains n.id connected || is_trigger n.type) in
    errors-check_floating connected (report floats (floating_warning n) is) ns
    ∙ has_errors-report floats (floating_warning n) is
    ∙ ground arith

-- All the errors that the validator can report.
pub has_errors-validate :
    (def : FlowDef)
    → has_errors (validate def) ≡ (
        bad_nodes [] def.nodes
        || not (ltb 0 (triggers def.nodes))
        || ltb 1 (triggers def.nodes)
        || bad_edges (first_pass def).known def.edges)
unfolding validate has_errors
has_errors-validate def =
    let p = first_pass def in
    let start : EdgePass = record {
      issues = check_triggers p.trigger_count p.issues;
      connected = [];
    } in
    let empty : NodePass = record { issues = []; known = []; trigger_count = 0 } in
    ground (
      arith,
      errors-check_floating (second_pass def).connected (second_pass def).issues def.nodes,
      errors-check_edges p.known start def.edges,
      errors-check_triggers p.trigger_count p.issues,
      errors-check_nodes empty def.nodes,
      count-check_nodes empty def.nodes,
    )
