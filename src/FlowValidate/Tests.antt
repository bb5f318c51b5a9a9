-- ===== src/FlowValidate/Tests.antt =====
-- A flow that is accepted with a warning and one that is refused, and the theorems at them.
use Prim.Native.String.{String}
use mathlib.Core.Path.{◌≡◌, refl}
use mathlib.Core.Logic.{◌↔◌}
use mathlib.Core.Bool.{false}
use mathlib.Core.Option.{none}
use mathlib.Core.List.{[], ◌∷◌}
use mywork_automate.Prelude.{contains}
use mywork_automate.Flow.{NodeDef, EdgeDef, FlowDef}
use mywork_automate.FlowValidate.{
  floating_warning, issue_of, validate, has_errors, check_floating, check_edges, check_edge,
  check_end, check_triggers, check_nodes, check_node,
}
use mywork_automate.FlowValidate.Verdict.{IsRunnable, validate_iff}

passes : Unit {0}
unfolding has_errors validate check_floating check_edges check_edge check_end check_triggers
    check_nodes check_node contains
passes = tt

abbrev node : String → String → NodeDef
node id type = record { id = id; type = type; name = id; config = []; on_error = ""; retry = none }

abbrev edge : String → String → EdgeDef
edge source target = record { source = source; target = target; label = "" }

abbrev lone : NodeDef
lone = node "lone" "deliver.email"

abbrev loose : FlowDef
loose = record {
  nodes = node "start" "trigger.cron" ∷ node "query" "db.query" ∷ lone ∷ [];
  edges = edge "start" "query" ∷ [];
  settings = none;
}

abbrev broken : FlowDef
broken = record {
  nodes = node "query" "db.query" ∷ node "query" "" ∷ [];
  edges = edge "query" "gone" ∷ [];
  settings = none;
}

loose_issues : validate loose ≡ floating_warning lone ∷ []
unfolding passes
loose_issues = refl

broken_issues :
    validate broken
    ≡ issue_of "query" "duplicate node id"
      ∷ issue_of "query" "node has empty type"
      ∷ issue_of "" "flow has no trigger node"
      ∷ issue_of "gone" "edge references unknown target node"
      ∷ []
unfolding passes
broken_issues = refl

validate_iff_example : (has_errors (validate loose) ≡ false) ↔ IsRunnable loose
validate_iff_example = validate_iff loose
