-- ===== src/FlowValidate.antt =====
-- apps/automate-api/internal/flowvalidate/flowvalidate.go: the graph rules of POST /flows/{id}/validate.
pub mod Errors
pub mod Verdict
pub mod Warnings
mod Tests
use Prim.Native.Nat.{ℕ, suc}
use Prim.Native.String.{String}
use mathlib.Core.Bool.{Bool, false, not, ◌||◌}
use mathlib.Core.List.{List, [], ◌∷◌, ◌++◌}
use text.Mathlib.Text.{◌==◌, starts_with}
use mywork_automate.Prelude.{ltb, if◌then◌else◌, contains}
use mywork_automate.Flow.{NodeDef, EdgeDef, FlowDef}

abbrev pub severity_error : String
severity_error = "error"

abbrev pub severity_warning : String
severity_warning = "warning"

abbrev pub trigger_prefix : String
trigger_prefix = "trigger."

pub record Issue : Type 0 where
  pub node_id : String
  pub severity : String
  pub message : String

-- `len(t) >= len(p) && t[:len(p)] == p`
abbrev pub is_trigger : String → Bool
is_trigger node_type = starts_with node_type trigger_prefix

abbrev pub issue_of : String → String → Issue
issue_of id message = record { node_id = id; severity = severity_error; message = message }

-- The variables of the first loop; `known` is the set of the ids seen.
pub record NodePass : Type 0 where
  pub issues : List Issue
  pub known : List String
  pub trigger_count : ℕ

abbrev pub report : Bool → Issue → List Issue → List Issue
report test i issues = if test then issues ++ i ∷ [] else issues

unfoldable pub check_node : NodePass → NodeDef → NodePass
check_node s n = record {
  issues =
      report (n.type == "") (issue_of n.id "node has empty type")
        (report (contains n.id s.known) (issue_of n.id "duplicate node id") s.issues);
  known = n.id ∷ s.known;
  trigger_count = if is_trigger n.type then suc s.trigger_count else s.trigger_count;
}

unfoldable pub check_nodes : NodePass → List NodeDef → NodePass
check_nodes s [] = s
check_nodes s (n ∷ ns) = check_nodes (check_node s n) ns

-- The `switch` on the number of triggers.
unfoldable pub check_triggers : ℕ → List Issue → List Issue
check_triggers count issues =
    if not (ltb 0 count)
    then issues ++ issue_of "" "flow has no trigger node" ∷ []
    else if ltb 1 count
    then issues ++ issue_of "" "flow has more than one trigger node" ∷ []
    else issues

-- The variables of the second loop; `connected` is a set of ids.
pub record EdgePass : Type 0 where
  pub issues : List Issue
  pub connected : List String

unfoldable pub check_end : List String → String → String → EdgePass → EdgePass
check_end known id message s =
    if not (contains id known)
    then record s { issues = s.issues ++ issue_of id message ∷ [] }
    else record s { connected = id ∷ s.connected }

unfoldable pub check_edge : List String → EdgePass → EdgeDef → EdgePass
check_edge known s e =
    check_end known e.target "edge references unknown target node"
      (check_end known e.source "edge references unknown source node" s)

unfoldable pub check_edges : List String → EdgePass → List EdgeDef → EdgePass
check_edges known s [] = s
check_edges known s (e ∷ es) = check_edges known (check_edge known s e) es

abbrev pub floating_warning : NodeDef → Issue
floating_warning n = record {
  node_id = n.id;
  severity = severity_warning;
  message = "node is not connected to any edge";
}

-- The third loop.
unfoldable pub check_floating : List String → List Issue → List NodeDef → List Issue
check_floating connected issues [] = issues
check_floating connected issues (n ∷ ns) =
    check_floating connected
      (report (not (contains n.id connected || is_trigger n.type)) (floating_warning n) issues) ns

abbrev pub first_pass : FlowDef → NodePass
first_pass def = check_nodes (record { issues = []; known = []; trigger_count = 0 }) def.nodes

abbrev pub second_pass : FlowDef → EdgePass
second_pass def =
    let p = first_pass def in
    check_edges p.known
      (record { issues = check_triggers p.trigger_count p.issues; connected = [] }) def.edges

unfoldable pub validate : FlowDef → List Issue
validate def = let q = second_pass def in check_floating q.connected q.issues def.nodes

unfoldable pub has_errors : List Issue → Bool
has_errors [] = false
has_errors (i ∷ is) = (i.severity == severity_error) || has_errors is
