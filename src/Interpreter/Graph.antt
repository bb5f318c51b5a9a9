-- ===== src/Interpreter/Graph.antt =====
-- apps/automate-worker/internal/interpreter/graph.go: the deterministic graph helpers.
use Prim.Native.String.{String}
use mathlib.Core.Bool.{Bool, not, ◌&&◌, ◌||◌}
use mathlib.Core.Option.{Option, none, some}
use mathlib.Core.List.{List, [], ◌∷◌, map}
use text.Mathlib.Text.{◌==◌, starts_with}
use mywork_automate.Prelude.{if◌then◌else◌, pick, contains, str_ltb, sort}
use mywork_automate.Flow
use mywork_automate.Flow.{NodeDef, EdgeDef}

-- The interpreter's own definition has no settings.
pub record FlowDef : Type 0 where
  pub nodes : List NodeDef
  pub edges : List EdgeDef

-- What Temporal's JSON makes of a stored definition: the interpreter's fields alone.
abbrev pub of_spec : Flow.FlowDef → FlowDef
of_spec def = record { nodes = def.nodes; edges = def.edges }

abbrev pub trigger_prefix : String
trigger_prefix = "trigger."

abbrev pub on_error_continue : String
on_error_continue = "continue"

abbrev pub on_error_error_branch : String
on_error_error_branch = "errorBranch"

abbrev pub error_edge_label : String
error_edge_label = "error"

abbrev pub is_trigger : NodeDef → Bool
is_trigger n = starts_with n.type trigger_prefix

-- The first loop of `findTrigger`: one round, and the loop over the nodes.
unfoldable pub better : String → String → String
better best id = if best == "" || str_ltb id best then id else best

unfoldable pub best_trigger : String → List NodeDef → String
best_trigger best [] = best
best_trigger best (n ∷ ns) = best_trigger (if is_trigger n then better best n.id else best) ns

-- `hasIncoming`, as the set of the targets.
abbrev pub targets : List EdgeDef → List String
targets es = map (λ e. e.target) es

-- The second loop: the nodes with no incoming edge.
unfoldable pub without_incoming : List EdgeDef → List NodeDef → List String
without_incoming es ns = pick (λ n. not (contains n.id (targets es))) (λ n. n.id) ns

-- `ids[0]`, where there is one.
unfoldable pub first : List String → Option String
first [] = none
first (id ∷ _) = some id

-- `findTrigger`; `none` is `errNoTrigger`.
unfoldable pub find_trigger : FlowDef → Option String
find_trigger flow =
    let best = best_trigger "" flow.nodes in
    if not (best == "") then some best else first (sort (without_incoming flow.edges flow.nodes))

-- The test of the loop of `outEdges`: an empty decision follows the unlabelled edges.
unfoldable pub follows : String → String → EdgeDef → Bool
follows id decision e =
    e.source == id && (if decision == "" then e.label == "" else e.label == decision)

unfoldable pub select_targets : String → String → List EdgeDef → List String
select_targets id decision es = pick (follows id decision) (λ e. e.target) es

unfoldable pub out_edges : List EdgeDef → String → String → List String
out_edges es id decision = sort (select_targets id decision es)

unfoldable pub find_node : String → List NodeDef → Option NodeDef
find_node id [] = none
find_node id (n ∷ ns) = if n.id == id then some n else find_node id ns

unfoldable pub node_by_id : FlowDef → String → Option NodeDef
unfolding find_node
node_by_id flow id = find_node id flow.nodes
