-- ===== src/Interpreter/Tests.antt =====
-- Sample flows for the interpreter, runs of it, and the theorems at these inputs.
use Prim.Native.Nat.{ℕ}
use Prim.Native.String.{String}
use mathlib.Core.Path.{◌≡◌, refl}
use mathlib.Core.Logic.{◌≢◌, ◌↔◌}
use mathlib.Core.Bool.{true, false}
use mathlib.Core.Option.{none, some}
use mathlib.Core.List.{List, [], ◌∷◌, Permᴰ}
use text.Mathlib.Text.{◌==◌}
use mywork_automate.Prelude.{
  pos, negsuc, if◌then◌else◌, All, contains, lookup, insert, sort, sort_insert, str_leb, str_ltb,
}
use mywork_automate.Prelude.TextOrder.{Distinct, All-of_contains}
use mywork_automate.Value.{end}
use mywork_automate.Flow
use mywork_automate.Flow.{RetryPolicy, NodeDef, EdgeDef}
use mywork_automate.Interpreter.Graph.{
  FlowDef, best_trigger, better, without_incoming, first, find_trigger, follows, select_targets,
  out_edges, find_node, node_by_id,
}
use mywork_automate.Interpreter.Workflow.{
  FlowInput, FlowResult, NodeOutput, ActivityOptions, NodeExecRequest, ActivityOutcome, returned,
  raised, node_failed, completed, failed, out_of_fuel, FlowError, sources_of, first_output,
  predecessor_items, enqueue, settle, handle_error, after_activity, visit, round, walk,
  flow_workflow, activity_options_for, attempts_for, interval_for,
}
use mywork_automate.FlowValidate.{
  validate, has_errors, check_floating, check_edges, check_edge, check_end, check_triggers,
  check_nodes, check_node,
}
use mywork_automate.Interpreter.Options.{activity_options_for_lem}
use mywork_automate.Interpreter.Runs.{flow_workflow_ends}
use mywork_automate.Interpreter.Trigger.{ids}
use mywork_automate.Interpreter.Start.{IsStart, find_trigger_iff}
use mywork_automate.Interpreter.Paths.{has_output, flow_workflow-path}
use mywork_automate.Interpreter.Led.{LedTo}
use mywork_automate.Interpreter.Reached.{IsDecision, flow_workflow-reached}
use mywork_automate.Interpreter.Failures.{IsNodeFailure, flow_workflow-failure}
use mywork_automate.Interpreter.OrderFree.{Reordered, flow_workflow-Reordered}

interpreter : Unit {0}
unfolding flow_workflow walk round visit after_activity settle handle_error enqueue out_edges
    select_targets follows node_by_id find_node find_trigger best_trigger better without_incoming
    first sort sort_insert str_leb str_ltb contains lookup insert predecessor_items sources_of
    first_output activity_options_for attempts_for interval_for
interpreter = tt

abbrev node : String → String → String → NodeDef
node id type on_error = record {
  id = id;
  type = type;
  name = id;
  config = [];
  on_error = on_error;
  retry = none;
}

abbrev edge : String → String → String → EdgeDef
edge source target label = record { source = source; target = target; label = label }

-- A trigger, a query that may fail, a decision with two branches, and a cycle back to the query.
abbrev sample : FlowDef
sample = record {
  nodes =
      node "start" "trigger.manual" ""
      ∷ node "query" "db.query" "errorBranch"
      ∷ node "check" "logic.if" ""
      ∷ node "mail" "deliver.email" ""
      ∷ node "drop" "deliver.none" ""
      ∷ node "alert" "deliver.email" ""
      ∷ [];
  edges =
      edge "start" "query" ""
      ∷ edge "query" "check" ""
      ∷ edge "query" "alert" "error"
      ∷ edge "check" "mail" "true"
      ∷ edge "check" "drop" "false"
      ∷ edge "mail" "query" ""
      ∷ [];
}

-- The decision of each node.
abbrev decided : String → String
decided id = if id == "check" then "true" else ""

abbrev answers : ℕ → ActivityOptions → NodeExecRequest → ActivityOutcome
answers i options req = returned (record { items = []; meta = end; decision = decided req.node_id })

-- The query fails, and its error edge is followed.
abbrev query_fails : ℕ → ActivityOptions → NodeExecRequest → ActivityOutcome
query_fails i options req =
    if req.node_id == "query" then raised "timeout" else answers i options req

abbrev sample_input : FlowInput
sample_input = record { flow = sample; viewer_roles = []; params = end }

abbrev output : NodeOutput
output = record { items = []; meta = end }

abbrev sample_result : FlowResult
sample_result = record {
  path = "start" ∷ "query" ∷ "check" ∷ "mail" ∷ [];
  outputs = ("start", output) ∷ ("query", output) ∷ ("check", output) ∷ ("mail", output) ∷ [];
}

sample_completes : flow_workflow answers sample_input ≡ completed sample_result
unfolding interpreter
sample_completes = refl

sample_starts : find_trigger sample ≡ some "start"
unfolding interpreter
sample_starts = refl

flow_workflow_ends_example : flow_workflow query_fails sample_input ≢ out_of_fuel
flow_workflow_ends_example = flow_workflow_ends query_fails sample_input

flow_workflow-path_example :
    Distinct sample_result.path
    × All (λ x. (n : NodeDef) × (node_by_id sample x ≡ some n)) sample_result.path
    × ((x : String) → has_output x sample_result.outputs ≡ contains x sample_result.path)
flow_workflow-path_example = flow_workflow-path answers sample_input sample_result sample_completes

flow_workflow-reached_example :
    (log : List (String × String)) × ((x : String)
      → (lookup x log ≡ none) ↔ (contains x sample_result.path ≡ false))
    × ((x d : String) → lookup x log ≡ some d → IsDecision answers sample_input "start" x d)
    × ((x : String) → (contains x sample_result.path ≡ true) ↔ LedTo sample log "start" x)
flow_workflow-reached_example =
    flow_workflow-reached answers sample_input "start" sample_result sample_starts sample_completes

All-named : (xs : List String) → contains "" xs ≡ false → All (λ x. x ≢ "") xs
All-named xs h =
    All-of_contains (λ x. x ≢ "") xs
      (λ a m e. let found : contains "" xs ≡ true = rw e at m in absurd (cc))

sample_named : All (λ x. x ≢ "") (ids sample.nodes)
unfolding contains
sample_named = All-named (ids sample.nodes) refl

find_trigger_iff_example : (find_trigger sample ≡ some "start") ↔ IsStart sample "start"
find_trigger_iff_example = find_trigger_iff sample sample_named "start"

-- The sample with its first two nodes and its first two edges exchanged.
abbrev exchange : {A : Type 0} → List A → List A
exchange (x ∷ y ∷ l) = y ∷ x ∷ l
exchange l = l

abbrev turned : FlowDef
turned = record { nodes = exchange sample.nodes; edges = exchange sample.edges }

sample-turned : Reordered sample turned
sample-turned = record { nodes = Permᴰ.swap refl refl; edges = Permᴰ.swap refl refl }

sample-Distinct : Distinct (ids sample.nodes)
unfolding contains
sample-Distinct = (refl, (refl, (refl, (refl, (refl, (refl, tt))))))

flow_workflow-Reordered_example :
    flow_workflow query_fails (record { flow = sample; viewer_roles = []; params = end })
    ≡ flow_workflow query_fails (record { flow = turned; viewer_roles = []; params = end })
flow_workflow-Reordered_example =
    flow_workflow-Reordered query_fails sample turned [] end sample-turned sample-Distinct
      sample_named

-- The sample as it is stored, with a mail node that fails and says nothing about errors.
abbrev stored : Flow.FlowDef
stored = record { nodes = sample.nodes; edges = sample.edges; settings = none }

abbrev mail_fails : ℕ → ActivityOptions → NodeExecRequest → ActivityOutcome
mail_fails i options req =
    if req.node_id == "mail" then raised "no such host" else answers i options req

stored_accepted : has_errors (validate stored) ≡ false
unfolding has_errors validate check_floating check_edges check_edge check_end check_triggers
    check_nodes check_node contains
stored_accepted = refl

abbrev mail_failure : FlowError
mail_failure = node_failed (node "mail" "deliver.email" "") "no such host"

sample_fails : flow_workflow mail_fails sample_input ≡ failed mail_failure
unfolding interpreter
sample_fails = refl

flow_workflow-failure_example : IsNodeFailure mail_fails sample_input mail_failure
flow_workflow-failure_example =
    flow_workflow-failure mail_fails sample_input stored mail_failure refl stored_accepted
      sample_named sample_fails

abbrev thrice : RetryPolicy
thrice = record { max_attempts = pos 3; initial_interval_seconds = negsuc 0 }

activity_options_for_lem_example : activity_options_for (some thrice) ≡ record {
  start_to_close = 120000000000;
  initial_interval = pos 1000000000;
  maximum_interval = 60000000000;
  maximum_attempts = pos 3;
}
activity_options_for_lem_example = activity_options_for_lem thrice refl refl

-- Attempts that do not fit an int32 wrap: 2^32 of them are none, which Temporal takes for no limit.
wrapped_attempts : attempts_for (pos 4294967296) ≡ pos 0
unfolding attempts_for
wrapped_attempts = refl
