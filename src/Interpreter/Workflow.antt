-- ===== src/Interpreter/Workflow.antt =====
-- apps/automate-worker/internal/interpreter/workflow.go: `FlowWorkflow` over a queue of node ids.
use Prim.Native.Nat.{ℕ, zero, suc, ◌+◌, ◌-◌, ◌%◌}
use Prim.Native.String.{String}
use mathlib.Core.Bool.{not}
use mathlib.Core.Option.{Option, none, some}
use mathlib.Core.List.{List, [], ◌∷◌, ◌++◌}
use text.Mathlib.Text.{◌==◌}
use mywork_automate.Prelude.{
  ℤ, pos, negsuc, pos_part, scaled, ltb, ltb_ℤ, if◌then◌else◌, length, pick, contains, lookup,
  insert, sort,
}
use mywork_automate.Value.{Fields, end, field, str}
use mywork_automate.Flow.{RawMessage, RetryPolicy, NodeDef, EdgeDef}
use mywork_automate.Interpreter.Graph.{
  FlowDef, on_error_continue, on_error_error_branch, error_edge_label, find_trigger, out_edges,
  node_by_id,
}

pub record FlowInput : Type 0 where
  pub flow : FlowDef
  pub viewer_roles : List String
  pub params : Fields

-- A nil slice of items is the empty list.
pub record NodeOutput : Type 0 where
  pub items : List Fields
  pub meta : Fields

pub record FlowResult : Type 0 where
  pub path : List String
  pub outputs : List (String × NodeOutput)

-- The parts of `workflow.ActivityOptions` that depend on the node; times in nanoseconds.
pub record ActivityOptions : Type 0 where
  pub start_to_close : ℕ
  pub initial_interval : ℤ
  pub maximum_interval : ℕ
  pub maximum_attempts : ℤ

pub record NodeExecRequest : Type 0 where
  pub node_id : String
  pub type : String
  pub config : RawMessage
  pub in_items : List Fields
  pub viewer_roles : List String
  pub meta : Fields

pub record NodeExecResult : Type 0 where
  pub items : List Fields
  pub meta : Fields
  pub decision : String

-- What `ExecuteActivity(...).Get` gives: a result, or an error by its text.
pub data ActivityOutcome : Type 0 where
  returned : NodeExecResult → ActivityOutcome
  raised : String → ActivityOutcome

abbrev pub activity_start_to_close : ℕ
activity_start_to_close = 120000000000

abbrev pub default_max_attempts : ℤ
default_max_attempts = pos 5

abbrev pub default_initial_interval : ℤ
default_initial_interval = pos 1000000000

-- `int32(n)` of a positive `int`, as the two's complement value.
abbrev pub to_int32 : ℕ → ℤ
to_int32 n =
    let low = n % 4294967296 in if ltb low 2147483648 then pos low else negsuc (4294967295 - low)

unfoldable pub attempts_for : ℤ → ℤ
attempts_for n = if ltb_ℤ (pos 0) n then to_int32 (pos_part n) else default_max_attempts

unfoldable pub interval_for : ℤ → ℤ
interval_for n = if ltb_ℤ (pos 0) n then scaled n 1000000000 else default_initial_interval

unfoldable pub activity_options_for : Option RetryPolicy → ActivityOptions
activity_options_for none = record {
  start_to_close = activity_start_to_close;
  initial_interval = default_initial_interval;
  maximum_interval = 60000000000;
  maximum_attempts = default_max_attempts;
}
activity_options_for (some retry) = record {
  start_to_close = activity_start_to_close;
  initial_interval = interval_for retry.initial_interval_seconds;
  maximum_interval = 60000000000;
  maximum_attempts = attempts_for retry.max_attempts;
}

-- `predecessorItems`: the sources of the edges into a node, and the first that has an output.
unfoldable pub sources_of : String → List EdgeDef → List String
sources_of id es = pick (λ e. e.target == id) (λ e. e.source) es

unfoldable pub first_output : List (String × NodeOutput) → List String → List Fields
first_output outputs [] = []
first_output outputs (s ∷ ss) = elim (lookup s outputs) [
  | some out ↦ out.items
  | none ↦ first_output outputs ss
]

unfoldable pub predecessor_items : FlowDef → List (String × NodeOutput) → String → List Fields
predecessor_items flow outputs id = first_output outputs (sort (sources_of id flow.edges))

-- The variables of the loop.
pub record Walk : Type 0 where
  pub queue : List String
  pub visited : List String
  pub path : List String
  pub outputs : List (String × NodeOutput)

-- The errors that the workflow returns.
pub data FlowError : Type 0 where
  no_trigger : FlowError
  unknown_node : String → FlowError
  node_failed : NodeDef → String → FlowError

pub data Round : Type 0 where
  goes_on : Walk → Round
  stops : FlowError → Round

pub data Outcome : Type 0 where
  completed : FlowResult → Outcome
  failed : FlowError → Outcome
  out_of_fuel : Outcome

-- `for _, next := range …`: the targets that are not visited join the queue.
unfoldable pub enqueue : List String → List String → List String → List String
enqueue visited queue [] = queue
enqueue visited queue (next ∷ nexts) =
    enqueue visited (if not (contains next visited) then queue ++ next ∷ [] else queue) nexts

-- Record a node with its output, and follow its out-edges.
unfoldable pub settle : FlowDef → Walk → NodeDef → NodeOutput → String → Walk
settle flow s node out decision = record {
  queue = enqueue s.visited s.queue (out_edges flow.edges node.id decision);
  visited = s.visited;
  path = s.path ++ node.id ∷ [];
  outputs = insert node.id out s.outputs;
}

-- The output that is recorded for a node that failed.
abbrev pub failed_output : String → NodeOutput
failed_output message = record { items = []; meta = field "error" (str message) end }

-- The `switch node.OnError`: the decision to go on with, or nothing where the run fails.
unfoldable pub handle_error : FlowDef → NodeDef → Option String
handle_error flow node =
    if node.on_error == on_error_continue
    then some ""
    else if node.on_error == on_error_error_branch
    then elim (out_edges flow.edges node.id error_edge_label) [
      | [] ↦ none
      | _ ∷ _ ↦ some error_edge_label
    ]
    else none

-- The activity is Temporal's and the executors'. `execute i` is the i-th call of the run.
module _ (execute : ℕ → ActivityOptions → NodeExecRequest → ActivityOutcome)
    (input : FlowInput) where
  abbrev pub request : Walk → NodeDef → NodeExecRequest
  request s node = record {
    node_id = node.id;
    type = node.type;
    config = node.config;
    in_items = predecessor_items input.flow s.outputs node.id;
    viewer_roles = input.viewer_roles;
    meta = end;
  }

  unfoldable pub after_activity : Walk → NodeDef → ActivityOutcome → Round
  after_activity s node (returned res) =
      goes_on
        (settle input.flow s node (record { items = res.items; meta = res.meta }) res.decision)
  after_activity s node (raised message) = elim (handle_error input.flow node) [
    | some decision ↦ goes_on (settle input.flow s node (failed_output message) decision)
    | none ↦ stops (node_failed node message)
  ]

  -- A node that is not visited yet; `s` has it visited and off the queue.
  unfoldable pub visit : Walk → String → Round
  visit s id = elim (node_by_id input.flow id) [
    | none ↦ stops (unknown_node id)
    | some node ↦
        after_activity s node
          (execute (length s.path) (activity_options_for node.retry) (request s node))
  ]

  -- One round of the loop, with the head of the queue taken off.
  unfoldable pub round : Walk → String → List String → Round
  round s id rest =
      if contains id s.visited
      then goes_on (record s { queue = rest })
      else visit (record s { queue = rest; visited = id ∷ s.visited }) id

  unfoldable pub walk : ℕ → Walk → Outcome
  walk zero s = out_of_fuel
  walk (suc fuel) s = elim s.queue [
    | [] ↦ completed (record { path = s.path; outputs = s.outputs })
    | id ∷ rest ↦ elim (round s id rest) [ goes_on s' ↦ walk fuel s' | stops e ↦ failed e ]
  ]

  abbrev pub start_at : String → Walk
  start_at id = record { queue = id ∷ []; visited = []; path = []; outputs = [] }

  -- One round for each edge, one for the trigger and one that finds the queue empty.
  abbrev pub enough_fuel : ℕ
  enough_fuel = length input.flow.edges + 2

  unfoldable pub flow_workflow : Outcome
  flow_workflow = elim (find_trigger input.flow) [
    | none ↦ failed no_trigger
    | some id ↦ walk enough_fuel (start_at id)
  ]
