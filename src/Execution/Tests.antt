-- ===== src/Execution/Tests.antt =====
-- A run of two nodes, a store of one row, and the theorems on them.
use Prim.Native.Nat.{ℕ}
use Prim.Native.String.{String}
use mathlib.Core.Path.{◌≡◌, refl}
use mathlib.Core.Logic.{◌⊎◌, inl, inr}
use mathlib.Core.Bool.{true}
use mathlib.Core.Option.{Option, none, some}
use mathlib.Core.List.{List, [], ◌∷◌}
use native.Mathlib.Omega.{arith}
use text.Mathlib.Text.{◌==◌}
use text.Mathlib.TextEquality.{eq_iff}
use mywork_automate.Prelude.{
  Bool-cases, ℤ, pos, if◌then◌else◌, All, contains, lookup, insert, sort, sort_insert, str_leb,
  str_ltb,
}
use mywork_automate.Prelude.TextOrder.{Distinct}
use mywork_automate.Prelude.Results.{Result, ok, err, Result-cases}
use mywork_automate.Value.{str, int, Fields, end, field}
use mywork_automate.Flow.{NodeDef, FlowDef}
use mywork_automate.Interpreter.Graph.{
  best_trigger, better, without_incoming, first, find_trigger, follows, select_targets, out_edges,
  find_node, node_by_id,
}
use mywork_automate.Interpreter.Workflow.{
  FlowResult, ActivityOptions, NodeExecRequest, ActivityOutcome, returned, raised, completed,
  FlowError, sources_of, first_output, predecessor_items, enqueue, settle, handle_error,
  after_activity, visit, round, walk, flow_workflow, activity_options_for, attempts_for,
  interval_for,
}
use mywork_automate.Lifecycle.Handlers.{StoreError, not_found}
use mywork_automate.Publish.{FlowSummary}
use mywork_automate.Execution.Steps.{
  zero_result, RunInput, ExecutionStep, worker_input, delivered, build_steps,
}
use mywork_automate.Execution.Recorded.{step_ids, Linked, IsRecord, completed_run-steps}
use mywork_automate.Execution.Loading.{
  Execution, envelope, with_params, Backend, Codec, load_runnable,
}
use mywork_automate.Execution.Handlers.{
  cancel_in_flight, cancel_execution, on_done, running, run_flow,
}
use mywork_automate.Execution.Cancelled as Cancelled
use mywork_automate.Execution.Cancelled.{HasStatus, cancelled_run-overwritten}
use mywork_automate.Execution.Reported.{IsReading, IsReported, finished, after, run-IsReported}
use mywork_automate.Execution.Started.{IsLawful, refused_run-running}

abbrev node : String → String → NodeDef
node id type = record { id = id; type = type; name = ""; config = []; on_error = ""; retry = none }

abbrev input : RunInput
input = record {
  flow = record {
    nodes = node "start" "trigger.manual" ∷ node "query" "db.query" ∷ [];
    edges = record { source = "start"; target = "query"; label = "" } ∷ [];
    settings = none;
  };
  viewer_roles = "admin" ∷ [];
  params = end;
}

abbrev two_rows : List Fields
two_rows = field "id" (int (pos 1)) end ∷ field "id" (int (pos 2)) end ∷ []

-- The activity gives two rows, and an error beside them for the query.
abbrev answers : ℕ → ActivityOptions → NodeExecRequest → ActivityOutcome
answers i options req = returned (record {
  items = two_rows;
  meta = if req.node_id == "query" then field "error" (str "stale") end else end;
  decision = "";
})

abbrev result : FlowResult
result = record {
  path = "start" ∷ "query" ∷ [];
  outputs =
      ("start", record { items = two_rows; meta = end })
      ∷ ("query", record { items = two_rows; meta = field "error" (str "stale") end })
      ∷ [];
}

input_completes : flow_workflow answers (worker_input input) ≡ completed result
unfolding flow_workflow walk round visit after_activity settle handle_error enqueue out_edges
    select_targets follows node_by_id find_node find_trigger best_trigger better without_incoming
    first sort sort_insert str_leb str_ltb contains lookup insert predecessor_items sources_of
    first_output activity_options_for attempts_for interval_for
input_completes = refl

abbrev no_float : ℕ → ℤ
no_float n = pos 0

abbrev statuses : List ExecutionStep → List String
statuses [] = []
statuses (s ∷ steps) = s.status ∷ statuses steps

query_is_red : statuses (build_steps no_float input.flow result none) ≡ "success" ∷ "failed" ∷ []
unfolding build_steps lookup
query_is_red = refl

completed_run-steps_example :
    (step_ids (build_steps no_float input.flow result none) ≡ result.path)
    × Distinct (step_ids (build_steps no_float input.flow result none))
    × All (IsRecord input.flow result) (build_steps no_float input.flow result none)
    × Linked [] (build_steps no_float input.flow result none)
completed_run-steps_example = completed_run-steps no_float input answers result input_completes

abbrev message : FlowError → String
message e = "failed"

abbrev down : ℕ → ActivityOptions → NodeExecRequest → ActivityOutcome
down i options req = raised "no such host"

abbrev summary : FlowSummary
summary = record {
  id = "f";
  name = "payroll";
  folder = "";
  status = "published";
  updated_at = "";
  version = pos 1;
  deleted_at = none;
}

-- The world is the rows of the store, the last one first; the flow is one with no nodes. The argument
-- is what starting a workflow gives.
find_row : String → List Execution → Result StoreError Execution
find_row id [] = err not_found
find_row id (e ∷ rows) = if e.id == id then ok e else find_row id rows

set_row : String → String → List Execution → List Execution
set_row id status [] = []
set_row id status (e ∷ rows) =
    let rest = set_row id status rows in
    if e.id == id then record e { status = status } ∷ rows else e ∷ rest

move_row : String → String → List Execution → List Execution × Option StoreError
unfolding set_row find_row
move_row id status rows = elim (find_row id rows) [
  | err e ↦ (rows, some e)
  | ok row ↦ (set_row id status rows, none)
]

abbrev toy : Option String → Backend (List Execution)
toy started = record {
  get_definition = λ id w. ok (record { nodes = []; edges = []; settings = none });
  get_flow = λ id w. ok summary;
  get_execution = find_row;
  get_connection = λ id w. err not_found;
  create_execution = λ e w. (e ∷ w, none);
  finish_execution = λ id status millis steps w. move_row id status w;
  run = λ id i w. (w, started);
  cancel_run = λ id w. (w, none);
  set_status = λ id status w. move_row id status w;
  run_failed = λ notice w. (w, none);
  record_entry = λ e w. w;
  info = λ id flow status millis w. w;
  warn = λ m id w. w;
}

find_row-first : (e : Execution) (w : List Execution) → find_row e.id (e ∷ w) ≡ ok e
unfolding find_row
find_row-first e w = ground (arith, eq_iff e.id e.id)

toy-IsLawful : (started : Option String) → IsLawful (toy started)
toy-IsLawful started = record {
  read-created = λ e w h. find_row-first e w;
  same-run = λ id other i w. refl;
}

find_row-set_row :
    (id status : String) (rows : List Execution) (row : Execution)
    → find_row id rows ≡ ok row
    → (found : Execution) × (find_row id (set_row id status rows) ≡ ok found)
      × (found.status ≡ status)
unfolding find_row set_row
find_row-set_row id status [] row = λ h. absurd (ground arith)
find_row-set_row id status (e ∷ rows) row = elim (Bool-cases (e.id == id)) [
  | inl here ↦ rw here (rw here (λ h. (record e { status = status }, refl, refl)))
  | inr beyond ↦ rw beyond (rw beyond (find_row-set_row id status rows row))
]

move_row-HasStatus :
    (started : Option String) (id status : String) (rows : List Execution)
    → (move_row id status rows).1 ≡ none
    → HasStatus (toy started) id status (move_row id status rows).0
unfolding move_row
move_row-HasStatus started id status rows = elim (Result-cases (find_row id rows)) [
  | inr (e, missing) ↦ rw (missing, move_row) (λ h. absurd (ground arith))
  | inl (row, there) ↦ rw (there, move_row) (λ h. find_row-set_row id status rows row there)
]

toy-keeps_rows : (started : Option String) → Cancelled.IsLawful (toy started)
toy-keeps_rows started = record {
  read-set = move_row-HasStatus started;
  read-finished = λ id status millis steps w. move_row-HasStatus started id status w;
  same-entry = λ e id w. refl;
  same-info = λ r f s m id w. refl;
  same-alert = λ n id w. refl;
  same-warn = λ m r id w. refl;
}

abbrev codec : Codec
codec = record { unmarshal = λ raw. none; marshal = λ fs. none }

abbrev empty_flow : FlowDef
empty_flow = record { nodes = []; edges = []; settings = none }

empty_loaded : load_runnable (toy (some "down")) codec "f" [] ≡ ok (empty_flow, summary)
unfolding load_runnable
empty_loaded = refl

refused_run-running_example :
    ((run_flow (toy (some "down")) codec true "admin" "exe_1" "now" "f" (with_params end) []).1
      ≡ envelope 500 "internal")
    × (find_row "exe_1"
          (run_flow (toy (some "down")) codec true "admin" "exe_1" "now" "f" (with_params end) []).0
        ≡ ok (running (toy (some "down")) "admin" "exe_1" "now" summary))
refused_run-running_example =
    refused_run-running (toy (some "down")) codec "admin" "exe_1" "now" "f" end [] empty_flow
      summary "down" (toy-IsLawful (some "down")) empty_loaded refl refl

abbrev in_flight : List Execution
in_flight = running (toy none) "admin" "exe_1" "now" summary ∷ []

cancelled_run-overwritten_example :
    HasStatus (toy none) "exe_1" "cancelled" (cancel_execution (toy none) true "exe_1" in_flight).0
    × HasStatus (toy none) "exe_1" "failed" (
        on_done
          (toy none)
          no_float
          "exe_1"
          (pos 5)
          empty_flow
          summary
          (zero_result, some "canceled")
          (cancel_execution (toy none) true "exe_1" in_flight).0)
cancelled_run-overwritten_example =
    cancelled_run-overwritten (toy none) no_float "exe_1" (pos 5) empty_flow summary
      (zero_result, some "canceled") in_flight (toy-keeps_rows none)
      (unfold cancel_execution cancel_in_flight find_row contains set_row move_row in refl)
      (unfold cancel_execution cancel_in_flight find_row contains set_row move_row in refl)

-- A store of one execution, with its steps.
abbrev single : Backend (Execution × List ExecutionStep)
single = record {
  get_definition = λ id w. err not_found;
  get_flow = λ id w. ok summary;
  get_execution = λ id w. ok w.0;
  get_connection = λ id w. err not_found;
  create_execution = λ e w. ((e, []), none);
  finish_execution = λ id status millis steps w. ((record w.0 { status = status }, steps), none);
  run = λ id i w. (w, none);
  cancel_run = λ id w. (w, none);
  set_status = λ id status w. ((record w.0 { status = status }, w.1), none);
  run_failed = λ notice w. (w, some "no server");
  record_entry = λ e w. w;
  info = λ id flow status millis w. w;
  warn = λ m id w. w;
}

single-keeps_rows : Cancelled.IsLawful single
single-keeps_rows = record {
  read-set = λ id status w h. (record w.0 { status = status }, refl, refl);
  read-finished = λ id status millis steps w h. (record w.0 { status = status }, refl, refl);
  same-entry = λ e id w. refl;
  same-info = λ r f s m id w. refl;
  same-alert = λ n id w. refl;
  same-warn = λ m r id w. refl;
}

abbrev second : String → Execution × List ExecutionStep → List ExecutionStep
second id w = w.1

single-IsReading : IsReading single second
single-IsReading = record {
  steps-finished = λ id status millis steps w h. refl;
  steps-info = λ r f s m id w. refl;
  steps-alert = λ n id w. refl;
  steps-warn = λ m r id w. refl;
}

abbrev begun : Execution × List ExecutionStep
begun = (running single "admin" "exe_1" "now" summary, [])

run-IsReported_example :
    (r : FlowResult × Option String) × (delivered message (flow_workflow down (worker_input input))
      ≡ some r)
    × (((e : StoreError) × ((finished single second single-keeps_rows single-IsReading no_float
              message "exe_1"
              (pos 5)
              input
              summary
              r
              begun).1
            ≡ some e))
        ⊎ IsReported single second single-keeps_rows single-IsReading no_float message "exe_1"
            (pos 5)
            input
            summary
            (flow_workflow down (worker_input input))
            (after single second single-keeps_rows single-IsReading no_float message "exe_1"
              (pos 5)
              input
              summary
              r
              begun))
run-IsReported_example =
    run-IsReported single second single-keeps_rows single-IsReading no_float message "exe_1" (pos 5)
      input summary down begun
