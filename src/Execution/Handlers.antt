-- ===== src/Execution/Handlers.antt =====
-- runFlow and startRun with its onDone of apps/automate-api/internal/httpapi/handlers_write.go, and
-- retryExecution and cancelExecution of handlers_execops.go beside it.
use Prim.Native.Nat.{ℕ}
use Prim.Native.String.{String}
use mathlib.Core.Bool.{Bool}
use mathlib.Core.Option.{Option, none, some}
use mathlib.Core.List.{List, [], ◌∷◌}
use mywork_automate.Prelude.{ℤ, if◌then◌else◌, contains}
use mywork_automate.Prelude.Results.{ok, err}
use mywork_automate.Value.{Fields, end}
use mywork_automate.Flow.{FlowDef}
use mywork_automate.Interpreter.Workflow.{FlowResult}
use mywork_automate.Publish.{FlowSummary}
use mywork_automate.Execution.Steps.{RunInput, build_steps}
use mywork_automate.Execution.Loading.{
  Execution, Entry, Response, Body, Backend, Codec, store_error, failure_recipients, load_runnable,
  accepted, cancelled, envelope, malformed, with_params,
}

abbrev pub manual_run : String → FlowSummary → Entry
manual_run exec_id flow = record {
  action = "execution.manual_run";
  resource_type = "flow";
  resource_id = flow.id;
  execution_id = exec_id;
}

-- `role` is the caller's role, `exec_id` the id that `newExecID` draws, `now` the text of the clock.
module _ {W : Type 0} (b : Backend W) (role exec_id now : String) where
  abbrev pub running : FlowSummary → Execution
  running flow = record {
    id = exec_id;
    flow_id = flow.id;
    flow_name = flow.name;
    status = "running";
    trigger = "manual";
    started_at = now;
    version = flow.version;
  }

  unfoldable pub start_run : FlowDef → FlowSummary → Fields → W → W × Option Response
  start_run def flow params w =
      let created = b.create_execution (running flow) w in
      let input : RunInput = record { flow = def; viewer_roles = role ∷ []; params = params } in
      let started = b.run exec_id input created.0 in
      elim created.1 [
        | some e ↦ (created.0, some (envelope 500 "internal"))
        | none ↦ elim started.1 [
          | some e ↦ (started.0, some (envelope 500 "internal"))
          | none ↦ (started.0, none)
        ]
      ]

  unfoldable pub start_and_record : FlowDef → FlowSummary → Fields → Entry → W → W × Response
  unfolding start_run
  start_and_record def flow params entry w =
      let started = start_run def flow params w in
      elim started.1 [
        | some refused ↦ (started.0, refused)
        | none ↦ (b.record_entry entry started.0, accepted exec_id)
      ]

-- `has_runner` tells whether a runner is configured.
module _ {W : Type 0} (b : Backend W) (codec : Codec) (has_runner : Bool)
    (role exec_id now : String) where
  unfoldable pub run_loaded : String → Fields → W → W × Response
  unfolding start_and_record load_runnable
  run_loaded id params w = elim (load_runnable b codec id w) [
    | err refused ↦ (w, refused)
    | ok (def, flow) ↦
        start_and_record b role exec_id now def flow params (manual_run exec_id flow) w
  ]

  unfoldable pub run_flow : String → Body → W → W × Response
  unfolding run_loaded
  run_flow id malformed w =
      if has_runner then (w, envelope 400 "bad_request") else (w, envelope 503 "runner_unavailable")
  run_flow id (with_params params) w =
      if has_runner then run_loaded id params w else (w, envelope 503 "runner_unavailable")

  unfoldable pub retry_loaded : String → Execution → W → W × Response
  unfolding start_and_record load_runnable
  retry_loaded id src w = elim (load_runnable b codec src.flow_id w) [
    | err refused ↦ (w, refused)
    | ok (def, flow) ↦
        start_and_record b role exec_id now def flow end
          (record {
            action = "execution.retry";
            resource_type = "execution";
            resource_id = id;
            execution_id = exec_id;
          })
          w
  ]

  unfoldable pub retry_execution : String → W → W × Response
  unfolding retry_loaded
  retry_execution id w =
      if has_runner
      then (elim (b.get_execution id w) [
        | err e ↦ (w, store_error e)
        | ok src ↦ retry_loaded id src w
      ])
      else (w, envelope 503 "runner_unavailable")

abbrev pub terminal_statuses : List String
terminal_statuses = "success" ∷ "failed" ∷ "cancelled" ∷ []

module _ {W : Type 0} (b : Backend W) (has_runner : Bool) where
  unfoldable pub cancel_in_flight : String → W → W × Response
  cancel_in_flight id w =
      let asked = b.cancel_run id w in
      let moved = b.set_status id "cancelled" asked.0 in
      elim asked.1 [
        | some e ↦ (asked.0, envelope 500 "internal")
        | none ↦ elim moved.1 [
          | some e ↦ (moved.0, store_error e)
          | none ↦ (
            b.record_entry
                (record {
                  action = "execution.cancel";
                  resource_type = "execution";
                  resource_id = id;
                  execution_id = "";
                })
                moved.0,
            cancelled,
          )
        ]
      ]

  unfoldable pub cancel_execution : String → W → W × Response
  unfolding cancel_in_flight contains
  cancel_execution id w =
      if has_runner
      then (elim (b.get_execution id w) [
        | err e ↦ (w, store_error e)
        | ok exec ↦
            if contains exec.status terminal_statuses
            then (w, envelope 409 "conflict")
            else cancel_in_flight id w
      ])
      else (w, envelope 503 "runner_unavailable")

-- `onDone` of `startRun`, `millis` after the start. `to_int` is `int64(f)` of a float.
module _ {W : Type 0} (b : Backend W) (to_int : ℕ → ℤ) (exec_id : String) (millis : ℤ) where
  abbrev pub or_warn : W × Option String → W
  or_warn (w, none) = w
  or_warn (w, some e) = b.warn "run-failure notify failed" exec_id w

  unfoldable pub alert : FlowSummary → List String → String → W → W
  alert flow [] msg w = w
  alert flow (to ∷ more) msg w = or_warn (
      b.run_failed
        (record {
          flow_name = flow.name;
          execution_id = exec_id;
          error = msg;
          recipients = to ∷ more;
        })
        w)

  abbrev pub run_status : Option String → String
  run_status none = "success"
  run_status (some msg) = "failed"

  unfoldable pub alert_of : FlowDef → FlowSummary → Option String → W → W
  unfolding alert failure_recipients
  alert_of def flow none w = w
  alert_of def flow (some msg) w = alert flow (failure_recipients def.settings) msg w

  unfoldable pub on_done : FlowDef → FlowSummary → FlowResult × Option String → W → W
  unfolding build_steps alert_of
  on_done def flow r w =
      let status = run_status r.1 in
      let finished = b.finish_execution exec_id status millis (build_steps to_int def r.0 r.1) w in
      alert_of def flow r.1 (b.info exec_id flow.id status millis finished.0)
