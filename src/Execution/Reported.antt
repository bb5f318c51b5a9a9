-- ===== src/Execution/Reported.antt =====
-- From a run of the worker to the store: what `runner.Run` delivers and `onDone` of
-- apps/automate-api/internal/httpapi/handlers_write.go records.
use Prim.Native.Nat.{ℕ}
use Prim.Native.String.{String}
use mathlib.Core.Path.{◌≡◌, refl, ap, ◌∙◌}
use mathlib.Core.Logic.{◌⊎◌, inl, inr}
use mathlib.Core.Option.{Option, none, some}
use mathlib.Core.List.{List, [], ◌∷◌}
use mywork_automate.Prelude.{ℤ, Option-cases}
use mywork_automate.Interpreter.Workflow.{
  ActivityOptions, NodeExecRequest, ActivityOutcome, FlowResult, Outcome, completed, failed,
  out_of_fuel, FlowError, flow_workflow,
}
use mywork_automate.Interpreter.Runs.{flow_workflow_ends}
use mywork_automate.Lifecycle.Handlers.{StoreError}
use mywork_automate.Publish.{FlowSummary}
use mywork_automate.Execution.Steps.{
  RunInput, ExecutionStep, worker_input, zero_result, delivered, steps_from, flow_step, build_steps,
}
use mywork_automate.Execution.Recorded.{step_ids, steps_from-Linked, Outcome-cases}
use mywork_automate.Execution.Loading.{FailureNotice, Backend}
use mywork_automate.Execution.Handlers.{run_status, on_done}
use mywork_automate.Execution.Cancelled as Cancelled
use mywork_automate.Execution.Cancelled.{HasStatus, alert_of-same, on_done-HasStatus}

-- `steps_at` reads the steps of an execution from the store: those that it was finished with, and the
-- log and the alerts change none.
pub record IsReading {W : Type 0} (b : Backend W) (steps_at : String → W → List ExecutionStep)
    : Type 0 where
  pub steps-finished :
      (id status : String) (millis : ℤ) (steps : List ExecutionStep) (w : W)
      → (b.finish_execution id status millis steps w).1 ≡ none
      → steps_at id (b.finish_execution id status millis steps w).0 ≡ steps
  pub steps-info :
      (run flow status : String) (millis : ℤ) (id : String) (w : W)
      → steps_at id (b.info run flow status millis w) ≡ steps_at id w
  pub steps-alert :
      (notice : FailureNotice) (id : String) (w : W)
      → steps_at id (b.run_failed notice w).0 ≡ steps_at id w
  pub steps-warn : (m run id : String) (w : W) → steps_at id (b.warn m run w) ≡ steps_at id w

module _ {W : Type 0} (b : Backend W) (steps_at : String → W → List ExecutionStep)
    (lawful : Cancelled.IsLawful b) (reading : IsReading b steps_at) (to_int : ℕ → ℤ)
    (text : FlowError → String) (id : String) (millis : ℤ) (input : RunInput)
    (flow : FlowSummary) where
  -- What the store holds after a run with that outcome.
  abbrev pub IsReported : Outcome → W → Type 0
  IsReported (completed res) w = HasStatus b id "success" w × (step_ids (steps_at id w) ≡ res.path)
  IsReported (failed e) w =
      HasStatus b id "failed" w × (steps_at id w ≡ flow_step to_int (text e) ∷ [])
  IsReported out_of_fuel w = ⊥

  abbrev pub finished : FlowResult × Option String → W → W × Option StoreError
  finished r w =
      b.finish_execution id (run_status b to_int id millis r.1) millis
        (build_steps to_int input.flow r.0 r.1) w

  abbrev pub after : FlowResult × Option String → W → W
  after r w = on_done b to_int id millis input.flow flow r w

  steps-after :
      (r : FlowResult × Option String) (w : W)
      → (finished r w).1 ≡ none
      → steps_at id (after r w) ≡ build_steps to_int input.flow r.0 r.1
  unfolding on_done
  steps-after r w taken =
      let status = run_status b to_int id millis r.1 in
      let steps = build_steps to_int input.flow r.0 r.1 in
      alert_of-same b (steps_at id) (λ n v. reading.steps-alert n id v)
        (λ m run v. reading.steps-warn m run id v) to_int id millis input.flow flow r.1 _
      ∙ reading.steps-info id flow.id status millis id (finished r w).0
      ∙ reading.steps-finished id status millis steps w taken

  completed-IsReported :
      (res : FlowResult) (w : W)
      → (finished (res, none) w).1 ≡ none
      → IsReported (completed res) (after (res, none) w)
  completed-IsReported res w taken = (
    on_done-HasStatus b to_int id millis input.flow flow (res, none) w lawful taken,
    ap step_ids (steps-after (res, none) w taken)
        ∙ (unfold build_steps in (steps_from-Linked to_int input.flow res [] res.path).0),
  )

  failed-IsReported :
      (e : FlowError) (w : W)
      → (finished (zero_result, some (text e)) w).1 ≡ none
      → IsReported (failed e) (after (zero_result, some (text e)) w)
  failed-IsReported e w taken =
      let r : FlowResult × Option String = (zero_result, some (text e)) in
      (
        on_done-HasStatus b to_int id millis input.flow flow r w lawful taken,
        steps-after r w taken ∙ (unfold build_steps steps_from in refl),
      )

  -- Every run is delivered, and its end is stored, unless the store refuses the report, whose error the
  -- code ignores: a completed run has the status `success` and a step for each executed node in order, a
  -- failed one the status `failed` and the one step `flow` with the error, whatever ran before it.
  pub run-IsReported :
      (execute : ℕ → ActivityOptions → NodeExecRequest → ActivityOutcome) (w : W)
      → (r : FlowResult × Option String) × (delivered text
            (flow_workflow execute (worker_input input))
          ≡ some r)
        × (((e : StoreError) × ((finished r w).1 ≡ some e))
            ⊎ IsReported (flow_workflow execute (worker_input input)) (after r w))
  unfolding delivered
  run-IsReported execute w = elim (Outcome-cases (flow_workflow execute (worker_input input))) [
    | inl (res, done) ↦ (
      (res, none),
      rw done refl,
      elim (Option-cases (finished (res, none) w).1) [
        | inr (e, refused) ↦ inl (e, refused)
        | inl taken ↦ inr (rw done (completed-IsReported res w taken))
      ],
    )
    | inr (inl (e, failure)) ↦
        let r : FlowResult × Option String = (zero_result, some (text e)) in
        (
          r,
          rw failure refl,
          elim (Option-cases (finished r w).1) [
            | inr (x, refused) ↦ inl (x, refused)
            | inl taken ↦ inr (rw failure (failed-IsReported e w taken))
          ],
        )
    | inr (inr stuck) ↦ absurd (flow_workflow_ends execute (worker_input input) stuck)
  ]
