-- ===== src/Execution/Cancelled.antt =====
-- A cancelled run whose end is then reported: cancelExecution of
-- apps/automate-api/internal/httpapi/handlers_execops.go, and the onDone of handlers_write.go.
use Prim.Native.Nat.{ℕ}
use Prim.Native.String.{String}
use mathlib.Core.Path.{◌≡◌, refl, ◌∙◌}
use mathlib.Core.Logic.{◌≢◌, inl, inr}
use mathlib.Core.Bool.{true}
use mathlib.Core.Option.{Option, none, some}
use mathlib.Core.List.{List, [], ◌∷◌}
use native.Mathlib.Omega.{arith}
use mywork_automate.Prelude.{ℤ, contains, Bool-cases, Option-cases}
use mywork_automate.Prelude.Results.{ok, Result-cases}
use mywork_automate.Flow.{FlowDef}
use mywork_automate.Interpreter.Workflow.{FlowResult}
use mywork_automate.Lifecycle.Handlers.{StoreError, not_found, other_error}
use mywork_automate.Publish.{FlowSummary}
use mywork_automate.Execution.Steps.{ExecutionStep, build_steps}
use mywork_automate.Execution.Loading.{
  Execution, FailureNotice, Entry, cancelled, Backend, store_error, failure_recipients,
}
use mywork_automate.Execution.Handlers.{
  terminal_statuses, cancel_in_flight, cancel_execution, or_warn, alert, run_status, alert_of,
  on_done,
}

-- The row of an execution is there, with a status.
abbrev pub HasStatus : {W : Type 0} → Backend W → String → String → W → Type 0
HasStatus b id status w =
    (row : Execution) × (b.get_execution id w ≡ ok row) × (row.status ≡ status)

-- What the store promises: setting a status and finishing an execution leave the row with the status
-- they were given, and the audit trail, the log and the alerts change no row.
pub record IsLawful {W : Type 0} (b : Backend W) : Type 0 where
  pub read-set :
      (id status : String) (w : W)
      → (b.set_status id status w).1 ≡ none
      → HasStatus b id status (b.set_status id status w).0
  pub read-finished :
      (id status : String) (millis : ℤ) (steps : List ExecutionStep) (w : W)
      → (b.finish_execution id status millis steps w).1 ≡ none
      → HasStatus b id status (b.finish_execution id status millis steps w).0
  pub same-entry :
      (e : Entry) (id : String) (w : W)
      → b.get_execution id (b.record_entry e w) ≡ b.get_execution id w
  pub same-info :
      (run flow status : String) (millis : ℤ) (id : String) (w : W)
      → b.get_execution id (b.info run flow status millis w) ≡ b.get_execution id w
  pub same-alert :
      (notice : FailureNotice) (id : String) (w : W)
      → b.get_execution id (b.run_failed notice w).0 ≡ b.get_execution id w
  pub same-warn :
      (m run id : String) (w : W) → b.get_execution id (b.warn m run w) ≡ b.get_execution id w

module _ {W : Type 0} (b : Backend W) (lawful : IsLawful b) where
  store_error-fails : (e : StoreError) → store_error e ≢ cancelled
  store_error-fails not_found h = ground arith
  store_error-fails other_error h = ground arith

  cancel_in_flight-HasStatus :
      (id : String) (w : W)
      → (cancel_in_flight b true id w).1 ≡ cancelled
      → HasStatus b id "cancelled" (cancel_in_flight b true id w).0
  unfolding cancel_in_flight
  cancel_in_flight-HasStatus id w =
      let asked = (b.cancel_run id w).0 in
      elim (Option-cases (b.cancel_run id w).1) [
        | inr (e, failed) ↦ rw (failed, cancel_in_flight) (λ h. ground arith)
        | inl sent ↦ elim (Option-cases (b.set_status id "cancelled" asked).1) [
          | inr (e, failed) ↦
              rw (sent, cancel_in_flight)
                (rw (failed, cancel_in_flight) (λ h. absurd (store_error-fails e h)))
          | inl moved ↦
              let (row, there, status) = lawful.read-set id "cancelled" asked moved in
              rw (sent, cancel_in_flight)
                (rw (moved, cancel_in_flight)
                  (λ h. (
                    row,
                    lawful.same-entry _ id (b.set_status id "cancelled" asked).0 ∙ there,
                    status,
                  )))
        ]
      ]

  -- A cancel that is answered as such leaves the row with the status `cancelled`.
  cancel_execution-HasStatus :
      (id : String) (w : W)
      → (cancel_execution b true id w).1 ≡ cancelled
      → HasStatus b id "cancelled" (cancel_execution b true id w).0
  unfolding cancel_execution
  cancel_execution-HasStatus id w = elim (Result-cases (b.get_execution id w)) [
    | inr (e, missing) ↦ rw (missing, cancel_execution) (λ h. absurd (store_error-fails e h))
    | inl (exec, there) ↦ elim (Bool-cases (contains exec.status terminal_statuses)) [
      | inl over ↦ rw (there, cancel_execution) (rw (over, cancel_execution) (λ h. ground arith))
      | inr going ↦
          rw (there, cancel_execution)
            (rw (going, cancel_execution) (cancel_in_flight-HasStatus id w))
    ]
  ]

-- What alerts and the log do not change: `read` is any view of the world.
module _ {W X : Type 0} (b : Backend W) (read : W → X)
    (unalerted : (notice : FailureNotice) (w : W) → read (b.run_failed notice w).0 ≡ read w)
    (unwarned : (m run : String) (w : W) → read (b.warn m run w) ≡ read w) (to_int : ℕ → ℤ)
    (run : String) (millis : ℤ) where
  or_warn-same : (r : W × Option String) → read (or_warn b to_int run millis r) ≡ read r.0
  or_warn-same (w, none) = refl
  or_warn-same (w, some e) = unwarned _ run w

  alert-same :
      (flow : FlowSummary) (to : List String) (msg : String) (w : W)
      → read (alert b to_int run millis flow to msg w) ≡ read w
  unfolding alert
  alert-same flow [] msg w = refl
  alert-same flow (t ∷ more) msg w = or_warn-same (b.run_failed _ w) ∙ unalerted _ w

  pub alert_of-same :
      (def : FlowDef) (flow : FlowSummary) (e : Option String) (w : W)
      → read (alert_of b to_int run millis def flow e w) ≡ read w
  unfolding alert_of
  alert_of-same def flow none w = refl
  alert_of-same def flow (some msg) w = alert-same flow (failure_recipients def.settings) msg w

-- Finishing that the store takes leaves the status in the row, through the log and the alerts.
pub on_done-HasStatus :
    {W : Type 0} (b : Backend W) (to_int : ℕ → ℤ) (id : String) (millis : ℤ) (def : FlowDef)
    (flow : FlowSummary) (r : FlowResult × Option String) (w : W)
    → IsLawful b
    → (b.finish_execution id
        (run_status b to_int id millis r.1)
        millis
        (build_steps to_int def r.0 r.1)
        w).1
      ≡ none
    → HasStatus b id (run_status b to_int id millis r.1) (on_done b to_int id millis def flow r w)
unfolding on_done
on_done-HasStatus b to_int id millis def flow r w lawful taken =
    let status = run_status b to_int id millis r.1 in
    let steps = build_steps to_int def r.0 r.1 in
    let (row, there, same) = lawful.read-finished id status millis steps w taken in
    (
      row,
      alert_of-same b (b.get_execution id) (λ n v. lawful.same-alert n id v)
            (λ m run v. lawful.same-warn m run id v) to_int id millis def flow r.1 _
          ∙ lawful.same-info id flow.id status millis id
              (b.finish_execution id status millis steps w).0
          ∙ there,
      same,
    )

-- Where a run was cancelled and its row says so, the end of the run that is reported later overwrites
-- the status by `success` or `failed`, as far as the store takes the report, whatever the alerts do.
pub cancelled_run-overwritten :
    {W : Type 0} (b : Backend W) (to_int : ℕ → ℤ) (id : String) (millis : ℤ) (def : FlowDef)
    (flow : FlowSummary) (r : FlowResult × Option String) (w : W)
    → IsLawful b
    → (cancel_execution b true id w).1 ≡ cancelled
    → (b.finish_execution id
        (run_status b to_int id millis r.1)
        millis
        (build_steps to_int def r.0 r.1)
        (cancel_execution b true id w).0).1
      ≡ none
    → HasStatus b id "cancelled" (cancel_execution b true id w).0
      × HasStatus b id
          (run_status b to_int id millis r.1)
          (on_done b to_int id millis def flow r (cancel_execution b true id w).0)
cancelled_run-overwritten b to_int id millis def flow r w lawful answered taken =
    let w' = (cancel_execution b true id w).0 in
    (
      cancel_execution-HasStatus b lawful id w answered,
      on_done-HasStatus b to_int id millis def flow r w' lawful taken,
    )
