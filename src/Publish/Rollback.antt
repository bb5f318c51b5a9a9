-- ===== src/Publish/Rollback.antt =====
-- The answers of the publish and rollback handlers of apps/automate-api/internal/httpapi, and what
-- they leave in the store.
use Prim.Native.String.{String}
use mathlib.Core.Path.{◌≡◌, refl, ap, ◌∙◌}
use mathlib.Core.Logic.{◌≢◌, ◌↔◌, inl, inr}
use mathlib.Core.Bool.{false}
use mathlib.Core.Option.{Option}
use native.Mathlib.Omega.{arith}
use text.Mathlib.Text.{◌==◌}
use mywork_automate.Prelude.{ℤ, Bool-cases, Option-cases}
use mywork_automate.Prelude.Results.{ok, Result-cases}
use mywork_automate.Flow.{RawMessage, FlowDef}
use mywork_automate.Scheduler.{ScheduleConfig}
use mywork_automate.Lifecycle.Handlers.{StoreError, not_found, other_error}
use mywork_automate.Publish.{
  FlowSummary, flow_ok, Body, malformed, noted, Backend, publish, publish_flow, restore,
  rollback_flow, store_error,
}
use mywork_automate.Publish.History.{IsLawful, publish-Keeps, IsPinned, after_publish-IsPinned}

module _ {W : Type 0} (b : Backend W) (unmarshal : RawMessage → Option ScheduleConfig)
    (role : String) where
  store_error-not_flow : (e : StoreError) (flow : FlowSummary) → store_error e ≢ flow_ok flow
  store_error-not_flow not_found flow h = ground arith
  store_error-not_flow other_error flow h = ground arith

  publish-answer :
      (id note action : String) (w : W) (flow : FlowSummary)
      → ((publish b unmarshal role id note action w).1 ≡ flow_ok flow)
        ↔ ((b.publish_flow id w).1 ≡ ok flow)
  publish-answer id note action w flow = elim (Result-cases (b.publish_flow id w).1) [
    | inr (e, failed) ↦
        unfold publish in
        rw (failed, publish) (λ h. elim (store_error-not_flow e flow h) [ ], λ h. ground arith)
    | inl (f, done) ↦ unfold publish in rw (done, publish) (λ h. cc, λ h. cc)
  ]

  -- Publishing answers with a flow exactly where the body has a change note and the store publishes
  -- that flow: whatever goes wrong afterwards in the audit trail, in the version history or in the
  -- schedule, the answer is the same.
  publish_flow_iff :
      (id : String) (body : Body) (w : W) (flow : FlowSummary)
      → ((publish_flow b unmarshal role id body w).1 ≡ flow_ok flow) ↔ (
          (note : String) × (body ≡ noted note)
          × ((note == "") ≡ false)
          × ((b.publish_flow id w).1 ≡ ok flow))
  unfolding publish_flow
  publish_flow_iff id malformed w flow = (λ h. ground arith, λ (n, h, r, p). ground arith)
  publish_flow_iff id (noted note) w flow = elim (Bool-cases (note == "")) [
    | inl empty ↦ rw empty (λ h. ground arith, λ (n, same, full, p). cc)
    | inr full ↦ rw full (
      λ h. (note, refl, full, (publish-answer id note "flow.publish" w flow).0 h),
      λ (n, same, filled, p). (publish-answer id note "flow.publish" w flow).1 p,
    )
  ]

module _ {W : Type 0} (b : Backend W) (unmarshal : RawMessage → Option ScheduleConfig)
    (role : String) (lawful : IsLawful b) where
  publish-IsPinned :
      (id note action : String) (def : FlowDef) (w : W) (flow : FlowSummary)
      → b.get_definition id w ≡ ok def
      → (publish b unmarshal role id note action w).1 ≡ flow_ok flow
      → let after = (publish b unmarshal role id note action w).0 in
        (flow.id ≡ id)
        × (b.get_definition id after ≡ ok def)
        × IsPinned b unmarshal role lawful flow note action def (b.publish_flow id w).0 after
  publish-IsPinned id note action def w flow found h =
      let done = (publish-answer b unmarshal role id note action w flow).0 h in
      let same = lawful.id-published id w flow done in
      let w' = (b.publish_flow id w).0 in
      (
        same,
        (publish-Keeps b unmarshal role lawful id note action w).0 id ∙ found,
        unfold publish in
            rw (done, publish)
              (after_publish-IsPinned b unmarshal role lawful flow note action w' def
                (ap (λ i. b.get_definition i w') same ∙ lawful.same-publish id w id ∙ found)),
      )

  restore-restores :
      (id note : String) (def : FlowDef) (w : W) (flow : FlowSummary)
      → (restore b unmarshal role id note def w).1 ≡ flow_ok flow
      → let after = (restore b unmarshal role id note def w).0 in
        (flow.id ≡ id)
        × (b.get_definition id after ≡ ok def)
        × IsPinned b unmarshal role lawful flow note "flow.rollback" def
            (b.publish_flow id (b.update_definition id def w).0).0
            after
  restore-restores id note def w flow =
      let w' = (b.update_definition id def w).0 in
      elim (Option-cases (b.update_definition id def w).1) [
        | inr (e, failed) ↦
            unfold restore in
            rw (failed, restore) (λ h. elim (store_error-not_flow b unmarshal role e flow h) [ ])
        | inl done ↦
            unfold restore in
            rw (done, restore)
              (publish-IsPinned id note "flow.rollback" def w' flow
                (lawful.get-updated id def w done))
      ]

  -- A rollback that answers with a flow has made the definition of the version asked for the flow's
  -- own, and this definition is the version row under the number that the flow is published with,
  -- unless creating the row has failed, which is logged only.
  pub rollback_restores :
      (id note : String) (to : ℤ) (w : W) (flow : FlowSummary)
      → (rollback_flow b unmarshal role id to (noted note) w).1 ≡ flow_ok flow
      → let after = (rollback_flow b unmarshal role id to (noted note) w).0 in
        (def : FlowDef) × (b.get_version id to w ≡ ok def)
        × (flow.id ≡ id)
        × (b.get_definition id after ≡ ok def)
        × IsPinned b unmarshal role lawful flow note "flow.rollback" def
            (b.publish_flow id (b.update_definition id def w).0).0
            after
  unfolding rollback_flow
  rollback_restores id note to w flow = elim (Bool-cases (note == "")) [
    | inl empty ↦ rw empty (λ h. absurd (ground arith))
    | inr full ↦ rw full (elim (Result-cases (b.get_version id to w)) [
      | inr (e, missing) ↦
          rw missing (λ h. elim (store_error-not_flow b unmarshal role e flow h) [ ])
      | inl (def, found) ↦ rw found (λ h.
          let (same, now, pinned) = restore-restores id note def w flow h in
          (def, refl, same, now, pinned))
    ])
  ]
