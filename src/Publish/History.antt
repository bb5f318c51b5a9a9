-- ===== src/Publish/History.antt =====
-- What publishing and rolling back do to the definitions and the version history of flows.
use Prim.Native.String.{String}
use mathlib.Core.Path.{◌≡◌, ◌∙◌}
use mathlib.Core.Logic.{◌⊎◌, inl, inr}
use mathlib.Core.Option.{Option, none, some}
use mywork_automate.Prelude.{ℤ, Option-cases}
use mywork_automate.Lifecycle.Handlers.{StoreError}
use mywork_automate.Prelude.Results.{Result, ok, err, Result-cases}
use mywork_automate.Flow.{RawMessage, FlowDef}
use mywork_automate.Scheduler.{Spec, ScheduleConfig, SpecError, spec_from_definition}
use mywork_automate.Publish.{
  FlowSummary, Entry, Backend, or_warn, snapshot_version, sync_compiled, sync_schedule,
  after_publish, publish,
}

-- What a call leaves alone: every definition, and every version row.
abbrev pub SameDefinitions : {W : Type 0} → Backend W → W → W → Type 0
SameDefinitions b w w' = (id : String) → b.get_definition id w' ≡ b.get_definition id w

abbrev pub KeepsVersions : {W : Type 0} → Backend W → W → W → Type 0
KeepsVersions b w w' =
    (id : String) (n : ℤ) (def : FlowDef)
    → b.get_version id n w ≡ ok def
    → b.get_version id n w' ≡ ok def

-- What the store promises: a definition that was updated and a version that was created are read back,
-- no call changes a version row, and only an update changes a definition. A published flow is the one
-- asked for.
pub record IsLawful {W : Type 0} (b : Backend W) : Type 0 where
  pub id-published :
      (id : String) (w : W) (flow : FlowSummary) → (b.publish_flow id w).1 ≡ ok flow → flow.id ≡ id
  pub get-updated :
      (id : String) (def : FlowDef) (w : W)
      → (b.update_definition id def w).1 ≡ none
      → b.get_definition id (b.update_definition id def w).0 ≡ ok def
  pub get-created :
      (id : String) (n : ℤ) (def : FlowDef) (note role : String) (w : W)
      → (b.create_version id n def note role w).1 ≡ none
      → b.get_version id n (b.create_version id n def note role w).0 ≡ ok def
  pub same-publish : (id : String) (w : W) → SameDefinitions b w (b.publish_flow id w).0
  pub same-create :
      (id : String) (n : ℤ) (def : FlowDef) (note role : String) (w : W)
      → SameDefinitions b w (b.create_version id n def note role w).0
  pub same-sync :
      (id : String) (spec : Spec) (def : FlowDef) (role : String) (w : W)
      → SameDefinitions b w (b.sync id spec def role w).0
  pub same-delete : (id : String) (w : W) → SameDefinitions b w (b.delete id w).0
  pub same-record : (e : Entry) (w : W) → SameDefinitions b w (b.record_entry e w)
  pub same-warn : (m id : String) (w : W) → SameDefinitions b w (b.warn m id w)
  pub keeps-publish : (id : String) (w : W) → KeepsVersions b w (b.publish_flow id w).0
  pub keeps-update :
      (id : String) (def : FlowDef) (w : W) → KeepsVersions b w (b.update_definition id def w).0
  pub keeps-create :
      (id : String) (n : ℤ) (def : FlowDef) (note role : String) (w : W)
      → KeepsVersions b w (b.create_version id n def note role w).0
  pub keeps-sync :
      (id : String) (spec : Spec) (def : FlowDef) (role : String) (w : W)
      → KeepsVersions b w (b.sync id spec def role w).0
  pub keeps-delete : (id : String) (w : W) → KeepsVersions b w (b.delete id w).0
  pub keeps-record : (e : Entry) (w : W) → KeepsVersions b w (b.record_entry e w)
  pub keeps-warn : (m id : String) (w : W) → KeepsVersions b w (b.warn m id w)

abbrev pub entry_of : FlowSummary → String → String → Entry
entry_of flow note action = record {
  action = action;
  resource_id = flow.id;
  version = flow.version;
  change_note = note;
}

module _ {W : Type 0} (b : Backend W) (unmarshal : RawMessage → Option ScheduleConfig)
    (role : String) (lawful : IsLawful b) where
  -- Both at once.
  abbrev pub Keeps : W → W → Type 0
  Keeps w w' = SameDefinitions b w w' × KeepsVersions b w w'

  Keeps-then : (w w' w'' : W) → Keeps w w' → Keeps w' w'' → Keeps w w''
  Keeps-then w w' w'' (same, keeps) (same', keeps') =
      (λ id. same' id ∙ same id, λ id n def h. keeps' id n def (keeps id n def h))

  warn-Keeps : (m id : String) (w : W) → Keeps w (b.warn m id w)
  warn-Keeps m id w = (lawful.same-warn m id w, lawful.keeps-warn m id w)

  or_warn-Keeps :
      {E : Type 0} (m id : String) (w : W) (r : W × Option E)
      → Keeps w r.0
      → Keeps w (or_warn b unmarshal role m id r)
  or_warn-Keeps m id w (w', none) h = h
  or_warn-Keeps m id w (w', some e) h = Keeps-then w w' (b.warn m id w') h (warn-Keeps m id w')

  snapshot_version-Keeps :
      (flow : FlowSummary) (note : String) (w : W)
      → Keeps w (snapshot_version b unmarshal role flow note w)
  snapshot_version-Keeps flow note w = elim (Result-cases (b.get_definition flow.id w)) [
    | inr (e, missing) ↦
        unfold snapshot_version in rw (missing, snapshot_version) (warn-Keeps _ flow.id w)
    | inl (def, found) ↦
        unfold snapshot_version in
        rw (found, snapshot_version)
          (or_warn-Keeps _ flow.id w (b.create_version flow.id flow.version def note role w) (
            lawful.same-create flow.id flow.version def note role w,
            lawful.keeps-create flow.id flow.version def note role w,
          ))
  ]

  sync_compiled-Keeps :
      (id : String) (def : FlowDef) (r : Result SpecError (Option Spec)) (w : W)
      → Keeps w (sync_compiled b unmarshal role id def r w)
  unfolding sync_compiled
  sync_compiled-Keeps id def (err e) w = warn-Keeps _ id w
  sync_compiled-Keeps id def (ok none) w =
      or_warn-Keeps _ id w (b.delete id w) (lawful.same-delete id w, lawful.keeps-delete id w)
  sync_compiled-Keeps id def (ok (some spec)) w =
      or_warn-Keeps _ id w (b.sync id spec def role w)
        (lawful.same-sync id spec def role w, lawful.keeps-sync id spec def role w)

  sync_schedule-Keeps : (id : String) (w : W) → Keeps w (sync_schedule b unmarshal role id w)
  sync_schedule-Keeps id w = elim (Result-cases (b.get_definition id w)) [
    | inr (e, missing) ↦ unfold sync_schedule in rw (missing, sync_schedule) (warn-Keeps _ id w)
    | inl (def, found) ↦
        unfold sync_schedule in
        rw (found, sync_schedule)
          (sync_compiled-Keeps id def (spec_from_definition unmarshal def) w)
  ]

  after_publish-Keeps :
      (flow : FlowSummary) (note action : String) (w : W)
      → Keeps w (after_publish b unmarshal role flow note action w)
  unfolding after_publish
  after_publish-Keeps flow note action w =
      let recorded = b.record_entry _ w in
      let pinned = snapshot_version b unmarshal role flow note recorded in
      Keeps-then w recorded (sync_schedule b unmarshal role flow.id pinned)
        (lawful.same-record _ w, lawful.keeps-record _ w)
        (Keeps-then recorded pinned (sync_schedule b unmarshal role flow.id pinned)
          (snapshot_version-Keeps flow note recorded) (sync_schedule-Keeps flow.id pinned))

  pub publish-Keeps :
      (id note action : String) (w : W) → Keeps w (publish b unmarshal role id note action w).0
  publish-Keeps id note action w =
      let w' = (b.publish_flow id w).0 in
      elim (Result-cases (b.publish_flow id w).1) [
        | inr (e, failed) ↦
            unfold publish in
            rw (failed, publish) (lawful.same-publish id w, lawful.keeps-publish id w)
        | inl (flow, done) ↦
            unfold publish in
            rw (done, publish)
              (Keeps-then w w' (after_publish b unmarshal role flow note action w')
                (lawful.same-publish id w, lawful.keeps-publish id w)
                (after_publish-Keeps flow note action w'))
      ]

  -- The version row that follows a publish holds the definition.
  snapshot_version-created :
      (flow : FlowSummary) (note : String) (w : W) (def : FlowDef)
      → b.get_definition flow.id w ≡ ok def
      → (b.create_version flow.id flow.version def note role w).1 ≡ none
      → b.get_version flow.id flow.version (snapshot_version b unmarshal role flow note w) ≡ ok def
  snapshot_version-created flow note w def found created =
      unfold snapshot_version in
      rw (found, snapshot_version)
        (rw created (lawful.get-created flow.id flow.version def note role w created))

  -- The definition is the version row under the flow's number, or creating that row, right after the
  -- audit entry, has failed. `before` is the world in which the store has published the flow.
  abbrev pub IsPinned : FlowSummary → String → String → FlowDef → W → W → Type 0
  IsPinned flow note action def before after =
      (b.get_version flow.id flow.version after ≡ ok def)
      ⊎ ((e : StoreError) × ((b.create_version flow.id flow.version def note role
              (b.record_entry (entry_of flow note action) before)).1
            ≡ some e))

  pub after_publish-IsPinned :
      (flow : FlowSummary) (note action : String) (w : W) (def : FlowDef)
      → b.get_definition flow.id w ≡ ok def
      → IsPinned flow note action def w (after_publish b unmarshal role flow note action w)
  unfolding after_publish
  after_publish-IsPinned flow note action w def found =
      let recorded = b.record_entry (entry_of flow note action) w in
      let pinned = snapshot_version b unmarshal role flow note recorded in
      elim (Option-cases (b.create_version flow.id flow.version def note role recorded).1) [
        | inr (e, failed) ↦ inr (e, failed)
        | inl created ↦ inl (
            (sync_schedule-Keeps flow.id pinned).1 flow.id flow.version def (
              snapshot_version-created flow note recorded def
                (lawful.same-record _ w flow.id ∙ found) created))
      ]
