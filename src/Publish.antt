-- ===== src/Publish.antt =====
-- Publishing a flow and rolling it back: publishFlow and its helpers of
-- apps/automate-api/internal/httpapi/handlers_write.go, and listVersions and rollbackFlow of
-- handlers_lifecycle.go beside it, over a store, a scheduler, an audit trail and a log.
pub mod History
pub mod Rollback
mod Tests
use Prim.Native.Nat.{ℕ}
use Prim.Native.String.{String}
use mathlib.Core.Path.{◌≡◌}
use mathlib.Core.Bool.{Bool, true, false}
use mathlib.Core.Option.{Option, none, some}
use mathlib.Core.List.{List, [], ◌∷◌}
use text.Mathlib.Text.{◌==◌}
use mywork_automate.Prelude.{ℤ, pos, if◌then◌else◌}
use mywork_automate.Prelude.Results.{Result, ok, err}
use mywork_automate.Flow.{RawMessage, FlowDef}
use mywork_automate.Scheduler.{Spec, ScheduleConfig, SpecError, spec_from_definition}
use mywork_automate.Lifecycle.Handlers.{StoreError, not_found, other_error}

-- A row of the store, less the summary of the last run.
pub record FlowSummary : Type 0 where
  pub id : String
  pub name : String
  pub folder : String
  pub status : String
  pub updated_at : String
  pub version : ℤ
  pub deleted_at : Option String

pub record Version : Type 0 where
  pub version_no : ℤ
  pub change_note : String
  pub published_by : String
  pub published_at : String

-- An audit entry about a flow; the version and the note are its detail.
pub record Entry : Type 0 where
  pub action : String
  pub resource_id : String
  pub version : ℤ
  pub change_note : String

-- An answer: the flow, the versions, that a draft was saved, or an error envelope by its code and its kind.
pub data Response : Type 0 where
  flow_ok : FlowSummary → Response
  versions_ok : List Version → Response
  saved : Response
  envelope : ℕ → String → Response

-- A body that is no JSON of its type, or its change note, empty where it or the body is absent.
pub data Body : Type 0 where
  malformed : Body
  noted : String → Body

-- The collaborators over the world `W`. `warn` writes a line to the log, for a flow. A call that fails
-- may leave the world as it pleases. `sync` is told the definition and the role that it runs for.
pub record Backend (W : Type 0) : Type 0 where
  pub publish_flow : String → W → W × Result StoreError FlowSummary
  pub get_definition : String → W → Result StoreError FlowDef
  pub update_definition : String → FlowDef → W → W × Option StoreError
  pub create_version : String → ℤ → FlowDef → String → String → W → W × Option StoreError
  pub get_version : String → ℤ → W → Result StoreError FlowDef
  pub list_versions : String → W → Result StoreError (List Version)
  pub sync : String → Spec → FlowDef → String → W → W × Option String
  pub delete : String → W → W × Option String
  pub record_entry : Entry → W → W
  pub warn : String → String → W → W

abbrev pub store_error : StoreError → Response
store_error not_found = envelope 404 "not_found"
store_error other_error = envelope 500 "internal"

abbrev pub bad_request : Response
bad_request = envelope 400 "bad_request"

-- `role` is the caller's role, and `unmarshal` the decoder of schedule configs.
module _ {W : Type 0} (b : Backend W) (unmarshal : RawMessage → Option ScheduleConfig)
    (role : String) where
  -- A call whose error is logged and swallowed.
  abbrev pub or_warn : {E : Type 0} → String → String → W × Option E → W
  or_warn message id (w, none) = w
  or_warn message id (w, some e) = b.warn message id w

  unfoldable pub snapshot_version : FlowSummary → String → W → W
  snapshot_version flow note w = elim (b.get_definition flow.id w) [
    | err e ↦ b.warn "publish: load definition for version snapshot failed" flow.id w
    | ok def ↦
        or_warn "publish: snapshot version failed" flow.id
          (b.create_version flow.id flow.version def note role w)
  ]

  unfoldable pub sync_compiled : String → FlowDef → Result SpecError (Option Spec) → W → W
  sync_compiled id def (err e) w = b.warn "publish: compile schedule spec failed" id w
  sync_compiled id def (ok none) w = or_warn "publish: delete schedule failed" id (b.delete id w)
  sync_compiled id def (ok (some spec)) w =
      or_warn "publish: sync schedule failed" id (b.sync id spec def role w)

  unfoldable pub sync_schedule : String → W → W
  unfolding sync_compiled
  sync_schedule id w = elim (b.get_definition id w) [
    | err e ↦ b.warn "publish: load definition for schedule sync failed" id w
    | ok def ↦ sync_compiled id def (spec_from_definition unmarshal def) w
  ]

  -- What follows a publish that the store has committed.
  unfoldable pub after_publish : FlowSummary → String → String → W → W
  unfolding snapshot_version sync_schedule
  after_publish flow note action w =
      let recorded =
        b.record_entry
          (record {
            action = action;
            resource_id = flow.id;
            version = flow.version;
            change_note = note;
          })
          w in
      sync_schedule flow.id (snapshot_version flow note recorded)

  unfoldable pub publish : String → String → String → W → W × Response
  unfolding after_publish
  publish id note action w =
      let published = b.publish_flow id w in
      elim published.1 [
        | err e ↦ (published.0, store_error e)
        | ok flow ↦ (after_publish flow note action published.0, flow_ok flow)
      ]

  -- publishFlow, with bindChangeNote.
  unfoldable pub publish_flow : String → Body → W → W × Response
  unfolding publish
  publish_flow id malformed w = (w, bad_request)
  publish_flow id (noted note) w =
      if note == "" then (w, bad_request) else publish id note "flow.publish" w

  unfoldable pub restore : String → String → FlowDef → W → W × Response
  unfolding publish
  restore id note def w =
      let updated = b.update_definition id def w in
      elim updated.1 [
        | some e ↦ (updated.0, store_error e)
        | none ↦ publish id note "flow.rollback" updated.0
      ]

  unfoldable pub rollback_flow : String → ℤ → Body → W → W × Response
  unfolding restore
  rollback_flow id to malformed w = (w, bad_request)
  rollback_flow id to (noted note) w =
      if note == "" then (w, bad_request) else elim (b.get_version id to w) [
        | err e ↦ (w, store_error e)
        | ok def ↦ restore id note def w
      ]

  unfoldable pub list_versions : String → W → W × Response
  list_versions id w = elim (b.list_versions id w) [
    | err e ↦ (w, envelope 500 "internal")
    | ok versions ↦ (w, versions_ok versions)
  ]

  -- updateFlowDraft; the body is nothing where it is no JSON of its type.
  unfoldable pub update_flow_draft : String → Option FlowDef → W → W × Response
  update_flow_draft id none w = (w, bad_request)
  update_flow_draft id (some def) w =
      let updated = b.update_definition id def w in
      elim updated.1 [ some e ↦ (updated.0, store_error e) | none ↦ (updated.0, saved) ]
