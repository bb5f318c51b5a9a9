-- ===== src/Lifecycle/Handlers.antt =====
-- The pause, resume and stop handlers of apps/automate-api/internal/httpapi/handlers_lifecycle.go over
-- a store, a scheduler and an audit trail.
use Prim.Native.Nat.{ℕ}
use Prim.Native.String.{String}
use mathlib.Core.Path.{◌≡◌}
use mathlib.Core.Bool.{not}
use mathlib.Core.Option.{Option, none, some}
use mathlib.Core.List.{List, [], ◌∷◌}
use mywork_automate.Prelude.Results.{Result, ok, err}
use mywork_automate.Prelude.{if◌then◌else◌}
use mywork_automate.Lifecycle.Machine.{
  status_published, status_paused, status_stopped, can_transition,
}

-- `store.IsNotFound(err)`, or any other error.
pub data StoreError : Type 0 where
  not_found other_error : StoreError

pub data SchedOp : Type 0 where
  pause resume delete : SchedOp

-- An audit entry; `status` is its detail.
pub record Entry : Type 0 where
  pub action : String
  pub resource_type : String
  pub resource_id : String
  pub status : String

-- An answer: 200 with the status, or an error envelope by its code and its kind, less the message.
pub data Response : Type 0 where
  status_ok : String → Response
  envelope : ℕ → String → Response

-- The collaborators over the world `W` that they act on. `set_flow_status` and `sched` may fail and
-- leave the world as they please.
pub record Backend (W : Type 0) : Type 0 where
  pub get_flow_status : String → W → Result StoreError String
  pub set_flow_status : String → String → W → W × Option StoreError
  pub sched : SchedOp → String → W → W × Option String
  pub record_entry : Entry → W → W

-- What the store promises: a status that was written is read, a write that fails changes no status, and
-- the scheduler and the audit trail leave the statuses alone.
pub record IsLawful {W : Type 0} (b : Backend W) : Type 0 where
  pub get-set :
      (id to : String) (w : W)
      → (b.set_flow_status id to w).1 ≡ none
      → b.get_flow_status id (b.set_flow_status id to w).0 ≡ ok to
  pub get-set_failed :
      (id to : String) (w : W) (e : StoreError)
      → (b.set_flow_status id to w).1 ≡ some e
      → b.get_flow_status id (b.set_flow_status id to w).0 ≡ b.get_flow_status id w
  pub get-sched :
      (op : SchedOp) (id : String) (w : W)
      → b.get_flow_status id (b.sched op id w).0 ≡ b.get_flow_status id w
  pub get-record_entry :
      (e : Entry) (id : String) (w : W)
      → b.get_flow_status id (b.record_entry e w) ≡ b.get_flow_status id w

abbrev pub store_error : StoreError → Response
store_error not_found = envelope 404 "not_found"
store_error other_error = envelope 500 "internal"

module _ {W : Type 0} (b : Backend W) where
  -- The end of the handler: the status is set, and the scheduler is told.
  unfoldable pub tell_scheduler : String → String → SchedOp → String → W → W × Response
  tell_scheduler to action op id w =
      let r = b.sched op id w in
      elim r.1 [
        | some message ↦ (r.0, envelope 500 "internal")
        | none ↦ (
          b.record_entry
              (record { action = action; resource_type = "flow"; resource_id = id; status = to })
              r.0,
          status_ok to,
        )
      ]

  unfoldable pub set_and_tell : String → String → SchedOp → String → W → W × Response
  set_and_tell to action op id w =
      let r = b.set_flow_status id to w in
      elim r.1 [ some e ↦ (r.0, store_error e) | none ↦ tell_scheduler to action op id r.0 ]

  unfoldable pub transition : String → String → SchedOp → String → W → W × Response
  transition to action op id w = elim (b.get_flow_status id w) [
    | err e ↦ (w, store_error e)
    | ok status ↦
        if not (can_transition status to)
        then (w, envelope 409 "invalid_transition")
        else set_and_tell to action op id w
  ]

  unfoldable pub pause_flow : String → W → W × Response
  pause_flow = transition status_paused "flow.pause" pause

  unfoldable pub resume_flow : String → W → W × Response
  resume_flow = transition status_published "flow.resume" resume

  unfoldable pub stop_flow : String → W → W × Response
  stop_flow = transition status_stopped "flow.stop" delete

-- The three commands, and a sequence of them for one flow.
pub data Command : Type 0 where
  pause_command resume_command stop_command : Command

module _ {W : Type 0} (b : Backend W) where
  unfoldable pub serve : Command → String → W → W × Response
  serve pause_command = pause_flow b
  serve resume_command = resume_flow b
  serve stop_command = stop_flow b

  unfoldable pub serve_all : List Command → String → W → W
  serve_all [] id w = w
  serve_all (c ∷ cs) id w = serve_all cs id (serve c id w).0
