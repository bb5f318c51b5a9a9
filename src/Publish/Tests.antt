-- ===== src/Publish/Tests.antt =====
-- A store that numbers the versions it writes, and the publish and rollback theorems on it.
use Prim.Native.Nat.{ℕ, suc, compare, Ordering}
use Prim.Native.String.{String}
use mathlib.Core.Path.{◌≡◌, refl, ap}
use mathlib.Core.Logic.{inl, inr}
use mathlib.Core.Bool.{Bool, true, false}
use mathlib.Core.Option.{Option, none, some}
use mathlib.Core.List.{[]}
use native.Mathlib.Omega.{arith}
use mywork_automate.Prelude.{ℤ, pos, negsuc, if◌then◌else◌, ltb, Bool-cases}
use mywork_automate.Prelude.Results.{Result, ok, err}
use mywork_automate.Flow.{RawMessage, FlowDef}
use mywork_automate.Scheduler.{ScheduleConfig, spec_from_definition, find_schedule_node, search}
use mywork_automate.Lifecycle.Handlers.{StoreError, not_found, other_error}
use mywork_automate.Publish.{
  FlowSummary, flow_ok, envelope, noted, Backend, publish_flow, publish, after_publish,
  snapshot_version, sync_schedule, sync_compiled, restore, rollback_flow,
}
use mywork_automate.Publish.History.{IsLawful, IsPinned}
use mywork_automate.Publish.Rollback.{rollback_restores}

-- One flow, under every id: its definition, the number of its next version, and the versions below.
record World : Type 0 where
  definition : FlowDef
  next : ℕ
  rows : ℕ → FlowDef

abbrev eqb : ℕ → ℕ → Bool
eqb a b = elim (compare a b) [ Ordering.eq ↦ true | _ ↦ false ]

put_row : ℕ → FlowDef → (ℕ → FlowDef) → ℕ → FlowDef
put_row n def rows m = if eqb m n then def else rows m

row_at : ℤ → World → Result StoreError FlowDef
row_at (pos n) w = if ltb n w.next then ok (w.rows n) else err not_found
row_at (negsuc n) w = err not_found

add_row : ℤ → FlowDef → World → World × Option StoreError
unfolding put_row
add_row (pos n) def w =
    if eqb n w.next
    then (record { definition = w.definition; next = suc n; rows = put_row n def w.rows }, none)
    else (w, some other_error)
add_row (negsuc n) def w = (w, some other_error)

abbrev summary : String → World → FlowSummary
summary id w = record {
  id = id;
  name = "payroll";
  folder = "";
  status = "published";
  updated_at = "";
  version = pos w.next;
  deleted_at = none;
}

abbrev toy : Backend World
toy = record {
  publish_flow = λ id w. (w, ok (summary id w));
  get_definition = λ id w. ok w.definition;
  update_definition = λ id def w. (record { definition = def; next = w.next; rows = w.rows }, none);
  create_version = λ id n def note role w. add_row n def w;
  get_version = λ id n w. row_at n w;
  list_versions = λ id w. ok [];
  sync = λ id spec def role w. (w, some "no server");
  delete = λ id w. (w, none);
  record_entry = λ e w. w;
  warn = λ m id w. w;
}

add_row-read :
    (n : ℤ) (def : FlowDef) (w : World)
    → (add_row n def w).1 ≡ none
    → row_at n (add_row n def w).0 ≡ ok def
unfolding add_row row_at put_row
add_row-read (pos n) def w = elim (Bool-cases (eqb n w.next)) [
  | inl same ↦ rw same (λ h. ground arith)
  | inr other ↦ rw other (λ h. ground arith)
]
add_row-read (negsuc n) def w = ground arith

add_row-same : (n : ℤ) (def : FlowDef) (w : World) → (add_row n def w).0.definition ≡ w.definition
unfolding add_row
add_row-same (pos n) def w = ground arith
add_row-same (negsuc n) def w = ground arith

add_row-keeps :
    (n m : ℤ) (def d : FlowDef) (w : World)
    → row_at m w ≡ ok d
    → row_at m (add_row n def w).0 ≡ ok d
unfolding add_row row_at put_row
add_row-keeps (pos n) (pos m) def d w = elim (Bool-cases (eqb n w.next)) [
  | inl same ↦ rw same (λ h. ground arith)
  | inr other ↦ rw other (λ h. h)
]
add_row-keeps (pos n) (negsuc m) def d w = λ h. ground arith
add_row-keeps (negsuc n) m def d w = λ h. h

row_at-definition :
    (n : ℤ) (def d : FlowDef) (w : World)
    → row_at n w ≡ ok d
    → row_at n (record { definition = def; next = w.next; rows = w.rows }) ≡ ok d
unfolding row_at
row_at-definition (pos n) def d w h = h
row_at-definition (negsuc n) def d w h = h

published-id :
    (id : String) (w : World) (flow : FlowSummary)
    → (toy.publish_flow id w).1 ≡ ok flow
    → flow.id ≡ id
published-id id w flow h = ground arith

toy-IsLawful : IsLawful toy
toy-IsLawful = record {
  id-published = λ id w flow h. published-id id w flow h;
  get-updated = λ id def w h. refl;
  get-created = λ id n def note role w h. add_row-read n def w h;
  same-publish = λ id w i. refl;
  same-create = λ id n def note role w i. ap ok (add_row-same n def w);
  same-sync = λ id spec def role w i. refl;
  same-delete = λ id w i. refl;
  same-record = λ e w i. refl;
  same-warn = λ m id w i. refl;
  keeps-publish = λ id w i n d h. h;
  keeps-update = λ id def w i n d h. row_at-definition n def d w h;
  keeps-create = λ id n def note role w i m d h. add_row-keeps n m def d w h;
  keeps-sync = λ id spec def role w i n d h. h;
  keeps-delete = λ id w i n d h. h;
  keeps-record = λ e w i n d h. h;
  keeps-warn = λ m id w i n d h. h;
}

abbrev unread : RawMessage → Option ScheduleConfig
unread raw = none

abbrev empty_flow : FlowDef
empty_flow = record { nodes = []; edges = []; settings = none }

abbrev draft : FlowDef
draft = record { nodes = []; edges = []; settings = some (record { notification = none }) }

-- A flow whose first version is empty, with another draft since.
abbrev world : World
world = record { definition = draft; next = 2; rows = λ n. empty_flow }

no_note : (publish_flow toy unread "dev" "f" (noted "") world).1 ≡ envelope 400 "bad_request"
unfolding publish_flow
no_note = refl

no_version :
    (rollback_flow toy unread "dev" "f" (pos 7) (noted "n") world).1 ≡ envelope 404 "not_found"
unfolding rollback_flow row_at
no_version = refl

pinned : row_at (pos 2) (publish_flow toy unread "dev" "f" (noted "first") world).0 ≡ ok draft
unfolding publish_flow publish after_publish snapshot_version sync_schedule sync_compiled
    spec_from_definition find_schedule_node search row_at add_row put_row
pinned = refl

rollback_answers :
    (rollback_flow toy unread "dev" "f" (pos 1) (noted "back") world).1
    ≡ flow_ok (summary "f" world)
unfolding rollback_flow restore publish row_at
rollback_answers = refl

rollback_restores_example :
    let after = (rollback_flow toy unread "dev" "f" (pos 1) (noted "back") world).0 in
    (def : FlowDef) × (toy.get_version "f" (pos 1) world ≡ ok def)
    × (Path String "f" "f")
    × (toy.get_definition "f" after ≡ ok def)
    × IsPinned toy unread "dev" toy-IsLawful
        (summary "f" world)
        "back"
        "flow.rollback"
        def
        (record { definition = def; next = 2; rows = λ n. empty_flow })
        after
rollback_restores_example =
    rollback_restores toy unread "dev" toy-IsLawful "f" "back" (pos 1) world (summary "f" world)
      rollback_answers
