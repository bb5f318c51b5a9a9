-- ===== src/Lifecycle/Tests.antt =====
-- A store in memory whose scheduler can be unreachable, and the theorems at it.
use Prim.Native.String.{String}
use mathlib.Core.Path.{◌≡◌, refl}
use mathlib.Core.Logic.{inl}
use mathlib.Core.Bool.{Bool, true, false}
use mathlib.Core.Option.{Option, none, some}
use mathlib.Core.List.{List, [], ◌∷◌}
use text.Mathlib.TextPositions.{eq_refl}
use mywork_automate.Prelude.Results.{Result, ok, err}
use mywork_automate.Prelude.{if◌then◌else◌, contains, lookup, insert, lookup-insert}
use mywork_automate.Lifecycle.Machine.{transitions, can_transition}
use mywork_automate.Lifecycle.Handlers.{
  not_found, StoreError, pause, status_ok, envelope, Backend, IsLawful, transition, resume_flow,
  pause_command, stop_command, resume_command, serve_all,
}
use mywork_automate.Lifecycle.Commands.{
  Moves, serve_all-Moves, transition-diverges, resume_publishes,
}

abbrev Statuses : Type 0
Statuses = List (String × String)

abbrev result_of : Option String → Result StoreError String
result_of none = err not_found
result_of (some status) = ok status

-- A scheduler that is unreachable answers every call with an error.
abbrev mem : Bool → Backend Statuses
mem unreachable = record {
  get_flow_status = λ id w. result_of (lookup id w);
  set_flow_status = λ id to w. (insert id to w, none);
  sched = λ op id w. (w, if unreachable then some "unreachable" else none);
  record_entry = λ e w. w;
}

mem-IsLawful : (unreachable : Bool) → IsLawful (mem unreachable)
mem-IsLawful unreachable = record {
  get-set = λ id to w h. rw (lookup-insert id id to w, eq_refl id);
  get-set_failed = λ id to w e h. absurd (cc);
  get-sched = λ op id w. refl;
  get-record_entry = λ e id w. refl;
}

abbrev flows : Statuses
flows = ("live", "published") ∷ ("new", "draft") ∷ []

parts : Unit {0}
unfolding can_transition transitions lookup contains insert
parts = tt

live_status : (mem true).get_flow_status "live" flows ≡ ok "published"
unfolding parts
live_status = refl

pause_legal : can_transition "published" "paused" ≡ true
unfolding parts
pause_legal = refl

serve_all-Moves_example :
    (last : String) × ((mem true).get_flow_status "live"
        (serve_all (mem true) (pause_command ∷ stop_command ∷ resume_command ∷ []) "live" flows)
      ≡ ok last)
    × Moves
        (mem true)
        (mem-IsLawful true)
        (pause_command ∷ stop_command ∷ resume_command ∷ [])
        "live"
        "published"
        last
        flows
serve_all-Moves_example =
    serve_all-Moves (mem true) (mem-IsLawful true)
      (pause_command ∷ stop_command ∷ resume_command ∷ []) "live" "published" flows live_status

new_status : (mem false).get_flow_status "new" flows ≡ ok "draft"
unfolding parts
new_status = refl

stop_illegal : can_transition "draft" "stopped" ≡ false
unfolding parts
stop_illegal = refl

transition-diverges_example :
    ((transition (mem true) "paused" "flow.pause" pause "live" flows).1 ≡ envelope 500 "internal")
    × ((mem true).get_flow_status "live"
          (transition (mem true) "paused" "flow.pause" pause "live" flows).0
        ≡ ok "paused")
transition-diverges_example =
    transition-diverges (mem true) (mem-IsLawful true) "paused" "flow.pause" pause "live"
      "published" "unreachable" flows live_status pause_legal refl refl

resume_publishes_example :
    ((resume_flow (mem false) "new" flows).1 ≡ status_ok "published")
    × ((mem false).get_flow_status "new" (resume_flow (mem false) "new" flows).0 ≡ ok "published")
resume_publishes_example =
    resume_publishes (mem false) (mem-IsLawful false) "new" "draft" flows (inl refl) new_status refl
      refl
