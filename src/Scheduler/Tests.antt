-- ===== src/Scheduler/Tests.antt =====
-- A flow with one schedule node, and the theorems at it.
use Prim.Native.String.{String}
use mathlib.Core.Path.{◌≡◌, refl}
use mathlib.Core.Option.{Option, none, some}
use mathlib.Core.List.{[], ◌∷◌}
use mywork_automate.Prelude.{pos}
use mywork_automate.Prelude.Results.{ok}
use mywork_automate.Flow.{RawMessage, NodeDef, FlowDef}
use mywork_automate.Scheduler.{
  Spec, ScheduleConfig, search, find_schedule_node, normalize_timezone, normalize_overlap,
  simple_spec, with_mode, spec_from_config, parse_config, spec_from_definition, build_schedule_spec,
}
use mywork_automate.Scheduler.Compiled.{IsSchedulable, spec_from_definition-IsSchedulable}

-- A decoder that reads every config as "every 15 minutes, queue".
abbrev decoded : RawMessage → Option ScheduleConfig
decoded raw = some (record {
  mode = "simple";
  every_minutes = some (pos 15);
  cron = "";
  timezone = "";
  overlap_policy = "queue";
})

abbrev node : String → String → NodeDef
node id type = record {
  id = id;
  type = type;
  name = id;
  config = 123 ∷ 125 ∷ [];
  on_error = "";
  retry = none;
}

abbrev flow : FlowDef
flow = record {
  nodes = node "tick" "trigger.schedule" ∷ node "query" "db.query" ∷ [];
  edges = [];
  settings = none;
}

abbrev quarter_hours : Spec
quarter_hours = record {
  cron = "";
  every_minutes = pos 15;
  timezone = "Asia/Bangkok";
  overlap_policy = "queue";
}

flow_compiles : spec_from_definition decoded flow ≡ ok (some quarter_hours)
unfolding spec_from_definition find_schedule_node search parse_config spec_from_config with_mode
    simple_spec normalize_overlap normalize_timezone
flow_compiles = refl

interval : (build_schedule_spec quarter_hours).intervals ≡ pos 900000000000 ∷ []
unfolding build_schedule_spec
interval = refl

spec_from_definition-IsSchedulable_example : IsSchedulable quarter_hours
spec_from_definition-IsSchedulable_example =
    spec_from_definition-IsSchedulable decoded flow quarter_hours flow_compiles
