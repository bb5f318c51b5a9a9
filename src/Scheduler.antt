-- ===== src/Scheduler.antt =====
-- apps/automate-api/internal/scheduler/spec.go and mapping.go: from a flow's schedule node to the
-- schedule that Temporal is given.
pub mod Compiled
mod Tests
use Prim.Native.Nat.{ℕ, zero, suc, ◌*◌}
use Prim.Native.String.{String, ◌++◌}
use mathlib.Core.Bool.{Bool, true, false, not, ◌||◌}
use mathlib.Core.Option.{Option, none, some}
use mathlib.Core.List.{List, [], ◌∷◌}
use text.Mathlib.Text.{◌==◌}
use mywork_automate.Prelude.{ℤ, pos, scaled, ltb, ltb_ℤ, if◌then◌else◌}
use mywork_automate.Prelude.Results.{Result, ok, err, ◌>>=◌}
use mywork_automate.Flow.{RawMessage, NodeDef, FlowDef}

abbrev pub schedule_node_type : String
schedule_node_type = "trigger.schedule"

abbrev pub default_timezone : String
default_timezone = "Asia/Bangkok"

abbrev pub overlap_skip : String
overlap_skip = "skip"

abbrev pub overlap_queue : String
overlap_queue = "queue"

abbrev pub overlap_parallel : String
overlap_parallel = "parallel"

abbrev pub default_overlap_policy : String
default_overlap_policy = overlap_skip

abbrev pub mode_simple : String
mode_simple = "simple"

abbrev pub mode_cron : String
mode_cron = "cron"

pub record Spec : Type 0 where
  pub cron : String
  pub every_minutes : ℤ
  pub timezone : String
  pub overlap_policy : String

pub record ScheduleConfig : Type 0 where
  pub mode : String
  pub every_minutes : Option ℤ
  pub cron : String
  pub timezone : String
  pub overlap_policy : String

pub data SpecError : Type 0 where
  invalid_config : SpecError
  unknown_mode : String → SpecError
  every_minutes_error : SpecError
  empty_cron : SpecError
  overlap_policy_error : String → SpecError
  multiple_schedule : SpecError

-- The variables of the loop of `findScheduleNode`; `found` is `none` for the zero node.
pub record Search : Type 0 where
  pub found : Option NodeDef
  pub count : ℕ

abbrev pub is_schedule : NodeDef → Bool
is_schedule n = n.type == schedule_node_type

unfoldable pub search : Search → List NodeDef → Search
search s [] = s
search s (n ∷ ns) =
    search (if is_schedule n then record { found = some n; count = suc s.count } else s) ns

-- `none` for no schedule node.
unfoldable pub find_schedule_node : FlowDef → Result SpecError (Option NodeDef)
find_schedule_node def =
    let s = search (record { found = none; count = zero }) def.nodes in
    if ltb 1 s.count then err multiple_schedule else ok s.found

abbrev pub zero_config : ScheduleConfig
zero_config = record {
  mode = "";
  every_minutes = none;
  cron = "";
  timezone = "";
  overlap_policy = "";
}

unfoldable pub normalize_timezone : String → String
normalize_timezone tz = if tz == "" then default_timezone else tz

unfoldable pub normalize_overlap : String → Result SpecError String
normalize_overlap policy =
    if policy == ""
    then ok default_overlap_policy
    else if policy == overlap_skip || policy == overlap_queue || policy == overlap_parallel
    then ok policy
    else err (overlap_policy_error policy)

-- The `switch` on the mode, with the spec so far.
unfoldable pub simple_spec : Spec → Option ℤ → Result SpecError Spec
simple_spec spec none = err every_minutes_error
simple_spec spec (some n) =
    if ltb_ℤ n (pos 1) then err every_minutes_error else ok (record spec { every_minutes = n })

unfoldable pub with_mode : ScheduleConfig → Spec → Result SpecError Spec
with_mode cfg spec =
    if cfg.mode == mode_simple
    then simple_spec spec cfg.every_minutes
    else if cfg.mode == mode_cron
    then if cfg.cron == "" then err empty_cron else ok (record spec { cron = cfg.cron })
    else err (unknown_mode cfg.mode)

unfoldable pub spec_from_config : ScheduleConfig → Result SpecError Spec
spec_from_config cfg = do
  overlap ← normalize_overlap cfg.overlap_policy
  with_mode cfg (record {
    cron = "";
    every_minutes = pos 0;
    timezone = normalize_timezone cfg.timezone;
    overlap_policy = overlap;
  })

-- `json.Unmarshal` of a config is a parameter; `none` is an error.
module _ (unmarshal : RawMessage → Option ScheduleConfig) where
  unfoldable pub parse_config : RawMessage → Result SpecError ScheduleConfig
  parse_config [] = ok zero_config
  parse_config (b ∷ bs) = elim (unmarshal (b ∷ bs)) [
    | none ↦ err invalid_config
    | some cfg ↦ ok cfg
  ]

  abbrev pub spec_of_node : Option NodeDef → Result SpecError (Option Spec)
  spec_of_node none = ok none
  spec_of_node (some node) = do
    cfg ← parse_config node.config
    spec ← spec_from_config cfg
    ok (some spec)

  -- `none` where the flow has no schedule node.
  unfoldable pub spec_from_definition : FlowDef → Result SpecError (Option Spec)
  spec_from_definition def = find_schedule_node def >>= spec_of_node

-- mapping.go
abbrev pub overlap_skip_enum : ℕ
overlap_skip_enum = 1

abbrev pub overlap_buffer_one_num : ℕ
overlap_buffer_one_num = 2

abbrev pub overlap_allow_all_num : ℕ
overlap_allow_all_num = 6

unfoldable pub schedule_id : String → String
schedule_id flow_id = "flow-" ++ flow_id

unfoldable pub map_overlap : String → Result SpecError ℕ
map_overlap policy =
    if policy == overlap_skip
    then ok overlap_skip_enum
    else if policy == overlap_queue
    then ok overlap_buffer_one_num
    else if policy == overlap_parallel
    then ok overlap_allow_all_num
    else err (overlap_policy_error policy)

-- The value of `*dst` after the call.
unfoldable pub set_schedule_overlap : ℕ → String → ℕ
set_schedule_overlap dst policy =
    if policy == overlap_skip
    then overlap_skip_enum
    else if policy == overlap_queue
    then overlap_buffer_one_num
    else if policy == overlap_parallel
    then overlap_allow_all_num
    else dst

-- The fields of `client.ScheduleSpec` that are written; an interval is its nanoseconds.
pub record ScheduleSpec : Type 0 where
  pub time_zone_name : String
  pub cron_expressions : List String
  pub intervals : List ℤ

unfoldable pub build_schedule_spec : Spec → ScheduleSpec
build_schedule_spec spec =
    if not (spec.cron == "")
    then record {
      time_zone_name = spec.timezone;
      cron_expressions = spec.cron ∷ [];
      intervals = [];
    }
    else record {
      time_zone_name = spec.timezone;
      cron_expressions = [];
      intervals = scaled spec.every_minutes 60000000000 ∷ [];
    }
