-- ===== src/Scheduler/Compiled.antt =====
-- What apps/automate-api/internal/scheduler compiles a flow's schedule node to.
use Prim.Native.Nat.{ℕ, suc, ◌+◌}
use Prim.Native.String.{String}
use mathlib.Core.Path.{◌≡◌, refl, ap}
use mathlib.Core.Logic.{◌⊎◌, ◌≢◌, inl, inr}
use mathlib.Core.Bool.{true, false}
use mathlib.Core.Option.{Option, none, some}
use mathlib.Core.List.{List, [], ◌∷◌}
use native.Mathlib.Omega.{arith}
use text.Mathlib.Text.{◌==◌}
use text.Mathlib.TextEquality.{eq_iff}
use mywork_automate.Prelude.{ℤ, pos, ltb, ltb_ℤ, if◌then◌else◌, pick, length, Bool-cases}
use mywork_automate.Prelude.Results.{Result, ok, err, ◌>>=◌, bind-ok}
use mywork_automate.Flow.{RawMessage, NodeDef, FlowDef}
use mywork_automate.Scheduler.{
  Spec, ScheduleConfig, SpecError, multiple_schedule, Search, is_schedule, search,
  find_schedule_node, normalize_timezone, normalize_overlap, simple_spec, with_mode,
  spec_from_config, parse_config, spec_of_node, spec_from_definition, map_overlap,
  set_schedule_overlap, build_schedule_spec,
}

-- A spec that the backend can be given: cron or an interval, a zone, and a policy it knows.
pub record IsSchedulable (spec : Spec) : Type 0 where
  pub timed :
      ((spec.cron ≢ "") × (spec.every_minutes ≡ pos 0))
      ⊎ ((spec.cron ≡ "") × (ltb_ℤ spec.every_minutes (pos 1) ≡ false))
  pub zoned : spec.timezone ≢ ""
  pub known_policy :
      (spec.overlap_policy ≡ "skip")
      ⊎ (spec.overlap_policy ≡ "queue")
      ⊎ (spec.overlap_policy ≡ "parallel")

normalize_timezone-named : (tz : String) → normalize_timezone tz ≢ ""
unfolding normalize_timezone
normalize_timezone-named tz h = elim (Bool-cases (tz == "")) [
  | inl empty ↦
      let e : ("Asia/Bangkok" == "") ≡ true = (eq_iff "Asia/Bangkok" "").1 (ground arith) in
      absurd (cc)
  | inr named ↦ absurd (ground (arith, eq_iff tz ""))
]

normalize_overlap-known :
    (policy : String) {overlap : String}
    → normalize_overlap policy ≡ ok overlap
    → (overlap ≡ "skip") ⊎ (overlap ≡ "queue") ⊎ (overlap ≡ "parallel")
unfolding normalize_overlap
normalize_overlap-known policy h =
    ground (
      arith,
      eq_iff policy "",
      eq_iff policy "skip",
      eq_iff policy "queue",
      eq_iff policy "parallel",
    )

simple_spec-timed :
    (spec : Spec) (minutes : Option ℤ) {out : Spec}
    → simple_spec spec minutes ≡ ok out
    → (out ≡ record spec { every_minutes = out.every_minutes })
      × (ltb_ℤ out.every_minutes (pos 1) ≡ false)
unfolding simple_spec
simple_spec-timed spec none h = absurd (cc)
simple_spec-timed spec (some n) {out} h = elim (Bool-cases (ltb_ℤ n (pos 1))) [
  | inl low ↦ absurd (ground arith)
  | inr fine ↦
      let e : record spec { every_minutes = n } ≡ out = ground arith in rw (← e) (refl, fine)
]

with_mode-IsSchedulable :
    (cfg : ScheduleConfig) (zone overlap : String) {spec : Spec}
    → zone ≢ ""
    → (overlap ≡ "skip") ⊎ (overlap ≡ "queue") ⊎ (overlap ≡ "parallel")
    → with_mode cfg
        (record { cron = ""; every_minutes = pos 0; timezone = zone; overlap_policy = overlap })
      ≡ ok spec
    → IsSchedulable spec
unfolding with_mode
with_mode-IsSchedulable cfg zone overlap {spec} named known h =
    let start : Spec = record {
      cron = "";
      every_minutes = pos 0;
      timezone = zone;
      overlap_policy = overlap;
    } in
    elim (Bool-cases (cfg.mode == "simple")) [
      | inl simple ↦
          let (e, fine) = simple_spec-timed start cfg.every_minutes {out = spec} (ground arith) in
          record {
            timed = inr (ap (λ s. s.cron) e, fine);
            zoned = let z : spec.timezone ≡ zone = ap (λ s. s.timezone) e in rw z named;
            known_policy =
                let p : spec.overlap_policy ≡ overlap = ap (λ s. s.overlap_policy) e in rw p known;
          }
      | inr other ↦ elim (Bool-cases (cfg.mode == "cron")) [
        | inr unknown ↦ absurd (ground arith)
        | inl cron ↦ elim (Bool-cases (cfg.cron == "")) [
          | inl empty ↦ absurd (ground arith)
          | inr given ↦
              let e : record start { cron = cfg.cron } ≡ spec = ground arith in
              rw (← e) (record {
                timed = inl ((λ k. absurd (ground (arith, eq_iff cfg.cron ""))), refl);
                zoned = named;
                known_policy = known;
              })
        ]
      ]
    ]

spec_from_config-IsSchedulable :
    (cfg : ScheduleConfig) {spec : Spec} → spec_from_config cfg ≡ ok spec → IsSchedulable spec
unfolding spec_from_config
spec_from_config-IsSchedulable cfg {spec} h =
    let (overlap, normal, moded) = bind-ok (normalize_overlap cfg.overlap_policy) _ h in
    with_mode-IsSchedulable cfg (normalize_timezone cfg.timezone) overlap {spec = spec}
      (normalize_timezone-named cfg.timezone) (normalize_overlap-known cfg.overlap_policy normal)
      moded

-- The last of some nodes, or else `o`.
abbrev last_or : Option NodeDef → List NodeDef → Option NodeDef
last_or o [] = o
last_or o (n ∷ ns) = last_or (some n) ns

search_lem :
    (s : Search) (ns : List NodeDef)
    → search s ns ≡ record {
      found = last_or s.found (pick is_schedule (λ n. n) ns);
      count = s.count + length (pick is_schedule (λ n. n) ns);
    }
unfolding search
search_lem s [] = let e : s.count + 0 ≡ s.count = omega arith in rw e refl
search_lem s (n ∷ ns) = elim (Bool-cases (is_schedule n)) [
  | inr other ↦ rw other (search_lem s ns)
  | inl schedule ↦
      let k = length (pick is_schedule (λ n. n) ns) in
      let e : s.count + suc k ≡ suc s.count + k = omega arith in
      rw (schedule, e) (search_lem (record { found = some n; count = suc s.count }) ns)
]

module _ (unmarshal : RawMessage → Option ScheduleConfig) where
  -- The spec of a flow by the schedule nodes that it has.
  abbrev pub spec_of_schedules : List NodeDef → Result SpecError (Option Spec)
  spec_of_schedules [] = ok none
  spec_of_schedules (n ∷ []) = spec_of_node unmarshal (some n)
  spec_of_schedules (_ ∷ _ ∷ _) = err multiple_schedule

  decide_lem :
      (ns : List NodeDef)
      → (if ltb 1 (0 + length ns) then err multiple_schedule else ok (last_or none ns))
          >>= spec_of_node unmarshal
        ≡ spec_of_schedules ns
  decide_lem [] = refl
  decide_lem (n ∷ []) = refl
  decide_lem (n ∷ m ∷ ns) =
      let e : ltb 1 (0 + suc (suc (length ns))) ≡ true = ground arith in rw e refl

  -- A flow's spec is that of its one schedule node; a flow with none has no spec, and one with more
  -- is refused.
  spec_from_definition-schedules :
      (def : FlowDef)
      → spec_from_definition unmarshal def ≡ spec_of_schedules (pick is_schedule (λ n. n) def.nodes)
  unfolding spec_from_definition find_schedule_node
  spec_from_definition-schedules def =
      rw (search_lem (record { found = none; count = 0 }) def.nodes)
        (decide_lem (pick is_schedule (λ n. n) def.nodes))

  spec_of_node-IsSchedulable :
      (o : Option NodeDef) {spec : Spec}
      → spec_of_node unmarshal o ≡ ok (some spec)
      → IsSchedulable spec
  spec_of_node-IsSchedulable none h = absurd (cc)
  spec_of_node-IsSchedulable (some n) {spec} h =
      let (cfg, parsed, h') = bind-ok (parse_config unmarshal n.config) _ h in
      let (spec', made, h'') = bind-ok (spec_from_config cfg) _ h' in
      let e : spec' ≡ spec = ground arith in
      spec_from_config-IsSchedulable cfg {spec = spec} (rw e at made)

  -- A spec that is compiled has either a cron expression or an interval of at least a minute, a zone,
  -- and an overlap policy that the backend knows.
  pub spec_from_definition-IsSchedulable :
      (def : FlowDef) (spec : Spec)
      → spec_from_definition unmarshal def ≡ ok (some spec)
      → IsSchedulable spec
  unfolding spec_from_definition
  spec_from_definition-IsSchedulable def spec h =
      let (o, found, made) = bind-ok (find_schedule_node def) _ h in
      spec_of_node-IsSchedulable o {spec = spec} made

-- Of a schedulable spec the backend gets one cron expression or one interval, in the spec's zone, and
-- the two translations of the overlap policy succeed and agree.
build_schedule_spec-mapped :
    (spec : Spec) (dst : ℕ)
    → IsSchedulable spec
    → (length (build_schedule_spec spec).cron_expressions
          + length (build_schedule_spec spec).intervals
        ≡ 1)
      × ((build_schedule_spec spec).time_zone_name ≡ spec.timezone)
      × (map_overlap spec.overlap_policy ≡ ok (set_schedule_overlap dst spec.overlap_policy))
unfolding build_schedule_spec map_overlap set_schedule_overlap
build_schedule_spec-mapped spec dst h = (
  ground arith,
  ground arith,
  elim h.known_policy [ inl e ↦ rw e refl | inr (inl e) ↦ rw e refl | inr (inr e) ↦ rw e refl ],
)
