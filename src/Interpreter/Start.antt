-- ===== src/Interpreter/Start.antt =====
-- `findTrigger` of apps/automate-worker/internal/interpreter/graph.go against a description of the node
-- that a run starts at.
use Prim.Native.String.{String}
use mathlib.Core.Path.{◌≡◌, refl, ap, sym, ◌∙◌}
use mathlib.Core.Logic.{◌≢◌, ◌↔◌, ◌⊎◌, inl, inr}
use mathlib.Core.Bool.{true, false, not, ◌&&◌}
use mathlib.Core.Option.{none, some}
use mathlib.Core.List.{List, [], ◌∷◌}
use native.Mathlib.Omega.{arith}
use text.Mathlib.Text.{◌==◌}
use text.Mathlib.TextEquality.{eq_iff}
use text.Mathlib.TextPositions.{eq_refl}
use mywork_automate.Prelude.{Bool-cases, Option-cases, All, contains, str_leb}
use mywork_automate.Prelude.TextOrder.{str_leb_antisym}
use mywork_automate.Flow.{NodeDef, EdgeDef}
use mywork_automate.Interpreter.Graph.{FlowDef, targets, without_incoming, find_trigger}
use mywork_automate.Interpreter.Trigger.{
  ids, trigger_ids, least_of, least_of-mem, least_of-none, find_trigger_lem,
}

-- The least text with a property, in the order of strings.
abbrev pub IsLeast : (String → Type 0) → String → Type 0
IsLeast P x = P x × ((y : String) → P y → str_leb x y ≡ true)

-- The id of a trigger node.
abbrev pub IsTrigger : FlowDef → String → Type 0
IsTrigger flow x = contains x (trigger_ids flow.nodes) ≡ true

-- The id of a node that no edge leads to.
abbrev pub IsRoot : FlowDef → String → Type 0
IsRoot flow x =
    (contains x (ids flow.nodes) ≡ true) × All (λ (e : EdgeDef). e.target ≢ x) flow.edges

-- The least id of a trigger node, or without such a node the least id of a root.
abbrev pub IsStart : FlowDef → String → Type 0
IsStart flow x =
    IsLeast (IsTrigger flow) x
    ⊎ (((y : String) → contains y (trigger_ids flow.nodes) ≡ false) × IsLeast (IsRoot flow) x)

targets_iff :
    (x : String) (es : List EdgeDef)
    → (contains x (targets es) ≡ false) ↔ All (λ (e : EdgeDef). e.target ≢ x) es
unfolding contains
targets_iff x [] = (λ h. tt, λ h. refl)
targets_iff x (e ∷ es) = ground (arith, eq_iff e.target x, targets_iff x es)

without_incoming-contains :
    (x : String) (es : List EdgeDef) (ns : List NodeDef)
    → contains x (without_incoming es ns) ≡ (contains x (ids ns) && not (contains x (targets es)))
unfolding contains without_incoming
without_incoming-contains x es [] = refl
without_incoming-contains x es (n ∷ ns) =
    let ih = without_incoming-contains x es ns in
    elim (Bool-cases (n.id == x)) [
      | inl same ↦
          let e : n.id ≡ x = (eq_iff n.id x).0 same in
          elim (Bool-cases (contains x (targets es))) [
            | inl target ↦ rw (e, target) (ground (arith, ih, eq_refl x))
            | inr root ↦ rw (e, root) (ground (arith, ih, eq_refl x))
          ]
      | inr other ↦ elim (Bool-cases (contains n.id (targets es))) [
        | inl target ↦ rw (target, other) ih
        | inr root ↦ rw (root, other) ih
      ]
    ]

least_of_iff :
    (l : List String) (x : String) → (least_of l ≡ some x) ↔ IsLeast (λ y. contains y l ≡ true) x
unfolding contains
least_of_iff l x = (
  λ h. least_of-mem l h,
  λ (m, least). elim (Option-cases (least_of l)) [
    | inl missing ↦
        let in_empty : contains x [] ≡ true = rw (least_of-none l missing) at m in absurd (cc)
    | inr (z, found) ↦
        let (m', least') = least_of-mem l found in
        found ∙ ap some (str_leb_antisym z x (least' x m) (least z m'))
  ],
)

IsRoot-iff :
    (flow : FlowDef) (x : String)
    → (contains x (without_incoming flow.edges flow.nodes) ≡ true) ↔ IsRoot flow x
IsRoot-iff flow x =
    ground (arith, without_incoming-contains x flow.edges flow.nodes, targets_iff x flow.edges)

IsLeast-iff :
    (P Q : String → Type 0) (x : String) → ((y : String) → P y ↔ Q y) → IsLeast P x ↔ IsLeast Q x
IsLeast-iff P Q x same = (
  λ (m, least). ((same x).0 m, λ y q. least y ((same y).1 q)),
  λ (m, least). ((same x).1 m, λ y p. least y ((same y).0 p)),
)

none_of_iff : (l : List String) → (least_of l ≡ none) ↔ ((y : String) → contains y l ≡ false)
unfolding contains
none_of_iff l = (
  λ h y. rw (least_of-none l h) refl,
  λ h. elim (Option-cases (least_of l)) [
    | inl missing ↦ missing
    | inr (z, found) ↦ absurd (cc (h z, (least_of-mem l found).0))
  ],
)

-- On a flow without an empty node id, `findTrigger` answers a text exactly where the text is the least
-- id of a trigger node, or no node is a trigger and it is the least id of a node that no edge leads
-- to.
pub find_trigger_iff :
    (flow : FlowDef)
    → All (λ x. x ≢ "") (ids flow.nodes)
    → (x : String) → (find_trigger flow ≡ some x) ↔ IsStart flow x
find_trigger_iff flow named x =
    let triggers = trigger_ids flow.nodes in
    let roots = without_incoming flow.edges flow.nodes in
    let start = find_trigger_lem flow named in
    let same_root = IsLeast-iff (λ y. contains y roots ≡ true) (IsRoot flow) x (IsRoot-iff flow) in
    elim (Option-cases (least_of triggers)) [
      | inl missing ↦
          let untriggered = (none_of_iff triggers).0 missing in
          let same : find_trigger flow ≡ least_of roots = rw missing at start in
          (
            λ h. inr (untriggered, same_root.0 ((least_of_iff roots x).0 (sym same ∙ h))),
            λ h. elim h [
              | inl (t, least) ↦ absurd (cc (untriggered x, t))
              | inr (alone, least) ↦ same ∙ (least_of_iff roots x).1 (same_root.1 least)
            ],
          )
      | inr (t, found) ↦
          let same : find_trigger flow ≡ some t = rw found at start in
          let first_ = (least_of-mem triggers found).0 in
          (
            λ h. inl ((least_of_iff triggers x).0 (found ∙ sym same ∙ h)),
            λ h. elim h [
              | inl least ↦ same ∙ sym found ∙ (least_of_iff triggers x).1 least
              | inr (alone, least) ↦ absurd (cc (alone t, first_))
            ],
          )
    ]
