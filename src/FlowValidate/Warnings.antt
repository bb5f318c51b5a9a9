-- ===== src/FlowValidate/Warnings.antt =====
-- Which nodes the validator of apps/automate-api/internal/flowvalidate/flowvalidate.go warns of.
use Prim.Native.Nat.{ℕ}
use Prim.Native.String.{String}
use mathlib.Core.Path.{◌≡◌, refl, ap, sym, ◌∙◌}
use mathlib.Core.Logic.{inl, inr}
use mathlib.Core.Bool.{Bool, true, false, not, ◌&&◌, ◌||◌}
use mathlib.Core.List.{List, [], ◌∷◌, ◌++◌, append-nil, append_assoc}
use native.Mathlib.Omega.{arith}
use text.Mathlib.Text.{◌==◌}
use text.Mathlib.TextEquality.{eq_iff}
use text.Mathlib.TextPositions.{eq_refl}
use mywork_automate.Prelude.{if◌then◌else◌, Bool-cases, All, All-weaken, pick, contains}
use mywork_automate.Flow.{NodeDef, EdgeDef, FlowDef}
use mywork_automate.FlowValidate.{
  Issue, is_trigger, issue_of, report, NodePass, check_node, check_nodes, check_triggers, EdgePass,
  check_end, check_edge, check_edges, floating_warning, check_floating, first_pass, second_pass,
  validate, severity_warning,
}
use mywork_automate.FlowValidate.Errors.{ids}
use mywork_automate.FlowValidate.Verdict.{known-first_pass}

abbrev pub warnings : List Issue → List Issue
warnings [] = []
warnings (i ∷ is) =
    let rest = warnings is in if i.severity == severity_warning then i ∷ rest else rest

warnings-append : (is js : List Issue) → warnings (is ++ js) ≡ warnings is ++ warnings js
warnings-append [] js = refl
warnings-append (i ∷ is) js = ground (arith, warnings-append is js)

-- Reports of errors are no warnings.
warnings-concat :
    (is : List Issue) (id message : String)
    → warnings (is ++ issue_of id message ∷ []) ≡ warnings is
warnings-concat is id message =
    warnings-append is (issue_of id message ∷ []) ∙ append-nil (warnings is)

warnings-report :
    (test : Bool) (is : List Issue) (id message : String)
    → warnings (report test (issue_of id message) is) ≡ warnings is
warnings-report true is id message = warnings-concat is id message
warnings-report false is id message = refl

warnings-check_nodes :
    (s : NodePass) (ns : List NodeDef) → warnings (check_nodes s ns).issues ≡ warnings s.issues
unfolding check_nodes check_node
warnings-check_nodes s [] = refl
warnings-check_nodes s (n ∷ ns) =
    warnings-check_nodes (check_node s n) ns
    ∙ warnings-report (n.type == "") (report (contains n.id s.known) _ s.issues) n.id _
    ∙ warnings-report (contains n.id s.known) s.issues n.id _

warnings-check_triggers :
    (count : ℕ) (is : List Issue) → warnings (check_triggers count is) ≡ warnings is
unfolding check_triggers
warnings-check_triggers count is = ground (
  arith,
  warnings-concat is "" "flow has no trigger node",
  warnings-concat is "" "flow has more than one trigger node",
)

warnings-check_end :
    (known : List String) (id message : String) (s : EdgePass)
    → warnings (check_end known id message s).issues ≡ warnings s.issues
unfolding check_end
warnings-check_end known id message s = elim (Bool-cases (contains id known)) [
  | inl here ↦ rw (here, check_end)
  | inr missing ↦ rw (missing, check_end) (warnings-concat s.issues id message)
]

warnings-check_edges :
    (known : List String) (s : EdgePass) (es : List EdgeDef)
    → warnings (check_edges known s es).issues ≡ warnings s.issues
unfolding check_edges check_edge
warnings-check_edges known s [] = refl
warnings-check_edges known s (e ∷ es) =
    warnings-check_edges known (check_edge known s e) es
    ∙ warnings-check_end known e.target _ (check_end known e.source _ s)
    ∙ warnings-check_end known e.source _ s

warnings-check_floating :
    (connected : List String) (is : List Issue) (ns : List NodeDef)
    → warnings (check_floating connected is ns)
      ≡ warnings is
        ++ pick (λ n. not (contains n.id connected || is_trigger n.type)) floating_warning ns
unfolding check_floating
warnings-check_floating connected is [] = sym (append-nil (warnings is))
warnings-check_floating connected is (n ∷ ns) =
    elim (Bool-cases (contains n.id connected || is_trigger n.type)) [
      | inl fine ↦ rw fine (warnings-check_floating connected is ns)
      | inr floats ↦ rw floats (
          warnings-check_floating connected (is ++ floating_warning n ∷ []) ns
          ∙ ap
              (λ w.
                w
                ++ pick (λ m. not (contains m.id connected || is_trigger m.type)) floating_warning
                    ns)
              (warnings-append is (floating_warning n ∷ []))
          ∙ append_assoc (warnings is) (floating_warning n ∷ []) _)
    ]

-- The ids at the two ends of the edges.
abbrev pub ends : List EdgeDef → List String
ends [] = []
ends (e ∷ es) = e.source ∷ e.target ∷ ends es

connected-check_end :
    (known : List String) (id message x : String) (s : EdgePass)
    → contains x (check_end known id message s).connected
      ≡ (contains x s.connected || (contains x known && id == x))
unfolding check_end contains
connected-check_end known id message x s = elim (Bool-cases (id == x)) [
  | inl same ↦ rw ((eq_iff id x).0 same, eq_refl x) (ground (arith, eq_refl x))
  | inr other ↦ ground arith
]

connected-check_edges :
    (known : List String) (s : EdgePass) (es : List EdgeDef) (x : String)
    → contains x (check_edges known s es).connected
      ≡ (contains x s.connected || (contains x known && contains x (ends es)))
unfolding check_edges check_edge contains
connected-check_edges known s [] x = ground arith
connected-check_edges known s (e ∷ es) x =
    connected-check_edges known (check_edge known s e) es x
    ∙ ground (
      arith,
      connected-check_end known e.target "edge references unknown target node" x
          (check_end known e.source "edge references unknown source node" s),
      connected-check_end known e.source "edge references unknown source node" x s,
    )

-- A node that is no trigger and at no end of an edge.
abbrev pub floats : List EdgeDef → NodeDef → Bool
floats es n = not (contains n.id (ends es) || is_trigger n.type)

pick-same :
    (p q : NodeDef → Bool) (all ns : List NodeDef)
    → ((n : NodeDef) → contains n.id (ids all) ≡ true → p n ≡ q n)
    → All (λ (n : NodeDef). contains n.id (ids all) ≡ true) ns
    → pick p floating_warning ns ≡ pick q floating_warning ns
pick-same p q all [] h k = refl
pick-same p q all (n ∷ ns) h k = rw (h n k.0, pick-same p q all ns h k.1)

All-ids : (ns : List NodeDef) → All (λ (n : NodeDef). contains n.id (ids ns) ≡ true) ns
unfolding contains
All-ids [] = tt
All-ids (n ∷ ns) = (rw (eq_refl n.id), All-weaken ns (λ m k. ground arith) (All-ids ns))

connected_iff :
    (def : FlowDef) (n : NodeDef)
    → contains n.id (ids def.nodes) ≡ true
    → not (contains n.id (second_pass def).connected || is_trigger n.type) ≡ floats def.edges n
unfolding contains
connected_iff def n k =
    let p = first_pass def in
    let start : EdgePass = record {
      issues = check_triggers p.trigger_count p.issues;
      connected = [];
    } in
    ground (arith, connected-check_edges p.known start def.edges n.id, known-first_pass def n.id)

-- The validator warns of exactly the nodes that float, in the order of the definition: no trigger,
-- and at no end of an edge.
warnings-validate :
    (def : FlowDef) → warnings (validate def) ≡ pick (floats def.edges) floating_warning def.nodes
unfolding validate
warnings-validate def =
    let p = first_pass def in
    let q = second_pass def in
    let empty : NodePass = record { issues = []; known = []; trigger_count = 0 } in
    let start : EdgePass = record {
      issues = check_triggers p.trigger_count p.issues;
      connected = [];
    } in
    let quiet : warnings q.issues ≡ [] =
      warnings-check_edges p.known start def.edges
      ∙ warnings-check_triggers p.trigger_count p.issues
      ∙ warnings-check_nodes empty def.nodes in
    warnings-check_floating q.connected q.issues def.nodes
    ∙ rw quiet (
        pick-same _ (floats def.edges) def.nodes def.nodes (λ n k. connected_iff def n k)
          (All-ids def.nodes))
