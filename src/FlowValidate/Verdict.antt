-- ===== src/FlowValidate/Verdict.antt =====
-- When the validator of apps/automate-api/internal/flowvalidate/flowvalidate.go accepts a flow.
use Prim.Native.String.{String}
use mathlib.Core.Path.{◌≡◌, refl, sym, ◌∙◌}
use mathlib.Core.Logic.{◌↔◌, ◌≢◌}
use mathlib.Core.Bool.{true, false}
use mathlib.Core.List.{List, [], ◌∷◌}
use native.Mathlib.Omega.{arith}
use text.Mathlib.TextEquality.{eq_iff}
use mywork_automate.Prelude.{All, All-weaken, contains}
use mywork_automate.Prelude.TextOrder.{Distinct}
use mywork_automate.Flow.{NodeDef, EdgeDef, FlowDef}
use mywork_automate.FlowValidate.{first_pass, validate, has_errors}
use mywork_automate.FlowValidate.Errors.{
  ids, triggers, bad_nodes, bad_edges, known-check_nodes, has_errors-validate,
}

-- A flow that can be run: distinct ids, a type on each node, one trigger, and edges between nodes.
pub record IsRunnable (def : FlowDef) : Type 0 where
  pub distinct : Distinct (ids def.nodes)
  pub typed : All (λ (n : NodeDef). n.type ≢ "") def.nodes
  pub one_trigger : triggers def.nodes ≡ 1
  pub joined :
      All
        (λ (e : EdgeDef).
          (contains e.source (ids def.nodes) ≡ true) × (contains e.target (ids def.nodes) ≡ true))
        def.edges

not_in_of_All :
    (id : String) (known xs : List String)
    → All (λ x. contains x (id ∷ known) ≡ false) xs
    → contains id xs ≡ false
unfolding contains
not_in_of_All id known [] h = refl
not_in_of_All id known (x ∷ xs) h =
    ground (arith, eq_iff x id, eq_iff id x, not_in_of_All id known xs h.1)

All-fresh-nil : (xs : List String) → All (λ x. contains x [] ≡ false) xs
unfolding contains
All-fresh-nil [] = tt
All-fresh-nil (x ∷ xs) = (refl, All-fresh-nil xs)

All-fresh-cons :
    (id : String) (known xs : List String)
    → All (λ x. contains x known ≡ false) xs
    → contains id xs ≡ false
    → All (λ x. contains x (id ∷ known) ≡ false) xs
unfolding contains
All-fresh-cons id known [] h k = tt
All-fresh-cons id known (x ∷ xs) h k =
    (ground (arith, eq_iff x id, eq_iff id x), All-fresh-cons id known xs h.1 (ground arith))

-- The ids and types of nodes of which none is reported.
fresh_of_bad_nodes :
    (known : List String) (ns : List NodeDef)
    → bad_nodes known ns ≡ false
    → All (λ x. contains x known ≡ false) (ids ns)
unfolding bad_nodes contains
fresh_of_bad_nodes known [] h = tt
fresh_of_bad_nodes known (n ∷ ns) h = (
  ground arith,
  All-weaken (ids ns) (λ x k. ground arith) (fresh_of_bad_nodes (n.id ∷ known) ns (ground arith)),
)

Distinct-of_bad_nodes :
    (known : List String) (ns : List NodeDef) → bad_nodes known ns ≡ false → Distinct (ids ns)
unfolding bad_nodes
Distinct-of_bad_nodes known [] h = tt
Distinct-of_bad_nodes known (n ∷ ns) h =
    let rest : bad_nodes (n.id ∷ known) ns ≡ false = ground arith in
    (
      not_in_of_All n.id known (ids ns) (fresh_of_bad_nodes (n.id ∷ known) ns rest),
      Distinct-of_bad_nodes (n.id ∷ known) ns rest,
    )

typed_of_bad_nodes :
    (known : List String) (ns : List NodeDef)
    → bad_nodes known ns ≡ false
    → All (λ (n : NodeDef). n.type ≢ "") ns
unfolding bad_nodes
typed_of_bad_nodes known [] h = tt
typed_of_bad_nodes known (n ∷ ns) h =
    (ground (arith, eq_iff n.type ""), typed_of_bad_nodes (n.id ∷ known) ns (ground arith))

bad_nodes_of :
    (known : List String) (ns : List NodeDef)
    → All (λ x. contains x known ≡ false) (ids ns)
    → Distinct (ids ns)
    → All (λ (n : NodeDef). n.type ≢ "") ns
    → bad_nodes known ns ≡ false
unfolding bad_nodes
bad_nodes_of known [] f d t = refl
bad_nodes_of known (n ∷ ns) f d t =
    let rest =
      bad_nodes_of (n.id ∷ known) ns (All-fresh-cons n.id known (ids ns) f.1 d.0) d.1 t.1 in
    ground (arith, eq_iff n.type "")

bad_edges_iff :
    (known : List String) (es : List EdgeDef)
    → (bad_edges known es ≡ false)
      ↔ All
          (λ (e : EdgeDef). (contains e.source known ≡ true) × (contains e.target known ≡ true))
          es
unfolding bad_edges
bad_edges_iff known [] = (λ _. tt, λ _. refl)
bad_edges_iff known (e ∷ es) = (
  λ h. ((ground arith, ground arith), (bad_edges_iff known es).0 (ground arith)),
  λ h. ground (arith, (bad_edges_iff known es).1 h.1),
)

pub known-first_pass :
    (def : FlowDef) (x : String) → contains x (first_pass def).known ≡ contains x (ids def.nodes)
unfolding contains
known-first_pass def x =
    known-check_nodes (record { issues = []; known = []; trigger_count = 0 }) def.nodes x

-- The validator reports no error exactly for the flows that can be run: distinct node ids, a type on
-- every node, exactly one trigger, and edges whose two ends are nodes.
pub validate_iff : (def : FlowDef) → (has_errors (validate def) ≡ false) ↔ IsRunnable def
validate_iff def = (
  λ h.
      let e = has_errors-validate def in
      let good : bad_nodes [] def.nodes ≡ false = ground arith in
      let edges : bad_edges (first_pass def).known def.edges ≡ false = ground arith in
      record {
        distinct = Distinct-of_bad_nodes [] def.nodes good;
        typed = typed_of_bad_nodes [] def.nodes good;
        one_trigger = ground arith;
        joined =
            All-weaken def.edges
              (λ e k. (
                sym (known-first_pass def e.source) ∙ k.0,
                sym (known-first_pass def e.target) ∙ k.1,
              ))
              ((bad_edges_iff (first_pass def).known def.edges).0 edges);
      },
  λ r.
      let good = bad_nodes_of [] def.nodes (All-fresh-nil (ids def.nodes)) r.distinct r.typed in
      let edges = (bad_edges_iff (first_pass def).known def.edges).1 (
        All-weaken def.edges
          (λ e k. (known-first_pass def e.source ∙ k.0, known-first_pass def e.target ∙ k.1))
          r.joined) in
      let one = r.one_trigger in ground (arith, has_errors-validate def),
)
