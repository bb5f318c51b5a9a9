-- ===== src/Interpreter/Trigger.antt =====
-- `findTrigger` of apps/automate-worker/internal/interpreter/graph.go: which node a run starts at.
use Prim.Native.String.{String}
use mathlib.Core.Path.{◌≡◌, refl, ap, sym, ◌∙◌}
use mathlib.Core.Logic.{◌≢◌, ◌⊎◌, inl, inr}
use mathlib.Core.Bool.{Bool, true, not}
use mathlib.Core.Option.{Option, none, some}
use mathlib.Core.List.{List, [], ◌∷◌, map}
use native.Mathlib.Omega.{arith}
use text.Mathlib.Text.{◌==◌}
use text.Mathlib.TextEquality.{eq_iff}
use text.Mathlib.TextPositions.{eq_refl}
use mywork_automate.Prelude.{
  Bool-cases, Option-cases, List-cases, All, pick, contains, str_leb, sort_insert, sort,
  if◌then◌else◌,
}
use mywork_automate.Prelude.TextOrder.{
  str_leb_total, str_leb_antisym, str_leb_trans, str_ltb-leb, leb_of_not-str_ltb, contains-head,
  All-contains, contains-sort, sort-head_le,
}
use mywork_automate.Flow.{NodeDef}
use mywork_automate.Interpreter.Graph.{
  FlowDef, is_trigger, better, best_trigger, targets, without_incoming, first, find_trigger,
}

abbrev pub ids : List NodeDef → List String
ids ns = map (λ n. n.id) ns

abbrev pub trigger_ids : List NodeDef → List String
trigger_ids ns = pick is_trigger (λ n. n.id) ns

abbrev least : String → Option String → String
least x none = x
least x (some y) = if str_leb x y then x else y

first-sort_insert :
    (x : String) (l : List String) → first (sort_insert x l) ≡ some (least x (first l))
unfolding first sort_insert
first-sort_insert x [] = refl
first-sort_insert x (y ∷ l) = ground arith

least-better :
    (b x : String) (o : Option String) → b ≢ "" → least b (some (least x o)) ≡ least (better b x) o
unfolding better
least-better b x none h =
    ground (arith, eq_iff b "", str_ltb-leb x b, leb_of_not-str_ltb x b, str_leb_antisym b x)
least-better b x (some y) h = ground (
  arith,
  eq_iff b "",
  str_ltb-leb x b,
  leb_of_not-str_ltb x b,
  str_leb_antisym b x,
  str_leb_antisym b y,
  str_leb_total b x,
  str_leb_total x y,
  str_leb_total b y,
  str_leb_trans b x y,
  str_leb_trans x b y,
  str_leb_trans b y x,
)

better-ne : (b x : String) → b ≢ "" → x ≢ "" → better b x ≢ ""
unfolding better
better-ne b x h k = ground arith

-- The loop from a candidate finds the least of it and the triggers that follow.
best_trigger_from :
    (b : String) (ns : List NodeDef)
    → b ≢ ""
    → All (λ x. x ≢ "") (ids ns)
    → best_trigger b ns ≡ least b (first (sort (trigger_ids ns)))
unfolding best_trigger sort first
best_trigger_from b [] h k = refl
best_trigger_from b (n ∷ ns) h k =
    let others = sort (trigger_ids ns) in
    elim (Bool-cases (is_trigger n)) [
      | inl starts ↦
          rw (starts, best_trigger_from (better b n.id) ns (better-ne b n.id h k.0) k.1)
            (sym (least-better b n.id (first others) h)
              ∙ ap (least b) (sym (first-sort_insert n.id others)))
      | inr plain ↦ rw (plain, best_trigger_from b ns h k.1)
    ]

-- The least entry of a list.
abbrev pub least_of : List String → Option String
least_of l = first (sort l)

abbrev or_empty : Option String → String
or_empty none = ""
or_empty (some x) = x

abbrev pub or_else : Option String → Option String → Option String
or_else none o = o
or_else (some x) o = some x

-- The first loop: the least of the triggers, and "" where there is none.
best_trigger_lem :
    (ns : List NodeDef)
    → All (λ x. x ≢ "") (ids ns)
    → best_trigger "" ns ≡ or_empty (least_of (trigger_ids ns))
unfolding best_trigger sort first better
best_trigger_lem [] k = refl
best_trigger_lem (n ∷ ns) k = elim (Bool-cases (is_trigger n)) [
  | inl starts ↦
      rw (starts, best_trigger_from n.id ns k.0 k.1, first-sort_insert n.id (sort (trigger_ids ns)))
  | inr plain ↦ rw (plain, best_trigger_lem ns k.1)
]

pub least_of-mem :
    (l : List String) {x : String}
    → least_of l ≡ some x
    → (contains x l ≡ true) × ((y : String) → contains y l ≡ true → str_leb x y ≡ true)
unfolding first
least_of-mem l {x} h = elim (List-cases (sort l)) [
  | inl empty ↦ absurd (ground arith)
  | inr (z, rest, e) ↦
      let same : z ≡ x = ground arith in
      let e' : sort l ≡ x ∷ rest = rw (← same) e in
      (sym (contains-sort x l) ∙ rw e' (contains-head x rest), sort-head_le l e')
]

pub least_of-none : (l : List String) → least_of l ≡ none → l ≡ []
unfolding sort
least_of-none [] h = refl
least_of-none (x ∷ l) h = cc (first-sort_insert x (sort l))

pick-mem :
    (p : NodeDef → Bool) (ns : List NodeDef) (x : String)
    → contains x (pick p (λ n. n.id) ns) ≡ true
    → contains x (ids ns) ≡ true
unfolding contains
pick-mem p [] x h = h
pick-mem p (n ∷ ns) x h = ground (arith, pick-mem p ns x)

best_trigger-mem :
    (b : String) (ns : List NodeDef)
    → (best_trigger b ns ≡ b) ⊎ (contains (best_trigger b ns) (ids ns) ≡ true)
unfolding best_trigger better contains
best_trigger-mem b [] = inl refl
best_trigger-mem b (n ∷ ns) =
    ground (arith, best_trigger-mem b ns, best_trigger-mem n.id ns, eq_refl n.id)

-- On a flow with no empty node id `findTrigger` gives the least id of a trigger node, and where there
-- is no trigger node the least id of a node with no incoming edge.
pub find_trigger_lem :
    (flow : FlowDef)
    → All (λ x. x ≢ "") (ids flow.nodes)
    → find_trigger flow
      ≡ or_else
          (least_of (trigger_ids flow.nodes))
          (least_of (without_incoming flow.edges flow.nodes))
unfolding find_trigger
find_trigger_lem flow k =
    let found = best_trigger_lem flow.nodes k in
    elim (Option-cases (least_of (trigger_ids flow.nodes))) [
      | inl missing ↦ rw (found, missing)
      | inr (t, least) ↦
          let named : t ≢ "" =
            All-contains (λ x. x ≢ "") t (ids flow.nodes) k
              (pick-mem is_trigger flow.nodes t (least_of-mem (trigger_ids flow.nodes) least).0) in
          rw (found, least) (ground (arith, eq_iff t ""))
    ]

-- Whatever the ids: the start is the id of a node.
pub find_trigger-node :
    (flow : FlowDef) (id : String)
    → find_trigger flow ≡ some id
    → contains id (ids flow.nodes) ≡ true
unfolding find_trigger without_incoming
find_trigger-node flow id h = elim (Bool-cases (best_trigger "" flow.nodes == "")) [
  | inl missing ↦
      pick-mem (λ n. not (contains n.id (targets flow.edges))) flow.nodes id
        (least_of-mem (without_incoming flow.edges flow.nodes) (ground arith)).0
  | inr found ↦
      let e : best_trigger "" flow.nodes ≡ id = ground arith in
      elim (best_trigger-mem "" flow.nodes) [
        | inl none_found ↦ absurd (ground (arith, eq_iff (best_trigger "" flow.nodes) ""))
        | inr listed ↦ rw e at listed
      ]
]
