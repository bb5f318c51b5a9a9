-- ===== src/Interpreter/Led.antt =====
-- Where a log of decisions leads to in a flow, and the queue of
-- apps/automate-worker/internal/interpreter/workflow.go against it.
use Prim.Native.String.{String}
use mathlib.Core.Path.{◌≡◌, refl, subst, sym, ◌∙◌}
use mathlib.Core.Logic.{◌↔◌, inl, inr}
use mathlib.Core.Bool.{Bool, true, false, not, ◌&&◌, ◌||◌}
use mathlib.Core.Option.{none, some}
use mathlib.Core.List.{List, [], ◌∷◌, ◌++◌}
use native.Mathlib.Omega.{arith}
use text.Mathlib.Text.{◌==◌}
use text.Mathlib.TextEquality.{eq_iff}
use text.Mathlib.TextPositions.{eq_refl}
use mywork_automate.Prelude.{Bool-cases, contains, lookup, insert, lookup-insert}
use mywork_automate.Prelude.TextOrder.{contains-append}
use mywork_automate.Interpreter.Graph.{FlowDef, out_edges}
use mywork_automate.Interpreter.Workflow.{enqueue}

contains-enqueue :
    (x : String) (visited queue nexts : List String)
    → contains x (enqueue visited queue nexts)
      ≡ (contains x queue || (contains x nexts && not (contains x visited)))
unfolding contains enqueue
contains-enqueue x visited queue [] = ground arith
contains-enqueue x visited queue (n ∷ ns) = ground (
  arith,
  eq_iff n x,
  contains-enqueue x visited queue ns,
  contains-enqueue x visited (queue ++ n ∷ []) ns,
  contains-append x queue (n ∷ []),
)

-- The nodes that are led to from a start, where `log` holds what each node has decided.
pub data LedTo (flow : FlowDef) (log : List (String × String)) (start : String)
    : String → Type 0 where
  start_node : LedTo flow log start start
  along :
      {u v decision : String}
      → LedTo flow log start u
      → lookup u log ≡ some decision
      → contains v (out_edges flow.edges u decision) ≡ true
      → LedTo flow log start v

LedTo-insert :
    (flow : FlowDef) (log : List (String × String)) (start id decision : String)
    → lookup id log ≡ none
    → (x : String) → LedTo flow log start x
    → LedTo flow (insert id decision log) start x
LedTo-insert flow log start id decision fresh x start_node = start_node
LedTo-insert flow log start id decision fresh x (along {u} l k e) =
    along (LedTo-insert flow log start id decision fresh u l)
      (ground (arith, lookup-insert id u decision log, eq_iff id u)) e

-- A text that is queued or visited.
abbrev known : String → List String → List String → Bool
known x queue visited = contains x queue || contains x visited

known-run :
    (x id : String) (rest visited nexts : List String)
    → known x (enqueue (id ∷ visited) rest nexts) (id ∷ visited)
      ≡ (known x (id ∷ rest) visited || contains x nexts)
unfolding contains
known-run x id rest visited nexts =
    ground (arith, contains-enqueue x (id ∷ visited) rest nexts, eq_iff id x)

known-skip :
    (x id : String) (rest visited : List String)
    → contains id visited ≡ true
    → known x rest visited ≡ known x (id ∷ rest) visited
unfolding contains
known-skip x id rest visited h = elim (Bool-cases (id == x)) [
  | inl same ↦ let e : id ≡ x = (eq_iff id x).0 same in ground (arith, rw e at h)
  | inr other ↦ ground arith
]

-- Sound: what is queued or visited is led to. Complete: what a visited node leads to is visited or
-- queued. The log holds the decisions of the visited nodes.
pub record IsExact (flow : FlowDef) (start : String) (log : List (String × String))
    (queue visited : List String) : Type 0 where
  pub led : (x : String) → known x queue visited ≡ true → LedTo flow log start x
  pub closed :
      (u v decision : String)
      → lookup u log ≡ some decision
      → contains v (out_edges flow.edges u decision) ≡ true
      → known v queue visited ≡ true
  pub begun : known start queue visited ≡ true
  pub logged : (x : String) → (lookup x log ≡ none) ↔ (contains x visited ≡ false)

module _ (flow : FlowDef) (start : String) where
  pub IsExact-skip :
      (log : List (String × String)) (id : String) (rest visited : List String)
      → contains id visited ≡ true
      → IsExact flow start log (id ∷ rest) visited
      → IsExact flow start log rest visited
  IsExact-skip log id rest visited seen h = record {
    led = λ x m. h.led x (sym (known-skip x id rest visited seen) ∙ m);
    closed = λ u v d m k. known-skip v id rest visited seen ∙ h.closed u v d m k;
    begun = known-skip start id rest visited seen ∙ h.begun;
    logged = h.logged;
  }

  pub IsExact-run :
      (log : List (String × String)) (id decision : String) (rest visited : List String)
      → contains id visited ≡ false
      → IsExact flow start log (id ∷ rest) visited
      → IsExact flow start
          (insert id decision log)
          (enqueue (id ∷ visited) rest (out_edges flow.edges id decision))
          (id ∷ visited)
  unfolding contains
  IsExact-run log id decision rest visited fresh h =
      let nexts = out_edges flow.edges id decision in
      let unlogged = (h.logged id).1 fresh in
      let later = LedTo-insert flow log start id decision unlogged in
      record {
        led = λ x m. elim (Bool-cases (known x (id ∷ rest) visited)) [
          | inl old ↦ later x (h.led x old)
          | inr new ↦
              along {decision = decision} (later id (h.led id (rw (eq_refl id))))
                (ground (arith, lookup-insert id id decision log, eq_refl id))
                (ground (arith, known-run x id rest visited nexts))
        ];
        closed = λ u v d m k. known-run v id rest visited nexts ∙ elim (Bool-cases (id == u)) [
          | inl same ↦
              let e : id ≡ u = (eq_iff id u).0 same in
              let same_decision : decision ≡ d = ground (arith, lookup-insert id u decision log) in
              let reached : contains v nexts ≡ true = rw (← e, ← same_decision) at k in ground arith
          | inr other ↦
              let before : lookup u log ≡ some d =
                ground (arith, lookup-insert id u decision log) in
              ground (arith, h.closed u v d before k)
        ];
        begun = known-run start id rest visited nexts ∙ rw h.begun;
        logged = λ x. ground (arith, lookup-insert id x decision log, h.logged x);
      }

  -- Where the queue is empty the visited nodes are those that are led to.
  pub IsExact-empty :
      (log : List (String × String)) (visited : List String)
      → IsExact flow start log [] visited
      → (x : String) → LedTo flow log start x
      → contains x visited ≡ true
  unfolding contains
  IsExact-empty log visited h x start_node = h.begun
  IsExact-empty log visited h x (along {u} {decision = d} l k e) = h.closed u x d k e

  pub start-IsExact : IsExact flow start [] (start ∷ []) []
  unfolding contains lookup
  start-IsExact = record {
    led = λ x m. subst (LedTo flow [] start) ((eq_iff start x).0 (ground arith)) start_node;
    closed = λ u v d m k. absurd (cc);
    begun = rw (eq_refl start);
    logged = λ x. (λ h. refl, λ h. refl);
  }
