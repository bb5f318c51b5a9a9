-- ===== src/Expression/Eval/Budget.antt =====
-- The budget and the deadline of pkg/expression/eval.go, against evaluation with neither.
use Prim.Native.Nat.{ℕ, zero, suc, ◌+◌, ◌-◌, ◌<◌, ◌≤◌}
use Prim.Native.String.{String}
use mathlib.Core.Path.{◌≡◌, refl, ◌∙◌}
use mathlib.Core.Logic.{◌↔◌}
use mathlib.Core.Bool.{Bool, false}
use mathlib.Core.List.{List, [], ◌∷◌}
use native.Mathlib.Omega.{arith}
use native.Mathlib.Decide.{dec_lt}
use mywork_automate.Prelude.{length, lookup}
use mywork_automate.Prelude.Results.{ok, err, ◌>>=◌, bind-ok}
use mywork_automate.Expression.Values.{
  Runtime, Value, str, float64, quoted, number, EvalContext, Checked, no_vars, unknown_node,
}
use mywork_automate.Expression.Parser.{
  Accessor, Root, node, flow, vars, Primary, ref, literal, PipeNode, ExprNode, parse,
}
use mywork_automate.Expression.Pipes.{or_error, apply_pipe}
use mywork_automate.Expression.Eval.{
  access, flow_value, start_of, max_steps, step, walk, eval_primary, eval_pipes, eval_node, eval,
}

-- A value behind all its accessors.
unfoldable pub accessed : {R : Runtime} → Value R → List Accessor → Checked (Value R)
accessed v [] = ok v
accessed v (a ∷ more) = access v a >>= λ v'. accessed v' more

-- The steps that a primary value takes: one for each accessor, but not for the first behind `$flow`.
unfoldable pub primary_cost : {R : Runtime} → Primary R → ℕ
primary_cost (literal l) = 0
primary_cost (ref r) = elim r.root [ flow ↦ length r.accessors - 1 | _ ↦ length r.accessors ]

unfoldable pub cost : {R : Runtime} → ExprNode R → ℕ
unfolding primary_cost
cost e = suc (primary_cost e.primary + length e.pipes)

start_of-cost :
    {R : Runtime} (ec : EvalContext R) (root : Root) (xs : List Accessor) (v : Value R)
    (rest : List Accessor)
    → start_of ec root xs ≡ ok (v, rest)
    → length rest ≡ primary_cost {R = R} (ref (record { root = root; accessors = xs }))
unfolding start_of primary_cost
start_of-cost ec flow [] v rest h = absurd (cc)
start_of-cost ec flow (a ∷ xs) v rest h =
    let (v', e, same) = bind-ok (flow_value ec a) _ h in ground arith
start_of-cost ec vars xs v rest h =
    let (m, e, same) = bind-ok (or_error no_vars ec.vars) _ h in ground arith
start_of-cost ec (node n) xs v rest h =
    let (r, e, same) = bind-ok (or_error (unknown_node n) (lookup n ec.nodes)) _ h in ground arith

module _ (R : Runtime) (sprint : Value R → String) where
  unfoldable pub piped : Value R → List (PipeNode R) → Checked (Value R)
  piped v [] = ok v
  piped v (p ∷ ps) = apply_pipe R sprint p v >>= λ v'. piped v' ps

  unfoldable pub primary_value : EvalContext R → Primary R → Checked (Value R)
  unfolding accessed
  primary_value ec (literal (quoted s)) = ok (str s)
  primary_value ec (literal (number x)) = ok (float64 x)
  primary_value ec (ref r) = start_of ec r.root r.accessors >>= λ (v, more). accessed v more

  -- The value of an expression, with no bound on the work.
  unfoldable pub meaning : EvalContext R → ExprNode R → Checked (Value R)
  unfolding piped primary_value
  meaning ec e = primary_value ec e.primary >>= λ v. piped v e.pipes

  module _ (expired : ℕ → Bool) where
    -- The deadline has not passed at any of the steps from `budget` down to `left`.
    abbrev pub InTime : ℕ → ℕ → Type 0
    InTime left budget = (i : ℕ) → left < i → i ≤ budget → expired i ≡ false

    -- A stage of the evaluation gives what `meant` says, by so many steps of the budget, in time.
    abbrev pub Stage : {A : Type 0} → ℕ → Checked A → (ℕ → Checked (A × ℕ)) → Type 0
    Stage {A} steps meant run =
        (budget left : ℕ) (a : A)
        → (run budget ≡ ok (a, left))
          ↔ ((steps + left ≡ budget) × InTime left budget × (meant ≡ ok a))

    step_iff :
        (budget left : ℕ)
        → (step R sprint expired budget ≡ ok left)
          ↔ ((suc left ≡ budget) × (expired budget ≡ false))
    unfolding step
    step_iff zero left = (λ h. ground arith, λ (e, _). absurd (omega arith))
    step_iff (suc budget) left = (λ h. (ground arith, ground arith), λ (e, h). ground arith)

    InTime-extend :
        (left budget' budget : ℕ)
        → suc budget' ≡ budget
        → expired budget ≡ false
        → InTime left budget'
        → InTime left budget
    InTime-extend left budget' budget e now intime i lo hi = elim (dec_lt i budget) [
      | yes before ↦ intime i lo (omega arith)
      | no last ↦ let same : i ≡ budget = omega arith in rw same now
    ]

    InTime-join : (left mid budget : ℕ) → InTime left mid → InTime mid budget → InTime left budget
    InTime-join left mid budget low high i lo hi = elim (dec_lt mid i) [
      | yes above ↦ high i above hi
      | no below ↦ low i lo (omega arith)
    ]

    -- A stage that takes no step.
    Stage-still : {A : Type 0} (m : Checked A) → Stage 0 m (λ b. m >>= λ a. ok (a, b))
    Stage-still m budget left a = (
      λ h.
          let (a', e, same) = bind-ok m _ h in
          (ground arith, λ i lo hi. absurd (ground arith), ground arith),
      λ (n, _, e). rw e (ground arith),
    )

    -- A step, and then a stage.
    Stage-step :
        {A B : Type 0} (k : ℕ) (m : Checked A) (m' : A → Checked B) (run : A → ℕ → Checked (B × ℕ))
        → ((a : A) → Stage k (m' a) (run a))
        → Stage (suc k) (m >>= m') (λ b. step R sprint expired b >>= λ b'. m >>= λ a. run a b')
    Stage-step k m m' run later budget left b = (
      λ h.
          let (budget', s, h1) = bind-ok (step R sprint expired budget) _ h in
          let (a, e, h2) = bind-ok m _ h1 in
          let (n, intime, meant) = (later a budget' left b).0 h2 in
          let (one, first) = (step_iff budget budget').0 s in
          (omega arith, InTime-extend left budget' budget one first intime, rw e meant),
      λ (n, intime, meant).
          let (a, e, meant') = bind-ok m m' meant in
          let s =
            (step_iff budget (k + left)).1
              (omega arith, intime budget (omega arith) (omega arith)) in
          rw s (
            rw e
              ((later a (k + left) left b).1 (refl, λ i lo hi. intime i lo (omega arith), meant'))),
    )

    -- One stage after another.
    Stage-then :
        {A B : Type 0} (j k : ℕ) (m : Checked A) (m' : A → Checked B) (run : ℕ → Checked (A × ℕ))
        (run' : A → ℕ → Checked (B × ℕ))
        → Stage j m run
        → ((a : A) → Stage k (m' a) (run' a))
        → Stage (j + k) (m >>= m') (λ b. run b >>= λ (a, b'). run' a b')
    Stage-then j k m m' run run' first later budget left b = (
      λ h.
          let ((a, budget'), s, h1) = bind-ok (run budget) _ h in
          let (n, intime, meant) = (first budget budget' a).0 s in
          let (n', intime', meant') = (later a budget' left b).0 h1 in
          (omega arith, InTime-join left budget' budget intime' intime, rw meant meant'),
      λ (n, intime, meant).
          let (a, e, meant') = bind-ok m m' meant in
          let s =
            (first budget (k + left) a).1 (omega arith, λ i lo hi. intime i (omega arith) hi, e) in
          rw s ((later a (k + left) left b).1 (refl, λ i lo hi. intime i lo (omega arith), meant')),
    )

    walk-Stage :
        (more : List Accessor) (v : Value R)
        → Stage (length more) (accessed v more) (λ b. walk R sprint expired b v more)
    unfolding walk accessed
    walk-Stage [] v = Stage-still (ok v)
    walk-Stage (a ∷ more) v =
        Stage-step (length more) (access v a) (λ v'. accessed v' more)
          (λ v' b. walk R sprint expired b v' more) (λ v'. walk-Stage more v')

    eval_pipes-Stage :
        (ps : List (PipeNode R)) (v : Value R)
        → Stage (length ps) (piped v ps) (λ b. eval_pipes R sprint expired b v ps)
    unfolding eval_pipes piped
    eval_pipes-Stage [] v = Stage-still (ok v)
    eval_pipes-Stage (p ∷ ps) v =
        Stage-step (length ps) (apply_pipe R sprint p v) (λ v'. piped v' ps)
          (λ v' b. eval_pipes R sprint expired b v' ps) (λ v'. eval_pipes-Stage ps v')

    -- The walk behind a start that leaves so many accessors.
    Stage-start :
        (n : ℕ) (m : Checked (Value R × List Accessor))
        → ((v : Value R) (rest : List Accessor) → m ≡ ok (v, rest) → length rest ≡ n)
        → Stage n
            (m >>= λ (v, rest). accessed v rest)
            (λ b. m >>= λ (v, rest). walk R sprint expired b v rest)
    Stage-start n (ok (v, rest)) leaves = rw (← (leaves v rest refl)) (walk-Stage rest v)
    Stage-start n (err e) leaves = λ budget left a. (λ h. absurd (cc), λ (x, y, h). absurd (cc))

    eval_primary-Stage :
        (ec : EvalContext R) (p : Primary R)
        → Stage (primary_cost p) (primary_value ec p) (λ b. eval_primary R sprint expired b ec p)
    unfolding eval_primary primary_value primary_cost
    eval_primary-Stage ec (literal (quoted s)) = Stage-still (ok (str s))
    eval_primary-Stage ec (literal (number x)) = Stage-still (ok (float64 x))
    eval_primary-Stage ec (ref r) =
        Stage-start (primary_cost {R = R} (ref r)) (start_of ec r.root r.accessors)
          (λ v rest. start_of-cost ec r.root r.accessors v rest)

    eval_node-Stage :
        (ec : EvalContext R) (e : ExprNode R)
        → Stage (cost e) (meaning ec e) (λ b. eval_node R sprint expired b ec e)
    unfolding eval_node meaning cost
    eval_node-Stage ec e =
        Stage-step (primary_cost e.primary + length e.pipes) (ok tt) (λ _. meaning ec e)
          (λ _ b. eval_primary R sprint expired b ec e.primary >>= λ (v, b').
            eval_pipes R sprint expired b' v e.pipes)
          λ _.
            Stage-then (primary_cost e.primary) (length e.pipes) (primary_value ec e.primary)
              (λ v. piped v e.pipes) (λ b. eval_primary R sprint expired b ec e.primary)
              (λ v b. eval_pipes R sprint expired b v e.pipes) (eval_primary-Stage ec e.primary)
              (λ v. eval_pipes-Stage e.pipes v)

    -- An expression evaluates to a value exactly where it parses, its accessors and pipes with no
    -- bound on the work give the value, they are few enough for the budget of 10,000 steps, and the
    -- deadline has not passed at any of these steps. So the budget and the deadline never change a
    -- value, and no evaluation makes more than 10,000 steps.
    pub eval_iff :
        (body : String) (ec : EvalContext R) (v : Value R)
        → (eval R sprint expired body ec ≡ ok v) ↔ (
            (e : ExprNode R) × (parse R body ≡ ok e)
            × (meaning ec e ≡ ok v)
            × (cost e ≤ max_steps)
            × InTime (max_steps - cost e) max_steps)
    unfolding eval
    eval_iff body ec v = (
      λ h.
          let (e, parsed, h1) = bind-ok (parse R body) _ h in
          let ((v', left), ran, h2) = bind-ok (eval_node R sprint expired max_steps ec e) _ h1 in
          let (n, intime, meant) = (eval_node-Stage ec e max_steps left v').0 ran in
          (e, parsed, meant ∙ h2, omega arith, λ i lo hi. intime i (omega arith) hi),
      λ (e, parsed, meant, fits, intime).
          let ran =
            (eval_node-Stage ec e max_steps (max_steps - cost e) v).1
              (omega arith, intime, meant) in
          rw parsed (rw ran),
    )
