-- ===== src/Expression/Parser/Grammar/Complete.antt =====
-- The parser of pkg/expression/parser.go accepts all that the grammar spells.
use Prim.Native.Nat.{ℕ, zero, suc, ◌<◌, ◌≤◌}
use mathlib.Core.Path.{◌≡◌, refl, ap, ◌∙◌}
use mathlib.Core.Logic.{◌↔◌}
use mathlib.Core.Bool.{Bool, true, false}
use mathlib.Core.List.{List, [], ◌∷◌}
use native.Mathlib.Omega.{arith}
use mywork_automate.Prelude.{length}
use mywork_automate.Prelude.Results.{ok, ◌>>=◌}
use mywork_automate.Expression.Values.{Runtime, Literal, quoted}
use mywork_automate.Expression.Lexer.{Token, eof, dot, lbrack, colon}
use mywork_automate.Expression.Parser.{
  Accessor, name, key, index, Root, node, flow, vars, Primary, ref, literal, PipeNode, ExprNode,
  parse_accessors, parse_ref, parse_primary, parse_args, parse_pipes, parse_tokens, parse_expr,
  at_end, with_accessors, Parsed,
}
use mywork_automate.Expression.Parser.Grammar.{
  Tokens, SpellsLiteral, SpellsAccessor, SpellsAccessors, SpellsRoot, SpellsPrimary, SpellsArgs,
  SpellsPipe, SpellsPipes, SpellsExpr,
}
use mywork_automate.Expression.Parser.Grammar.Sound.{parse_tokens-Yields}

-- No accessor, no argument, no pipe starts here.
abbrev ends_accessors : {R : Runtime} → Token R → Bool
ends_accessors dot = false
ends_accessors lbrack = false
ends_accessors _ = true

abbrev ends_args : {R : Runtime} → Token R → Bool
ends_args colon = false
ends_args _ = true

abbrev IsEnd : {R : Runtime} → (Token R → Bool) → List (Token R) → Type 0
IsEnd p [] = Unit {0}
IsEnd p (t ∷ ts) = p t ≡ true

module _ (R : Runtime) where
  parse_accessors_end :
      (fuel : ℕ) (ts : Tokens R)
      → IsEnd ends_accessors ts
      → parse_accessors R (suc fuel) ts ≡ ok ([], ts)
  unfolding parse_accessors
  parse_accessors_end fuel [] h = refl
  parse_accessors_end fuel (dot ∷ ts) h = absurd (cc)
  parse_accessors_end fuel (lbrack ∷ ts) h = absurd (cc)
  parse_accessors_end fuel (_ ∷ ts) h = refl

  -- What a loop makes of an item and of its later turns.
  abbrev then_item : {A : Type 0} → A → Parsed R (List A) → Parsed R (List A)
  then_item a r = r >>= λ (xs, left). ok (a ∷ xs, left)

  parse_accessors-SpellsAccessor :
      (a : Accessor) (fuel : ℕ) (ts mid : Tokens R)
      → SpellsAccessor R a ts mid
      → parse_accessors R (suc fuel) ts ≡ then_item a (parse_accessors R fuel mid)
  unfolding parse_accessors
  parse_accessors-SpellsAccessor (name n) fuel ts mid e = rw e
  parse_accessors-SpellsAccessor (key k) fuel ts mid e = rw e
  parse_accessors-SpellsAccessor (index i) fuel ts mid (raw, x, e, whole, same) =
      rw e (rw whole (rw same))

  SpellsAccessor-shorter :
      (a : Accessor) (ts mid : Tokens R) → SpellsAccessor R a ts mid → length mid < length ts
  SpellsAccessor-shorter (name n) ts mid e = rw e (omega arith)
  SpellsAccessor-shorter (key k) ts mid e = rw e (omega arith)
  SpellsAccessor-shorter (index i) ts mid (raw, x, e, whole, same) = rw e (omega arith)

  parse_accessors-Spells :
      (xs : List Accessor) (fuel : ℕ) (ts rest : Tokens R)
      → SpellsAccessors R xs ts rest
      → IsEnd ends_accessors rest
      → length ts < fuel
      → parse_accessors R fuel ts ≡ ok (xs, rest)
  parse_accessors-Spells xs zero ts rest h stop lt = absurd (omega arith)
  parse_accessors-Spells [] (suc fuel) ts rest h stop lt = rw h (parse_accessors_end fuel rest stop)
  parse_accessors-Spells (a ∷ xs) (suc fuel) ts rest (mid, one, more) stop lt =
      parse_accessors-SpellsAccessor a fuel ts mid one
      ∙ ap (then_item a) (
          parse_accessors-Spells xs fuel mid rest more stop
            (omega (arith, SpellsAccessor-shorter a ts mid one)))

  with_accessors-Spells :
      (r : Root) (xs : List Accessor) (ts rest : Tokens R)
      → SpellsAccessors R xs ts rest
      → IsEnd ends_accessors rest
      → with_accessors R r ts ≡ ok (record { root = r; accessors = xs }, rest)
  unfolding with_accessors
  with_accessors-Spells r xs ts rest h stop =
      rw (parse_accessors-Spells xs (suc (length ts)) ts rest h stop (omega arith))

  parse_ref-SpellsRoot :
      (r : Root) (ts mid : Tokens R)
      → SpellsRoot R r ts mid
      → parse_ref R ts ≡ with_accessors R r mid
  unfolding parse_ref
  parse_ref-SpellsRoot (node n) ts mid e = rw e
  parse_ref-SpellsRoot flow ts mid e = rw e
  parse_ref-SpellsRoot vars ts mid e = rw e

  parse_primary-Spells :
      (p : Primary R) (ts rest : Tokens R)
      → SpellsPrimary R p ts rest
      → IsEnd ends_accessors rest
      → parse_primary R ts ≡ ok (p, rest)
  unfolding parse_primary
  parse_primary-Spells (ref r) ts rest (mid, e, (tail, root, more)) stop = rw e (
      rw (
        parse_ref-SpellsRoot r.root mid tail root
        ∙ with_accessors-Spells r.root r.accessors tail rest more stop))
  parse_primary-Spells (literal (quoted s)) ts rest (t, e, l) stop = rw (e, l)
  parse_primary-Spells (literal (Literal.number x)) ts rest (t, e, (raw, l)) stop = rw (e, l)

  parse_args_end :
      (fuel : ℕ) (ts : Tokens R) → IsEnd ends_args ts → parse_args R (suc fuel) ts ≡ ok ([], ts)
  unfolding parse_args
  parse_args_end fuel [] h = refl
  parse_args_end fuel (colon ∷ ts) h = absurd (cc)
  parse_args_end fuel (_ ∷ ts) h = refl

  parse_args_cons :
      (a : Literal R) (fuel : ℕ) (t : Token R) (mid : Tokens R)
      → SpellsLiteral R a t
      → parse_args R (suc fuel) (colon ∷ t ∷ mid) ≡ then_item a (parse_args R fuel mid)
  unfolding parse_args
  parse_args_cons (quoted s) fuel t mid l = rw l
  parse_args_cons (Literal.number x) fuel t mid (raw, l) = rw l

  parse_args-Spells :
      (xs : List (Literal R)) (fuel : ℕ) (ts rest : Tokens R)
      → SpellsArgs R xs ts rest
      → IsEnd ends_args rest
      → length ts < fuel
      → parse_args R fuel ts ≡ ok (xs, rest)
  parse_args-Spells xs zero ts rest h stop lt = absurd (omega arith)
  parse_args-Spells [] (suc fuel) ts rest h stop lt = rw h (parse_args_end fuel rest stop)
  parse_args-Spells (a ∷ xs) (suc fuel) ts rest (t, mid, e, l, more) stop lt =
      rw e (parse_args_cons a fuel t mid l)
      ∙ ap (then_item a) (parse_args-Spells xs fuel mid rest more stop (omega (arith, ap length e)))

  parse_pipes_cons :
      (p : PipeNode R) (fuel : ℕ) (ts mid : Tokens R)
      → SpellsPipe R p ts mid
      → IsEnd ends_args mid
      → parse_pipes R (suc fuel) ts ≡ then_item p (parse_pipes R fuel mid)
  unfolding parse_pipes
  parse_pipes_cons p fuel ts mid (args, e, l) stop =
      rw e (rw (parse_args-Spells p.args (suc (length args)) args mid l stop (omega arith)))

  -- Behind a primary value or a pipe stands a pipe or the end.
  SpellsPipes-IsEnd :
      (ps : List (PipeNode R)) (ts after : Tokens R)
      → SpellsPipes R ps ts (eof ∷ after)
      → IsEnd ends_accessors ts × IsEnd ends_args ts
  SpellsPipes-IsEnd [] ts after h = rw h (refl, refl)
  SpellsPipes-IsEnd (p ∷ ps) ts after (mid, (args, e, l), more) = rw e (refl, refl)

  SpellsArgs-shorter :
      (xs : List (Literal R)) (ts rest : Tokens R)
      → SpellsArgs R xs ts rest
      → length rest ≤ length ts
  SpellsArgs-shorter [] ts rest h = rw h (omega arith)
  SpellsArgs-shorter (a ∷ xs) ts rest (t, mid, e, l, more) =
      rw e (omega (arith, SpellsArgs-shorter xs mid rest more))

  SpellsPipe-shorter :
      (p : PipeNode R) (ts mid : Tokens R) → SpellsPipe R p ts mid → length mid < length ts
  SpellsPipe-shorter p ts mid (args, e, l) =
      rw e (omega (arith, SpellsArgs-shorter p.args args mid l))

  parse_pipes-Spells :
      (ps : List (PipeNode R)) (fuel : ℕ) (ts after : Tokens R)
      → SpellsPipes R ps ts (eof ∷ after)
      → length ts < fuel
      → parse_pipes R fuel ts ≡ ok (ps, eof ∷ after)
  parse_pipes-Spells ps zero ts after h lt = absurd (omega arith)
  parse_pipes-Spells [] (suc fuel) ts after h lt = unfold parse_pipes in rw h
  parse_pipes-Spells (p ∷ ps) (suc fuel) ts after (mid, one, more) lt =
      parse_pipes_cons p fuel ts mid one (SpellsPipes-IsEnd ps mid after more).1
      ∙ ap (then_item p) (
          parse_pipes-Spells ps fuel mid after more
            (omega (arith, SpellsPipe-shorter p ts mid one)))

  parse_expr-Spells :
      (e : ExprNode R) (ts : Tokens R)
      → SpellsExpr R e ts
      → (after : Tokens R) × (parse_expr R ts ≡ ok (e, eof ∷ after))
  unfolding parse_expr
  parse_expr-Spells e ts (mid, after, one, more) = (
    after,
    rw (parse_primary-Spells e.primary ts mid one (SpellsPipes-IsEnd e.pipes mid after more).0)
        (rw (parse_pipes-Spells e.pipes (suc (length mid)) mid after more (omega arith))),
  )

  bind-at_end :
      (e : ExprNode R) (ts left : Tokens R)
      → parse_expr R ts ≡ ok (e, left)
      → (parse_expr R ts >>= λ (e', after). at_end R e' after) ≡ at_end R e left
  bind-at_end e ts left h = rw h

  parse_tokens-at_end :
      (e : ExprNode R) (ts left : Tokens R)
      → parse_expr R ts ≡ ok (e, left)
      → parse_tokens R ts ≡ at_end R e left
  unfolding parse_tokens
  parse_tokens-at_end e (eof ∷ ts) left h = absurd (unfold parse_expr in cc)
  parse_tokens-at_end e ts left h = bind-at_end e ts left h

  -- The parser of tokens yields an expression exactly where the tokens spell it by the grammar, up
  -- to the end: nothing else is accepted, and no expression that is spelt is refused.
  pub parse_tokens_iff :
      (ts : Tokens R) (e : ExprNode R) → (parse_tokens R ts ≡ ok e) ↔ SpellsExpr R e ts
  parse_tokens_iff ts e = (
    λ h. rw h at (parse_tokens-Yields R ts),
    λ spelt.
        let (after, h) = parse_expr-Spells e ts spelt in
        parse_tokens-at_end e ts (eof ∷ after) h ∙ (unfold at_end in refl),
  )
