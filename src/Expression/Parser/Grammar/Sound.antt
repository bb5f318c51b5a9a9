-- ===== src/Expression/Parser/Grammar/Sound.antt =====
-- The parser of pkg/expression/parser.go accepts only what the grammar spells, and its loops end.
use Prim.Native.Nat.{ℕ, zero, suc, ◌<◌, ◌≤◌}
use mathlib.Core.Path.{◌≡◌, refl}
use mathlib.Core.List.{◌∷◌}
use native.Mathlib.Omega.{arith}
use mywork_automate.Prelude.{length}
use mywork_automate.Prelude.Results.{◌>>=◌}
use mywork_automate.Expression.Values.{Runtime, Literal}
use mywork_automate.Expression.Lexer.{Token, eof, pipe, colon, ident, string, number}
use mywork_automate.Expression.Parser.{
  ExprNode, parse_primary, parse_pipe_arg, parse_args, parse_pipe, parse_pipes, parse_expr, at_end,
  parse_tokens,
}
use mywork_automate.Expression.Parser.Grammar.{
  Tokens, SpellsLiteral, SpellsPrimary, SpellsArgs, SpellsPipe, SpellsPipes, SpellsExpr,
}
use mywork_automate.Expression.Parser.Grammar.Head.{
  Yields, Yields-bind, Yields-cons, Reads, parse_primary-Yields,
}

module _ (R : Runtime) where
  -- An argument behind its colon.
  abbrev SpellsArg : Literal R → Tokens R → Tokens R → Type 0
  SpellsArg a ts rest = (t : Token R) × (ts ≡ colon ∷ t ∷ rest) × SpellsLiteral R a t

  parse_pipe_arg-Yields :
      (ts : Tokens R) (n : ℕ)
      → length ts ≤ n
      → Yields (Reads R SpellsArg (colon ∷ ts) n) (parse_pipe_arg R ts)
  unfolding parse_pipe_arg
  parse_pipe_arg-Yields (string s ∷ ts) n le = ((string s, refl, refl), omega arith)
  parse_pipe_arg-Yields (number raw x ∷ ts) n le = ((number raw x, refl, (raw, refl)), omega arith)
  parse_pipe_arg-Yields _ n le = λ e. cc

  parse_args-Yields :
      (fuel : ℕ) (ts : Tokens R) (n : ℕ)
      → length ts < fuel
      → length ts ≤ n
      → Yields (Reads R (SpellsArgs R) ts n) (parse_args R fuel ts)
  unfolding parse_args
  parse_args-Yields zero ts n lt le = absurd (omega arith)
  parse_args-Yields (suc fuel) (colon ∷ ts) n lt le =
      Yields-cons R SpellsArg (SpellsArgs R) (colon ∷ ts) (length ts) n (parse_pipe_arg R ts)
        (parse_args R fuel) (λ a more mid rest (t, e, l) all. (t, mid, e, l, all))
        (parse_pipe_arg-Yields ts (length ts) (omega arith))
        λ mid short. parse_args-Yields fuel mid n (omega arith) (omega arith)
  parse_args-Yields (suc fuel) _ n lt le = (refl, le)

  parse_pipe-Yields :
      (ts : Tokens R) (n : ℕ)
      → length ts ≤ n
      → Yields (Reads R (SpellsPipe R) (pipe ∷ ts) n) (parse_pipe R ts)
  unfolding parse_pipe
  parse_pipe-Yields (ident f ∷ ts) n le =
      Yields-bind (Reads R (SpellsArgs R) ts n) _ (parse_args R (suc (length ts)) ts) _
        (parse_args-Yields (suc (length ts)) ts n (omega arith) (omega arith))
        λ (args, rest) (all, fits). ((ts, refl, all), fits)
  parse_pipe-Yields _ n le = λ e. cc

  parse_pipes-Yields :
      (fuel : ℕ) (ts : Tokens R) (n : ℕ)
      → length ts < fuel
      → length ts ≤ n
      → Yields (Reads R (SpellsPipes R) ts n) (parse_pipes R fuel ts)
  unfolding parse_pipes
  parse_pipes-Yields zero ts n lt le = absurd (omega arith)
  parse_pipes-Yields (suc fuel) (pipe ∷ ts) n lt le =
      Yields-cons R (SpellsPipe R) (SpellsPipes R) (pipe ∷ ts) (length ts) n (parse_pipe R ts)
        (parse_pipes R fuel) (λ a more mid rest one all. (mid, one, all))
        (parse_pipe-Yields ts (length ts) (omega arith))
        λ mid short. parse_pipes-Yields fuel mid n (omega arith) (omega arith)
  parse_pipes-Yields (suc fuel) _ n lt le = (refl, le)

  -- The tokens up to `left` spell an expression.
  abbrev SpellsUpTo : ExprNode R → Tokens R → Tokens R → Type 0
  SpellsUpTo e ts left =
      (mid : Tokens R) × SpellsPrimary R e.primary ts mid × SpellsPipes R e.pipes mid left

  parse_expr-Yields : (ts : Tokens R) → Yields (λ r. SpellsUpTo r.0 ts r.1) (parse_expr R ts)
  unfolding parse_expr
  parse_expr-Yields ts =
      Yields-bind (Reads R (SpellsPrimary R) ts (length ts)) _ (parse_primary R ts) _
        (parse_primary-Yields R ts (length ts) (omega arith))
        λ (p, mid) (one, _).
          Yields-bind (Reads R (SpellsPipes R) mid (length mid)) _
            (parse_pipes R (suc (length mid)) mid) _
            (parse_pipes-Yields (suc (length mid)) mid (length mid) (omega arith) (omega arith))
            λ (ps, left) (all, _). (mid, one, all)

  at_end-Yields :
      (e : ExprNode R) (ts left : Tokens R)
      → SpellsUpTo e ts left
      → Yields (λ e'. SpellsExpr R e' ts) (at_end R e left)
  unfolding at_end
  at_end-Yields e ts (eof ∷ after) (mid, one, all) = (mid, after, one, all)
  at_end-Yields e ts _ h = λ same. cc

  whole-Yields :
      (ts : Tokens R)
      → Yields (λ e. SpellsExpr R e ts) (parse_expr R ts >>= λ (e, left). at_end R e left)
  whole-Yields ts =
      Yields-bind (λ r. SpellsUpTo r.0 ts r.1) (λ e. SpellsExpr R e ts) (parse_expr R ts)
        (λ (e, left). at_end R e left) (parse_expr-Yields ts)
        λ (e, left) spelt. at_end-Yields e ts left spelt

  -- Either the tokens spell the expression, or the error is one of the program's own.
  pub parse_tokens-Yields : (ts : Tokens R) → Yields (λ e. SpellsExpr R e ts) (parse_tokens R ts)
  unfolding parse_tokens
  parse_tokens-Yields (eof ∷ ts) = λ e. cc
  parse_tokens-Yields ts = whole-Yields ts
