-- ===== src/Expression/Parser/Accepted.antt =====
-- `parse` of pkg/expression/parser.go: the lexer and the parser together, on texts.
use Prim.Native.String.{String}
use mathlib.Core.Path.{◌≡◌, refl, ◌∙◌, sym}
use mathlib.Core.Logic.{◌≢◌, ◌↔◌, inl, inr}
use mathlib.Core.List.{[], ◌∷◌, ◌++◌}
use native.Mathlib.Omega.{arith}
use mywork_automate.Prelude.{All}
use mywork_automate.Prelude.Results.{ok, err, Result-cases}
use mywork_automate.Expression.Values.{Runtime, Error, out_of_fuel}
use mywork_automate.Expression.Lexer.{eof, tokenize}
use mywork_automate.Expression.Lexer.Rendered.{IsToken, render, tokenize-render}
use mywork_automate.Expression.Lexer.Ends.{tokenize-ends}
use mywork_automate.Expression.Parser.{ExprNode, parse_tokens, parse}
use mywork_automate.Expression.Parser.Grammar.{Tokens, SpellsExpr}
use mywork_automate.Expression.Parser.Grammar.Sound.{parse_tokens-Yields}
use mywork_automate.Expression.Parser.Grammar.Complete.{parse_tokens_iff}

module _ (R : Runtime) where
  parse-eq :
      (src : String) (ts : Tokens R) → tokenize R src ≡ ok ts → parse R src ≡ parse_tokens R ts
  parse-eq src ts h = unfold parse in rw (h, parse)

  parse-failed : (src : String) (e : Error) → tokenize R src ≡ err e → parse R src ≡ err e
  parse-failed src e h = unfold parse in rw (h, parse)

  -- The text of any list of well-formed tokens parses to an expression exactly where the tokens and
  -- the end behind them spell that expression by the grammar: `primary ('|' pipe)*`, where a primary
  -- is a reference with accessors, a string or a number, and a pipe a name with literal arguments.
  pub parse-render_iff :
      (ts : Tokens R) (e : ExprNode R)
      → All (IsToken R) ts
      → (parse R (render ts) ≡ ok e) ↔ SpellsExpr R e (ts ++ eof ∷ [])
  parse-render_iff ts e h =
      rw (parse-eq (render ts) (ts ++ eof ∷ []) (tokenize-render R ts h))
        (parse_tokens_iff R (ts ++ eof ∷ []) e)

  -- Parsing ends on every text, with an expression or one of the program's own errors: the fuel of
  -- the lexer and of each loop of the parser is enough.
  pub parse-ends : (src : String) → parse R src ≢ err out_of_fuel
  parse-ends src = elim (Result-cases (tokenize R src)) [
    | inl (ts, read) ↦
        λ stuck. (rw (sym (parse-eq src ts read) ∙ stuck) at (parse_tokens-Yields R ts)) refl
    | inr (e, failed) ↦
        λ stuck. tokenize-ends R src (ground (arith, failed, parse-failed src e failed, stuck))
  ]
