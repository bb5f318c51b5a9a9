-- ===== src/Expression/Parser/Grammar.antt =====
-- The grammar that the comments of pkg/expression/parser.go state, as relations between a syntax
-- tree, the tokens that spell it, and the tokens behind them.
pub mod Head
pub mod Sound
pub mod Complete
use Prim.Native.String.{String}
use mathlib.Core.Path.{◌≡◌}
use mathlib.Core.Bool.{Bool, true, false}
use mathlib.Core.List.{List, [], ◌∷◌}
use mywork_automate.Expression.Values.{Runtime, Literal, quoted}
use mywork_automate.Expression.Lexer.{
  Token, eof, dollar, dot, lbrack, rbrack, pipe, colon, ident, string, number,
}
use mywork_automate.Expression.Parser.{
  Accessor, name, key, index, Root, node, flow, vars, RefNode, Primary, ref, literal, PipeNode,
  ExprNode, is_integral,
}

module _ (R : Runtime) where
  abbrev pub Tokens : Type 0
  Tokens = List (Token R)

  abbrev pub SpellsLiteral : Literal R → Token R → Type 0
  SpellsLiteral (quoted s) t = t ≡ string s
  SpellsLiteral (Literal.number x) t = (raw : String) × (t ≡ number raw x)

  -- '.' ident | '[' (string | number) ']'
  abbrev pub SpellsAccessor : Accessor → Tokens → Tokens → Type 0
  SpellsAccessor (name n) ts rest = ts ≡ dot ∷ ident n ∷ rest
  SpellsAccessor (key k) ts rest = ts ≡ lbrack ∷ string k ∷ rbrack ∷ rest
  SpellsAccessor (index i) ts rest =
      (raw : String) × (x : R.Float) × (ts ≡ lbrack ∷ number raw x ∷ rbrack ∷ rest)
      × (is_integral R x ≡ true)
      × (i ≡ R.to_int x)

  abbrev pub SpellsAccessors : List Accessor → Tokens → Tokens → Type 0
  SpellsAccessors [] ts rest = ts ≡ rest
  SpellsAccessors (a ∷ more) ts rest =
      (mid : Tokens) × SpellsAccessor a ts mid × SpellsAccessors more mid rest

  -- 'node' '[' string ']' | 'flow' | 'vars'
  abbrev pub SpellsRoot : Root → Tokens → Tokens → Type 0
  SpellsRoot (node n) ts rest = ts ≡ ident "node" ∷ lbrack ∷ string n ∷ rbrack ∷ rest
  SpellsRoot flow ts rest = ts ≡ ident "flow" ∷ rest
  SpellsRoot vars ts rest = ts ≡ ident "vars" ∷ rest

  abbrev pub SpellsRef : RefNode → Tokens → Tokens → Type 0
  SpellsRef r ts rest =
      (mid : Tokens) × SpellsRoot r.root ts mid × SpellsAccessors r.accessors mid rest

  -- '$' reference | string | number
  abbrev pub SpellsPrimary : Primary R → Tokens → Tokens → Type 0
  SpellsPrimary (ref r) ts rest = (mid : Tokens) × (ts ≡ dollar ∷ mid) × SpellsRef r mid rest
  SpellsPrimary (literal l) ts rest = (t : Token R) × (ts ≡ t ∷ rest) × SpellsLiteral l t

  -- ( ':' arg )*
  abbrev pub SpellsArgs : List (Literal R) → Tokens → Tokens → Type 0
  SpellsArgs [] ts rest = ts ≡ rest
  SpellsArgs (a ∷ more) ts rest =
      (t : Token R) × (mid : Tokens) × (ts ≡ colon ∷ t ∷ mid)
      × SpellsLiteral a t
      × SpellsArgs more mid rest

  -- '|' ident args
  abbrev pub SpellsPipe : PipeNode R → Tokens → Tokens → Type 0
  SpellsPipe p ts rest =
      (mid : Tokens) × (ts ≡ pipe ∷ ident p.fn ∷ mid) × SpellsArgs p.args mid rest

  abbrev pub SpellsPipes : List (PipeNode R) → Tokens → Tokens → Type 0
  SpellsPipes [] ts rest = ts ≡ rest
  SpellsPipes (p ∷ more) ts rest = (mid : Tokens) × SpellsPipe p ts mid × SpellsPipes more mid rest

  -- A whole expression, up to the end.
  abbrev pub SpellsExpr : ExprNode R → Tokens → Type 0
  SpellsExpr e ts =
      (mid after : Tokens) × SpellsPrimary e.primary ts mid × SpellsPipes e.pipes mid (eof ∷ after)
