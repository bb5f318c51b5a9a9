-- ===== src/Expression/Parser/Grammar/Head.antt =====
-- What the first half of pkg/expression/parser.go reads: accessors, references and primary values.
use Prim.Native.Nat.{ℕ, zero, suc, ◌<◌, ◌≤◌}
use Prim.Native.String.{String}
use mathlib.Core.Path.{◌≡◌, refl}
use mathlib.Core.Logic.{◌≢◌}
use mathlib.Core.Bool.{Bool, true, false}
use mathlib.Core.List.{List, ◌∷◌}
use native.Mathlib.Omega.{arith}
use package.text.Mathlib.Text.{◌==◌}
use package.text.Mathlib.TextEquality.{eq_iff}
use mywork_automate.Prelude.{length, if◌then◌else◌}
use mywork_automate.Prelude.Results.{ok, err, ◌>>=◌}
use mywork_automate.Expression.Values.{Runtime, Checked, out_of_fuel}
use mywork_automate.Expression.Lexer.{dollar, dot, lbrack, rbrack, ident, string, number}
use mywork_automate.Expression.Parser.{
  Accessor, key, index, Root, node, flow, vars, is_integral, close_index, parse_index, parse_field,
  parse_accessors, with_accessors, close_node, node_name, parse_node_ref, parse_ref, parse_primary,
}
use mywork_automate.Expression.Parser.Grammar.{
  Tokens, SpellsAccessor, SpellsAccessors, SpellsRoot, SpellsRef, SpellsPrimary,
}

-- A value with a property, or an error of the program's own.
abbrev pub Yields : {A : Type 0} → (A → Type 0) → Checked A → Type 0
Yields P (ok a) = P a
Yields P (err e) = e ≢ out_of_fuel

pub Yields-bind :
    {A B : Type 0} (P : A → Type 0) (Q : B → Type 0) (r : Checked A) (f : A → Checked B)
    → Yields P r
    → ((a : A) → P a → Yields Q (f a))
    → Yields Q (r >>= f)
Yields-bind P Q (ok a) f h k = k a h
Yields-bind P Q (err e) f h k = h

pub Yields-if :
    {A : Type 0} (P : A → Type 0) (b : Bool) (x y : Checked A)
    → (b ≡ true → Yields P x)
    → (b ≡ false → Yields P y)
    → Yields P (if b then x else y)
Yields-if P true x y hx hy = hx refl
Yields-if P false x y hx hy = hy refl

module _ (R : Runtime) where
  -- What was read spells the value, and what is left is no longer than a bound.
  abbrev pub Reads :
      {A : Type 0} → (A → Tokens R → Tokens R → Type 0) → Tokens R → ℕ → A × Tokens R → Type 0
  Reads S ts n r = S r.0 ts r.1 × (length r.1 ≤ n)

  parse_field-Yields :
      (ts : Tokens R) (n : ℕ)
      → length ts ≤ n
      → Yields (Reads (SpellsAccessor R) (dot ∷ ts) n) (parse_field R ts)
  unfolding parse_field
  parse_field-Yields (ident m ∷ ts) n le = (refl, omega arith)
  parse_field-Yields _ n le = λ e. cc

  close_index-Yields :
      (a : Accessor) (start ts : Tokens R) (n : ℕ)
      → length ts ≤ n
      → ((rest : Tokens R) → ts ≡ rbrack ∷ rest → SpellsAccessor R a start rest)
      → Yields (Reads (SpellsAccessor R) start n) (close_index R a ts)
  unfolding close_index
  close_index-Yields a start (rbrack ∷ ts) n le h = (h ts refl, omega arith)
  close_index-Yields a start _ n le h = λ e. cc

  parse_index-Yields :
      (ts : Tokens R) (n : ℕ)
      → length ts ≤ n
      → Yields (Reads (SpellsAccessor R) (lbrack ∷ ts) n) (parse_index R ts)
  unfolding parse_index
  parse_index-Yields (string s ∷ ts) n le =
      close_index-Yields (key s) (lbrack ∷ string s ∷ ts) ts n (omega arith) (λ rest e. rw e)
  parse_index-Yields (number raw x ∷ ts) n le =
      Yields-if (Reads (SpellsAccessor R) (lbrack ∷ number raw x ∷ ts) n) (is_integral R x) _ _
        (λ whole.
          close_index-Yields (index (R.to_int x)) (lbrack ∷ number raw x ∷ ts) ts n (omega arith)
            (λ rest e. (raw, x, rw e, whole, refl)))
        (λ _ e. cc)
  parse_index-Yields _ n le = λ e. cc

  -- A turn of a loop that reads an item and then goes on.
  pub Yields-cons :
      {A : Type 0} (S : A → Tokens R → Tokens R → Type 0)
      (Ss : List A → Tokens R → Tokens R → Type 0) (start : Tokens R) (m n : ℕ)
      (r : Checked (A × Tokens R)) (loop : Tokens R → Checked (List A × Tokens R))
      → ((a : A) (more : List A) (mid rest : Tokens R)
          → S a start mid
          → Ss more mid rest
          → Ss (a ∷ more) start rest)
      → Yields (Reads S start m) r
      → ((mid : Tokens R) → length mid ≤ m → Yields (Reads Ss mid n) (loop mid))
      → Yields (Reads Ss start n) (r >>= λ (a, mid). loop mid >>= λ (xs, left). ok (a ∷ xs, left))
  Yields-cons S Ss start m n r loop join one loops =
      Yields-bind (Reads S start m) _ r _ one λ (a, mid) (first, short).
        Yields-bind (Reads Ss mid n) _ (loop mid) _ (loops mid short)
          λ (more, rest) (all, fits). (join a more mid rest first all, fits)

  parse_accessors-Yields :
      (fuel : ℕ) (ts : Tokens R) (n : ℕ)
      → length ts < fuel
      → length ts ≤ n
      → Yields (Reads (SpellsAccessors R) ts n) (parse_accessors R fuel ts)
  unfolding parse_accessors
  parse_accessors-Yields zero ts n lt le = absurd (omega arith)
  parse_accessors-Yields (suc fuel) (dot ∷ ts) n lt le =
      Yields-cons (SpellsAccessor R) (SpellsAccessors R) (dot ∷ ts) (length ts) n (parse_field R ts)
        (parse_accessors R fuel) (λ a more mid rest one all. (mid, one, all))
        (parse_field-Yields ts (length ts) (omega arith))
        λ mid short. parse_accessors-Yields fuel mid n (omega arith) (omega arith)
  parse_accessors-Yields (suc fuel) (lbrack ∷ ts) n lt le =
      Yields-cons (SpellsAccessor R) (SpellsAccessors R) (lbrack ∷ ts) (length ts) n
        (parse_index R ts) (parse_accessors R fuel) (λ a more mid rest one all. (mid, one, all))
        (parse_index-Yields ts (length ts) (omega arith))
        λ mid short. parse_accessors-Yields fuel mid n (omega arith) (omega arith)
  parse_accessors-Yields (suc fuel) _ n lt le = (refl, le)

  with_accessors-Yields :
      (r : Root) (start ts : Tokens R) (n : ℕ)
      → length ts ≤ n
      → SpellsRoot R r start ts
      → Yields (Reads (SpellsRef R) start n) (with_accessors R r ts)
  unfolding with_accessors
  with_accessors-Yields r start ts n le root =
      Yields-bind (Reads (SpellsAccessors R) ts n) _ (parse_accessors R (suc (length ts)) ts) _
        (parse_accessors-Yields (suc (length ts)) ts n (omega arith) le)
        λ (more, rest) (all, fits). ((ts, root, all), fits)

  close_node-Yields :
      (m : String) (ts : Tokens R) (n : ℕ)
      → length ts ≤ n
      → Yields (Reads (SpellsRef R) (ident "node" ∷ lbrack ∷ string m ∷ ts) n) (close_node R m ts)
  unfolding close_node
  close_node-Yields m (rbrack ∷ ts) n le =
      with_accessors-Yields (node m) (ident "node" ∷ lbrack ∷ string m ∷ rbrack ∷ ts) ts n
        (omega arith) refl
  close_node-Yields m _ n le = λ e. cc

  node_name-Yields :
      (ts : Tokens R) (n : ℕ)
      → length ts ≤ n
      → Yields (Reads (SpellsRef R) (ident "node" ∷ lbrack ∷ ts) n) (node_name R ts)
  unfolding node_name
  node_name-Yields (string m ∷ ts) n le = close_node-Yields m ts n (omega arith)
  node_name-Yields _ n le = λ e. cc

  parse_node_ref-Yields :
      (ts : Tokens R) (n : ℕ)
      → length ts ≤ n
      → Yields (Reads (SpellsRef R) (ident "node" ∷ ts) n) (parse_node_ref R ts)
  unfolding parse_node_ref
  parse_node_ref-Yields (lbrack ∷ ts) n le = node_name-Yields ts n (omega arith)
  parse_node_ref-Yields _ n le = λ e. cc

  parse_ref-Yields :
      (ts : Tokens R) (n : ℕ) → length ts ≤ n → Yields (Reads (SpellsRef R) ts n) (parse_ref R ts)
  unfolding parse_ref
  parse_ref-Yields (ident head ∷ ts) n le =
      let P = Reads (SpellsRef R) (ident head ∷ ts) n in
      Yields-if P (head == "node") _ _
        (λ h. rw ((eq_iff head "node").0 h) (parse_node_ref-Yields ts n (omega arith)))
        (λ _.
          Yields-if P (head == "flow") _ _
            (λ h.
              with_accessors-Yields flow (ident head ∷ ts) ts n (omega arith)
                (rw ((eq_iff head "flow").0 h)))
            (λ _.
              Yields-if P (head == "vars") _ _
                (λ h.
                  with_accessors-Yields vars (ident head ∷ ts) ts n (omega arith)
                    (rw ((eq_iff head "vars").0 h)))
                (λ _ e. cc)))
  parse_ref-Yields _ n le = λ e. cc

  pub parse_primary-Yields :
      (ts : Tokens R) (n : ℕ)
      → length ts ≤ n
      → Yields (Reads (SpellsPrimary R) ts n) (parse_primary R ts)
  unfolding parse_primary
  parse_primary-Yields (dollar ∷ ts) n le =
      Yields-bind (Reads (SpellsRef R) ts n) _ (parse_ref R ts) _
        (parse_ref-Yields ts n (omega arith)) λ (r, rest) (spelt, fits). ((ts, refl, spelt), fits)
  parse_primary-Yields (string s ∷ ts) n le = ((string s, refl, refl), omega arith)
  parse_primary-Yields (number raw x ∷ ts) n le = ((number raw x, refl, (raw, refl)), omega arith)
  parse_primary-Yields _ n le = λ e. cc
