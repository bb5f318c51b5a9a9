-- ===== src/Expression/Lexer/Ends.antt =====
-- The loop of the lexer of pkg/expression/lexer.go ends: each token takes a character.
use Prim.Native.Nat.{ℕ, zero, suc, ◌+◌, ◌<◌, ◌≤◌}
use Prim.Native.Char.{Char}
use Prim.Native.String.{String}
use mathlib.Core.Path.{◌≡◌, refl}
use mathlib.Core.Logic.{◌⊎◌, ◌≢◌, inl, inr}
use mathlib.Core.Bool.{Bool, true, false}
use mathlib.Core.List.{List, ◌∷◌}
use native.Mathlib.Omega.{arith}
use mywork_automate.Prelude.{ltb, if◌then◌else◌, Bool-cases}
use mywork_automate.Prelude.Chars.{size}
use mywork_automate.Prelude.Results.{ok, err, ◌>>=◌, Result-cases}
use mywork_automate.Expression.Values.{Runtime, Checked, out_of_fuel}
use mywork_automate.Expression.Lexer.{
  Token, is, is_ident_start, is_ident_part, is_number_part, starts_number, dots, is_eof, skip_space,
  before, span, unescaped, then_before, Scanned, scan_string, string_token, number_token,
  scan_number, scan_ident, next_at, next_of, next, tokens_from, tokenize,
}

size-skip_space : (s : String) → size (skip_space s) ≤ size s
unfolding skip_space size
size-skip_space String.[] = omega arith
size-skip_space (String.◌∷◌ c s) = ground (arith, size-skip_space s)

size-span : (p : Char → Bool) (s : String) → size (span p s).1 ≤ size s
unfolding span size
size-span p String.[] = omega arith
size-span p (String.◌∷◌ c s) = ground (arith, size-span p s)

abbrev ScansWithin : ℕ → Scanned → Type 0
ScansWithin n (ok r) = size r.1 ≤ n
ScansWithin n (err e) = e ≢ out_of_fuel

ScansWithin-before :
    (c : Char) (m n : ℕ) (r : Scanned)
    → m ≤ n
    → ScansWithin m r
    → ScansWithin n (then_before (before c) r)
ScansWithin-before c m n (ok r) le h = omega arith
ScansWithin-before c m n (err e) le h = h

ScansWithin-unescaped :
    (c : Char) (m n : ℕ) (r : Scanned)
    → m ≤ n
    → ScansWithin m r
    → ScansWithin n (then_before (unescaped c) r)
ScansWithin-unescaped c m n (ok r) le h = ground arith
ScansWithin-unescaped c m n (err e) le h = h

ScansWithin-if :
    (b : Bool) (n : ℕ) (x y : Scanned)
    → ScansWithin n x
    → ScansWithin n y
    → ScansWithin n (if b then x else y)
ScansWithin-if true n x y hx hy = hx
ScansWithin-if false n x y hx hy = hy

scan_string-ScansWithin : (s : String) → ScansWithin (size s) (scan_string s)
unfolding scan_string size
scan_string-ScansWithin String.[] = λ e. cc
scan_string-ScansWithin (String.◌∷◌ c String.[]) =
    ScansWithin-if (is b'\\' c) 1 _ _ (λ e. cc)
      (ScansWithin-if (is b'"' c) 1 _ _ (omega arith) (λ e. cc))
scan_string-ScansWithin (String.◌∷◌ c (String.◌∷◌ d s)) =
    let n = suc (suc (size s)) in
    ScansWithin-if (is b'\\' c) n _ _
      (ScansWithin-unescaped d (size s) n (scan_string s) (omega arith) (scan_string-ScansWithin s))
      (ScansWithin-if (is b'"' c) n _ _ (omega arith) (
        ScansWithin-before c (suc (size s)) n (scan_string (String.◌∷◌ d s)) (omega arith)
          (scan_string-ScansWithin (String.◌∷◌ d s))))

-- A step of the lexer takes a character or is at the end.
abbrev Takes : {R : Runtime} → ℕ → Checked (Token R × String) → Type 0
Takes n (ok r) = (is_eof r.0 ≡ true) ⊎ (size r.1 < n)
Takes n (err e) = e ≢ out_of_fuel

module _ (R : Runtime) where
  Takes-if :
      (b : Bool) (n : ℕ) (x y : Checked (Token R × String))
      → Takes n x
      → Takes n y
      → Takes n (if b then x else y)
  Takes-if true n x y hx hy = hx
  Takes-if false n x y hx hy = hy

  string_token-Takes :
      (n : ℕ) (r : Scanned) → ScansWithin n r → Takes (suc n) (r >>= string_token R)
  unfolding string_token
  string_token-Takes n (ok r) h = inr (omega arith)
  string_token-Takes n (err e) h = h

  number_token-Takes : (n : ℕ) (r : String × String) → size r.1 < n → Takes n (number_token R r)
  unfolding number_token
  number_token-Takes n r lt = Takes-if (ltb 1 (dots r.0)) n _ _ (λ e. cc) (inr lt)

  scan_number-Takes : (c : Char) (s : String) → Takes (suc (size s)) (scan_number R c s)
  unfolding scan_number
  scan_number-Takes c s =
      number_token-Takes (suc (size s)) (before c (span is_number_part s))
        (omega (arith, size-span is_number_part s))

  scan_ident-Takes : (c : Char) (s : String) → Takes (suc (size s)) (scan_ident R c s)
  unfolding scan_ident
  scan_ident-Takes c s = inr (omega (arith, size-span is_ident_part s))

  next_at-Takes : (c : Char) (s : String) → Takes (suc (size s)) (next_at R c s)
  unfolding next_at
  next_at-Takes c s =
      let n = suc (size s) in
      let simple : size s < n = omega arith in
      Takes-if (is b'$' c) n _ _ (inr simple) (
        Takes-if (is b'.' c) n _ _ (inr simple) (
          Takes-if (is b'[' c) n _ _ (inr simple) (
            Takes-if (is b']' c) n _ _ (inr simple) (
              Takes-if (is b'|' c) n _ _ (inr simple) (
                Takes-if (is b':' c) n _ _ (inr simple) (
                  Takes-if (is b'"' c) n _ _
                    (string_token-Takes (size s) (scan_string s) (scan_string-ScansWithin s))
                    (Takes-if (starts_number c s) n _ _ (scan_number-Takes c s)
                      (Takes-if (is_ident_start c) n _ _ (scan_ident-Takes c s) (λ e. cc)))))))))

  next_of-Takes : (s : String) → Takes (size s) (next_of R s)
  unfolding next_of size is_eof
  next_of-Takes String.[] = inl refl
  next_of-Takes (String.◌∷◌ c s) = next_at-Takes c s

  Takes-weaken : (m n : ℕ) (r : Checked (Token R × String)) → m ≤ n → Takes m r → Takes n r
  Takes-weaken m n (ok r) le h = ground arith
  Takes-weaken m n (err e) le h = h

  next-Takes : (s : String) → Takes (size s) (next R s)
  unfolding next
  next-Takes s =
      Takes-weaken (size (skip_space s)) (size s) (next_of R (skip_space s)) (size-skip_space s)
        (next_of-Takes (skip_space s))

  then-ends :
      (t : Token R) (r : Checked (List (Token R)))
      → r ≢ err out_of_fuel
      → (r >>= λ ts. ok (t ∷ ts)) ≢ err out_of_fuel
  then-ends t (ok ts) h = cc
  then-ends t (err e) h = ground arith

  tokens_from-ends :
      (fuel : ℕ) (s : String) → size s < fuel → tokens_from R fuel s ≢ err out_of_fuel
  unfolding tokens_from
  tokens_from-ends zero s lt = absurd (omega arith)
  tokens_from-ends (suc fuel) s lt = elim (Result-cases (next R s)) [
    | inr (e, failed) ↦
        rw failed (let own = rw failed at (next-Takes s) in λ same. own (ground arith))
    | inl ((t, rest), read) ↦ rw read (elim (Bool-cases (is_eof t)) [
      | inl last ↦ rw last (cc)
      | inr more ↦ rw more (
          then-ends t (tokens_from R fuel rest)
            (tokens_from-ends fuel rest (let shorter = rw read at (next-Takes s) in ground arith)))
    ])
  ]

  -- The lexer ends on every text: it gives tokens or an error of its own, and the fuel of one turn
  -- for each character and one more never runs out.
  pub tokenize-ends : (src : String) → tokenize R src ≢ err out_of_fuel
  unfolding tokenize
  tokenize-ends src = tokens_from-ends (size src + 1) src (omega arith)
