-- ===== src/TemplateRender/Ends.antt =====
-- The loop of pkg/templaterender/templaterender.go ends on every template.
use Prim.Native.Nat.{ℕ, zero, suc, ◌+◌, ◌<◌, ◌≤◌}
use Prim.Native.Char.{Char, len_utf8}
use Prim.Native.String.{String, ◌++◌, len}
use mathlib.Core.Path.{◌≡◌, refl}
use mathlib.Core.Logic.{◌≢◌}
use mathlib.Core.Bool.{Bool, true, false, ◌&&◌}
use mathlib.Core.Option.{Option, none, some}
use native.Mathlib.Omega.{arith}
use text.Mathlib.Text.{◌==◌}
use mywork_automate.Prelude.{if◌then◌else◌}
use mywork_automate.Prelude.Chars.{size, trim_space}
use mywork_automate.Prelude.Results.{Result, ok, err, ◌>>=◌}
use mywork_automate.Expression.Values.{Checked}
use mywork_automate.TemplateRender.{
  RenderError, out_of_fuel, Rendered, is, cut_before, cut_close, opens, tail, prepend, or_failed,
  render_body, render_placeholder, escape_turn, placeholder_turn, render_from, render,
}

-- What follows the first `}}` is no longer than the text.
abbrev CutsTo : ℕ → Option (String × String) → Type 0
CutsTo n none = Unit {0}
CutsTo n (some r) = size r.1 ≤ n

CutsTo-before :
    (c : Char) (m n : ℕ) (o : Option (String × String))
    → m ≤ n
    → CutsTo m o
    → CutsTo n (cut_before c o)
CutsTo-before c m n none le h = tt
CutsTo-before c m n (some r) le h = omega arith

CutsTo-if :
    (b : Bool) (n : ℕ) (x y : Option (String × String))
    → CutsTo n x
    → CutsTo n y
    → CutsTo n (if b then x else y)
CutsTo-if true n x y hx hy = hx
CutsTo-if false n x y hx hy = hy

cut_close-CutsTo : (s : String) → CutsTo (size s) (cut_close s)
unfolding cut_close size
cut_close-CutsTo String.[] = tt
cut_close-CutsTo (String.◌∷◌ c String.[]) = tt
cut_close-CutsTo (String.◌∷◌ c (String.◌∷◌ d s)) =
    CutsTo-if (is b'}' c && is b'}' d) (suc (suc (size s))) _ _ (omega arith) (
      CutsTo-before c (suc (size s)) (suc (suc (size s))) (cut_close (String.◌∷◌ d s)) (omega arith)
        (cut_close-CutsTo (String.◌∷◌ d s)))

size-tail : (s : String) → size (tail s) ≤ size s
unfolding size
size-tail String.[] = omega arith
size-tail (String.◌∷◌ c s) = omega arith

abbrev Ends : {A : Type 0} → Result RenderError A → Type 0
Ends r = r ≢ err out_of_fuel

Ends-bind :
    {A B : Type 0} (r : Result RenderError A) (f : A → Result RenderError B)
    → Ends r
    → ((a : A) → r ≡ ok a → Ends (f a))
    → Ends (r >>= f)
Ends-bind (ok a) f h k = k a refl
Ends-bind (err e) f h k = λ same. h (ground arith)

Ends-if :
    {A : Type 0} (b : Bool) (x y : Result RenderError A)
    → Ends x
    → Ends y
    → Ends (if b then x else y)
Ends-if true x y hx hy = hx
Ends-if false x y hx hy = hy

prepend-Ends : (s : String) (r : Rendered) → Ends r → Ends (prepend s r)
prepend-Ends s r h = Ends-bind r (λ t. ok (s ++ t)) h (λ t e. cc)

module _ (eval : String → Checked String) where
  or_failed-Ends :
      (body : String) (offset : ℕ) (r : Checked String) → Ends (or_failed eval body offset r)
  or_failed-Ends body offset (ok t) = cc
  or_failed-Ends body offset (err e) = cc

  render_body-Ends : (offset : ℕ) (body : String) → Ends (render_body eval offset body)
  unfolding render_body
  render_body-Ends offset body =
      Ends-if (trim_space body == "") _ _ (cc) (or_failed-Ends body offset (eval (trim_space body)))

  -- What a placeholder that renders leaves.
  abbrev placed : ℕ → String → String → String → Result RenderError (String × ℕ × String)
  placed offset body after out = ok (out, offset + 4 + len body, after)

  left_behind :
      (r : Rendered) (offset : ℕ) (body after : String) {out left : String} {next : ℕ}
      → (r >>= placed offset body after) ≡ ok (out, next, left)
      → left ≡ after
  left_behind (ok t) offset body after h = ground arith
  left_behind (err e) offset body after h = absurd (cc)

  -- A loop that ends on texts below a size.
  abbrev EndsBelow : ℕ → (ℕ → String → Rendered) → Type 0
  EndsBelow n loop = (offset : ℕ) (s : String) → size s < n → Ends (loop offset s)

  placed-Ends :
      (loop : ℕ → String → Rendered) (n offset : ℕ) (rest : String) (cut : Option (String × String))
      → cut ≡ cut_close rest
      → EndsBelow n loop
      → size rest < n
      → Ends (placeholder_turn eval loop offset rest)
  placed-Ends loop n offset rest none e h lt =
      unfold placeholder_turn in rw (← e, placeholder_turn, render_placeholder) (cc)
  placed-Ends loop n offset rest (some (body, after)) e h lt =
      let short = rw (← e) at (cut_close-CutsTo rest) in
      unfold placeholder_turn in
      rw (← e, placeholder_turn, render_placeholder)
        (Ends-bind (render_body eval offset body >>= λ out. ok (out, offset + 4 + len body, after))
          _
          (Ends-bind (render_body eval offset body) _ (render_body-Ends offset body)
            (λ out _ e. cc))
          λ (out, next, left) made.
            let same = left_behind (render_body eval offset body) offset body after made in
            prepend-Ends out (loop next left) (h next left (rw same (omega arith))))

  escape_turn-Ends :
      (loop : ℕ → String → Rendered) (n offset : ℕ) (s : String)
      → EndsBelow n loop
      → size s < n
      → Ends (escape_turn eval loop offset s)
  unfolding escape_turn size
  escape_turn-Ends loop n offset String.[] h lt = prepend-Ends _ _ (h (offset + 1) "" (omega arith))
  escape_turn-Ends loop n offset (String.◌∷◌ d s) h lt =
      prepend-Ends _ _ (h (offset + (1 + len_utf8 d)) s (omega arith))

  render_from-Ends : (fuel : ℕ) → EndsBelow fuel (render_from eval fuel)
  unfolding render_from size
  render_from-Ends zero offset s lt = absurd (omega arith)
  render_from-Ends (suc fuel) offset String.[] lt = cc
  render_from-Ends (suc fuel) offset (String.◌∷◌ c s) lt =
      let loop = render_from-Ends fuel in
      Ends-if (is b'\\' c) _ _
        (escape_turn-Ends (render_from eval fuel) fuel offset s loop (omega arith))
        (Ends-if (opens c s) _ _
          (placed-Ends (render_from eval fuel) fuel offset (tail s) (cut_close (tail s)) refl loop
            (omega (arith, size-tail s)))
          (prepend-Ends (String.◌∷◌ c "") (render_from eval fuel (offset + len_utf8 c) s)
            (loop (offset + len_utf8 c) s (omega arith))))

  -- Rendering ends on every template, whatever the evaluator does with the bodies: one turn for each
  -- character and one more are enough, and there is a text or one of the program's own errors.
  render-ends : (tmpl : String) → render eval tmpl ≢ err out_of_fuel
  unfolding render
  render-ends tmpl = render_from-Ends (size tmpl + 1) 0 tmpl (omega arith)
