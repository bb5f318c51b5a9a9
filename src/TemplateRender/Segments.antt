-- ===== src/TemplateRender/Segments.antt =====
-- Templates printed from segments, against pkg/templaterender/templaterender.go.
use Prim.Native.Nat.{ℕ, zero, suc, ◌+◌, ◌<◌}
use Prim.Native.Char.{Char, len_utf8}
use Prim.Native.String.{String, ◌++◌, len}
use Prim.Native.String.append as Append
use mathlib.Core.Path.{◌≡◌, refl, ap, sym, ◌∙◌}
use mathlib.Core.Logic.{inl, inr}
use mathlib.Core.Bool.{Bool, true, false, not, ◌||◌}
use mathlib.Core.Option.{some}
use mathlib.Core.List.{List, [], ◌∷◌}
use native.Mathlib.Omega.{arith}
use mywork_automate.Prelude.{if◌then◌else◌, Bool-cases, All}
use mywork_automate.Prelude.Chars.{size, size-append, all_chars}
use mywork_automate.Prelude.Results.{Result, ok, err, ◌>>=◌}
use mywork_automate.Expression.Values.{Checked}
use mywork_automate.TemplateRender.{
  Rendered, is, cut_before, cut_close, prepend, render_body, render_placeholder, placeholder_turn,
  render_from, render,
}

-- A piece of a template: a literal text, or the body of a placeholder.
pub data Segment : Type 0 where
  literal : String → Segment
  placeholder : String → Segment

abbrev pub is_special : Char → Bool
is_special c = is b'{' c || is b'}' c || is b'\\' c

-- A literal text with a backslash before each brace and each backslash.
unfoldable pub escape_onto : String → String → String
escape_onto String.[] rest = rest
escape_onto (String.◌∷◌ c s) rest =
    let more = String.◌∷◌ c (escape_onto s rest) in
    if is_special c then String.◌∷◌ "\\" more else more

unfoldable pub print_onto : Segment → String → String
unfolding escape_onto
print_onto (literal s) rest = escape_onto s rest
print_onto (placeholder body) rest =
    String.◌∷◌ "{" (String.◌∷◌ "{" (body ++ String.◌∷◌ "}" (String.◌∷◌ "}" rest)))

unfoldable pub print : List Segment → String
unfolding print_onto
print [] = ""
print (x ∷ xs) = print_onto x (print xs)

-- A body that the template can hold: the search for its end stops at it.
abbrev pub IsSegment : Segment → Type 0
IsSegment (literal s) = Unit {0}
IsSegment (placeholder body) = all_chars (λ c. not (is b'}' c)) body ≡ true

-- The bytes of an escaped literal text.
unfoldable pub escaped_len : String → ℕ
escaped_len String.[] = 0
escaped_len (String.◌∷◌ c s) = (if is_special c then 1 else 0) + (len_utf8 c + escaped_len s)

cut_close_plain :
    (c : Char) (s : String)
    → not (is b'}' c) ≡ true
    → cut_close (String.◌∷◌ c s) ≡ cut_before c (cut_close s)
unfolding cut_close
cut_close_plain c String.[] h = refl
cut_close_plain c (String.◌∷◌ d s) h = ground arith

cut_close-body :
    (body rest : String)
    → all_chars (λ c. not (is b'}' c)) body ≡ true
    → cut_close (body ++ String.◌∷◌ "}" (String.◌∷◌ "}" rest)) ≡ some (body, rest)
unfolding all_chars
cut_close-body String.[] rest h = rw (Append.nil) (unfold cut_close in refl)
cut_close-body (String.◌∷◌ c body) rest h = rw (Append.cons) (
    cut_close_plain c (body ++ String.◌∷◌ "}" (String.◌∷◌ "}" rest)) (ground arith)
    ∙ ap (cut_before c) (cut_close-body body rest (ground arith)))

prepend_nothing : (r : Rendered) → prepend "" r ≡ r
prepend_nothing (ok t) = rw (Append.nil)
prepend_nothing (err e) = refl

prepend_char :
    (c : Char) (s : String) (r : Rendered)
    → prepend (String.◌∷◌ c "") (prepend s r) ≡ prepend (String.◌∷◌ c s) r
prepend_char c s (ok t) = rw (Append.cons) (rw (Append.nil) (rw (Append.cons)))
prepend_char c s (err e) = refl

>>=_assoc :
    {E A B C : Type 0} (r : Result E A) (f : A → Result E B) (g : B → Result E C)
    → ((r >>= f) >>= g) ≡ (r >>= λ a. f a >>= g)
>>=_assoc (ok a) f g = refl
>>=_assoc (err e) f g = refl

module _ (eval : String → Checked String) where
  -- What segments render, from an offset: literal texts as they are and the values of the bodies, up
  -- to the first body that is blank or fails.
  unfoldable pub rendered : ℕ → List Segment → Rendered
  unfolding render_body escaped_len
  rendered offset [] = ok ""
  rendered offset (literal s ∷ xs) = prepend s (rendered (offset + escaped_len s) xs)
  rendered offset (placeholder body ∷ xs) =
      render_body eval offset body >>= λ out. prepend out (rendered (offset + 4 + len body) xs)

  -- The loop on a text gives what `value` says, from every offset.
  abbrev Renders : String → (ℕ → Rendered) → Type 0
  Renders s value =
      (fuel offset : ℕ) → size s < fuel → render_from eval fuel offset s ≡ value offset

  render_from_special :
      (fuel offset : ℕ) (c : Char) (s : String)
      → is_special c ≡ true
      → render_from eval (suc fuel) offset (String.◌∷◌ "\\" (String.◌∷◌ c s))
        ≡ prepend (String.◌∷◌ c "") (render_from eval fuel (offset + (1 + len_utf8 c)) s)
  unfolding render_from
  render_from_special fuel offset c s h = rw h

  render_from_plain :
      (fuel offset : ℕ) (c : Char) (s : String)
      → is_special c ≡ false
      → render_from eval (suc fuel) offset (String.◌∷◌ c s)
        ≡ prepend (String.◌∷◌ c "") (render_from eval fuel (offset + len_utf8 c) s)
  render_from_plain fuel offset c String.[] h = unfold render_from in ground arith
  render_from_plain fuel offset c (String.◌∷◌ d s) h = unfold render_from in ground arith

  Renders-special :
      (c : Char) (s : String) (value : ℕ → Rendered)
      → is_special c ≡ true
      → Renders s value
      → Renders
          (String.◌∷◌ "\\" (String.◌∷◌ c s))
          (λ offset. prepend (String.◌∷◌ c "") (value (offset + (1 + len_utf8 c))))
  unfolding size
  Renders-special c s value special h zero offset lt = absurd (omega arith)
  Renders-special c s value special h (suc fuel) offset lt =
      render_from_special fuel offset c s special
      ∙ ap (prepend (String.◌∷◌ c "")) (h fuel (offset + (1 + len_utf8 c)) (omega arith))

  Renders-plain :
      (c : Char) (s : String) (value : ℕ → Rendered)
      → is_special c ≡ false
      → Renders s value
      → Renders (String.◌∷◌ c s) (λ offset. prepend (String.◌∷◌ c "") (value (offset + len_utf8 c)))
  unfolding size
  Renders-plain c s value plain h zero offset lt = absurd (omega arith)
  Renders-plain c s value plain h (suc fuel) offset lt =
      render_from_plain fuel offset c s plain
      ∙ ap (prepend (String.◌∷◌ c "")) (h fuel (offset + len_utf8 c) (omega arith))

  Renders-literal :
      (s rest : String) (value : ℕ → Rendered)
      → Renders rest value
      → Renders (escape_onto s rest) (λ offset. prepend s (value (offset + escaped_len s)))
  unfolding escape_onto escaped_len
  Renders-literal String.[] rest value h fuel offset lt =
      h fuel offset lt ∙ ap value (omega arith) ∙ sym (prepend_nothing (value (offset + 0)))
  Renders-literal (String.◌∷◌ c s) rest value h fuel offset lt =
      let inner = Renders-literal s rest value h in
      elim (Bool-cases (is_special c)) [
        | inl special ↦ rw special (
            Renders-special c (escape_onto s rest) _ special inner fuel offset (rw special at lt)
            ∙ prepend_char c s _
            ∙ ap (λ o. prepend (String.◌∷◌ c s) (value o)) (omega arith))
        | inr plain ↦ rw plain (
            Renders-plain c (escape_onto s rest) _ plain inner fuel offset (rw plain at lt)
            ∙ prepend_char c s _
            ∙ ap (λ o. prepend (String.◌∷◌ c s) (value o)) (omega arith))
      ]

  placeholder_turn-body :
      (loop : ℕ → String → Rendered) (offset : ℕ) (body rest : String)
      → all_chars (λ c. not (is b'}' c)) body ≡ true
      → placeholder_turn eval loop offset (body ++ String.◌∷◌ "}" (String.◌∷◌ "}" rest))
        ≡ (render_body eval offset body >>= λ out. prepend out (loop (offset + 4 + len body) rest))
  placeholder_turn-body loop offset body rest closed =
      unfold placeholder_turn in
      rw (cut_close-body body rest closed, placeholder_turn, render_placeholder)
        (>>=_assoc (render_body eval offset body) (λ out. ok (out, offset + 4 + len body, rest))
          (λ (out, next, after). prepend out (loop next after)))

  render_from_open :
      (fuel offset : ℕ) (s : String)
      → render_from eval (suc fuel) offset (String.◌∷◌ "{" (String.◌∷◌ "{" s))
        ≡ placeholder_turn eval (render_from eval fuel) offset s
  unfolding render_from
  render_from_open fuel offset s = refl

  Renders-placeholder :
      (body rest : String) (value : ℕ → Rendered)
      → all_chars (λ c. not (is b'}' c)) body ≡ true
      → Renders rest value
      → Renders (print_onto (placeholder body) rest) (λ offset.
        render_body eval offset body >>= λ out. prepend out (value (offset + 4 + len body)))
  unfolding print_onto size
  Renders-placeholder body rest value closed h zero offset lt = absurd (omega arith)
  Renders-placeholder body rest value closed h (suc fuel) offset lt =
      let behind = String.◌∷◌ "}" (String.◌∷◌ "}" rest) in
      let go = h fuel (offset + 4 + len body) (omega (arith, size-append body behind)) in
      render_from_open fuel offset (body ++ behind)
      ∙ placeholder_turn-body (render_from eval fuel) offset body rest closed
      ∙ ap (λ r. render_body eval offset body >>= λ out. prepend out r) go

  Renders-print :
      (xs : List Segment) → All IsSegment xs → Renders (print xs) (λ offset. rendered offset xs)
  unfolding print rendered
  Renders-print [] h zero offset lt = absurd (omega arith)
  Renders-print [] h (suc fuel) offset lt = unfold render_from in refl
  Renders-print (literal s ∷ xs) h fuel offset lt =
      Renders-literal s (print xs) (λ o. rendered o xs) (Renders-print xs h.1) fuel offset lt
  Renders-print (placeholder body ∷ xs) h fuel offset lt =
      Renders-placeholder body (print xs) (λ o. rendered o xs) h.0 (Renders-print xs h.1) fuel
        offset lt

  -- A template printed from segments, each literal text escaped and each body in its delimiters,
  -- renders what the segments mean: the literal texts unchanged, whatever braces and backslashes they
  -- hold, and between them the values of the trimmed bodies. The first body that is blank or does not
  -- evaluate gives the error, with its byte offset in the template. A body holds no `}`.
  pub render-print : (xs : List Segment) → All IsSegment xs → render eval (print xs) ≡ rendered 0 xs
  unfolding render
  render-print xs h = Renders-print xs h (size (print xs) + 1) 0 (omega arith)
