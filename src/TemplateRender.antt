-- ===== src/TemplateRender.antt =====
-- pkg/templaterender/templaterender.go: `{{ ... }}` placeholders in a text. `tmpl[i:]` is the text
-- that is left, and `offset` is `i`, in bytes.
pub mod Segments
pub mod Ends
mod Tests
use Prim.Native.Nat.{ℕ, zero, suc, ◌+◌}
use Prim.Native.Char.{Char, len_utf8}
use Prim.Native.String.{String, ◌++◌, len}
use mathlib.Core.Bool.{Bool, true, false, ◌&&◌, ◌||◌}
use mathlib.Core.Option.{Option, none, some}
use text.Mathlib.Text.{◌==◌}
use mywork_automate.Prelude.{if◌then◌else◌}
use mywork_automate.Prelude.Chars.{within, trim_space, size}
use mywork_automate.Prelude.Results.{Result, ok, err, ◌>>=◌}
use mywork_automate.Expression.Values.{Error, Checked}

-- The errors, with the offset of the placeholder. `out_of_fuel` has no counterpart in the program.
pub data RenderError : Type 0 where
  unterminated : ℕ → RenderError
  empty_placeholder : ℕ → RenderError
  eval_failed : String → ℕ → Error → RenderError
  out_of_fuel : RenderError

abbrev pub Rendered : Type 0
Rendered = Result RenderError String

abbrev pub is : ℕ → Char → Bool
is n c = within n n c

abbrev pub cut_before : Char → Option (String × String) → Option (String × String)
cut_before c none = none
cut_before c (some r) = some (String.◌∷◌ c r.0, r.1)

-- The text before the first `}}` and the text behind it: `strings.Index(rest, closeDelim)`.
unfoldable pub cut_close : String → Option (String × String)
cut_close String.[] = none
cut_close (String.◌∷◌ c String.[]) = none
cut_close (String.◌∷◌ c (String.◌∷◌ d s)) =
    let later = cut_before c (cut_close (String.◌∷◌ d s)) in
    if is b'}' c && is b'}' d then some ("", s) else later

-- `strings.HasPrefix(tmpl[i:], openDelim)`, at a character and what follows it.
unfoldable pub opens : Char → String → Bool
opens c String.[] = false
opens c (String.◌∷◌ d s) = is b'{' c && is b'{' d

abbrev pub tail : String → String
tail String.[] = ""
tail (String.◌∷◌ c s) = s

-- What a backslash before a character renders.
unfoldable pub escaped : Char → String
escaped c =
    if is b'{' c || is b'}' c || is b'\\' c
    then String.◌∷◌ c ""
    else String.◌∷◌ "\\" (String.◌∷◌ c "")

abbrev pub prepend : String → Rendered → Rendered
prepend s r = r >>= λ t. ok (s ++ t)

-- `eval` is `expression.EvalString` in the evaluation context.
module _ (eval : String → Checked String) where
  abbrev pub or_failed : String → ℕ → Checked String → Rendered
  or_failed body offset (ok t) = ok t
  or_failed body offset (err e) = err (eval_failed body offset e)

  -- `renderPlaceholder` behind its search for the end.
  unfoldable pub render_body : ℕ → String → Rendered
  render_body offset body =
      let trimmed = trim_space body in
      if trimmed == "" then err (empty_placeholder offset) else or_failed body offset (eval trimmed)

  -- The rendered placeholder, and the text behind it with its offset; `rest` is behind the `{{`.
  unfoldable pub render_placeholder : ℕ → String → Result RenderError (String × ℕ × String)
  render_placeholder offset rest = elim (cut_close rest) [
    | none ↦ err (unterminated offset)
    | some (body, after) ↦ render_body offset body >>= λ out. ok (out, offset + 4 + len body, after)
  ]

  -- A turn at a backslash, and what follows it; `loop` is the rest of the loop.
  unfoldable pub escape_turn : (ℕ → String → Rendered) → ℕ → String → Rendered
  unfolding escaped
  escape_turn loop offset String.[] = prepend "\\" (loop (offset + 1) "")
  escape_turn loop offset (String.◌∷◌ d rest) =
      prepend (escaped d) (loop (offset + (1 + len_utf8 d)) rest)

  -- A turn at a placeholder.
  unfoldable pub placeholder_turn : (ℕ → String → Rendered) → ℕ → String → Rendered
  unfolding render_placeholder
  placeholder_turn loop offset rest =
      render_placeholder offset rest >>= λ (out, next, after). prepend out (loop next after)

  -- The loop of `Render`. Each turn takes a character, so fuel above the size is enough.
  unfoldable pub render_from : ℕ → ℕ → String → Rendered
  unfolding opens escape_turn placeholder_turn
  render_from zero offset s = err out_of_fuel
  render_from (suc fuel) offset String.[] = ok ""
  render_from (suc fuel) offset (String.◌∷◌ c s) =
      let escape = escape_turn (render_from fuel) offset s in
      let placeholder = placeholder_turn (render_from fuel) offset (tail s) in
      let literal = prepend (String.◌∷◌ c "") (render_from fuel (offset + len_utf8 c) s) in
      if is b'\\' c then escape else if opens c s then placeholder else literal

  unfoldable pub render : String → Rendered
  unfolding render_from size
  render tmpl = render_from (size tmpl + 1) 0 tmpl
