-- ===== src/TemplateRender/Tests.antt =====
-- Tests of the template renderer with a toy evaluator, and the theorems at concrete inputs.
use Prim.Native.String.{String}
use mathlib.Core.Path.{◌≡◌, refl}
use mathlib.Core.List.{List, [], ◌∷◌}
use text.Mathlib.Text.{◌==◌}
use mywork_automate.Prelude.{All, if◌then◌else◌}
use mywork_automate.Prelude.Chars.{all_chars, trim_space}
use mywork_automate.Prelude.Results.{ok, err}
use mywork_automate.Expression.Values.{Checked, empty_expression}
use mywork_automate.TemplateRender.{unterminated, empty_placeholder, cut_close, render_body, render}
use mywork_automate.TemplateRender.Segments.{
  Segment, literal, placeholder, IsSegment, print, rendered, render-print,
}

abbrev eval : String → Checked String
eval body = if body == "date" then ok "20260101" else err empty_expression

spliced : render eval "pay\\{_{{ date }}.xlsx\\" ≡ ok "pay{_20260101.xlsx\\"
unfolding render render_body cut_close trim_space
spliced = refl

escaped_open : render eval "\\{{date}}" ≡ ok "{{date}}"
unfolding render render_body cut_close trim_space
escaped_open = refl

not_closed : render eval "ab{{date}" ≡ err (unterminated 2)
unfolding render render_body cut_close trim_space
not_closed = refl

blank : render eval "é{{  }}" ≡ err (empty_placeholder 2)
unfolding render render_body cut_close trim_space
blank = refl

abbrev segments : List Segment
segments = literal "a{\\" ∷ placeholder " date " ∷ literal "}" ∷ []

segments-IsSegment : All IsSegment segments
unfolding all_chars
segments-IsSegment = (tt, (refl, (tt, tt)))

render-print_example : render eval (print segments) ≡ rendered eval 0 segments
render-print_example = render-print eval segments segments-IsSegment
