-- ===== src/Expression/Lexer.antt =====
-- pkg/expression/lexer.go. The lexer's position is the text that is left; the byte offsets that it
-- puts into tokens for error messages are not modelled.
pub mod Rendered
pub mod Ends
use Prim.Native.Nat.{ℕ, zero, suc, ◌+◌}
use Prim.Native.Char.{Char, code}
use Prim.Native.String.{String}
use mathlib.Core.Bool.{Bool, true, false, ◌&&◌, ◌||◌}
use mathlib.Core.List.{List, [], ◌∷◌}
use mywork_automate.Prelude.{leb, ltb, if◌then◌else◌}
use mywork_automate.Prelude.Chars.{within, size}
use mywork_automate.Prelude.Results.{Result, ok, err, ◌>>=◌}
use mywork_automate.Expression.Values.{
  Runtime, Error, Checked, unexpected_character, unterminated_string, malformed_number, out_of_fuel,
}

-- A token with its value; a number has its raw text and the value parsed from it.
pub data Token (R : Runtime) : Type 0 where
  eof dollar dot lbrack rbrack pipe colon : Token R
  ident : String → Token R
  string : String → Token R
  number : String → R.Float → Token R

unfoldable pub is_eof : {R : Runtime} → Token R → Bool
is_eof eof = true
is_eof _ = false

-- Is `c` the character with code `n`?
abbrev pub is : ℕ → Char → Bool
is n c = within n n c

unfoldable pub is_ident_start : Char → Bool
is_ident_start c = is b'_' c || within b'a' b'z' c || within b'A' b'Z' c

unfoldable pub is_digit : Char → Bool
is_digit c = within b'0' b'9' c

unfoldable pub is_ident_part : Char → Bool
unfolding is_ident_start is_digit
is_ident_part c = is_ident_start c || is_digit c

unfoldable pub is_blank : Char → Bool
is_blank c = is b' ' c || is 9 c || is 10 c || is 13 c

unfoldable pub skip_space : String → String
unfolding is_blank
skip_space String.[] = ""
skip_space (String.◌∷◌ c s) = let rest = skip_space s in if is_blank c then rest else String.◌∷◌ c s

-- The text that a loop has read before what it reads now.
abbrev pub before : Char → String × String → String × String
before c r = (String.◌∷◌ c r.0, r.1)

-- The longest front of a text whose characters pass a test, and what follows it.
unfoldable pub span : (Char → Bool) → String → String × String
span p String.[] = ("", "")
span p (String.◌∷◌ c s) =
    let more = before c (span p s) in if p c then more else ("", String.◌∷◌ c s)

-- `\"` and `\\` stand for their second character, any other escape for both of its characters.
abbrev pub unescaped : Char → String × String → String × String
unescaped c r = if is b'"' c || is b'\\' c then before c r else before "\\" (before c r)

abbrev pub Scanned : Type 0
Scanned = Checked (String × String)

abbrev pub then_before : (String × String → String × String) → Scanned → Scanned
then_before f (ok r) = ok (f r)
then_before f (err e) = err e

-- The loop of `scanString`, behind the opening quote.
unfoldable pub scan_string : String → Scanned
scan_string String.[] = err unterminated_string
scan_string (String.◌∷◌ c String.[]) =
    if is b'\\' c
    then err unterminated_string
    else if is b'"' c
    then ok ("", "")
    else err unterminated_string
scan_string (String.◌∷◌ c (String.◌∷◌ d s)) =
    let escape = then_before (unescaped d) (scan_string s) in
    let plain = then_before (before c) (scan_string (String.◌∷◌ d s)) in
    if is b'\\' c then escape else if is b'"' c then ok ("", String.◌∷◌ d s) else plain

unfoldable pub is_number_part : Char → Bool
unfolding is_digit
is_number_part c = is_digit c || is b'.' c

unfoldable pub dots : String → ℕ
dots String.[] = 0
dots (String.◌∷◌ c s) = (if is b'.' c then 1 else 0) + dots s

-- `-` before a digit starts a number.
unfoldable pub starts_number : Char → String → Bool
unfolding is_digit
starts_number c String.[] = is_digit c
starts_number c (String.◌∷◌ d s) = is_digit c || (is b'-' c && is_digit d)

module _ (R : Runtime) where
  unfoldable pub number_token : String × String → Checked (Token R × String)
  unfolding dots
  number_token r =
      if ltb 1 (dots r.0) then err malformed_number else ok (number r.0 (R.parse_float r.0).0, r.1)

  unfoldable pub scan_number : Char → String → Checked (Token R × String)
  unfolding span is_number_part number_token
  scan_number c s = number_token (before c (span is_number_part s))

  unfoldable pub scan_ident : Char → String → Checked (Token R × String)
  unfolding span is_ident_part
  scan_ident c s = let r = before c (span is_ident_part s) in ok (ident r.0, r.1)

  unfoldable pub string_token : String × String → Checked (Token R × String)
  string_token r = ok (string r.0, r.1)

  -- `next` at a character that is no space, and what follows it.
  unfoldable pub next_at : Char → String → Checked (Token R × String)
  unfolding scan_string string_token starts_number is_ident_start scan_number scan_ident
  next_at c s =
      if is b'$' c
      then ok (dollar, s)
      else if is b'.' c
      then ok (dot, s)
      else if is b'[' c
      then ok (lbrack, s)
      else if is b']' c
      then ok (rbrack, s)
      else if is b'|' c
      then ok (pipe, s)
      else if is b':' c
      then ok (colon, s)
      else if is b'"' c
      then (scan_string s >>= string_token)
      else if starts_number c s
      then scan_number c s
      else if is_ident_start c
      then scan_ident c s
      else err unexpected_character

  unfoldable pub next_of : String → Checked (Token R × String)
  unfolding next_at
  next_of String.[] = ok (eof, "")
  next_of (String.◌∷◌ c s) = next_at c s

  unfoldable pub next : String → Checked (Token R × String)
  unfolding next_of skip_space
  next s = next_of (skip_space s)

  -- Tokens up to the end of the text. `next` reads at least one character, so fuel above the size
  -- of the text does not run out.
  unfoldable pub tokens_from : ℕ → String → Checked (List (Token R))
  unfolding next is_eof
  tokens_from zero s = err out_of_fuel
  tokens_from (suc fuel) s = next s >>= λ (t, rest).
      let more = tokens_from fuel rest >>= λ ts. ok (t ∷ ts) in
      if is_eof t then ok (t ∷ []) else more

  unfoldable pub tokenize : String → Checked (List (Token R))
  unfolding tokens_from size
  tokenize src = tokens_from (size src + 1) src
