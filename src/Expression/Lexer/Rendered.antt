-- ===== src/Expression/Lexer/Rendered.antt =====
-- The lexer of pkg/expression/lexer.go against a printer of tokens: what is printed is read back.
use Prim.Native.Nat.{ℕ, zero, suc, ◌+◌, ◌<◌, ◌≤◌}
use Prim.Native.Char.{Char}
use Prim.Native.String.{String, ◌++◌}
use Prim.Native.String.append as Append
use mathlib.Core.Path.{◌≡◌, refl, ap, ◌∙◌}
use mathlib.Core.Logic.{inl, inr}
use mathlib.Core.Bool.{Bool, true, false, ◌&&◌, ◌||◌}
use mathlib.Core.List.{List, [], ◌∷◌, ◌++◌ as ◌+++◌}
use native.Mathlib.Omega.{arith}
use mywork_automate.Prelude.{leb, if◌then◌else◌, Bool-cases, All, length}
use mywork_automate.Prelude.Chars.{within, size, size-append, all_chars}
use mywork_automate.Prelude.Results.{ok, ◌>>=◌}
use mywork_automate.Expression.Values.{Runtime, Checked}
use mywork_automate.Expression.Lexer.{
  Token, eof, dollar, dot, lbrack, rbrack, pipe, colon, ident, string, number, is, is_ident_start,
  is_ident_part, is_blank, before, span, unescaped, then_before, scan_string, is_number_part, dots,
  starts_number, next_at, next, tokens_from, tokenize, is_eof,
}

-- A text as the inside of a string literal.
unfoldable pub escape_onto : String → String → String
escape_onto String.[] rest = rest
escape_onto (String.◌∷◌ c s) rest =
    let more = String.◌∷◌ c (escape_onto s rest) in
    if is b'"' c || is b'\\' c then String.◌∷◌ "\\" more else more

-- An identifier.
unfoldable pub is_word : String → Bool
unfolding all_chars is_ident_start is_ident_part
is_word String.[] = false
is_word (String.◌∷◌ c s) = is_ident_start c && all_chars is_ident_part s

-- Digits with at most one dot, behind an optional `-`, the first of them a digit.
unfoldable pub is_numeral : String → Bool
unfolding all_chars starts_number dots is_number_part
is_numeral String.[] = false
is_numeral (String.◌∷◌ c s) =
    starts_number c s && (all_chars is_number_part s && leb (dots (String.◌∷◌ c s)) 1)

abbrev onto : String → String → String
onto s rest = s ++ String.◌∷◌ " " rest

-- A token in front of a text, with a space between.
unfoldable pub render_onto : {R : Runtime} → Token R → String → String
unfolding escape_onto
render_onto eof rest = rest
render_onto dollar rest = String.◌∷◌ "$" (String.◌∷◌ " " rest)
render_onto dot rest = String.◌∷◌ "." (String.◌∷◌ " " rest)
render_onto lbrack rest = String.◌∷◌ "[" (String.◌∷◌ " " rest)
render_onto rbrack rest = String.◌∷◌ "]" (String.◌∷◌ " " rest)
render_onto pipe rest = String.◌∷◌ "|" (String.◌∷◌ " " rest)
render_onto colon rest = String.◌∷◌ ":" (String.◌∷◌ " " rest)
render_onto (ident n) rest = onto n rest
render_onto (string s) rest =
    String.◌∷◌ "\"" (escape_onto s (String.◌∷◌ "\"" (String.◌∷◌ " " rest)))
render_onto (number raw x) rest = onto raw rest

unfoldable pub render : {R : Runtime} → List (Token R) → String
unfolding render_onto
render [] = ""
render (t ∷ ts) = render_onto t (render ts)

-- A token that the lexer can make, other than the end.
abbrev pub IsToken : (R : Runtime) → Token R → Type 0
IsToken R eof = ⊥
IsToken R (ident n) = is_word n ≡ true
IsToken R (number raw x) = (is_numeral raw ≡ true) × (x ≡ (R.parse_float raw).0)
IsToken R _ = Unit {0}

scan_string_plain :
    (c : Char) (s : String)
    → (is b'"' c || is b'\\' c) ≡ false
    → scan_string (String.◌∷◌ c s) ≡ then_before (before c) (scan_string s)
unfolding scan_string
scan_string_plain c String.[] h = ground arith
scan_string_plain c (String.◌∷◌ d s) h = ground arith

scan_string_escaped :
    (c : Char) (s : String)
    → scan_string (String.◌∷◌ "\\" (String.◌∷◌ c s)) ≡ then_before (unescaped c) (scan_string s)
unfolding scan_string
scan_string_escaped c s = refl

scan_string_closed : (rest : String) → scan_string (String.◌∷◌ "\"" rest) ≡ ok ("", rest)
unfolding scan_string
scan_string_closed String.[] = refl
scan_string_closed (String.◌∷◌ c rest) = refl

scan_string-escape :
    (s rest : String) → scan_string (escape_onto s (String.◌∷◌ "\"" rest)) ≡ ok (s, rest)
unfolding escape_onto
scan_string-escape String.[] rest = scan_string_closed rest
scan_string-escape (String.◌∷◌ c s) rest =
    let inside = escape_onto s (String.◌∷◌ "\"" rest) in
    elim (Bool-cases (is b'"' c || is b'\\' c)) [
      | inl special ↦
          rw special
            (rw (scan_string_escaped c inside) (rw (scan_string-escape s rest) (rw special)))
      | inr plain ↦
          rw plain (rw (scan_string_plain c inside plain) (rw (scan_string-escape s rest)))
    ]

span-onto :
    (p : Char → Bool) (s rest : String)
    → all_chars p s ≡ true
    → p " " ≡ false
    → span p (onto s rest) ≡ (s, String.◌∷◌ " " rest)
unfolding span all_chars
span-onto p String.[] rest h stop = rw (Append.nil) (ground arith)
span-onto p (String.◌∷◌ c s) rest h stop = rw (Append.cons) (ground (arith, span-onto p s rest))

starts_number_word : (c : Char) (s : String) → is_ident_start c ≡ true → starts_number c s ≡ false
unfolding starts_number is_ident_start
starts_number_word c String.[] h = ground arith
starts_number_word c (String.◌∷◌ d s) h = ground arith

starts_number-onto :
    (c : Char) (s rest : String) → starts_number c s ≡ true → starts_number c (onto s rest) ≡ true
unfolding starts_number
starts_number-onto c String.[] rest h = rw (Append.nil) (ground arith)
starts_number-onto c (String.◌∷◌ d s) rest h = rw (Append.cons) h

-- A character that can stand first in a number.
abbrev first_of_number : Char → Bool
first_of_number c = within b'0' b'9' c || is b'-' c

starts_number_first : (c : Char) (s : String) → starts_number c s ≡ true → first_of_number c ≡ true
unfolding starts_number
starts_number_first c String.[] h = ground arith
starts_number_first c (String.◌∷◌ d s) h = ground arith

next_at-word :
    (R : Runtime) (c : Char) (s rest : String)
    → is_ident_start c ≡ true
    → all_chars is_ident_part s ≡ true
    → next_at R c (onto s rest) ≡ ok (ident (String.◌∷◌ c s), String.◌∷◌ " " rest)
unfolding next_at
next_at-word R c s rest h parts =
    rw (starts_number_word c (onto s rest) h)
      (rw (span-onto is_ident_part s rest parts (unfold is_ident_part in refl)) (ground arith))

next_at-numeral :
    (R : Runtime) (c : Char) (s rest : String)
    → starts_number c s ≡ true
    → all_chars is_number_part s ≡ true
    → leb (dots (String.◌∷◌ c s)) 1 ≡ true
    → next_at R c (onto s rest)
      ≡ ok (number (String.◌∷◌ c s) (R.parse_float (String.◌∷◌ c s)).0, String.◌∷◌ " " rest)
unfolding next_at
next_at-numeral R c s rest h parts few = rw (starts_number-onto c s rest h) (
    rw (span-onto is_number_part s rest parts (unfold is_number_part in refl))
      (ground (arith, starts_number_first c s h)))

next_cons :
    (R : Runtime) (c : Char) (s : String)
    → is_blank c ≡ false
    → next R (String.◌∷◌ c s) ≡ next_at R c s
unfolding next
next_cons R c s h = rw h

next-word :
    (R : Runtime) (n rest : String)
    → is_word n ≡ true
    → next R (onto n rest) ≡ ok (ident n, String.◌∷◌ " " rest)
unfolding is_word
next-word R String.[] rest h = absurd (cc)
next-word R (String.◌∷◌ c s) rest h = rw (Append.cons) (
    next_cons R c (onto s rest) (unfold is_blank is_ident_start in ground arith)
    ∙ next_at-word R c s rest (ground arith) (ground arith))

next-numeral :
    (R : Runtime) (raw rest : String)
    → is_numeral raw ≡ true
    → next R (onto raw rest) ≡ ok (number raw (R.parse_float raw).0, String.◌∷◌ " " rest)
unfolding is_numeral
next-numeral R String.[] rest h = absurd (cc)
next-numeral R (String.◌∷◌ c s) rest h =
    let starts : starts_number c s ≡ true = ground arith in
    rw (Append.cons) (
      next_cons R c (onto s rest)
        (unfold is_blank in ground (arith, starts_number_first c s starts))
      ∙ next_at-numeral R c s rest starts (ground arith) (ground arith))

next-render :
    (R : Runtime) (t : Token R) (rest : String)
    → IsToken R t
    → next R (render_onto t rest) ≡ ok (t, String.◌∷◌ " " rest)
unfolding render_onto
next-render R eof rest h = absurd h
next-render R dollar rest h = unfold next in refl
next-render R dot rest h = unfold next in refl
next-render R lbrack rest h = unfold next in refl
next-render R rbrack rest h = unfold next in refl
next-render R pipe rest h = unfold next in refl
next-render R colon rest h = unfold next in refl
next-render R (ident n) rest h = next-word R n rest h
next-render R (string s) rest h = unfold next in rw (scan_string-escape s (String.◌∷◌ " " rest))
next-render R (number raw x) rest h = rw h.1 (next-numeral R raw rest h.0)

abbrev then_token : {R : Runtime} → Token R → Checked (List (Token R)) → Checked (List (Token R))
then_token t r = r >>= λ ts. ok (t ∷ ts)

tokens_from_space :
    (R : Runtime) (fuel : ℕ) (s : String)
    → tokens_from R fuel (String.◌∷◌ " " s) ≡ tokens_from R fuel s
unfolding tokens_from
tokens_from_space R zero s = refl
tokens_from_space R (suc fuel) s = unfold next in refl

tokens_from_cons :
    (R : Runtime) (fuel : ℕ) (t : Token R) (rest : String)
    → IsToken R t
    → is_eof t ≡ false
    → tokens_from R (suc fuel) (render_onto t rest) ≡ then_token t (tokens_from R fuel rest)
tokens_from_cons R fuel t rest h more =
    unfold tokens_from in
    rw (next-render R t rest h) (rw more (ap (then_token t) (tokens_from_space R fuel rest)))

IsToken-eof : (R : Runtime) (t : Token R) → IsToken R t → is_eof t ≡ false
unfolding is_eof
IsToken-eof R eof h = absurd h
IsToken-eof R _ h = refl

tokens_from-render :
    (R : Runtime) (fuel : ℕ) (ts : List (Token R))
    → All (IsToken R) ts
    → length ts < fuel
    → tokens_from R fuel (render ts) ≡ ok (ts +++ eof ∷ [])
unfolding render
tokens_from-render R zero ts h lt = absurd (omega arith)
tokens_from-render R (suc fuel) [] h lt = unfold tokens_from render next in refl
tokens_from-render R (suc fuel) (t ∷ ts) h lt =
    tokens_from_cons R fuel t (render ts) h.0 (IsToken-eof R t h.0)
    ∙ ap (then_token t) (tokens_from-render R fuel ts h.1 (omega arith))

size-escape_onto : (s rest : String) → size rest ≤ size (escape_onto s rest)
unfolding escape_onto size
size-escape_onto String.[] rest = omega arith
size-escape_onto (String.◌∷◌ c s) rest = ground (arith, size-escape_onto s rest)

size-onto : (s rest : String) → size rest + 1 ≤ size (onto s rest)
unfolding size
size-onto s rest = omega (arith, size-append s (String.◌∷◌ " " rest))

size-render_onto :
    (R : Runtime) (t : Token R) (rest : String)
    → IsToken R t
    → size rest + 1 ≤ size (render_onto t rest)
unfolding render_onto size
size-render_onto R eof rest h = absurd h
size-render_onto R (ident n) rest h = size-onto n rest
size-render_onto R (string s) rest h =
    omega (arith, size-escape_onto s (String.◌∷◌ "\"" (String.◌∷◌ " " rest)))
size-render_onto R (number raw x) rest h = size-onto raw rest
size-render_onto R _ rest h = omega arith

length-le-render :
    (R : Runtime) (ts : List (Token R)) → All (IsToken R) ts → length ts ≤ size (render ts)
unfolding render
length-le-render R [] h = omega arith
length-le-render R (t ∷ ts) h =
    omega (arith, length-le-render R ts h.1, size-render_onto R t (render ts) h.0)

-- Printing well-formed tokens, strings escaped and a space behind each token, and lexing the text
-- gives the same tokens with the end behind them, for every list of tokens: whatever characters a
-- string holds, and whichever tokens stand side by side. Well formed are an identifier that is a
-- word, and a number whose text is a numeral and whose value is the one parsed from it.
pub tokenize-render :
    (R : Runtime) (ts : List (Token R))
    → All (IsToken R) ts
    → tokenize R (render ts) ≡ ok (ts +++ eof ∷ [])
unfolding tokenize
tokenize-render R ts h =
    tokens_from-render R (size (render ts) + 1) ts h (omega (arith, length-le-render R ts h))
