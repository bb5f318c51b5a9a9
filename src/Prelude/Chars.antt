-- ===== src/Prelude/Chars.antt =====
-- The characters of texts: classes of characters, `strings.TrimSpace`, `strings.Join` and `%d`.
use Prim.Native.Nat.{ℕ, zero, suc, ◌+◌, ◌/◌, ◌%◌}
use Prim.Native.Char.{Char, code}
use Prim.Native.String.{String, ◌++◌}
use Prim.Native.String.append as Append
use mathlib.Core.Path.{◌≡◌}
use mathlib.Core.Logic.{inl, inr}
use text.Mathlib.Text.{◌==◌}
use text.Mathlib.TextEquality.{eq_iff}
use mathlib.Core.Bool.{Bool, true, false, ◌&&◌, ◌||◌}
use mathlib.Core.List.{List, [], ◌∷◌}
use native.Mathlib.Omega.{arith}
use mywork_automate.Prelude.Tests.{ltb, leb, if◌then◌else◌, Bool-cases}
use mywork_automate.Prelude.Int.{ℤ, pos, negsuc}

-- A code point from `a` to `b`.
abbrev pub within : ℕ → ℕ → Char → Bool
within a b c = leb a (code c) && leb (code c) b

-- Go's `unicode.IsSpace`.
abbrev pub is_space : Char → Bool
is_space c =
    within 9 13 c
    || within 32 32 c
    || within 133 133 c
    || within 160 160 c
    || within 5760 5760 c
    || within 8192 8202 c
    || within 8232 8233 c
    || within 8239 8239 c
    || within 8287 8287 c
    || within 12288 12288 c

abbrev pub trim_left : String → String
trim_left String.[] = ""
trim_left (String.◌∷◌ c s) = let rest = trim_left s in if is_space c then rest else String.◌∷◌ c s

abbrev keep : Char → String → String
keep c String.[] = if is_space c then "" else String.◌∷◌ c ""
keep c (String.◌∷◌ d s) = String.◌∷◌ c (String.◌∷◌ d s)

abbrev pub trim_right : String → String
trim_right String.[] = ""
trim_right (String.◌∷◌ c s) = keep c (trim_right s)

-- `strings.TrimSpace`
unfoldable pub trim_space : String → String
trim_space s = trim_right (trim_left s)

-- `len([]rune(s))`
unfoldable pub size : String → ℕ
size String.[] = zero
size (String.◌∷◌ c s) = suc (size s)

unfoldable pub all_chars : (Char → Bool) → String → Bool
all_chars p String.[] = true
all_chars p (String.◌∷◌ c s) = p c && all_chars p s

unfoldable pub count_chars : (Char → Bool) → String → ℕ
count_chars p String.[] = 0
count_chars p (String.◌∷◌ c s) = let rest = count_chars p s in if p c then suc rest else rest

-- `strings.Join(parts, sep)`
unfoldable pub join_with : String → List String → String
join_with sep [] = ""
join_with sep (part ∷ []) = part
join_with sep (part ∷ next ∷ parts) = part ++ (sep ++ join_with sep (next ∷ parts))

abbrev pub digit : ℕ → String
digit zero = "0"
digit (suc zero) = "1"
digit (suc (suc zero)) = "2"
digit (suc (suc (suc zero))) = "3"
digit (suc (suc (suc (suc zero)))) = "4"
digit (suc (suc (suc (suc (suc zero))))) = "5"
digit (suc (suc (suc (suc (suc (suc zero)))))) = "6"
digit (suc (suc (suc (suc (suc (suc (suc zero))))))) = "7"
digit (suc (suc (suc (suc (suc (suc (suc (suc zero)))))))) = "8"
digit _ = "9"

-- `%d` of a number of at most `fuel + 1` digits.
unfoldable pub digits : ℕ → ℕ → String
digits zero n = digit (n % 10)
digits (suc fuel) n =
    let rest = digits fuel (n / 10) in if ltb n 10 then digit n else rest ++ digit (n % 10)

-- `%d`; an `int64` has at most 19 digits.
unfoldable pub decimal : ℤ → String
decimal (pos n) = digits 18 n
decimal (negsuc n) = "-" ++ digits 18 (n + 1)

pub all_chars-append :
    (p : Char → Bool) (s t : String) → all_chars p (s ++ t) ≡ (all_chars p s && all_chars p t)
unfolding all_chars
all_chars-append p String.[] t = rw (Append.nil)
all_chars-append p (String.◌∷◌ c s) t = ground (arith, Append.cons c s t, all_chars-append p s t)

pub count_chars-append :
    (p : Char → Bool) (s t : String) → count_chars p (s ++ t) ≡ count_chars p s + count_chars p t
unfolding count_chars
count_chars-append p String.[] t = rw (Append.nil) (ground arith)
count_chars-append p (String.◌∷◌ c s) t =
    ground (arith, Append.cons c s t, count_chars-append p s t)

pub size-append : (s t : String) → size (s ++ t) ≡ size s + size t
unfolding size
size-append String.[] t = rw (Append.nil) (omega arith)
size-append (String.◌∷◌ c s) t = rw (Append.cons) (omega (arith, size-append s t))

cons-ne-nil : (c : Char) (s : String) → (String.◌∷◌ c s == "") ≡ false
cons-ne-nil c s = elim (Bool-cases (String.◌∷◌ c s == "")) [
  | inl same ↦ absurd (let e = (eq_iff (String.◌∷◌ c s) "").0 same in cc)
  | inr other ↦ other
]

kept :
    (space : Bool) (c : Char)
    → space ≡ false
    → ((if space then "" else String.◌∷◌ c "") == "") ≡ false
kept true c h = absurd (cc)
kept false c h = cons-ne-nil c ""

keep-ne-nil : (c : Char) (t : String) → is_space c ≡ false → (keep c t == "") ≡ false
keep-ne-nil c String.[] h = kept (is_space c) c h
keep-ne-nil c (String.◌∷◌ d t) h = cons-ne-nil c (String.◌∷◌ d t)

-- A text that begins with no space is not blank.
pub trim_space-cons :
    (c : Char) (s : String) → is_space c ≡ false → (trim_space (String.◌∷◌ c s) == "") ≡ false
unfolding trim_space
trim_space-cons c s h = rw h (keep-ne-nil c (trim_right s) h)
