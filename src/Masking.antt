-- ===== src/Masking.antt =====
-- pkg/masking/masking.go: column-level masking of result sets.
pub mod Memo
pub mod Partial
mod Tests
use Prim.Native.Nat.{ℕ, zero, suc, ◌-◌}
use Prim.Native.Char.{Char}
use Prim.Native.String.{String, ◌++◌}
use mathlib.Core.Bool.{Bool, true, false, not, ◌||◌}
use mathlib.Core.Option.{Option, none, some}
use mathlib.Core.List.{List, [], ◌∷◌}
use text.Mathlib.Text.{◌==◌}
use mywork_automate.Prelude.{leb, if◌then◌else◌, contains, lookup}
use mywork_automate.Prelude.Results.{Result, ok, err, ◌>>=◌}
use mywork_automate.Prelude.Chars.{size, digits, decimal}
use mywork_automate.Value.{
  Value, null, bool, str, int, uint, float32, float64, number, stringer, valuer, valuer_error,
  other, arr, objs, obj, Values, nil, cons, Objects, none_left, row, Fields, end, field,
}

abbrev pub mask_token : String
mask_token = "******"

abbrev pub mask_char : Char
mask_char = "*"

abbrev pub style_full : String
style_full = "full"

abbrev pub style_partial_last4 : String
style_partial_last4 = "partial_last4"

abbrev pub style_hash : String
style_hash = "hash"

pub record Rule : Type 0 where
  pub name : String
  pub match_type : String
  pub pattern : String
  pub style : String
  pub exempt_roles : List String
  pub applies_to : List String
  pub active : Bool

abbrev pub match_column_name : String
match_column_name = "column_name"

abbrev pub point_preview : String
point_preview = "preview"

abbrev pub point_log : String
point_log = "log"

abbrev pub point_ai : String
point_ai = "ai"

-- A rule of the table of defaults: active, at all points, with no exempt roles.
abbrev pub default_rule : String → String → String → Rule
default_rule name pattern style = record {
  name = name;
  match_type = match_column_name;
  pattern = pattern;
  style = style;
  exempt_roles = [];
  applies_to = point_preview ∷ point_log ∷ point_ai ∷ [];
  active = true;
}

unfoldable pub default_rules : List Rule
default_rules =
    default_rule "salary" "(?i)(salary|เงินเดือน)" style_full
    ∷ default_rule "citizen_id"
        "(?i)(citizen[_]?id|citizen|national[_]?id|เลขบัตรประชาชน|เลขประจำตัวประชาชน|บัตรประชาชน)"
        style_partial_last4
    ∷ default_rule "bank_account"
        "(?i)(bank[_]?account|account[_]?(no|number|num)|acct[_]?(no|number)|เลขที่บัญชี|เลขบัญชี|บัญชีธนาคาร)"
        style_partial_last4
    ∷ default_rule "phone" "(?i)(phone|mobile|(^|_)tel(_|$|ephone)|เบอร์โทร|โทรศัพท์|เบอร์มือถือ)"
        style_partial_last4
    ∷ default_rule "email" "(?i)(e[_-]?mail|อีเมล)" style_hash
    ∷ []

-- `matches` is the compiled pattern; the sets of points and roles are the lists of the rule.
pub record CompiledRule : Type 0 where
  pub rule : Rule
  pub matches : String → Bool

abbrev pub Engine : Type 0
Engine = List CompiledRule

-- `regexp.Compile` is a parameter. The error is the name of the rule.
module _ (compile : String → Option (String → Bool)) where
  abbrev pub compile_rule : Rule → Result String CompiledRule
  compile_rule r = elim (compile r.pattern) [
    | none ↦ err r.name
    | some matches ↦ ok (record { rule = r; matches = matches })
  ]

  unfoldable pub new_engine : List Rule → Result String Engine
  new_engine [] = ok []
  new_engine (r ∷ rs) = do c ← compile_rule r; cs ← new_engine rs; ok (c ∷ cs)

pub record Decision : Type 0 where
  pub style : String
  pub mask : Bool

unfoldable pub role_exempt : List String → List String → Bool
role_exempt exempts [] = false
role_exempt exempts (r ∷ roles) = contains r exempts || role_exempt exempts roles

-- The tests of the loop, in its order.
abbrev pub skips : String → String → List String → CompiledRule → Bool
skips key point roles c =
    not c.rule.active
    || not (contains point c.rule.applies_to)
    || not (c.matches key)
    || role_exempt c.rule.exempt_roles roles

unfoldable pub eval_style : Engine → String → String → List String → Decision
eval_style [] key point roles = record { style = ""; mask = false }
eval_style (c ∷ cs) key point roles =
    if skips key point roles c
    then eval_style cs key point roles
    else record { style = c.rule.style; mask = true }

-- `repeat(maskChar, n)`
unfoldable pub stars : ℕ → String
stars zero = ""
stars (suc n) = String.◌∷◌ mask_char (stars n)

-- `string(r[n:])`
unfoldable pub drop_chars : ℕ → String → String
drop_chars zero s = s
drop_chars (suc n) String.[] = ""
drop_chars (suc n) (String.◌∷◌ c s) = drop_chars n s

unfoldable pub partial_last4 : String → String
partial_last4 s =
    let n = size s in if leb n 4 then stars n else stars (n - 4) ++ drop_chars (n - 4) s

-- `strconv.FormatFloat` with the size in bits, and the hex SHA-256 of a text, are parameters.
module _ (format_float : ℕ → ℕ → String) (sha256_hex : String → String) where
  unfoldable pub stringify : Value → Option String
  stringify (str s) = some s
  stringify (int n) = some (decimal n)
  stringify (uint n) = some (digits 19 n)
  stringify (float32 bits) = some (format_float 32 bits)
  stringify (float64 bits) = some (format_float 64 bits)
  stringify (number text) = some text
  stringify (stringer text) = some text
  stringify (valuer v) = stringify v
  stringify _ = none

  unfoldable pub mask_text : Value → String → String → Value
  mask_text v style s =
      if style == style_full
      then str mask_token
      else if style == style_partial_last4
      then str (partial_last4 s)
      else if style == style_hash
      then str (sha256_hex s)
      else v

  unfoldable pub mask_value : Value → String → Value
  mask_value v style = elim (stringify v) [ none ↦ v | some s ↦ mask_text v style s ]

  -- One call of `MaskItems`: the engine, the point and the roles do not change; the cache does.
  module _ (e : Engine) (point : String) (roles : List String) where
    abbrev pub Cache : Type 0
    Cache = List (String × Decision)

    abbrev pub remember : String → Cache → Option Decision → Decision × Cache
    remember key cache (some d) = (d, cache)
    remember key cache none = let d = eval_style e key point roles in (d, (key, d) ∷ cache)

    unfoldable pub style_for : String → Cache → Decision × Cache
    style_for key cache = remember key cache (lookup key cache)

    mutual
      -- The fields of a map, in the order in which the loop takes them.
      pub mask_map : Fields → Cache → Fields × Cache
      mask_map end cache = (end, cache)
      mask_map (field k v fs) cache =
          let r = style_for k cache in
          let kept = copy_value v r.1 in
          let out : Value × Cache = if r.0.mask then (mask_value v r.0.style, r.1) else kept in
          let rest = mask_map fs out.1 in (field k out.0 rest.0, rest.1)

      pub copy_value : Value → Cache → Value × Cache
      copy_value (obj fs) cache = let r = mask_map fs cache in (obj r.0, r.1)
      copy_value (objs os) cache = let r = mask_rows os cache in (objs r.0, r.1)
      copy_value (arr vs) cache = let r = copy_values vs cache in (arr r.0, r.1)
      copy_value v cache = (v, cache)

      pub mask_rows : Objects → Cache → Objects × Cache
      mask_rows none_left cache = (none_left, cache)
      mask_rows (row fs os) cache =
          let r = mask_map fs cache in let rest = mask_rows os r.1 in (row r.0 rest.0, rest.1)

      pub copy_values : Values → Cache → Values × Cache
      copy_values nil cache = (nil, cache)
      copy_values (cons v vs) cache =
          let r = copy_value v cache in let rest = copy_values vs r.1 in (cons r.0 rest.0, rest.1)

    -- The loop of `MaskItems` over the items, from an empty cache.
    unfoldable pub mask_items : Objects → Objects
    mask_items items = (mask_rows items []).0
