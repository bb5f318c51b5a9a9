-- ===== src/Masking/Tests.antt =====
-- An engine with two rules, items with nested maps, and the theorems at them.
use Prim.Native.Nat.{ℕ, ◌≤◌}
use Prim.Native.String.{String}
use mathlib.Core.Path.{◌≡◌, refl}
use mathlib.Core.Bool.{Bool, true}
use mathlib.Core.Option.{Option, some}
use mathlib.Core.List.{List, [], ◌∷◌}
use text.Mathlib.Text.{◌==◌}
use mywork_automate.Prelude.{pos, contains, lookup}
use mywork_automate.Prelude.Results.{ok}
use mywork_automate.Prelude.Chars.{size, digits, decimal}
use mywork_automate.Value.{str, int, obj, none_left, row, Fields, end, field}
use mywork_automate.Masking.{
  Rule, CompiledRule, Engine, default_rules, new_engine, eval_style, role_exempt, stars, drop_chars,
  partial_last4, stringify, mask_text, mask_value, style_for, mask_map, mask_items,
}
use mywork_automate.Masking.Memo.{plain_rows, mask_items-plain}
use mywork_automate.Masking.Partial.{visible, partial_last4-hides}

-- A pattern matches the key that it spells.
abbrev compile : String → Option (String → Bool)
compile pattern = some (λ key. key == pattern)

-- The styles of the default rules.
abbrev styles : List Rule → List String
styles [] = []
styles (r ∷ rs) = r.style ∷ styles rs

default_styles :
    styles default_rules
    ≡ "full" ∷ "partial_last4" ∷ "partial_last4" ∷ "partial_last4" ∷ "hash" ∷ []
unfolding default_rules
default_styles = refl

abbrev no_float : ℕ → ℕ → String
no_float bits n = "0"

abbrev no_hash : String → String
no_hash s = "00"

abbrev rule : String → String → Rule
rule key style = record {
  name = key;
  match_type = "column_name";
  pattern = key;
  style = style;
  exempt_roles = "admin" ∷ [];
  applies_to = "preview" ∷ "log" ∷ [];
  active = true;
}

abbrev compiled : String → String → CompiledRule
compiled key style = record { rule = rule key style; matches = λ k. k == key }

abbrev engine : Engine
engine = compiled "salary" "full" ∷ compiled "phone" "partial_last4" ∷ []

masking : Unit {0}
unfolding mask_items mask_map style_for mask_value mask_text stringify partial_last4 drop_chars size
    stars eval_style role_exempt new_engine lookup contains digits decimal
masking = tt

engine_made :
    new_engine compile (rule "salary" "full" ∷ rule "phone" "partial_last4" ∷ []) ≡ ok engine
unfolding masking
engine_made = refl

abbrev person : Fields
person = field "name" (str "Ann") (
    field "salary" (int (pos 90000))
      (field "contact" (obj (field "phone" (str "0812345678") end)) end))

abbrev masked_person : Fields
masked_person = field "name" (str "Ann") (
    field "salary" (str "******")
      (field "contact" (obj (field "phone" (str "******5678") end)) end))

person_masked :
    mask_items no_float no_hash engine "log" ("viewer" ∷ []) (row person none_left)
    ≡ row masked_person none_left
unfolding masking
person_masked = refl

admin_sees :
    mask_items no_float no_hash engine "log" ("admin" ∷ []) (row person none_left)
    ≡ row person none_left
unfolding masking
admin_sees = refl

mask_items-plain_example :
    mask_items no_float no_hash engine "log" ("viewer" ∷ []) (row person none_left)
    ≡ plain_rows no_float no_hash engine "log" ("viewer" ∷ []) (row person none_left)
mask_items-plain_example =
    mask_items-plain no_float no_hash engine "log" ("viewer" ∷ []) (row person none_left)

same_size : size "0812345678" ≡ size "0998765678"
unfolding masking
same_size = refl

same_end : visible "0812345678" ≡ visible "0998765678"
unfolding masking
same_end = refl

partial_last4-hides_example :
    (partial_last4 "0812345678" ≡ partial_last4 "0998765678")
    × (size (partial_last4 "0812345678") ≡ size "0812345678")
    × (size (visible "0812345678") ≤ 4)
partial_last4-hides_example = partial_last4-hides "0812345678" "0998765678" same_size same_end
