-- ===== src/Value.antt =====
-- The dynamic values that flow between nodes: Go's `any`, as JSON, the database driver and the
-- executors produce it. A `map[string]any` is a list of fields, one for each key.
use Prim.Native.Nat.{ℕ}
use Prim.Native.String.{String}
use mathlib.Core.Bool.{Bool}
use mywork_automate.Prelude.{ℤ}

-- A floating-point number is its bit pattern. `number` is a `json.Number`, `stringer` any other
-- value with a `String()` method, `valuer` a `driver.Valuer` with the value that it gives, and
-- `valuer_error` one that fails or gives nil. `other` is any value with no text.
mutual
  pub data Value : Type 0 where
    null : Value
    bool : Bool → Value
    str : String → Value
    int : ℤ → Value
    uint : ℕ → Value
    float32 : ℕ → Value
    float64 : ℕ → Value
    number : String → Value
    stringer : String → Value
    valuer : Value → Value
    valuer_error : Value
    other : Value
    arr : Values → Value
    objs : Objects → Value
    obj : Fields → Value

  -- `[]any`
  pub data Values : Type 0 where
    nil : Values
    cons : Value → Values → Values

  -- `[]map[string]any`
  pub data Objects : Type 0 where
    none_left : Objects
    row : Fields → Objects → Objects

  -- `map[string]any`
  pub data Fields : Type 0 where
    end : Fields
    field : String → Value → Fields → Fields
