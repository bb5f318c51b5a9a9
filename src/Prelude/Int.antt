-- ===== src/Prelude/Int.antt =====
-- Signed integers over the native numbers: Go's `int` where the code tests signs and bounds.
use Prim.Native.Nat.{ℕ, suc, ◌+◌, ◌*◌, ◌-◌, ◌%◌}
use mathlib.Core.Bool.{Bool}
use mywork_automate.Prelude.Tests.{ltb, if◌then◌else◌}

-- `negsuc n` is -(n + 1).
pub data ℤ : Type 0 where
  pos : ℕ → ℤ
  negsuc : ℕ → ℤ

abbrev pub pos_part : ℤ → ℕ
pos_part (pos n) = n
pos_part (negsuc n) = 0

abbrev pub neg_part : ℤ → ℕ
neg_part (pos n) = 0
neg_part (negsuc n) = suc n

abbrev pub ltb_ℤ : ℤ → ℤ → Bool
ltb_ℤ a b = ltb (pos_part a + neg_part b) (pos_part b + neg_part a)

-- The `int64` with the given remainder modulo 2^64.
abbrev pub to_int64 : ℕ → ℤ
to_int64 n =
    let low = n % 18446744073709551616 in
    if ltb low 9223372036854775808 then pos low else negsuc (18446744073709551615 - low)

-- The product of an `int64` with a positive constant, as the machine has it.
abbrev pub scaled : ℤ → ℕ → ℤ
scaled (pos n) k = to_int64 (n * k)
scaled (negsuc n) k = to_int64 (18446744073709551616 - (n + 1) * k % 18446744073709551616)
