-- ===== src/SqlBuilder/Limit.antt =====
-- The LIMIT of a query of pkg/sqlbuilder/sqlbuilder.go.
use mathlib.Core.Path.{◌≡◌}
use Prim.Native.Nat.{◌≤◌}
use mathlib.Core.Logic.{◌⊎◌}
use native.Mathlib.Omega.{arith}
use mywork_automate.Prelude.{ℤ, pos, negsuc, pos_part}
use mywork_automate.SqlBuilder.{effective_limit}

-- The limit is a positive number: at most the ceiling, and at most the caller's bound where that is
-- positive.
pub effective_limit-bounds :
    (requested max_rows : ℤ)
    → let limit = effective_limit requested max_rows in
      (limit ≡ pos (pos_part limit))
      × (1 ≤ pos_part limit)
      × (pos_part limit ≤ 100000)
      × ((pos_part max_rows ≡ 0) ⊎ (pos_part limit ≤ pos_part max_rows))
unfolding effective_limit
effective_limit-bounds (pos r) (pos m) = ground arith
effective_limit-bounds (pos r) (negsuc m) = ground arith
effective_limit-bounds (negsuc r) (pos m) = ground arith
effective_limit-bounds (negsuc r) (negsuc m) = ground arith
