-- ===== src/Interpreter/Options.antt =====
-- The retry options of apps/automate-worker/internal/interpreter/workflow.go.
use Prim.Native.Nat.{◌*◌}
use mathlib.Core.Path.{◌≡◌, ap₂}
use mathlib.Core.Bool.{true}
use mathlib.Core.Option.{some}
use native.Mathlib.Omega.{arith}
use mywork_automate.Prelude.{ℤ, pos, negsuc, pos_part, ltb_ℤ, if◌then◌else◌}
use mywork_automate.Flow.{RetryPolicy}
use mywork_automate.Interpreter.Workflow.{attempts_for, interval_for, activity_options_for}

attempts_for_lem :
    (n : ℤ)
    → ltb_ℤ n (pos 2147483648) ≡ true
    → attempts_for n ≡ (if ltb_ℤ (pos 0) n then n else pos 5)
unfolding attempts_for
attempts_for_lem (pos n) h = ground arith
attempts_for_lem (negsuc n) h = ground arith

interval_for_lem :
    (n : ℤ)
    → ltb_ℤ n (pos 9223372037) ≡ true
    → interval_for n ≡ (if ltb_ℤ (pos 0) n then pos (pos_part n * 1000000000) else pos 1000000000)
unfolding interval_for
interval_for_lem (pos n) h = ground arith
interval_for_lem (negsuc n) h = ground arith

-- A node's retry policy reaches Temporal as it is written, with the defaults of five attempts and one
-- second where a number is not positive, as long as the attempts fit an int32 and the interval fits
-- the nanoseconds of an int64.
pub activity_options_for_lem :
    (retry : RetryPolicy)
    → ltb_ℤ retry.max_attempts (pos 2147483648) ≡ true
    → ltb_ℤ retry.initial_interval_seconds (pos 9223372037) ≡ true
    → activity_options_for (some retry) ≡ record {
      start_to_close = 120000000000;
      initial_interval =
          if ltb_ℤ (pos 0) retry.initial_interval_seconds
          then pos (pos_part retry.initial_interval_seconds * 1000000000)
          else pos 1000000000;
      maximum_interval = 60000000000;
      maximum_attempts = if ltb_ℤ (pos 0) retry.max_attempts then retry.max_attempts else pos 5;
    }
unfolding activity_options_for
activity_options_for_lem retry h k =
    ap₂
      (λ i a. record {
        start_to_close = 120000000000;
        initial_interval = i;
        maximum_interval = 60000000000;
        maximum_attempts = a;
      })
      (interval_for_lem retry.initial_interval_seconds k) (attempts_for_lem retry.max_attempts h)
