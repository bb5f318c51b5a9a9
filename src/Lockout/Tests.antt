-- ===== src/Lockout/Tests.antt =====
-- A tracker with one locked key, and the theorems at concrete failures.
use Prim.Native.Nat.{ℕ, ◌+◌}
use Prim.Native.String.{String}
use mathlib.Core.Path.{◌≡◌, refl}
use mathlib.Core.Logic.{◌≢◌}
use mathlib.Core.Option.{none, some}
use mathlib.Core.List.{List, [], ◌∷◌, ◌++◌}
use native.Mathlib.Omega.{arith}
use text.Mathlib.Text.{◌==◌}
use text.Mathlib.TextEquality.{eq_iff}
use mathlib.Core.Bool.{true}
use mywork_automate.Prelude.{lookup, insert}
use mywork_automate.Lockout.{
  lockout_duration, Tracker, is_locked, counted_entry, fail_entry, record_failure,
}
use mywork_automate.Lockout.Policy.{IsSound}
use mywork_automate.Lockout.Threshold.{fail_all, lock_at, fifth_failure_locks}

-- One failure a second.
abbrev three : List (ℕ × ℕ)
three = (1000000000, 1000000001) ∷ (2000000000, 2000000001) ∷ (3000000000, 3000000001) ∷ []

abbrev four : List (ℕ × ℕ)
four = (0, 1) ∷ three

abbrev locked : Tracker
locked = ("ann", record { failures = 5; locked_till = some 904000000001 }) ∷ []

ann_locked : fail_all "ann" (four ++ (4000000000, 4000000001) ∷ []) [] ≡ locked
unfolding record_failure fail_entry counted_entry lookup insert
ann_locked = refl

locked-IsSound : IsSound locked
unfolding lookup
locked-IsSound k e h = ground arith

ann_is_not_bob : ◌≢◌ {A = String} "ann" "bob"
ann_is_not_bob e = let same : ("ann" == "bob") ≡ true = (eq_iff "ann" "bob").1 e in absurd (cc)

abbrev bob_failed : Tracker
bob_failed = ("bob", record { failures = 2; locked_till = none }) ∷ []

ann_unseen : lookup "ann" bob_failed ≡ none
unfolding lookup
ann_unseen = refl

fifth_failure_locks_example :
    let r = record_failure (fail_all "ann" four bob_failed) "ann" 4000000000 4000000001 in
    let till = 4000000001 + lockout_duration in
    (r.1 ≡ some till) × (is_locked r.0 "ann" 5000000000 ≡ lock_at r.0 "ann" till 5000000000)
fifth_failure_locks_example =
    fifth_failure_locks bob_failed "ann" four 4000000000 4000000001 5000000000 ann_unseen refl
