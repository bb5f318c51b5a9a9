-- ===== src/Lockout/Threshold.antt =====
-- When a key of apps/automate-api/internal/auth/lockout.go is locked, and for how long.
use Prim.Native.Nat.{ℕ, suc, ◌+◌, ◌<◌}
use Prim.Native.String.{String}
use mathlib.Core.Path.{◌≡◌, refl, ap, ◌∙◌}
use mathlib.Core.Option.{Option, none, some}
use mathlib.Core.List.{List, [], ◌∷◌}
use native.Mathlib.Omega.{arith}
use text.Mathlib.TextPositions.{eq_refl}
use mywork_automate.Prelude.{ltb, if◌then◌else◌, length, lookup, insert, delete, lookup-insert}
use mywork_automate.Lockout.{
  max_failed_attempts, lockout_duration, LockEntry, Tracker, is_locked, counted_entry, fail_entry,
  record_failure,
}

-- The key has failed `n` times since it was last clear.
abbrev pub HasFailed : String → ℕ → Tracker → Type 0
HasFailed key n l =
    (now : ℕ) → counted_entry now (lookup key l) ≡ record { failures = n; locked_till = none }

-- Failures at the given readings of the clock.
abbrev pub fail_all : String → List (ℕ × ℕ) → Tracker → Tracker
fail_all key [] l = l
fail_all key ((now, later) ∷ ts) l = fail_all key ts (record_failure l key now later).0

clear_HasFailed : (l : Tracker) (key : String) → lookup key l ≡ none → HasFailed key 0 l
unfolding counted_entry
clear_HasFailed l key h now = rw (h, counted_entry)

abbrev failed_entry : ℕ → LockEntry
failed_entry n = record { failures = n; locked_till = none }

counted-fail_entry :
    (n later now : ℕ)
    → n + 1 < max_failed_attempts
    → (fail_entry later (failed_entry n) ≡ (failed_entry (n + 1), none))
      × (counted_entry now (some (failed_entry (n + 1))) ≡ failed_entry (n + 1))
unfolding fail_entry counted_entry
counted-fail_entry n later now h = (ground arith, refl)

fail_entry-locks :
    (n later : ℕ)
    → n + 1 ≡ max_failed_attempts
    → fail_entry later (failed_entry n) ≡ (
      record { failures = n + 1; locked_till = some (later + lockout_duration) },
      some (later + lockout_duration),
    )
unfolding fail_entry
fail_entry-locks n later h = ground arith

record_failure-HasFailed :
    (l : Tracker) (key : String) (n now later : ℕ)
    → HasFailed key n l
    → n + 1 < max_failed_attempts
    → HasFailed key (n + 1) (record_failure l key now later).0
      × ((record_failure l key now later).1 ≡ none)
unfolding record_failure
record_failure-HasFailed l key n now later h lt =
    let r = (fail_entry later (counted_entry now (lookup key l))).0 in
    let step = counted-fail_entry n later now lt in
    (
      (λ now'.
          rw (lookup-insert key key r l, eq_refl key, h now, step.0)
            (counted-fail_entry n later now' lt).1),
      rw (h now, step.0) refl,
    )

fail_all-HasFailed :
    (ts : List (ℕ × ℕ)) (l : Tracker) (key : String) (n : ℕ)
    → HasFailed key n l
    → n + length ts < max_failed_attempts
    → HasFailed key (n + length ts) (fail_all key ts l)
fail_all-HasFailed [] l key n h lt = let e : n + 0 ≡ n = omega arith in rw e h
fail_all-HasFailed ((now, later) ∷ ts) l key n h lt =
    let next = (record_failure-HasFailed l key n now later h (omega arith)).0 in
    let e : n + suc (length ts) ≡ n + 1 + length ts = omega arith in
    rw e (fail_all-HasFailed ts _ key (n + 1) next (omega arith))

-- What a lock says at the time `t`: the key is locked, or the lock is dropped.
abbrev pub lock_at : Tracker → String → ℕ → ℕ → Tracker × Option ℕ
lock_at l key till t = if ltb t till then (l, some till) else (delete key l, none)

pub is_locked_lem :
    (l : Tracker) (key : String) (n till t : ℕ)
    → lookup key l ≡ some (record { failures = n; locked_till = some till })
    → is_locked l key t ≡ lock_at l key till t
unfolding is_locked
is_locked_lem l key n till t h = rw (h, is_locked) (ground arith)

recorded :
    (l : Tracker) (key : String) (ts : List (ℕ × ℕ)) (k : ℕ)
    → lookup key l ≡ none
    → length ts ≡ k
    → k < max_failed_attempts
    → HasFailed key k (fail_all key ts l)
recorded l key ts k clear same lt =
    let failed = fail_all-HasFailed ts l key 0 (clear_HasFailed l key clear) (omega arith) in
    let e : 0 + length ts ≡ k = omega arith in rw e at failed

-- For a key with no failures recorded, the first four failures lock nothing.
pub four_failures_lock_nothing :
    (l : Tracker) (key : String) (ts : List (ℕ × ℕ)) (now later : ℕ)
    → lookup key l ≡ none
    → length ts < 4
    → (record_failure (fail_all key ts l) key now later).1 ≡ none
four_failures_lock_nothing l key ts now later clear few =
    let n = length ts in
    (record_failure-HasFailed (fail_all key ts l) key n now later
      (recorded l key ts n clear refl (omega arith)) (omega arith)).1

-- For a key with no failures recorded, the fifth failure locks the key for the lockout's duration:
-- until then `IsLocked` says so and changes nothing, and from then on it clears the key.
pub fifth_failure_locks :
    (l : Tracker) (key : String) (ts : List (ℕ × ℕ)) (now later t : ℕ)
    → lookup key l ≡ none
    → length ts ≡ 4
    → let r = record_failure (fail_all key ts l) key now later in
      let till = later + lockout_duration in
      (r.1 ≡ some till) × (is_locked r.0 key t ≡ lock_at r.0 key till t)
unfolding record_failure
fifth_failure_locks l key ts now later t clear four =
    let l₁ = fail_all key ts l in
    let till = later + lockout_duration in
    let locked : LockEntry = record { failures = 5; locked_till = some till } in
    let failed : fail_entry later (counted_entry now (lookup key l₁)) ≡ (locked, some till) =
      ap (fail_entry later) (recorded l key ts 4 clear four (omega arith) now)
      ∙ fail_entry-locks 4 later refl in
    let found : lookup key (insert key locked l₁) ≡ some locked =
      rw (lookup-insert key key locked l₁, eq_refl key) refl in
    rw failed (refl, is_locked_lem (insert key locked l₁) key 5 till t found)
