-- ===== src/Lockout.antt =====
-- apps/automate-api/internal/auth/lockout.go: failed login attempts per key, and the lock they lead
-- to. An instant is a number of nanoseconds; the methods hold the mutex, so each is one step.
pub mod Policy
pub mod Threshold
mod Tests
use Prim.Native.Nat.{ℕ, ◌+◌, ◌*◌}
use Prim.Native.String.{String}
use mathlib.Core.Bool.{Bool, true, false, not}
use mathlib.Core.Option.{Option, none, some}
use mathlib.Core.List.{List, [], ◌∷◌}
use mywork_automate.Prelude.{ltb, if◌then◌else◌, lookup, insert, delete}

abbrev pub max_failed_attempts : ℕ
max_failed_attempts = 5

abbrev pub lockout_duration : ℕ
lockout_duration = 900000000000

-- `locked_till` is `none` for the zero time.
pub record LockEntry : Type 0 where
  pub failures : ℕ
  pub locked_till : Option ℕ

-- `entries` of `LockoutTracker`.
abbrev pub Tracker : Type 0
Tracker = List (String × LockEntry)

-- `!e.lockedTill.IsZero() && !now.Before(e.lockedTill)`
abbrev pub has_expired : ℕ → Option ℕ → Bool
has_expired now none = false
has_expired now (some till) = not (ltb now till)

-- `IsLocked` at the clock's reading `now`: the tracker after it, and until when the key is locked.
is_locked_entry : Tracker → String → ℕ → Option LockEntry → Tracker × Option ℕ
is_locked_entry l key now none = (l, none)
is_locked_entry l key now (some e) = elim e.locked_till [
  | none ↦ (l, none)
  | some till ↦ if not (ltb now till) then (delete key l, none) else (l, some till)
]

unfoldable pub is_locked : Tracker → String → ℕ → Tracker × Option ℕ
unfolding is_locked_entry
is_locked l key now = is_locked_entry l key now (lookup key l)

abbrev fresh_entry : LockEntry
fresh_entry = record { failures = 0; locked_till = none }

-- The entry that a failure counts on: a new one for an unknown key or after an expired lock.
unfoldable pub counted_entry : ℕ → Option LockEntry → LockEntry
counted_entry now none = fresh_entry
counted_entry now (some e) = if has_expired now e.locked_till then fresh_entry else e

-- `RecordFailure`, which reads the clock at `now` and, where it locks, again at `later`.
unfoldable pub fail_entry : ℕ → LockEntry → LockEntry × Option ℕ
fail_entry later e =
    let failures = e.failures + 1 in
    if not (ltb failures max_failed_attempts)
    then (
      record { failures = failures; locked_till = some (later + lockout_duration) },
      some (later + lockout_duration),
    )
    else (record e { failures = failures }, none)

unfoldable pub record_failure : Tracker → String → ℕ → ℕ → Tracker × Option ℕ
record_failure l key now later =
    let r = fail_entry later (counted_entry now (lookup key l)) in (insert key r.0 l, r.1)

unfoldable pub record_success : Tracker → String → Tracker
record_success l key = delete key l
