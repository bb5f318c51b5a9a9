-- ===== src/Lockout/Policy.antt =====
-- About the entries of the tracker of apps/automate-api/internal/auth/lockout.go.
use Prim.Native.Nat.{ℕ, ◌≤◌, ◌<◌}
use Prim.Native.String.{String}
use mathlib.Core.Path.{◌≡◌, refl}
use mathlib.Core.Logic.{◌≢◌, ◌⊎◌, inl, inr}
use mathlib.Core.Option.{Option, none, some}
use native.Mathlib.Omega.{arith}
use text.Mathlib.Text.{◌==◌}
use text.Mathlib.TextEquality.{eq_iff}
use mywork_automate.Prelude.{Bool-cases, Option-cases, lookup, delete, lookup-insert, lookup-delete}
use mywork_automate.Lockout.{
  max_failed_attempts, LockEntry, Tracker, is_locked, counted_entry, fail_entry, record_failure,
  record_success,
}

-- An entry is locked exactly when it has reached the threshold.
abbrev pub IsConsistent : LockEntry → Type 0
IsConsistent e =
    ((e.locked_till ≡ none) × (e.failures < max_failed_attempts))
    ⊎ ((e.locked_till ≢ none) × (max_failed_attempts ≤ e.failures))

abbrev pub IsSound : Tracker → Type 0
IsSound l = (k : String) (e : LockEntry) → lookup k l ≡ some e → IsConsistent e

fail_entry-IsConsistent :
    (now later : ℕ) (o : Option LockEntry)
    → ((e : LockEntry) → o ≡ some e → IsConsistent e)
    → IsConsistent (fail_entry later (counted_entry now o)).0
unfolding fail_entry counted_entry
fail_entry-IsConsistent now later none h = ground arith
fail_entry-IsConsistent now later (some e) h = ground (arith, h e refl)

delete-IsSound : (l : Tracker) (key : String) → IsSound l → IsSound (delete key l)
delete-IsSound l key h k e m = elim (Bool-cases (key == k)) [
  | inl same ↦ absurd (ground (arith, lookup-delete key k l))
  | inr other ↦ h k e (ground (arith, lookup-delete key k l))
]

-- The tracker after `is_locked` is the same, or has lost the key.
is_locked-tracker :
    (l : Tracker) (key : String) (now : ℕ)
    → ((is_locked l key now).0 ≡ l) ⊎ ((is_locked l key now).0 ≡ delete key l)
unfolding is_locked
is_locked-tracker l key now = elim (Option-cases (lookup key l)) [
  | inl missing ↦ ground arith
  | inr (e, found) ↦ ground arith
]

-- Every operation keeps the tracker sound: an entry is locked exactly when it has reached the
-- threshold of failures.
operations-IsSound :
    (l : Tracker) (key : String) (now later : ℕ)
    → IsSound l
    → IsSound (is_locked l key now).0
      × IsSound (record_failure l key now later).0
      × IsSound (record_success l key)
unfolding record_failure record_success
operations-IsSound l key now later h = (
  elim (is_locked-tracker l key now) [
    | inl kept ↦ rw kept h
    | inr dropped ↦ rw dropped (delete-IsSound l key h)
  ],
  (λ k e m. elim (Bool-cases (key == k)) [
    | inl same ↦
        let r = (fail_entry later (counted_entry now (lookup key l))).0 in
        let e' : r ≡ e = ground (arith, lookup-insert key k r l) in
        rw (← e') (fail_entry-IsConsistent now later (lookup key l) (h key))
    | inr other ↦ h k e (
        ground
          (arith, lookup-insert key k (fail_entry later (counted_entry now (lookup key l))).0 l))
  ]),
  delete-IsSound l key h,
)

-- No operation on a key touches another key.
pub operations_frame :
    (l : Tracker) (key other : String) (now later : ℕ)
    → key ≢ other
    → (lookup other (is_locked l key now).0 ≡ lookup other l)
      × (lookup other (record_failure l key now later).0 ≡ lookup other l)
      × (lookup other (record_success l key) ≡ lookup other l)
unfolding record_failure record_success
operations_frame l key other now later ne =
    let dropped : lookup other (delete key l) ≡ lookup other l =
      ground (arith, lookup-delete key other l, eq_iff key other) in
    (
      elim (is_locked-tracker l key now) [ inl kept ↦ rw kept | inr gone ↦ rw gone dropped ],
      ground (
        arith,
        lookup-insert key other (fail_entry later (counted_entry now (lookup key l))).0 l,
        eq_iff key other,
      ),
      dropped,
    )
