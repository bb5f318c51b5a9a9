-- ===== src/Login.antt =====
-- apps/automate-api/internal/auth/service.go and store.go: a local login, with its lockout.
pub mod Outcomes
mod Tests
use Prim.Native.Nat.{ℕ}
use Prim.Native.String.{String}
use mathlib.Core.Bool.{Bool, true, false}
use mathlib.Core.Option.{Option, none, some}
use mathlib.Core.List.{List, [], ◌∷◌}
use mywork_automate.Prelude.{lookup, insert}
use mywork_automate.Lockout.{Tracker, is_locked, record_failure, record_success}

pub record User : Type 0 where
  pub id : String
  pub email : String
  pub password_hash : String
  pub roles : List String

-- `byEmail` of `MemUserStore`.
abbrev pub MemUserStore : Type 0
MemUserStore = List (String × User)

pub record LoginResult : Type 0 where
  pub token : String
  pub user_id : String
  pub roles : List String

pub data Reply : Type 0 where
  logged_in : LoginResult → Reply
  invalid_credentials : Reply
  account_locked : ℕ → Reply
  issue_failed : Reply

-- `t.checked` is the clock as `IsLocked` reads it, the others as `RecordFailure` does.
pub record Clock : Type 0 where
  pub checked : ℕ
  pub counted : ℕ
  pub locked : ℕ

-- What a failed attempt answers, once it is recorded.
unfoldable pub reject : Tracker × Option ℕ → Tracker × Reply
reject (l, none) = (l, invalid_credentials)
reject (l, some until) = (l, account_locked until)

-- `strings.ToLower`, the argon2id check (`none` is an error) and the JWT issuer are parameters.
module _ (to_lower : String → String) (verify_password : String → String → Option Bool)
    (issue : String → List String → Option String) where
  unfoldable pub add_users : MemUserStore → List User → MemUserStore
  add_users m [] = m
  add_users m (u ∷ us) = add_users (insert (to_lower u.email) u m) us

  unfoldable pub new_mem_user_store : List User → MemUserStore
  new_mem_user_store us = add_users [] us

  unfoldable pub find : MemUserStore → String → Option User
  find m email = lookup (to_lower email) m

  -- `ok, err := VerifyPassword(…); err == nil && ok`
  unfoldable pub password_ok : String → User → Bool
  password_ok password user = elim (verify_password password user.password_hash) [
    | none ↦ false
    | some b ↦ b
  ]

  unfoldable pub accept : Tracker → String → User → Tracker × Reply
  accept l email user = elim (issue user.id user.roles) [
    | none ↦ (record_success l email, issue_failed)
    | some token ↦ (
      record_success l email,
      logged_in (record { token = token; user_id = user.id; roles = user.roles }),
    )
  ]

  unfoldable pub check_password : Tracker → String → String → Clock → User → Tracker × Reply
  check_password l email password t user = elim (password_ok password user) [
    | false ↦ reject (record_failure l email t.counted t.locked)
    | true ↦ accept l email user
  ]

  unfoldable pub attempt : MemUserStore → Tracker → String → String → Clock → Tracker × Reply
  attempt m l email password t = elim (find m email) [
    | none ↦ reject (record_failure l email t.counted t.locked)
    | some user ↦ check_password l email password t user
  ]

  unfoldable pub authenticate : MemUserStore → Tracker → String → String → Clock → Tracker × Reply
  authenticate m l email password t =
      let r = is_locked l email t.checked in
      elim r.1 [ some until ↦ (r.0, account_locked until) | none ↦ attempt m r.0 email password t ]
