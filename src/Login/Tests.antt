-- ===== src/Login/Tests.antt =====
-- A store with one user, a check that compares the password with its hash, and the theorems at them.
use Prim.Native.Nat.{ℕ}
use Prim.Native.String.{String}
use mathlib.Core.Path.{◌≡◌, refl}
use mathlib.Core.Logic.{◌≢◌}
use mathlib.Core.Bool.{Bool, true, false}
use mathlib.Core.Option.{Option, none, some}
use mathlib.Core.List.{List, [], ◌∷◌}
use text.Mathlib.Text.{◌==◌}
use native.Mathlib.Omega.{arith}
use mywork_automate.Prelude.{All, if◌then◌else◌, lookup, insert, delete}
use mywork_automate.Lockout.{
  Tracker, is_locked, record_failure, record_success, counted_entry, fail_entry,
}
use mywork_automate.Lockout.Threshold.{fail_all}
use mywork_automate.Login.{
  User, MemUserStore, LoginResult, Reply, logged_in, account_locked, Clock, new_mem_user_store,
  add_users, find, password_ok, reject, accept, check_password, attempt, authenticate,
}
use mywork_automate.Login.Outcomes.{
  IsEarned, logins, authenticate-locked, authenticate-logged_in, lock_is_per_spelling,
}

-- `ToLower` on the one email that has a capital.
abbrev to_lower : String → String
to_lower s = if s == "Ann@a.co" then "ann@a.co" else s

abbrev same_text : String → String → Option Bool
same_text password hash = some (password == hash)

abbrev token_of : String → List String → Option String
token_of id roles = some id

abbrev ann : User
ann = record { id = "7"; email = "Ann@a.co"; password_hash = "pw"; roles = "viewer" ∷ [] }

login_parts : Unit {0}
unfolding new_mem_user_store add_users find password_ok accept check_password attempt authenticate
    reject is_locked record_success record_failure counted_entry fail_entry lookup insert delete
login_parts = tt

abbrev users : MemUserStore
users = ("ann@a.co", ann) ∷ []

users_stored : new_mem_user_store to_lower same_text token_of (ann ∷ []) ≡ users
unfolding login_parts
users_stored = refl

abbrev t : Clock
t = record { checked = 10; counted = 11; locked = 12 }

abbrev locked : Tracker
locked = ("ann@a.co", record { failures = 5; locked_till = some 900 }) ∷ []

ann_locked : lookup "ann@a.co" locked ≡ some (record { failures = 5; locked_till = some 900 })
unfolding login_parts
ann_locked = refl

abbrev tries : List (String × Clock)
tries = ("pw", t) ∷ ("guess", record { checked = 899; counted = 899; locked = 899 }) ∷ []

authenticate-locked_example :
    ((logins to_lower same_text token_of users "ann@a.co" tries locked).0 ≡ locked)
    × All
        (λ (r : Reply). r ≡ account_locked 900)
        (logins to_lower same_text token_of users "ann@a.co" tries locked).1
authenticate-locked_example =
    authenticate-locked to_lower same_text token_of users tries locked "ann@a.co" 5 900 ann_locked
      (omega arith, (omega arith, tt))

unlocked : (is_locked [] "ann@a.co" 10).1 ≡ none
unfolding login_parts
unlocked = refl

ann_known : find to_lower same_text token_of users "ann@a.co" ≡ some ann
unfolding login_parts
ann_known = refl

guess_wrong : password_ok to_lower same_text token_of "guess" ann ≡ false
unfolding login_parts
guess_wrong = refl

pw_right : password_ok to_lower same_text token_of "pw" ann ≡ true
unfolding login_parts
pw_right = refl

abbrev ann_in : LoginResult
ann_in = record { token = "7"; user_id = "7"; roles = "viewer" ∷ [] }

ann_logs_in :
    authenticate to_lower same_text token_of users [] "ann@a.co" "pw" t ≡ ([], logged_in ann_in)
unfolding login_parts
ann_logs_in = refl

authenticate-logged_in_example :
    IsEarned to_lower same_text token_of users [] [] "ann@a.co" "pw" t ann_in
authenticate-logged_in_example =
    authenticate-logged_in to_lower same_text token_of users [] [] "ann@a.co" "pw" t ann_in
      ann_logs_in

spellings_differ : ◌≢◌ {A = String} "ann@a.co" "Ann@a.co"
spellings_differ e = absurd (cc)

abbrev nobody : Tracker
nobody = []

capital_clear : lookup "Ann@a.co" nobody ≡ none
unfolding lookup
capital_clear = refl

abbrev attempts : List (ℕ × ℕ)
attempts = (1, 1) ∷ (2, 2) ∷ (3, 3) ∷ (4, 4) ∷ (5, 5) ∷ []

lock_is_per_spelling_example :
    (authenticate to_lower same_text token_of users
      (fail_all "ann@a.co" attempts [])
      "Ann@a.co"
      "pw"
      t).1
    ≡ logged_in (record { token = "7"; user_id = "7"; roles = "viewer" ∷ [] })
lock_is_per_spelling_example =
    lock_is_per_spelling to_lower same_text token_of users [] attempts "ann@a.co" "Ann@a.co" "pw" t
      ann "7" spellings_differ refl capital_clear ann_known pw_right refl
