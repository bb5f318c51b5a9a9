-- ===== src/Login/Outcomes.antt =====
-- What a login of apps/automate-api/internal/auth/service.go answers, and what it leaves behind.
use Prim.Native.Nat.{ℕ, ◌<◌}
use Prim.Native.String.{String}
use mathlib.Core.Path.{◌≡◌, refl, ap, sym, ◌∙◌}
use mathlib.Core.Logic.{◌≢◌, ◌⊎◌, inl, inr}
use mathlib.Core.Bool.{Bool, true, false}
use mathlib.Core.Option.{Option, none, some}
use mathlib.Core.List.{List, [], ◌∷◌}
use native.Mathlib.Omega.{arith}
use mywork_automate.Prelude.{All, Bool-cases, Option-cases, lookup, delete, lookup-delete}
use text.Mathlib.TextPositions.{eq_refl}
use mywork_automate.Lockout.{Tracker, is_locked, record_failure, record_success}
use mywork_automate.Lockout.Policy.{operations_frame}
use mywork_automate.Lockout.Threshold.{fail_all, is_locked_lem}
use mywork_automate.Login.{
  User, MemUserStore, LoginResult, Reply, logged_in, account_locked, Clock, find, password_ok,
  reject, accept, check_password, attempt, authenticate,
}

not-logged_in :
    (q : Tracker × Option ℕ) (l' : Tracker) (r : LoginResult) → reject q ≢ (l', logged_in r)
unfolding reject
not-logged_in (l, none) l' r h = absurd (ground arith)
not-logged_in (l, some until) l' r h = absurd (ground arith)

is_locked-clear :
    (l : Tracker) (key : String) (t : ℕ) → lookup key l ≡ none → is_locked l key t ≡ (l, none)
unfolding is_locked
is_locked-clear l key t h = rw (h, is_locked)

module _ (to_lower : String → String) (verify_password : String → String → Option Bool)
    (issue : String → List String → Option String) (m : MemUserStore) where
  abbrev login : Tracker → String → String → Clock → Tracker × Reply
  login = authenticate to_lower verify_password issue m

  abbrev store_find : String → Option User
  store_find = find to_lower verify_password issue m

  abbrev pass_ok : String → User → Bool
  pass_ok = password_ok to_lower verify_password issue

  -- A sequence of logins for one email: passwords with the clock at each.
  abbrev pub logins : String → List (String × Clock) → Tracker → Tracker × List Reply
  logins email [] l = (l, [])
  logins email ((password, t) ∷ more) l =
      let r = login l email password t in let rest = logins email more r.0 in (rest.0, r.1 ∷ rest.1)

  locked_login :
      (l : Tracker) (email password : String) (n till : ℕ) (t : Clock)
      → lookup email l ≡ some (record { failures = n; locked_till = some till })
      → t.checked < till
      → login l email password t ≡ (l, account_locked till)
  unfolding authenticate
  locked_login l email password n till t found early =
      let locked : is_locked l email t.checked ≡ (l, some till) =
        is_locked_lem l email n till t.checked found ∙ ground arith in
      let until : (is_locked l email t.checked).1 ≡ some till = ap (λ r. r.1) locked in
      rw (until, authenticate) (ap (λ (r : Tracker × Option ℕ). (r.0, account_locked till)) locked)

  -- Until a lock ends no sequence of logins gets anything but the lock's end for an answer, whatever the
  -- passwords, and none of them is recorded: the lock is not extended.
  pub authenticate-locked :
      (attempts : List (String × Clock)) (l : Tracker) (email : String) (n till : ℕ)
      → lookup email l ≡ some (record { failures = n; locked_till = some till })
      → All (λ (a : String × Clock). a.1.checked < till) attempts
      → ((logins email attempts l).0 ≡ l)
        × All (λ (r : Reply). r ≡ account_locked till) (logins email attempts l).1
  authenticate-locked [] l email n till found early = (refl, tt)
  authenticate-locked ((password, t) ∷ more) l email n till found early =
      let here = locked_login l email password n till t found early.0 in
      let rest = authenticate-locked more l email n till found early.1 in
      rw here (rest.0, (refl, rest.1))

  -- An unknown email and a wrong password cannot be told apart: the same answer, and the same failure
  -- recorded.
  authenticate-rejected :
      (l : Tracker) (email password : String) (t : Clock)
      → (is_locked l email t.checked).1 ≡ none
      → ((store_find email ≡ none)
          ⊎ ((u : User) × (store_find email ≡ some u) × (pass_ok password u ≡ false)))
      → login l email password t
        ≡ reject (record_failure (is_locked l email t.checked).0 email t.counted t.locked)
  unfolding authenticate attempt check_password
  authenticate-rejected l email password t h (inl unknown) =
      rw (h, authenticate, attempt, unknown) refl
  authenticate-rejected l email password t h (inr (u, found, wrong)) =
      rw (h, authenticate, attempt, found, check_password, wrong) refl

  -- What a successful login has established.
  pub record IsEarned (l l' : Tracker) (email password : String) (t : Clock) (r : LoginResult)
      : Type 0 where
    pub user : User
    pub known : store_find email ≡ some user
    pub verified : pass_ok password user ≡ true
    pub unlocked : (is_locked l email t.checked).1 ≡ none
    pub named : r.user_id ≡ user.id
    pub granted : r.roles ≡ user.roles
    pub signed : issue user.id user.roles ≡ some r.token
    pub cleared : lookup email l' ≡ none

  lookup-delete_self : (email : String) (l : Tracker) → lookup email (delete email l) ≡ none
  lookup-delete_self email l = rw (lookup-delete email email l, eq_refl email) refl

  accept-IsEarned :
      (l₀ l l' : Tracker) (email password : String) (t : Clock) (u : User) (r : LoginResult)
      → store_find email ≡ some u
      → pass_ok password u ≡ true
      → (is_locked l₀ email t.checked).1 ≡ none
      → accept to_lower verify_password issue l email u ≡ (l', logged_in r)
      → IsEarned l₀ l' email password t r
  unfolding accept record_success
  accept-IsEarned l₀ l l' email password t u r known ok unlocked h =
      elim (Option-cases (issue u.id u.roles)) [
        | inl missing ↦ absurd (ground arith)
        | inr (token, signed) ↦ record {
          user = u;
          known = known;
          verified = ok;
          unlocked = unlocked;
          named = ground arith;
          granted = ground arith;
          signed = ground arith;
          cleared =
              let e : delete email l ≡ l' = ground arith in rw (← e) (lookup-delete_self email l);
        }
      ]

  -- A login succeeds only for an unlocked, known email with its password; the token is issued for that
  -- user's id and roles, and the failures of the email are forgotten.
  pub authenticate-logged_in :
      (l l' : Tracker) (email password : String) (t : Clock) (r : LoginResult)
      → login l email password t ≡ (l', logged_in r)
      → IsEarned l l' email password t r
  unfolding authenticate attempt check_password
  authenticate-logged_in l l' email password t r h =
      elim (Option-cases (is_locked l email t.checked).1) [
        | inr (until, locked) ↦ absurd (ground arith)
        | inl unlocked ↦ elim (Option-cases (store_find email)) [
          | inl unknown ↦ absurd (
              not-logged_in
                (record_failure (is_locked l email t.checked).0 email t.counted t.locked) l' r
                (rw (unlocked, authenticate, attempt, unknown) at h))
          | inr (u, known) ↦ elim (Bool-cases (pass_ok password u)) [
            | inl ok ↦
                accept-IsEarned l (is_locked l email t.checked).0 l' email password t u r known ok
                  unlocked (rw (unlocked, authenticate, attempt, known, check_password, ok) at h)
            | inr wrong ↦ absurd (
                not-logged_in
                  (record_failure (is_locked l email t.checked).0 email t.counted t.locked) l' r
                  (rw (unlocked, authenticate, attempt, known, check_password, wrong) at h))
          ]
        ]
      ]

  fail_all-frame :
      (ts : List (ℕ × ℕ)) (l : Tracker) (key other : String)
      → key ≢ other
      → lookup other (fail_all key ts l) ≡ lookup other l
  fail_all-frame [] l key other ne = refl
  fail_all-frame ((now, later) ∷ ts) l key other ne =
      fail_all-frame ts (record_failure l key now later).0 key other ne
      ∙ (operations_frame l key other now later ne).1

  login_opens :
      (l : Tracker) (email password : String) (t : Clock) (u : User) (token : String)
      → lookup email l ≡ none
      → store_find email ≡ some u
      → pass_ok password u ≡ true
      → issue u.id u.roles ≡ some token
      → (login l email password t).1
        ≡ logged_in (record { token = token; user_id = u.id; roles = u.roles })
  unfolding authenticate attempt check_password accept
  login_opens l email password t u token clear known ok signed =
      ground (arith, is_locked-clear l email t.checked clear)

  -- The lock is kept per spelling of the email and the user is found in any: after any number of
  -- failures under one spelling, another spelling of the same email with no failures of its own still
  -- logs in with the right password.
  pub lock_is_per_spelling :
      (l : Tracker) (ts : List (ℕ × ℕ)) (spelling other password : String) (t : Clock) (u : User)
      (token : String)
      → spelling ≢ other
      → to_lower spelling ≡ to_lower other
      → lookup other l ≡ none
      → store_find spelling ≡ some u
      → pass_ok password u ≡ true
      → issue u.id u.roles ≡ some token
      → (login (fail_all spelling ts l) other password t).1
        ≡ logged_in (record { token = token; user_id = u.id; roles = u.roles })
  unfolding find
  lock_is_per_spelling l ts spelling other password t u token ne same clear known ok signed =
      let unseen : lookup other (fail_all spelling ts l) ≡ none =
        fail_all-frame ts l spelling other ne ∙ clear in
      let known' : store_find other ≡ some u = ap (λ k. lookup k m) (sym same) ∙ known in
      login_opens (fail_all spelling ts l) other password t u token unseen known' ok signed
