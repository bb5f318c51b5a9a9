-- ===== src/Config/Guarded.antt =====
-- What holds of a configuration that internal/config/config.go loads.
use Prim.Native.String.{String}
use mathlib.Core.Path.{◌≡◌}
use mathlib.Core.Bool.{true, false, not, ◌&&◌, ◌||◌}
use mathlib.Core.List.{List, [], ◌∷◌}
use native.Mathlib.Omega.{arith}
use text.Mathlib.Text.{◌==◌}
use text.Mathlib.TextEquality.{eq_iff}
use mywork_automate.Prelude.{contains}
use mywork_automate.Prelude.Results.{ok, bind-ok, refuse_if, refuse_if-ok}
use mywork_automate.Config.{
  Config, is_protected_env, parse_bool, validate, getenv, config_from, load_from_env,
}

-- A known environment and file store, an address to serve, and local logins in the development
-- environment only.
pub record IsGuarded (c : Config) : Type 0 where
  pub known_env : contains c.env ("dev" ∷ "sit" ∷ "uat" ∷ "prod" ∷ []) ≡ true
  pub known_store : contains c.file_store ("local" ∷ "azureblob" ∷ []) ≡ true
  pub served : c.http_addr == "" ≡ false
  pub local_in_dev : (not c.auth_local_enabled || c.env == "dev") ≡ true

validate-IsGuarded : (c : Config) {u : Unit {0}} → validate c ≡ ok u → IsGuarded c
unfolding validate is_protected_env contains
validate-IsGuarded c h =
    let (a, e, h₁) =
      bind-ok (refuse_if (not (contains c.env ("dev" ∷ "sit" ∷ "uat" ∷ "prod" ∷ []))) _) _ h in
    let (b, s, h₂) =
      bind-ok (refuse_if (not (contains c.file_store ("local" ∷ "azureblob" ∷ []))) _) _ h₁ in
    let (d, addr, h₃) = bind-ok (refuse_if (c.http_addr == "") _) _ h₂ in
    let known = refuse_if-ok (not (contains c.env ("dev" ∷ "sit" ∷ "uat" ∷ "prod" ∷ []))) _ e in
    let stored = refuse_if-ok (not (contains c.file_store ("local" ∷ "azureblob" ∷ []))) _ s in
    let closed = refuse_if-ok (c.auth_local_enabled && is_protected_env c) _ h₃ in
    record {
      known_env = ground arith;
      known_store = ground arith;
      served = refuse_if-ok (c.http_addr == "") _ addr;
      local_in_dev = ground (
        arith,
        eq_iff c.env "dev",
        eq_iff "dev" c.env,
        eq_iff "sit" c.env,
        eq_iff "uat" c.env,
        eq_iff "prod" c.env,
      );
    }

-- A configuration that is loaded has a known environment and file store and an address to serve, and
-- enables local logins in the development environment only.
pub load_from_env-IsGuarded :
    (environ : List (String × String)) (c : Config) → load_from_env environ ≡ ok c → IsGuarded c
unfolding load_from_env
load_from_env-IsGuarded environ c h =
    let (local, parsed, h₁) =
      bind-ok (parse_bool (getenv environ "AUTH_LOCAL_ENABLED") false) _ h in
    let (u, valid, h₂) = bind-ok (validate (config_from environ local)) _ h₁ in
    let same : config_from environ local ≡ c = ground arith in
    rw (← same) (validate-IsGuarded (config_from environ local) {u = u} valid)
