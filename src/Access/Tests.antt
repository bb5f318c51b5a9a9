-- ===== src/Access/Tests.antt =====
-- A protected and an open environment, requests to them, and the theorem at one.
use Prim.Native.String.{String}
use mathlib.Core.Path.{◌≡◌, refl}
use mathlib.Core.Bool.{Bool, true, false}
use mathlib.Core.Option.{none, some}
use mathlib.Core.List.{[], ◌∷◌}
use text.Mathlib.Text.{◌==◌}
use mywork_automate.Prelude.{if◌then◌else◌, contains, lookup}
use mywork_automate.Prelude.Chars.{trim_space}
use mywork_automate.Authz.{can, highest, highest_from, all_roles, role_permissions}
use mywork_automate.Access.{
  Request, AuthDeps, unauthorized, forbidden, passed, after_prefix, bearer_token, request_token,
  highest_of, role_of_token, role_without_token, role_from_context, resolve_role,
  require_permission, require_admin,
}
use mywork_automate.Access.Granted.{Ground, resolve_role-granted}

gates : Unit {0}
unfolding resolve_role require_permission require_admin role_from_context role_without_token
    role_of_token highest_of request_token bearer_token after_prefix trim_space can highest
    highest_from all_roles role_permissions lookup contains
gates = tt

-- The local issuer knows one token, and Entra is not configured.
abbrev deps : Bool → AuthDeps
deps protected = record {
  service = λ tok. if tok == "t1" then some ("viewer" ∷ "operator" ∷ []) else none;
  entra = λ tok. none;
  protected = protected;
}

abbrev with_token : String → Request
with_token h = record { authorization = h; auth_cookie = none; x_role = "" }

token_passes :
    resolve_role (require_permission "flow.run") (deps true) (with_token "bearer  t1 ")
    ≡ passed "operator"
unfolding gates
token_passes = refl

forged_is_refused :
    resolve_role (require_permission "flow.view") (deps true) (with_token "Bearer forged")
    ≡ unauthorized
unfolding gates
forged_is_refused = refl

open_is_admin : resolve_role require_admin (deps false) (with_token "") ≡ passed "admin"
unfolding gates
open_is_admin = refl

unknown_role_is_denied :
    resolve_role
      (require_permission "flow.view")
      (deps true)
      (record { authorization = ""; auth_cookie = none; x_role = "auditor" })
    ≡ forbidden
unfolding gates
unknown_role_is_denied = refl

resolve_role-granted_example :
    (can "operator" "flow.run" ≡ true) × Ground (deps true) (with_token "bearer  t1 ") "operator"
resolve_role-granted_example =
    resolve_role-granted (deps true) (with_token "bearer  t1 ") "flow.run" "operator" token_passes
