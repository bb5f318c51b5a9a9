-- ===== src/Access.antt =====
-- apps/automate-api/internal/httpapi/rbac.go: who the caller is, and the gates on the routes.
pub mod Granted
mod Tests
use Prim.Native.Nat.{ℕ, ◌+◌}
use Prim.Native.Char.{Char, code}
use Prim.Native.String.{String}
use mathlib.Core.Bool.{Bool, true, false, not, ◌&&◌}
use mathlib.Core.Option.{Option, none, some}
use mathlib.Core.List.{List, [], ◌∷◌}
use text.Mathlib.Text.{◌==◌}
use mywork_automate.Prelude.{leb, if◌then◌else◌}
use mywork_automate.Prelude.Chars.{within, trim_space}
use mywork_automate.Authz.{Role, Permission, admin, can, is_valid_role, highest}

abbrev pub default_role : Role
default_role = admin

-- What the middleware reads of a request: a missing header is empty.
pub record Request : Type 0 where
  pub authorization : String
  pub auth_cookie : Option String
  pub x_role : String

-- A letter's lower case, where it is an ASCII letter.
abbrev pub folded : Char → ℕ
folded c = if within 65 90 c then code c + 32 else code c

abbrev pub same_folded : Char → Char → Bool
same_folded c d = leb (folded c) (folded d) && leb (folded d) (folded c)

-- What follows a prefix in a text, if the text begins with it up to case.
unfoldable pub after_prefix : String → String → Option String
after_prefix String.[] s = some s
after_prefix (String.◌∷◌ c p) String.[] = none
after_prefix (String.◌∷◌ c p) (String.◌∷◌ d s) =
    let rest = after_prefix p s in if same_folded c d then rest else none

-- `bearerToken`. No other letter folds to one of "Bearer ".
unfoldable pub bearer_token : Request → String
bearer_token c = elim (after_prefix "Bearer " c.authorization) [
  | none ↦ ""
  | some rest ↦ if rest == "" then "" else trim_space rest
]

abbrev pub cookie_token : Option String → String
cookie_token none = ""
cookie_token (some ck) = trim_space ck

unfoldable pub request_token : Request → String
request_token c = let t = bearer_token c in if not (t == "") then t else cookie_token c.auth_cookie

unfoldable pub highest_of : List String → Option Role
highest_of claimed = highest claimed

-- A verifier that is not configured is one that accepts no token. `protected` is `deps.protected`.
pub record AuthDeps : Type 0 where
  pub service : String → Option (List String)
  pub entra : String → Option (List String)
  pub protected : Bool

abbrev pub role_by : (String → Option (List String)) → String → Option Role
role_by verify tok = elim (verify tok) [ none ↦ none | some claimed ↦ highest_of claimed ]

-- The role of the token, by the local issuer and else by Entra.
unfoldable pub role_of_token : AuthDeps → String → Option Role
role_of_token deps tok =
    if not (tok == "")
    then elim (role_by deps.service tok) [ some best ↦ some best | none ↦ role_by deps.entra tok ]
    else none

-- The last two steps: the header as it is, valid or not, and else the default where it is allowed.
unfoldable pub role_without_token : AuthDeps → String → Option Role
role_without_token deps hdr =
    if not (hdr == "") then some hdr else if deps.protected then none else some default_role

unfoldable pub role_from_context : AuthDeps → Request → Option Role
role_from_context deps c = elim (role_of_token deps (request_token c)) [
  | some best ↦ some best
  | none ↦ role_without_token deps c.x_role
]

-- How the chain of the two middlewares ends: 401, 403, or the handler with the caller's role.
pub data Gate : Type 0 where
  unauthorized : Gate
  forbidden : Gate
  passed : Role → Gate

unfoldable pub resolve_role : (Role → Gate) → AuthDeps → Request → Gate
resolve_role next deps c = elim (role_from_context deps c) [ none ↦ unauthorized | some r ↦ next r ]

unfoldable pub require_permission : Permission → Role → Gate
require_permission p role = if not (can role p) then forbidden else passed role

unfoldable pub require_admin : Role → Gate
require_admin role = if not (role == admin) then forbidden else passed role
