-- ===== src/Access/Granted.antt =====
-- Whom the gates of apps/automate-api/internal/httpapi/rbac.go let pass, and on what ground.
use Prim.Native.String.{String}
use mathlib.Core.Path.{◌≡◌}
use mathlib.Core.Logic.{◌⊎◌, ◌≢◌, inl, inr}
use mathlib.Core.Bool.{true, false}
use mathlib.Core.Option.{Option, none, some}
use mathlib.Core.List.{List}
use native.Mathlib.Omega.{arith}
use text.Mathlib.Text.{◌==◌}
use text.Mathlib.TextEquality.{eq_iff}
use mywork_automate.Prelude.{Bool-cases, Option-cases, contains}
use mywork_automate.Authz.{Role, Permission, can}
use mywork_automate.Authz.Matrix.{highest-mem}
use mywork_automate.Access.{
  Request, AuthDeps, passed, default_role, request_token, highest_of, role_by, role_of_token,
  role_without_token, role_from_context, resolve_role, require_permission,
}

-- On what ground a caller has a role.
pub data Ground (deps : AuthDeps) (c : Request) (role : Role) : Type 0 where
  by_token :
      (claimed : List String)
      → request_token c ≢ ""
      → (deps.service (request_token c) ≡ some claimed)
        ⊎ (deps.entra (request_token c) ≡ some claimed)
      → contains role claimed ≡ true
      → Ground deps c role
  by_header :
      role_of_token deps (request_token c) ≡ none
      → c.x_role ≢ ""
      → role ≡ c.x_role
      → Ground deps c role
  by_default :
      role_of_token deps (request_token c) ≡ none
      → deps.protected ≡ false
      → c.x_role ≡ ""
      → role ≡ default_role
      → Ground deps c role

role_by-claims :
    (verify : String → Option (List String)) (tok : String) {role : Role}
    → role_by verify tok ≡ some role
    → (claimed : List String) × (verify tok ≡ some claimed) × (contains role claimed ≡ true)
unfolding highest_of
role_by-claims verify tok {role} h = elim (Option-cases (verify tok)) [
  | inl missing ↦ absurd (ground arith)
  | inr (claimed, found) ↦ (claimed, found, highest-mem claimed role (ground arith))
]

role_of_token-Ground :
    (deps : AuthDeps) (c : Request) {role : Role}
    → role_of_token deps (request_token c) ≡ some role
    → Ground deps c role
unfolding role_of_token
role_of_token-Ground deps c {role} h =
    let tok = request_token c in
    elim (Bool-cases (tok == "")) [
      | inl empty ↦ absurd (ground arith)
      | inr given ↦
          let named : tok ≢ "" = λ e. absurd (ground (arith, eq_iff tok "")) in
          elim (Option-cases (role_by deps.service tok)) [
            | inr (best, local) ↦
                let same : best ≡ role = ground arith in
                let (claimed, found, m) = role_by-claims deps.service tok (rw same at local) in
                by_token claimed named (inl found) m
            | inl unknown ↦
                let (claimed, found, m) =
                  role_by-claims deps.entra tok {role = role} (ground arith) in
                by_token claimed named (inr found) m
          ]
    ]

role_without_token-Ground :
    (deps : AuthDeps) (c : Request) {role : Role}
    → role_of_token deps (request_token c) ≡ none
    → role_without_token deps c.x_role ≡ some role
    → Ground deps c role
unfolding role_without_token
role_without_token-Ground deps c {role} no_token h = elim (Bool-cases (c.x_role == "")) [
  | inr given ↦ by_header no_token (λ e. absurd (ground (arith, eq_iff c.x_role ""))) (ground arith)
  | inl empty ↦ elim (Bool-cases deps.protected) [
    | inl closed ↦ absurd (ground arith)
    | inr unguarded ↦ by_default no_token unguarded ((eq_iff c.x_role "").0 empty) (ground arith)
  ]
]

role_from_context-Ground :
    (deps : AuthDeps) (c : Request) {role : Role}
    → role_from_context deps c ≡ some role
    → Ground deps c role
unfolding role_from_context
role_from_context-Ground deps c {role} h =
    elim (Option-cases (role_of_token deps (request_token c))) [
      | inr (best, token) ↦
          let same : best ≡ role = ground arith in role_of_token-Ground deps c (rw same at token)
      | inl missing ↦ role_without_token-Ground deps c {role = role} missing (ground arith)
    ]

-- A request that passes the permission gate has a role that holds the permission, and has it on one of
-- three grounds: a token that a verifier accepts and whose claims list the role, or else the role header, or
-- else, outside a protected environment only, the default.
pub resolve_role-granted :
    (deps : AuthDeps) (c : Request) (p : Permission) (role : Role)
    → resolve_role (require_permission p) deps c ≡ passed role
    → (can role p ≡ true) × Ground deps c role
unfolding resolve_role require_permission
resolve_role-granted deps c p role h = elim (Option-cases (role_from_context deps c)) [
  | inl missing ↦ absurd (ground arith)
  | inr (r, resolved) ↦ elim (Bool-cases (can r p)) [
    | inr denied ↦ absurd (ground arith)
    | inl allowed ↦
        let same : r ≡ role = ground arith in
        (rw same at allowed, role_from_context-Ground deps c (rw same at resolved))
  ]
]
