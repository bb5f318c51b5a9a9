-- ===== src/Authz.antt =====
-- pkg/authz/authz.go: the RBAC matrix and its decision point.
pub mod Matrix
mod Tests
use Prim.Native.String.{String}
use mathlib.Core.Bool.{Bool, true, false}
use mathlib.Core.Option.{Option, none, some}
use mathlib.Core.List.{List, [], ◌∷◌}
use mywork_automate.Prelude.{if◌then◌else◌, contains, lookup, pick}

abbrev pub Role : Type 0
Role = String

abbrev pub Permission : Type 0
Permission = String

abbrev pub admin : Role
admin = "admin"

abbrev pub designer : Role
designer = "designer"

abbrev pub operator : Role
operator = "operator"

abbrev pub viewer : Role
viewer = "viewer"

abbrev pub flow_view : Permission
flow_view = "flow.view"

abbrev pub run_view : Permission
run_view = "run.view"

abbrev pub flow_create : Permission
flow_create = "flow.create"

abbrev pub flow_publish : Permission
flow_publish = "flow.publish"

abbrev pub flow_run : Permission
flow_run = "flow.run"

abbrev pub connection_manage : Permission
connection_manage = "connection.manage"

abbrev pub template_manage : Permission
template_manage = "template.manage"

abbrev pub ai_use : Permission
ai_use = "ai.use"

abbrev pub masking_bypass : Permission
masking_bypass = "masking.bypass"

-- The table; a row lists the permissions that it maps to `true`.
unfoldable pub role_permissions : List (Role × List Permission)
role_permissions =
    (
      admin,
      flow_view ∷ run_view ∷ flow_create ∷ flow_publish ∷ flow_run ∷ connection_manage
          ∷ template_manage ∷ ai_use ∷ masking_bypass ∷ [],
    )
    ∷ (
      designer,
      flow_view ∷ run_view ∷ flow_create ∷ flow_publish ∷ flow_run ∷ template_manage ∷ ai_use
          ∷ masking_bypass ∷ [],
    )
    ∷ (operator, flow_view ∷ run_view ∷ flow_run ∷ ai_use ∷ masking_bypass ∷ [])
    ∷ (viewer, flow_view ∷ run_view ∷ [])
    ∷ []

unfoldable pub all_roles : List Role
all_roles = admin ∷ designer ∷ operator ∷ viewer ∷ []

unfoldable pub all_permissions : List Permission
all_permissions =
    flow_view ∷ run_view ∷ flow_create ∷ flow_publish ∷ flow_run ∷ connection_manage
    ∷ template_manage ∷ ai_use ∷ masking_bypass ∷ []

unfoldable pub can : Role → Permission → Bool
can role p = elim (lookup role role_permissions) [ none ↦ false | some perms ↦ contains p perms ]

unfoldable pub roles : List Role
roles = all_roles

unfoldable pub permissions : Role → List Permission
permissions role = elim (lookup role role_permissions) [
  | none ↦ []
  | some perms ↦ pick (λ p. contains p perms) (λ p. p) all_permissions
]

unfoldable pub is_valid_role : Role → Bool
is_valid_role role = elim (lookup role role_permissions) [ none ↦ false | some _ ↦ true ]

-- The two loops of `Highest`: the first role, from the top, that is among the candidates.
unfoldable pub highest_from : List Role → List Role → Option Role
highest_from [] candidates = none
highest_from (r ∷ rs) candidates =
    if contains r candidates then some r else highest_from rs candidates

unfoldable pub highest : List Role → Option Role
highest candidates = highest_from all_roles candidates
