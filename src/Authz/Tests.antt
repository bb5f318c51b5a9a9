-- ===== src/Authz/Tests.antt =====
-- Roles and permissions at concrete values, and the theorems at them.
use mathlib.Core.Path.{◌≡◌, refl}
use mathlib.Core.Bool.{true}
use mathlib.Core.Option.{some}
use mathlib.Core.List.{List, [], ◌∷◌}
use mywork_automate.Prelude.{contains, lookup}
use mywork_automate.Authz.{
  Role, operator, viewer, flow_view, role_permissions, all_roles, all_permissions, can,
  is_valid_role, highest_from, highest,
}
use mywork_automate.Authz.Matrix.{highest_lem}

table : Unit {0}
unfolding can lookup contains role_permissions all_roles all_permissions is_valid_role highest_from
    highest
table = tt

abbrev claimed : List Role
claimed = "auditor" ∷ viewer ∷ operator ∷ []

claimed-highest : highest claimed ≡ some operator
unfolding table
claimed-highest = refl

claimed-viewer : contains viewer claimed ≡ true
unfolding table
claimed-viewer = refl

viewer_views : can viewer flow_view ≡ true
unfolding table
viewer_views = refl

highest_lem_example : (contains operator claimed ≡ true) × (can operator flow_view ≡ true)
highest_lem_example =
    highest_lem claimed operator viewer flow_view claimed-highest claimed-viewer viewer_views
