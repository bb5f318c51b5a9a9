-- ===== src/Authz/Matrix.antt =====
-- What the matrix of pkg/authz/authz.go grants, over all roles and permissions, named or not.
use mathlib.Core.Path.{◌≡◌, refl, sym, ◌∙◌}
use mathlib.Core.Logic.{◌⊎◌, inl, inr}
use mathlib.Core.Bool.{Bool, true, ◌&&◌, ◌||◌}
use mathlib.Core.Option.{some}
use mathlib.Core.List.{List, [], ◌∷◌}
use native.Mathlib.Omega.{arith}
use text.Mathlib.Text.{◌==◌}
use text.Mathlib.TextEquality.{eq_iff}
use mywork_automate.Prelude.{Bool-cases, Option-cases, All, All-weaken, contains, lookup, pick}
use text.Mathlib.TextPositions.{eq_refl}
use mywork_automate.Prelude.TextOrder.{All-contains}
use mywork_automate.Authz.{
  Role, Permission, admin, designer, operator, viewer, connection_manage, flow_view, run_view,
  role_permissions, all_roles, all_permissions, can, permissions, is_valid_role, highest_from,
  highest,
}

matrix : Unit {0}
unfolding can lookup contains role_permissions all_roles all_permissions is_valid_role highest_from
matrix = tt

-- The only roles are the four of the table.
pub valid_cases :
    (r : Role)
    → is_valid_role r ≡ true
    → (r ≡ admin) ⊎ (r ≡ designer) ⊎ (r ≡ operator) ⊎ (r ≡ viewer)
unfolding matrix
valid_cases r h =
    ground (arith, eq_iff "admin" r, eq_iff "designer" r, eq_iff "operator" r, eq_iff "viewer" r)

viewer-operator : (p : Permission) → can viewer p ≡ true → can operator p ≡ true
unfolding matrix
viewer-operator p h = ground arith

operator-designer : (p : Permission) → can operator p ≡ true → can designer p ≡ true
unfolding matrix
operator-designer p h = ground arith

designer-admin : (p : Permission) → can designer p ≡ true → can admin p ≡ true
unfolding matrix
designer-admin p h = ground arith

can-is_valid_role : (r : Role) (p : Permission) → can r p ≡ true → is_valid_role r ≡ true
unfolding can is_valid_role
can-is_valid_role r p h = ground arith

can-admin : (r : Role) (p : Permission) → can r p ≡ true → can admin p ≡ true
can-admin r p h = elim (valid_cases r (can-is_valid_role r p h)) [
  | inl e ↦ rw e at h
  | inr (inl e) ↦ designer-admin p (rw e at h)
  | inr (inr (inl e)) ↦ designer-admin p (operator-designer p (rw e at h))
  | inr (inr (inr e)) ↦ designer-admin p (operator-designer p (viewer-operator p (rw e at h)))
]

can-admin_iff : (p : Permission) → can admin p ≡ contains p all_permissions
unfolding matrix
can-admin_iff p = refl

-- Deny by default: only a role of the table is granted anything, and only permissions of the list.
can_named :
    (r : Role) (p : Permission)
    → can r p ≡ true
    → (is_valid_role r ≡ true) × (contains p all_permissions ≡ true)
can_named r p h = (can-is_valid_role r p h, sym (can-admin_iff p) ∙ can-admin r p h)

-- Connections are managed by the admin alone, and a viewer only views.
can_reserved :
    (r : Role) (p : Permission)
    → (can r connection_manage ≡ (r == admin)) × (can viewer p ≡ (p == flow_view || p == run_view))
unfolding matrix
can_reserved r p = (
  ground (
    arith,
    eq_iff "admin" r,
    eq_iff "designer" r,
    eq_iff "operator" r,
    eq_iff "viewer" r,
    eq_iff r "admin",
  ),
  ground
      (arith, eq_iff "flow.view" p, eq_iff "run.view" p, eq_iff p "flow.view", eq_iff p "run.view"),
)

contains-pick :
    (t : Permission → Bool) (l : List Permission) (p : Permission)
    → contains p (pick t (λ q. q) l) ≡ (contains p l && t p)
unfolding contains
contains-pick t [] p = refl
contains-pick t (q ∷ l) p = elim (Bool-cases (q == p)) [
  | inl e ↦ rw ((eq_iff q p).0 e) (ground (arith, eq_refl p, contains-pick t l p))
  | inr e ↦ ground (arith, contains-pick t l p)
]

-- The listed permissions of a role are exactly those that `can` grants it.
contains-permissions : (r : Role) (p : Permission) → contains p (permissions r) ≡ can r p
unfolding permissions can contains
contains-permissions r p = elim (Option-cases (lookup r role_permissions)) [
  | inl missing ↦ ground arith
  | inr (perms, found) ↦
      let listed = contains-pick (λ q. contains q perms) all_permissions p in
      let granted : contains p perms ≡ true → contains p all_permissions ≡ true =
        λ h. (can_named r p (ground arith)).1 in
      ground (arith, listed, granted)
]

-- Roles in descending privilege: each can do what any later one can.
abbrev Nested : List Role → Type 0
Nested [] = Unit
Nested (x ∷ xs) = All (λ y. (p : Permission) → can y p ≡ true → can x p ≡ true) xs × Nested xs

all_roles-Nested : Nested all_roles
unfolding all_roles
all_roles-Nested =
    let od = operator-designer in
    let vo = viewer-operator in
    let above_operator : (p : Permission) → can operator p ≡ true → can admin p ≡ true =
      λ p h. designer-admin p (od p h) in
    (
      (designer-admin, (above_operator, ((λ p h. above_operator p (vo p h)), tt))),
      ((od, ((λ p h. od p (vo p h)), tt)), ((vo, tt), (tt, tt))),
    )

highest_from-mem :
    (rs cs : List Role) (r : Role) → highest_from rs cs ≡ some r → contains r cs ≡ true
unfolding highest_from
highest_from-mem [] cs r h = absurd (cc)
highest_from-mem (x ∷ rs) cs r h = elim (Bool-cases (contains x cs)) [
  | inl here ↦ let e : x ≡ r = ground arith in rw e at here
  | inr later ↦ highest_from-mem rs cs r (ground arith)
]

pub highest-mem : (cs : List Role) (r : Role) → highest cs ≡ some r → contains r cs ≡ true
unfolding highest
highest-mem cs r h = highest_from-mem all_roles cs r h

highest_from_dominates :
    (rs cs : List Role) (r c : Role) (p : Permission)
    → Nested rs
    → highest_from rs cs ≡ some r
    → contains c rs ≡ true
    → contains c cs ≡ true
    → can c p ≡ true
    → can r p ≡ true
unfolding highest_from contains
highest_from_dominates [] cs r c p n h l m k = absurd (cc)
highest_from_dominates (x ∷ rs) cs r c p n h l m k = elim (Bool-cases (contains x cs)) [
  | inl here ↦
      let e : x ≡ r = ground arith in
      elim (Bool-cases (x == c)) [
        | inl same ↦ rw (← e, (eq_iff x c).0 same) k
        | inr other ↦ rw (← e) (
            All-contains (λ y. can y p ≡ true → can x p ≡ true) c rs
              (All-weaken rs (λ y f. f p) n.0) (ground arith) k)
      ]
  | inr later ↦ elim (Bool-cases (x == c)) [
    | inl same ↦
        absurd (let e : x ≡ c = (eq_iff x c).0 same in let m' : contains x cs ≡ true = rw e m in cc)
    | inr other ↦ highest_from_dominates rs cs r c p n.1 (ground arith) (ground arith) m k
  ]
]

valid_iff_listed : (c : Role) → is_valid_role c ≡ contains c all_roles
unfolding matrix
valid_iff_listed c = ground arith

-- The highest role is one of the candidates, and can do whatever any of them can.
pub highest_lem :
    (cs : List Role) (r c : Role) (p : Permission)
    → highest cs ≡ some r
    → contains c cs ≡ true
    → can c p ≡ true
    → (contains r cs ≡ true) × (can r p ≡ true)
unfolding highest
highest_lem cs r c p h m k = (
  highest_from-mem all_roles cs r h,
  highest_from_dominates all_roles cs r c p all_roles-Nested h
      (sym (valid_iff_listed c) ∙ can-is_valid_role c p k) m k,
)
