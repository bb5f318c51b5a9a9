-- ===== src/Lifecycle/Machine.antt =====
-- apps/automate-api/internal/lifecycle/lifecycle.go: which status changes are legal.
use Prim.Native.String.{String}
use mathlib.Core.Path.{◌≡◌, refl}
use mathlib.Core.Logic.{◌⊎◌, ◌↔◌, inl, inr}
use mathlib.Core.Bool.{Bool, true, false}
use mathlib.Core.Option.{none, some}
use mathlib.Core.List.{List, [], ◌∷◌}
use native.Mathlib.Omega.{arith}
use text.Mathlib.TextEquality.{eq_iff}
use mywork_automate.Prelude.{contains, lookup}

abbrev pub status_draft : String
status_draft = "draft"

abbrev pub status_published : String
status_published = "published"

abbrev pub status_paused : String
status_paused = "paused"

abbrev pub status_stopped : String
status_stopped = "stopped"

-- The adjacency; a row lists the statuses that it maps to `true`.
unfoldable pub transitions : List (String × List String)
transitions =
    (status_draft, status_published ∷ [])
    ∷ (status_published, status_paused ∷ status_stopped ∷ [])
    ∷ (status_paused, status_published ∷ status_stopped ∷ [])
    ∷ (status_stopped, status_published ∷ [])
    ∷ []

unfoldable pub can_transition : String → String → Bool
can_transition from to = elim (lookup from transitions) [
  | none ↦ false
  | some row ↦ contains to row
]

machine : Unit {0}
unfolding can_transition transitions lookup contains
machine = tt

-- The hops of the lifecycle: publish, pause, stop, resume, stop while paused, publish again.
abbrev pub IsLegal : String → String → Type 0
IsLegal s t =
    ((s ≡ "draft") × (t ≡ "published"))
    ⊎ ((s ≡ "published") × (t ≡ "paused"))
    ⊎ ((s ≡ "published") × (t ≡ "stopped"))
    ⊎ ((s ≡ "paused") × (t ≡ "published"))
    ⊎ ((s ≡ "paused") × (t ≡ "stopped"))
    ⊎ ((s ≡ "stopped") × (t ≡ "published"))

can_transition_of : (s t : String) → IsLegal s t → can_transition s t ≡ true
unfolding machine
can_transition_of s t (inl (e, f)) = rw (e, f) refl
can_transition_of s t (inr (inl (e, f))) = rw (e, f) refl
can_transition_of s t (inr (inr (inl (e, f)))) = rw (e, f) refl
can_transition_of s t (inr (inr (inr (inl (e, f))))) = rw (e, f) refl
can_transition_of s t (inr (inr (inr (inr (inl (e, f)))))) = rw (e, f) refl
can_transition_of s t (inr (inr (inr (inr (inr (e, f)))))) = rw (e, f) refl

-- The table holds those six hops and no other, over all pairs of statuses, known or not.
pub can_transition_iff : (s t : String) → (can_transition s t ≡ true) ↔ IsLegal s t
unfolding machine
can_transition_iff s t = (
  λ h. ground (
    arith,
    eq_iff "draft" s,
    eq_iff "published" s,
    eq_iff "paused" s,
    eq_iff "stopped" s,
    eq_iff "published" t,
    eq_iff "paused" t,
    eq_iff "stopped" t,
  ),
  can_transition_of s t,
)

pub republishes :
    (s : String) → (s ≡ "draft") ⊎ (s ≡ "stopped") → can_transition s status_published ≡ true
unfolding machine
republishes s (inl e) = rw e refl
republishes s (inr e) = rw e refl
