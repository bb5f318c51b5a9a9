-- ===== src/Prelude/Reorder.antt =====
-- What does not depend on the order of a list: sorted picks, membership, length.
use Prim.Native.Nat.{suc}
use mathlib.Core.Path.{◌≡◌, refl, ap, subst₂, sym, ◌∙◌}
use mathlib.Core.Logic.{inl, inr}
use mathlib.Core.Bool.{Bool}
use mathlib.Core.List.{List, ◌∷◌, map, Permᴰ}
use native.Mathlib.Omega.{arith}
use Prim.Native.String.{String}
use text.Mathlib.TextEquality.{eq_iff}
use mywork_automate.Prelude.Tests.{Bool-cases}
use mywork_automate.Prelude.Lists.{length, pick}
use mywork_automate.Prelude.Text.{contains, sort}
use mywork_automate.Prelude.TextOrder.{sort_insert_comm, Distinct}

module _ {ℓ} {A : Type ℓ} where
  pub length-perm : {l m : List A} → Permᴰ l m → length l ≡ length m
  length-perm Permᴰ.nil = refl
  length-perm (Permᴰ.cons e p) = ap suc (length-perm p)
  length-perm (Permᴰ.swap e f) = refl
  length-perm (Permᴰ.trans p q) = length-perm p ∙ length-perm q

  pub sort-pick_perm :
      (p : A → Bool) (f : A → String) {l m : List A}
      → Permᴰ l m
      → sort (pick p f l) ≡ sort (pick p f m)
  unfolding sort
  sort-pick_perm p f Permᴰ.nil = refl
  sort-pick_perm p f (Permᴰ.cons {a = a} {b = b} {l₁ = l} {l₂ = m} e q) =
      rw e (elim (Bool-cases (p b)) [
        | inl in_ ↦ rw (in_, sort-pick_perm p f q)
        | inr out ↦ rw (out, sort-pick_perm p f q)
      ])
  sort-pick_perm p f (Permᴰ.swap {a = a} {b = b} {a' = a'} {b' = b'} {l = l} e g) =
      rw (e, g) (ground (arith, sort_insert_comm (f a') (f b') (sort (pick p f l))))
  sort-pick_perm p f (Permᴰ.trans q r) = sort-pick_perm p f q ∙ sort-pick_perm p f r

  pub contains-map_perm :
      (f : A → String) (x : String) {l m : List A}
      → Permᴰ l m
      → contains x (map f l) ≡ contains x (map f m)
  unfolding contains
  contains-map_perm f x Permᴰ.nil = refl
  contains-map_perm f x (Permᴰ.cons e q) = rw (e, contains-map_perm f x q)
  contains-map_perm f x (Permᴰ.swap e g) = rw (e, g) (ground arith)
  contains-map_perm f x (Permᴰ.trans q r) = contains-map_perm f x q ∙ contains-map_perm f x r

  pub Distinct-map_perm :
      (f : A → String) {l m : List A} → Permᴰ l m → Distinct (map f l) → Distinct (map f m)
  unfolding contains
  Distinct-map_perm f Permᴰ.nil d = tt
  Distinct-map_perm f (Permᴰ.cons {a = a} {b = b} {l₁ = l} {l₂ = m} e q) d =
      let d' : Distinct (map f (b ∷ l)) = rw e at d in
      (sym (contains-map_perm f (f b) q) ∙ d'.0, Distinct-map_perm f q d'.1)
  Distinct-map_perm f (Permᴰ.swap {a = a} {b = b} {a' = a'} {b' = b'} {l = l} e g) d =
      let d' : Distinct (map f (b' ∷ a' ∷ l)) =
        subst₂ (λ x y. Distinct (map f (x ∷ y ∷ l))) e g d in
      ground (arith, eq_iff (f a') (f b'), eq_iff (f b') (f a'))
  Distinct-map_perm f (Permᴰ.trans q r) d = Distinct-map_perm f r (Distinct-map_perm f q d)
