-- ===== src/FileStore/Confined.antt =====
-- Where the keys of pkg/filestore/filestore.go lead: never out of the root of the store.
use Prim.Native.String.{String, ◌++◌}
use Prim.Native.String.append as Append
use mathlib.Core.Path.{◌≡◌, refl, ap, sym, ◌∙◌}
use mathlib.Core.Logic.{◌⊎◌, inl, inr}
use mathlib.Core.Bool.{Bool, true, false, not, ◌&&◌, ◌||◌}
use mathlib.Core.List.{
  List, [], ◌∷◌, ◌++◌ as ◌+++◌, reverse, reverse-cons, reverse-reverse, append_assoc, append-nil,
}
use native.Mathlib.Omega.{arith}
use text.Mathlib.Text.{◌==◌}
use text.Mathlib.TextEquality.{eq_iff}
use mywork_automate.Prelude.{All, All-append, if◌then◌else◌, Bool-cases}
use mywork_automate.Prelude.Chars.{trim_space, join_with}
use mywork_automate.Prelude.Results.{ok, err}
use mywork_automate.FileStore.Keys.{
  split_slash, slashed, trim_slash, starts_rooted, Cleaned, add_element, add_elements, clean_parts,
  clean, text_of, join_root, empty_key, escapes_root, escapes, resolve,
}

-- An element that names something in its directory: not empty, `.` or `..`.
abbrev pub is_plain : String → Bool
is_plain p = not (p == "" || (p == "." || p == ".."))

abbrev pub IsPlain : String → Type 0
IsPlain p = is_plain p ≡ true

abbrev all_up : List String → Bool
all_up [] = true
all_up (p ∷ ps) = p == ".." && all_up ps

-- Plain elements above those that climb, as `path.Clean` stacks them.
abbrev is_stacked : List String → Bool
is_stacked [] = true
is_stacked (p ∷ ps) = (p == ".." && all_up ps) || (is_plain p && is_stacked ps)

add_element-is_stacked :
    (out : List String) (p : String)
    → is_stacked out ≡ true
    → is_stacked (add_element false out p) ≡ true
unfolding add_element
add_element-is_stacked [] p h = ground arith
add_element-is_stacked (q ∷ out) p h = ground arith

all_up-is_stacked : (out : List String) → all_up out ≡ true → is_stacked out ≡ true
all_up-is_stacked [] h = refl
all_up-is_stacked (p ∷ ps) h = ground arith

add_element-IsPlain :
    (out : List String) (p : String) → All IsPlain out → All IsPlain (add_element true out p)
unfolding add_element
add_element-IsPlain [] p h = ground arith
add_element-IsPlain (q ∷ out) p h = ground arith

add_elements-is_stacked :
    (parts out : List String)
    → is_stacked out ≡ true
    → is_stacked (add_elements false out parts) ≡ true
unfolding add_elements
add_elements-is_stacked [] out h = h
add_elements-is_stacked (p ∷ parts) out h =
    add_elements-is_stacked parts (add_element false out p) (add_element-is_stacked out p h)

add_elements_rooted-IsPlain :
    (parts out : List String) → All IsPlain out → All IsPlain (add_elements true out parts)
unfolding add_elements
add_elements_rooted-IsPlain [] out h = h
add_elements_rooted-IsPlain (p ∷ parts) out h =
    add_elements_rooted-IsPlain parts (add_element true out p) (add_element-IsPlain out p h)

reverse-all_up :
    (out : List String)
    → all_up out ≡ true
    → (rest : List String) × (reverse (".." ∷ out) ≡ ".." ∷ rest)
reverse-all_up [] h = ([], refl)
reverse-all_up (q ∷ out) h =
    let (rest, e) = reverse-all_up out (ground arith) in
    let same : q ≡ ".." = (eq_iff q "..").0 (ground arith) in
    let below : reverse (q ∷ out) ≡ ".." ∷ rest = rw same e in
    (rest +++ ".." ∷ [], reverse-cons ".." (q ∷ out) ∙ ap (λ r. r +++ ".." ∷ []) below)

-- A stack is plain, or climbs at its bottom.
is_stacked-cases :
    (out : List String)
    → is_stacked out ≡ true
    → All IsPlain out ⊎ ((rest : List String) × (reverse out ≡ ".." ∷ rest))
is_stacked-cases [] h = inl tt
is_stacked-cases (p ∷ out) h = elim (Bool-cases (is_plain p && is_stacked out)) [
  | inl both ↦ elim (is_stacked-cases out (ground arith)) [
    | inl plain ↦ inl (ground arith, plain)
    | inr (rest, e) ↦ inr (rest +++ p ∷ [], reverse-cons p out ∙ ap (λ r. r +++ p ∷ []) e)
  ]
  | inr up ↦
      let same : p ≡ ".." = (eq_iff p "..").0 (ground arith) in
      inr (rw same (reverse-all_up out (ground arith)))
]

add_element-push : (out : List String) (p : String) → IsPlain p → add_element true out p ≡ p ∷ out
unfolding add_element
add_element-push out p h = ground arith

-- Adding plain elements pushes them.
add_elements-IsPlain :
    (parts out : List String)
    → All IsPlain parts
    → add_elements true out parts ≡ reverse parts +++ out
unfolding add_elements
add_elements-IsPlain [] out h = refl
add_elements-IsPlain (p ∷ parts) out h =
    ap (λ o. add_elements true o parts) (add_element-push out p h.0)
    ∙ add_elements-IsPlain parts (p ∷ out) h.1
    ∙ sym (append_assoc (reverse parts) (p ∷ []) out)
    ∙ ap (λ r. r +++ out) (sym (reverse-cons p parts))

All-reverse : (xs : List String) → All IsPlain xs → All IsPlain (reverse xs)
All-reverse [] h = tt
All-reverse (x ∷ xs) h =
    rw (reverse-cons x xs) (All-append IsPlain (reverse xs) (x ∷ []) (All-reverse xs h.1) (h.0, tt))

-- A text that begins with the element `..` escapes.
above_text : (t : String) → ".." ++ ("/" ++ t) ≡ String.◌∷◌ "." (String.◌∷◌ "." (String.◌∷◌ "/" t))
above_text t =
    Append.cons "." "." ("/" ++ t)
    ∙ ap (String.◌∷◌ ".") (
        Append.cons "." "" ("/" ++ t)
        ∙ ap (String.◌∷◌ ".")
            (Append.nil ("/" ++ t) ∙ Append.cons "/" "" t ∙ ap (String.◌∷◌ "/") (Append.nil t)))

escapes_above : (t : String) → escapes (".." ++ ("/" ++ t)) ≡ true
unfolding escapes
escapes_above t = rw (above_text t) (ground arith)

escapes_up : (rest : List String) → escapes (join_with "/" (".." ∷ rest)) ≡ true
unfolding join_with
escapes_up [] = unfold escapes in refl
escapes_up (p ∷ rest) = escapes_above (join_with "/" (p ∷ rest))

text_of-up :
    (els rest : List String)
    → els ≡ ".." ∷ rest
    → escapes (text_of (record { rooted = false; elements = els })) ≡ true
unfolding text_of
text_of-up els rest e = elim (Bool-cases (join_with "/" els == "")) [
  | inl nothing ↦ rw nothing (unfold escapes in refl)
  | inr some_text ↦ rw some_text (rw e (escapes_up rest))
]

clean_parts-IsPlain :
    (rooted : Bool) (parts : List String)
    → escapes (text_of (clean_parts rooted parts)) ≡ false
    → All IsPlain (clean_parts rooted parts).elements
clean_parts-IsPlain true parts h =
    All-reverse (add_elements true [] parts) (add_elements_rooted-IsPlain parts [] tt)
clean_parts-IsPlain false parts h =
    let stack = add_elements false [] parts in
    elim (is_stacked-cases stack (add_elements-is_stacked parts [] refl)) [
      | inl plain ↦ All-reverse stack plain
      | inr (rest, up) ↦ absurd (let up_again = text_of-up (reverse stack) rest up in cc)
    ]

placed :
    (blank up : Bool) (place : List String) {abs : List String}
    → (if blank then err empty_key else if up then err escapes_root else ok place) ≡ ok abs
    → (up ≡ false) × (abs ≡ place)
placed true up place h = absurd (cc)
placed false true place h = absurd (cc)
placed false false place h = (refl, ground arith)

clean-IsPlain : (s : String) → escapes (text_of (clean s)) ≡ false → All IsPlain (clean s).elements
clean-IsPlain s h = unfold clean in clean_parts-IsPlain (starts_rooted s) (split_slash s) h

resolve-ok :
    (root : List String) (key : String) {abs : List String}
    → resolve root key ≡ ok abs
    → let rel = clean (trim_slash (slashed key)) in
      (escapes (text_of rel) ≡ false) × (abs ≡ join_root root rel)
resolve-ok root key h =
    let rel = clean (trim_slash (slashed key)) in
    unfold resolve in placed (trim_space key == "") (escapes (text_of rel)) (join_root root rel) h

pub join_root-plain :
    (root : List String) (rel : Cleaned)
    → All IsPlain root
    → All IsPlain rel.elements
    → join_root root rel ≡ root +++ rel.elements
unfolding join_root
join_root-plain root rel hr he =
    ap reverse (
      add_elements-IsPlain (root +++ rel.elements) [] (All-append IsPlain root rel.elements hr he)
      ∙ append-nil (reverse (root +++ rel.elements)))
    ∙ reverse-reverse (root +++ rel.elements)

passed :
    (blank up : Bool) (place : List String)
    → blank ≡ false
    → up ≡ false
    → (if blank then err empty_key else if up then err escapes_root else ok place) ≡ ok place
passed blank up place hb hu = rw hb (rw hu)

pub resolve-stays :
    (root : List String) (key : String)
    → (trim_space key == "") ≡ false
    → escapes (text_of (clean (trim_slash (slashed key)))) ≡ false
    → resolve root key ≡ ok (join_root root (clean (trim_slash (slashed key))))
resolve-stays root key hb hu =
    let rel = clean (trim_slash (slashed key)) in
    unfold resolve in
    passed (trim_space key == "") (escapes (text_of rel)) (join_root root rel) hb hu

-- Every key is refused or leads to a place under the root: the root's own elements, and below them
-- only elements that name something in their directory, none of them empty, `.` or `..`. So no key,
-- whatever slashes, backslashes and dots it holds, gets out of the store.
pub resolve_confined :
    (root : List String) (key : String) {abs : List String}
    → All IsPlain root
    → resolve root key ≡ ok abs
    → (below : List String) × (abs ≡ root +++ below) × All IsPlain below
resolve_confined root key plain h =
    let rel = clean (trim_slash (slashed key)) in
    let (stays, e) = resolve-ok root key h in
    let inside = clean-IsPlain (trim_slash (slashed key)) stays in
    (rel.elements, e ∙ join_root-plain root rel plain inside, inside)
