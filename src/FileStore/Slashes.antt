-- ===== src/FileStore/Slashes.antt =====
-- Keys of slashes only, which pkg/filestore/filestore.go takes for the root of the store.
use Prim.Native.Nat.{ℕ, zero, suc}
use Prim.Native.String.{String}
use mathlib.Core.Path.{◌≡◌, refl, ap, ◌∙◌}
use mathlib.Core.Bool.{true, false}
use mathlib.Core.List.{List, [], ◌∷◌, reverse, append-nil}
use text.Mathlib.Text.{◌==◌}
use mywork_automate.Prelude.{All}
use mywork_automate.Prelude.Chars.{trim_space, trim_space-cons}
use mywork_automate.Prelude.Results.{ok}
use mywork_automate.FileStore.Keys.{
  split_slash, slashed, trim_slash, Cleaned, add_elements, clean_parts, clean, text_of, join_root,
  escapes, resolve,
}
use mywork_automate.FileStore.Confined.{IsPlain, join_root-plain, resolve-stays}

abbrev pub slashes : ℕ → String
slashes zero = ""
slashes (suc n) = String.◌∷◌ "/" (slashes n)

slashed-slashes : (n : ℕ) → slashed (slashes n) ≡ slashes n
unfolding slashed
slashed-slashes zero = refl
slashed-slashes (suc n) = ap (String.◌∷◌ "/") (slashed-slashes n)

abbrev blanks : ℕ → List String
blanks zero = "" ∷ []
blanks (suc n) = "" ∷ blanks n

split_slash-slashes : (n : ℕ) → split_slash (slashes n) ≡ blanks n
unfolding split_slash
split_slash-slashes zero = refl
split_slash-slashes (suc n) = ap (◌∷◌ "") (split_slash-slashes n)

add_elements-blanks : (n : ℕ) → add_elements true [] (blanks n) ≡ []
unfolding add_elements
add_elements-blanks zero = refl
add_elements-blanks (suc n) = add_elements-blanks n

abbrev top : Cleaned
top = record { rooted = true; elements = [] }

clean-slashes : (n : ℕ) → clean (slashes (suc n)) ≡ top
clean-slashes n =
    let parts = ap (clean_parts true) (split_slash-slashes (suc n)) in
    unfold clean in
    parts ∙ ap (λ xs. record { rooted = true; elements = reverse xs }) (add_elements-blanks (suc n))

slashes-not_blank : (n : ℕ) → (trim_space (slashes (suc n)) == "") ≡ false
slashes-not_blank n = trim_space-cons "/" (slashes n) refl

-- A key of two slashes or more is not refused: it leads to the root of the store itself.
pub resolve-slashes :
    (root : List String) (n : ℕ) → All IsPlain root → resolve root (slashes (suc (suc n))) ≡ ok root
resolve-slashes root n plain =
    let key = slashes (suc (suc n)) in
    let rel : clean (trim_slash (slashed key)) ≡ top =
      ap (λ s. clean (trim_slash s)) (slashed-slashes (suc (suc n)))
      ∙ (unfold trim_slash in clean-slashes n) in
    resolve-stays root key (slashes-not_blank (suc n)) (rw rel (unfold escapes text_of in refl))
    ∙ ap (λ c. ok (join_root root c)) rel
    ∙ ap ok (join_root-plain root top plain tt ∙ append-nil root)
