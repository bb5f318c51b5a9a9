-- ===== src/FileStore/Keys.antt =====
-- pkg/filestore/filestore.go: `resolve`, from a storage key to a place on the disk.
use Prim.Native.Char.{Char}
use Prim.Native.String.{String}
use mathlib.Core.Bool.{Bool, true, false, ◌&&◌, ◌||◌}
use mathlib.Core.List.{List, [], ◌∷◌, ◌++◌ as ◌+++◌, reverse}
use text.Mathlib.Text.{◌==◌}
use mywork_automate.Prelude.{if◌then◌else◌}
use mywork_automate.Prelude.Chars.{within, trim_space, join_with}
use mywork_automate.Prelude.Results.{Result, ok, err}

abbrev pub is_slash : Char → Bool
is_slash c = within b'/' b'/' c

abbrev onto_first : Char → List String → List String
onto_first c [] = String.◌∷◌ c "" ∷ []
onto_first c (part ∷ parts) = String.◌∷◌ c part ∷ parts

-- `strings.Split(s, "/")`
unfoldable pub split_slash : String → List String
split_slash String.[] = "" ∷ []
split_slash (String.◌∷◌ c s) =
    let parts = split_slash s in if is_slash c then "" ∷ parts else onto_first c parts

-- `strings.ReplaceAll(s, "\\", "/")`
unfoldable pub slashed : String → String
slashed String.[] = ""
slashed (String.◌∷◌ c s) = String.◌∷◌ (if within b'\\' b'\\' c then "/" else c) (slashed s)

-- `strings.TrimPrefix(s, "/")`
unfoldable pub trim_slash : String → String
trim_slash String.[] = ""
trim_slash (String.◌∷◌ c s) = if is_slash c then s else String.◌∷◌ c s

unfoldable pub starts_rooted : String → Bool
starts_rooted String.[] = false
starts_rooted (String.◌∷◌ c s) = is_slash c

-- `strings.HasPrefix(s, "../")`
unfoldable pub starts_above : String → Bool
starts_above (String.◌∷◌ a (String.◌∷◌ b (String.◌∷◌ c s))) =
    within b'.' b'.' a && (within b'.' b'.' b && is_slash c)
starts_above _ = false

-- A path that `path.Clean` has made: its elements, behind a slash or not.
pub record Cleaned : Type 0 where
  pub rooted : Bool
  pub elements : List String

-- An element `..` takes the last one away. With none to take it is dropped behind a slash, and else
-- kept. The elements so far are in reverse.
unfoldable pub step_up : Bool → List String → List String
step_up rooted [] = if rooted then [] else ".." ∷ []
step_up rooted (last ∷ out) = if last == ".." then ".." ∷ last ∷ out else out

unfoldable pub add_element : Bool → List String → String → List String
unfolding step_up
add_element rooted out part =
    if part == "" || part == "."
    then out
    else if part == ".."
    then step_up rooted out
    else part ∷ out

unfoldable pub add_elements : Bool → List String → List String → List String
unfolding add_element
add_elements rooted out [] = out
add_elements rooted out (part ∷ parts) = add_elements rooted (add_element rooted out part) parts

abbrev pub clean_parts : Bool → List String → Cleaned
clean_parts rooted parts = record {
  rooted = rooted;
  elements = reverse (add_elements rooted [] parts);
}

-- `path.Clean`
unfoldable pub clean : String → Cleaned
unfolding add_elements split_slash starts_rooted
clean s = clean_parts (starts_rooted s) (split_slash s)

-- The text of a cleaned path.
unfoldable pub text_of : Cleaned → String
unfolding join_with
text_of c =
    let joined = join_with "/" c.elements in
    if c.rooted then String.◌∷◌ "/" joined else if joined == "" then "." else joined

-- `filepath.Join(root, rel)`, for a root given by its elements.
unfoldable pub join_root : List String → Cleaned → List String
unfolding add_elements
join_root root rel = reverse (add_elements true [] (root +++ rel.elements))

pub data PathError : Type 0 where
  empty_key escapes_root : PathError

unfoldable pub escapes : String → Bool
unfolding starts_above
escapes rel = rel == "" || (rel == "." || (rel == ".." || starts_above rel))

-- The place is given by its elements under the root of the disk.
unfoldable pub resolve : List String → String → Result PathError (List String)
unfolding clean text_of join_root escapes slashed trim_slash trim_space
resolve root key =
    let rel = clean (trim_slash (slashed key)) in
    if trim_space key == ""
    then err empty_key
    else if escapes (text_of rel)
    then err escapes_root
    else ok (join_root root rel)
