-- ===== src/FileStore/Tests.antt =====
-- Tests of keys and of the store on a small disk, and the theorems at concrete inputs.
use Prim.Native.String.{String}
use mathlib.Core.Path.{◌≡◌, refl}
use mathlib.Core.Logic.{◌≢◌, ◌↔◌}
use mathlib.Core.Bool.{Bool, true, false, ◌&&◌}
use mathlib.Core.Option.{Option, none, some}
use mathlib.Core.List.{List, [], ◌∷◌, ◌++◌}
use native.Mathlib.Omega.{arith}
use text.Mathlib.Text.{◌==◌}
use text.Mathlib.TextEquality.{eq_iff}
use mywork_automate.Prelude.{All, if◌then◌else◌}
use mywork_automate.Prelude.Chars.{size}
use mywork_automate.Prelude.Results.{Result, ok, err}
use mywork_automate.FileStore.Keys.{resolve, empty_key, escapes_root}
use mywork_automate.FileStore.Confined.{IsPlain, resolve_confined}
use mywork_automate.FileStore.Slashes.{slashes, resolve-slashes}
use mywork_automate.FileStore.Local.{
  DiskError, not_exist, other_failure, Disk, FileRef, not_found, put, get, IsLawful,
}
use mywork_automate.FileStore.Stored.{put-get}

abbrev root : List String
root = "data" ∷ "files" ∷ []

nested :
    resolve root "tenant\\exec//./payroll.xlsx"
    ≡ ok (root ++ "tenant" ∷ "exec" ∷ "payroll.xlsx" ∷ [])
unfolding resolve
nested = refl

climbing : resolve root "a/../../x" ≡ err escapes_root
unfolding resolve
climbing = refl

blank : resolve root "  " ≡ err empty_key
unfolding resolve
blank = refl

-- Behind a second slash `..` is dropped, not refused.
dropped : resolve root "//../x" ≡ ok (root ++ "x" ∷ [])
unfolding resolve
dropped = refl

resolve_confined_example :
    (below : List String) × (root ++ "a" ∷ "b" ∷ [] ≡ root ++ below) × All IsPlain below
resolve_confined_example =
    resolve_confined root "/a/./c/../b" (refl, (refl, tt)) (unfold resolve in refl)

resolve-slashes_example : resolve root (slashes 3) ≡ ok root
resolve-slashes_example = resolve-slashes root 1 (refl, (refl, tt))

same : List String → List String → Bool
same [] [] = true
same (p ∷ ps) (q ∷ qs) = p == q && same ps qs
same _ _ = false

same_iff : (ps qs : List String) → (same ps qs ≡ true) ↔ (ps ≡ qs)
unfolding same
same_iff [] [] = ground arith
same_iff [] (q ∷ qs) = ground arith
same_iff (p ∷ ps) [] = ground arith
same_iff (p ∷ ps) (q ∷ qs) = ground (arith, eq_iff p q, same_iff ps qs)

abbrev Files : Type 0
Files = List String → Option String

write_at : List String → Option String → Files → Files
unfolding same
write_at p v w q = if same p q then v else w q

abbrev not_there : Option String → Result DiskError String
not_there none = err not_exist
not_there (some c) = ok c

-- A disk where writing fails if `full`.
abbrev disk : Bool → Disk Files String
disk full = record {
  make_dirs = λ p w. (w, none);
  open_file = λ p w. (write_at p (some "") w, none);
  copy = λ p c w. (write_at p (some c) w, size c, if full then some other_failure else none);
  close = λ p w. (w, none);
  remove = λ p w. (write_at p none w, none);
  read = λ p w. not_there (w p);
  stat = λ p w. elim (w p) [ none ↦ some not_exist | some c ↦ none ];
}

write_at_self : (p : List String) (v : Option String) (w : Files) → write_at p v w p ≡ v
unfolding write_at
write_at_self p v w = rw ((same_iff p p).1 refl)

write_at_other :
    (p q : List String) (v : Option String) (w : Files) → p ≢ q → write_at p v w q ≡ w q
unfolding write_at
write_at_other p q v w apart = ground (arith, same_iff p q)

disk-IsLawful : (full : Bool) → IsLawful (disk full)
disk-IsLawful full = record {
  read-written = λ p c w o k l. rw (write_at_self p (some c) (write_at p (some "") w));
  read-removed = λ p w r. rw (write_at_self p none w);
  kept-make_dirs = λ p q old w h. h;
  kept-open_file = λ p q old w apart h. rw (write_at_other p q (some "") w apart) h;
  kept-copy = λ p q c old w apart h. rw (write_at_other p q (some c) w apart) h;
  kept-close = λ p q old w apart h. h;
  kept-remove = λ p q old w apart h. rw (write_at_other p q none w apart) h;
}

abbrev nothing : Files
nothing p = none

abbrev sha : String → String
sha c = c

abbrev stored : FileRef
stored = record { path = "a.csv"; size = 3; checksum = "x,y" }

put-get_example :
    let w' = (put (disk false) root sha false "a.csv" "x,y" nothing).0 in
    (stored.path ≡ "a.csv")
    × (stored.checksum ≡ "x,y")
    × ((get (disk false) root false "a.csv" w').1 ≡ ok "x,y")
    × ((other : String) (old : String)
        → resolve root other ≢ resolve root "a.csv"
        → (get (disk false) root false other nothing).1 ≡ ok old
        → (get (disk false) root false other w').1 ≡ ok old)
put-get_example =
    put-get (disk false) root sha (disk-IsLawful false) "a.csv" "x,y" nothing stored
      (unfold put resolve size in refl)

-- The removal works, and nothing is left.
none_left :
    (get (disk true) root false "a.csv" (put (disk true) root sha false "a.csv" "x,y" nothing).0).1
    ≡ err not_found
unfolding get put resolve write_at same
none_left = refl
