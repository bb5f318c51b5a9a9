-- ===== src/FileStore/Stored.antt =====
-- What pkg/filestore/filestore.go puts is what it gets, and a failed put leaves no object.
use Prim.Native.String.{String}
use mathlib.Core.Path.{◌≡◌, ap, sym, ◌∙◌}
use mathlib.Core.Logic.{◌≢◌, ◌⊎◌, inl, inr}
use mathlib.Core.Bool.{false}
use mathlib.Core.Option.{none, some}
use mathlib.Core.List.{List}
use native.Mathlib.Omega.{arith}
use mywork_automate.Prelude.Results.{ok, err, Result-cases}
use mywork_automate.FileStore.Keys.{PathError, resolve}
use mywork_automate.FileStore.Local.{
  DiskError, Disk, FileRef, FileError, invalid_path, write_failed, close_failed, Done, dir_of,
  at_place, finish_put, put_at, put, get_at, get, IsLawful,
}

-- The failures of a put behind the opening of the file.
abbrev pub IsWritten : FileError → Type 0
IsWritten e = (e ≡ write_failed) ⊎ (e ≡ close_failed)

module _ {W Content : Type 0} (d : Disk W Content) (root : List String) (sha : Content → String)
    (lawful : IsLawful d) where
  finish_put-stored :
      (abs : List String) (key : String) (content : Content) (w : W) (ref : FileRef)
      → (d.open_file abs w).1 ≡ none
      → (finish_put d root sha abs key content (d.open_file abs w).0).1 ≡ ok ref
      → (ref.path ≡ key)
        × (ref.checksum ≡ sha content)
        × (d.read abs (finish_put d root sha abs key content (d.open_file abs w).0).0 ≡ ok content)
  unfolding finish_put
  finish_put-stored abs key content w ref opened h =
      ground (arith, lawful.read-written abs content w)

  put_at-stored :
      (key : String) (content : Content) (w : W) (abs : List String) (ref : FileRef)
      → (put_at d root sha key content w abs).1 ≡ ok ref
      → (ref.path ≡ key)
        × (ref.checksum ≡ sha content)
        × (d.read abs (put_at d root sha key content w abs).0 ≡ ok content)
  unfolding put_at
  put_at-stored key content w abs ref h =
      ground (arith, finish_put-stored abs key content (d.make_dirs (dir_of abs) w).0 ref)

  -- A failed removal, and the world that it leaves.
  abbrev pub IsUnremoved : List String → W → Type 0
  IsUnremoved abs after =
      (w : W) × (e : DiskError) × ((d.remove abs w).1 ≡ some e) × (after ≡ (d.remove abs w).0)

  finish_put_elsewhere :
      (p q : List String) (key : String) (content old : Content) (w : W)
      → p ≢ q
      → d.read q w ≡ ok old
      → d.read q (finish_put d root sha p key content w).0 ≡ ok old
  unfolding finish_put
  finish_put_elsewhere p q key content old w apart there =
      let copied = (d.copy p content w).0 in
      let closed = (d.close p copied).0 in
      let still =
        lawful.kept-close p q old copied apart (lawful.kept-copy p q content old w apart there) in
      ground (arith, still, lawful.kept-remove p q old closed apart still)

  put_at_elsewhere :
      (p q : List String) (key : String) (content old : Content) (w : W)
      → p ≢ q
      → d.read q w ≡ ok old
      → d.read q (put_at d root sha key content w p).0 ≡ ok old
  unfolding put_at
  put_at_elsewhere p q key content old w apart there =
      let made = (d.make_dirs (dir_of p) w).0 in
      let opened = (d.open_file p made).0 in
      let kept = lawful.kept-make_dirs (dir_of p) q old w there in
      let still = lawful.kept-open_file p q old made apart kept in
      ground (arith, kept, still, finish_put_elsewhere p q key content old opened apart still)

  at_place-ok :
      {A : Type 0} (key : String) (w : W) (act : List String → Done W A) {abs : List String}
      → resolve root key ≡ ok abs
      → at_place root false key w act ≡ act abs
  at_place-ok key w act found = rw found

  at_place-err :
      {A : Type 0} (key : String) (w : W) (act : List String → Done W A) {e : PathError}
      → resolve root key ≡ err e
      → at_place root false key w act ≡ (w, err (invalid_path e))
  at_place-err key w act refused = rw refused

  get_at-read :
      (abs : List String) (w : W) (c : Content)
      → (get_at d root w abs).1 ≡ ok c
      → d.read abs w ≡ ok c
  unfolding get_at
  get_at-read abs w c h = ground arith

  get-read :
      (key : String) (w : W) (c : Content)
      → (get d root false key w).1 ≡ ok c
      → (abs : List String) × (resolve root key ≡ ok abs) × (d.read abs w ≡ ok c)
  get-read key w c = elim (Result-cases (resolve root key)) [
    | inr (e, refused) ↦
        let answer = at_place-err key w (get_at d root w) refused in
        λ h. absurd (unfold get in let broken = rw answer at h in cc)
    | inl (abs, found) ↦
        let answer = at_place-ok key w (get_at d root w) found in
        λ h. (abs, found, get_at-read abs w c (unfold get in rw answer at h))
  ]

  get_stored :
      (key : String) (content : Content) (w : W) (abs : List String)
      → resolve root key ≡ ok abs
      → d.read abs w ≡ ok content
      → (get d root false key w).1 ≡ ok content
  get_stored key content w abs found stored =
      unfold get in
      ap (λ r. r.1) (at_place-ok key w (get_at d root w) found)
      ∙ (unfold get_at in ground (arith, stored))

  get_elsewhere :
      (key other : String) (content old : Content) (w : W) (abs : List String)
      → resolve root key ≡ ok abs
      → resolve root other ≢ resolve root key
      → (get d root false other w).1 ≡ ok old
      → (get d root false other (put_at d root sha key content w abs).0).1 ≡ ok old
  get_elsewhere key other content old w abs found apart h =
      let (q, there, stored) = get-read other w old h in
      let far : abs ≢ q = λ e. apart (there ∙ ap ok (sym e) ∙ sym found) in
      get_stored other old (put_at d root sha key content w abs).0 q there
        (put_at_elsewhere abs q key content old w far stored)

  -- A put that succeeds answers with the key and the checksum of the content, and a get of the key
  -- then gives that content; a file that a get of another key gave, one that resolves to another place,
  -- is what a get of it still gives.
  pub put-get :
      (key : String) (content : Content) (w : W) (ref : FileRef)
      → (put d root sha false key content w).1 ≡ ok ref
      → let w' = (put d root sha false key content w).0 in
        (ref.path ≡ key)
        × (ref.checksum ≡ sha content)
        × ((get d root false key w').1 ≡ ok content)
        × ((other : String) (old : Content)
            → resolve root other ≢ resolve root key
            → (get d root false other w).1 ≡ ok old
            → (get d root false other w').1 ≡ ok old)
  put-get key content w ref h = elim (Result-cases (resolve root key)) [
    | inr (e, refused) ↦
        let answer = at_place-err key w (put_at d root sha key content w) refused in
        absurd (unfold put in let broken = rw answer at h in cc)
    | inl (abs, found) ↦
        let answer : put d root sha false key content w ≡ put_at d root sha key content w abs =
          unfold put in at_place-ok key w (put_at d root sha key content w) found in
        let (named, summed, stored) = put_at-stored key content w abs ref (rw answer at h) in
        rw answer (
          named,
          summed,
          get_stored key content (put_at d root sha key content w abs).0 abs found stored,
          λ other old apart there. get_elsewhere key other content old w abs found apart there,
        )
  ]
