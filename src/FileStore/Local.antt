-- ===== src/FileStore/Local.antt =====
-- pkg/filestore/filestore.go: the operations of LocalFileStore over a disk.
use Prim.Native.Nat.{ℕ}
use Prim.Native.String.{String}
use mathlib.Core.Path.{◌≡◌}
use mathlib.Core.Logic.{◌≢◌}
use mathlib.Core.Bool.{Bool}
use mathlib.Core.Option.{Option, none, some}
use mathlib.Core.List.{List, [], ◌∷◌}
use mywork_automate.Prelude.{ℤ, pos, ltb_ℤ, if◌then◌else◌}
use mywork_automate.Prelude.Results.{Result, ok, err}
use mywork_automate.FileStore.Keys.{PathError, resolve}

-- `errors.Is(err, os.ErrNotExist)`, or any other error.
pub data DiskError : Type 0 where
  not_exist other_failure : DiskError

-- The calls of the package os that the store makes, over the world `W` they act on. A call that
-- fails may leave the world as it pleases. `copy` is `io.Copy` to the open file, with the bytes written.
-- `read` is `os.Open` and all that can then be read; a directory, which opens but cannot be read, is
-- `other_failure`.
pub record Disk (W Content : Type 0) : Type 0 where
  pub make_dirs : List String → W → W × Option DiskError
  pub open_file : List String → W → W × Option DiskError
  pub copy : List String → Content → W → W × ℕ × Option DiskError
  pub close : List String → W → W × Option DiskError
  pub remove : List String → W → W × Option DiskError
  pub read : List String → W → Result DiskError Content
  pub stat : List String → W → Option DiskError

pub record FileRef : Type 0 where
  pub path : String
  pub size : ℕ
  pub checksum : String

pub data FileError : Type 0 where
  cancelled not_found bad_ttl : FileError
  invalid_path : PathError → FileError
  mkdir_failed create_failed write_failed close_failed : FileError
  open_failed stat_failed delete_failed : FileError

-- `filepath.Dir` of a place.
unfoldable pub dir_of : List String → List String
dir_of [] = []
dir_of (p ∷ []) = []
dir_of (p ∷ q ∷ ps) = p ∷ dir_of (q ∷ ps)

abbrev pub Done : Type 0 → Type 0 → Type 0
Done W A = W × Result FileError A

-- What an operation does once its context is live and its key is resolved; `done` is `ctx.Err()`.
abbrev pub at_place :
    {W A : Type 0} → List String → Bool → String → W → (List String → Done W A) → Done W A
at_place root done key w act =
    if done
    then (w, err cancelled)
    else elim (resolve root key) [ err e ↦ (w, err (invalid_path e)) | ok abs ↦ act abs ]

-- The store at a root, with `sha` for the hex SHA-256 and `file_url` for the text of a file URL.
module _ {W Content : Type 0} (d : Disk W Content) (root : List String) where
  -- A failed write or close removes the file; an error of the removal is ignored.
  unfoldable pub drop_partial : List String → FileError → W → Done W FileRef
  drop_partial abs e w = ((d.remove abs w).0, err e)

  unfoldable pub finish_put :
      (Content → String) → List String → String → Content → W → Done W FileRef
  unfolding drop_partial
  finish_put sha abs key content w =
      let copied = d.copy abs content w in
      let closed = d.close abs copied.0 in
      elim copied.2 [
        | some e ↦ drop_partial abs write_failed closed.0
        | none ↦ elim closed.1 [
          | some e ↦ drop_partial abs close_failed closed.0
          | none ↦ (closed.0, ok (record { path = key; size = copied.1; checksum = sha content }))
        ]
      ]

  unfoldable pub put_at : (Content → String) → String → Content → W → List String → Done W FileRef
  unfolding dir_of finish_put
  put_at sha key content w abs =
      let made = d.make_dirs (dir_of abs) w in
      let opened = d.open_file abs made.0 in
      elim made.1 [
        | some e ↦ (made.0, err mkdir_failed)
        | none ↦ elim opened.1 [
          | some e ↦ (opened.0, err create_failed)
          | none ↦ finish_put sha abs key content opened.0
        ]
      ]

  unfoldable pub put : (Content → String) → Bool → String → Content → W → Done W FileRef
  unfolding put_at
  put sha done key content w = at_place root done key w (put_at sha key content w)

  abbrev pub or_missing : FileError → DiskError → FileError
  or_missing other not_exist = not_found
  or_missing other other_failure = other

  unfoldable pub get_at : W → List String → Done W Content
  get_at w abs = elim (d.read abs w) [
    | err e ↦ (w, err (or_missing open_failed e))
    | ok content ↦ (w, ok content)
  ]

  unfoldable pub get : Bool → String → W → Done W Content
  unfolding get_at
  get done key w = at_place root done key w (get_at w)

  unfoldable pub url_at : (List String → String) → W → List String → Done W String
  url_at file_url w abs = elim (d.stat abs w) [
    | some e ↦ (w, err (or_missing stat_failed e))
    | none ↦ (w, ok (file_url abs))
  ]

  unfoldable pub signed_url : (List String → String) → Bool → String → ℤ → W → Done W String
  unfolding url_at
  signed_url file_url done key ttl w =
      if done
      then (w, err cancelled)
      else if ltb_ℤ (pos 0) ttl
      then at_place root done key w (url_at file_url w)
      else (w, err bad_ttl)

  unfoldable pub delete_at : W → List String → Done W (Unit {0})
  delete_at w abs =
      let removed = d.remove abs w in
      elim removed.1 [
        | some e ↦ (removed.0, err (or_missing delete_failed e))
        | none ↦ (removed.0, ok tt)
      ]

  unfoldable pub delete : Bool → String → W → Done W (Unit {0})
  unfolding delete_at
  delete done key w = at_place root done key w (delete_at w)

-- What a disk without links promises: what was opened, copied and closed without an error is read back,
-- a place that was removed without one is not there, and a file that can be read stays as it is as long
-- as only other places are opened, written, closed or removed. Of a place with no file nothing is said.
pub record IsLawful {W Content : Type 0} (d : Disk W Content) : Type 0 where
  pub read-written :
      (abs : List String) (c : Content) (w : W)
      → (d.open_file abs w).1 ≡ none
      → (d.copy abs c (d.open_file abs w).0).2 ≡ none
      → (d.close abs (d.copy abs c (d.open_file abs w).0).0).1 ≡ none
      → d.read abs (d.close abs (d.copy abs c (d.open_file abs w).0).0).0 ≡ ok c
  pub read-removed :
      (abs : List String) (w : W)
      → (d.remove abs w).1 ≡ none
      → d.read abs (d.remove abs w).0 ≡ err not_exist
  pub kept-make_dirs :
      (p q : List String) (old : Content) (w : W)
      → d.read q w ≡ ok old
      → d.read q (d.make_dirs p w).0 ≡ ok old
  pub kept-open_file :
      (p q : List String) (old : Content) (w : W)
      → p ≢ q
      → d.read q w ≡ ok old
      → d.read q (d.open_file p w).0 ≡ ok old
  pub kept-copy :
      (p q : List String) (c old : Content) (w : W)
      → p ≢ q
      → d.read q w ≡ ok old
      → d.read q (d.copy p c w).0 ≡ ok old
  pub kept-close :
      (p q : List String) (old : Content) (w : W)
      → p ≢ q
      → d.read q w ≡ ok old
      → d.read q (d.close p w).0 ≡ ok old
  pub kept-remove :
      (p q : List String) (old : Content) (w : W)
      → p ≢ q
      → d.read q w ≡ ok old
      → d.read q (d.remove p w).0 ≡ ok old
