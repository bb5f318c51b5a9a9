-- ===== src/Connections/Sealed.antt =====
-- What depends on the password of a connection: the call of the secret store, and nothing else.
use Prim.Native.String.{String}
use mathlib.Core.Path.{◌≡◌, refl, sym, ◌∙◌}
use mathlib.Core.Logic.{inl, inr}
use mathlib.Core.Bool.{false, ◌||◌}
use mathlib.Core.Option.{some}
use text.Mathlib.Text.{◌==◌}
use mywork_automate.Prelude.{Bool-cases, Option-cases}
use mywork_automate.Prelude.Results.{Result-cases}
use mywork_automate.Connections.{
  ConnectionInput, Entry, Backend, secret_name, stash, create_sealed, create_connection,
  update_sealed, update_connection,
}

-- Two worlds are alike (`R`) if they differ in the contents of secrets at most. The secret store works
-- as well for any content, and every other call takes worlds that are alike to worlds that are alike,
-- with the same answer.
pub record IsBlind {W : Type 0} (b : Backend W) (R : W → W → Type 0) : Type 0 where
  pub blind-secret :
      (name secret secret' : String) (w w' : W)
      → R w w'
      → R (b.write_secret name secret w).0 (b.write_secret name secret' w').0
        × ((b.write_secret name secret w).1 ≡ (b.write_secret name secret' w').1)
  pub blind-entry : (e : Entry) (w w' : W) → R w w' → R (b.record_entry e w) (b.record_entry e w')
  pub blind-create :
      (input : ConnectionInput) (w w' : W)
      → R w w'
      → R (b.create input w).0 (b.create input w').0
        × ((b.create input w).1 ≡ (b.create input w').1)
  pub blind-update :
      (id : String) (input : ConnectionInput) (w w' : W)
      → R w w'
      → R (b.update id input w).0 (b.update id input w').0
        × ((b.update id input w).1 ≡ (b.update id input w').1)

abbrev pub with_password : String → ConnectionInput → ConnectionInput
with_password p input = record input { password = p }

module _ {W : Type 0} (b : Backend W) (fresh : String) (R : W → W → Type 0)
    (blind : IsBlind b R) where
  -- Two results that are alike, with the same answer.
  abbrev pub Alike : {A : Type 0} → W × A → W × A → Type 0
  Alike r r' = R r.0 r'.0 × (r.1 ≡ r'.1)

  stash-Alike :
      (input : ConnectionInput) (p p' : String) (w w' : W)
      → (p == "") ≡ false
      → (p' == "") ≡ false
      → R w w'
      → Alike (stash b fresh (with_password p input) w) (stash b fresh (with_password p' input) w')
  unfolding stash
  stash-Alike input p p' w w' h h' r = elim (Bool-cases b.has_writer) [
    | inr absent ↦ rw (h, h', absent) (r, refl)
    | inl there ↦
        let name = secret_name b fresh input in
        let (q, same) = blind.blind-secret name p p' w w' r in
        elim (Option-cases (b.write_secret name p w).1) [
          | inl written ↦ rw (h, h', there, written, sym same ∙ written) (q, refl)
          | inr (e, failed) ↦ rw (h, h', there, failed, sym same ∙ failed) (q, refl)
        ]
  ]

  create_sealed-Alike :
      (input : ConnectionInput) (w w' : W)
      → R w w'
      → Alike (create_sealed b fresh input w) (create_sealed b fresh input w')
  create_sealed-Alike input w w' r =
      let (q, same) = blind.blind-create input w w' r in
      elim (Result-cases (b.create input w).1) [
        | inr (e, failed) ↦
            unfold create_sealed in rw (failed, sym same ∙ failed, create_sealed) (q, refl)
        | inl (conn, made) ↦
            unfold create_sealed in
            rw (made, sym same ∙ made, create_sealed) (blind.blind-entry _ _ _ q, refl)
      ]

  update_sealed-Alike :
      (id : String) (input : ConnectionInput) (w w' : W)
      → R w w'
      → Alike (update_sealed b fresh id input w) (update_sealed b fresh id input w')
  update_sealed-Alike id input w w' r =
      let (q, same) = blind.blind-update id input w w' r in
      elim (Result-cases (b.update id input w).1) [
        | inr (e, failed) ↦
            unfold update_sealed in rw (failed, sym same ∙ failed, update_sealed) (q, refl)
        | inl (conn, made) ↦
            unfold update_sealed in
            rw (made, sym same ∙ made, update_sealed) (blind.blind-entry _ _ _ q, refl)
      ]

  create_connection-Alike :
      (input : ConnectionInput) (p p' : String) (w w' : W)
      → (p == "") ≡ false
      → (p' == "") ≡ false
      → R w w'
      → Alike
          (create_connection b fresh (some (with_password p input)) w)
          (create_connection b fresh (some (with_password p' input)) w')
  create_connection-Alike input p p' w w' h h' r =
      let stashed = stash b fresh (with_password p input) w in
      let stashed' = stash b fresh (with_password p' input) w' in
      let (q, same) = stash-Alike input p p' w w' h h' r in
      elim (Bool-cases (input.name == "" || input.type == "")) [
        | inl missing ↦ unfold create_connection in rw (missing, create_connection) (r, refl)
        | inr named ↦ elim (Option-cases stashed.1) [
          | inl refused ↦
              unfold create_connection in
              rw (named, refused, sym same ∙ refused, create_connection) (q, refl)
          | inr (out, done) ↦
              unfold create_connection in
              rw (named, done, sym same ∙ done, create_connection)
                (create_sealed-Alike out stashed.0 stashed'.0 q)
        ]
      ]

  update_connection-Alike :
      (id : String) (input : ConnectionInput) (p p' : String) (w w' : W)
      → (p == "") ≡ false
      → (p' == "") ≡ false
      → R w w'
      → Alike
          (update_connection b fresh id (some (with_password p input)) w)
          (update_connection b fresh id (some (with_password p' input)) w')
  update_connection-Alike id input p p' w w' h h' r =
      let stashed = stash b fresh (with_password p input) w in
      let stashed' = stash b fresh (with_password p' input) w' in
      let (q, same) = stash-Alike input p p' w w' h h' r in
      elim (Option-cases stashed.1) [
        | inl refused ↦
            unfold update_connection in
            rw (refused, sym same ∙ refused, update_connection) (q, refl)
        | inr (out, done) ↦
            unfold update_connection in
            rw (done, sym same ∙ done, update_connection)
              (update_sealed-Alike id out stashed.0 stashed'.0 q)
      ]

  -- Two passwords, neither of them empty, make no difference outside the secret store: creating and
  -- updating a connection with the one and with the other give the same answer, and worlds that differ
  -- in the contents of secrets at most. No row and no audit entry depends on the password.
  pub connections_are_sealed :
      (id : String) (input : ConnectionInput) (p p' : String) (w : W)
      → (p == "") ≡ false
      → (p' == "") ≡ false
      → R w w
      → Alike
          (create_connection b fresh (some (with_password p input)) w)
          (create_connection b fresh (some (with_password p' input)) w)
        × Alike
            (update_connection b fresh id (some (with_password p input)) w)
            (update_connection b fresh id (some (with_password p' input)) w)
  connections_are_sealed id input p p' w h h' r = (
    create_connection-Alike input p p' w w h h' r,
    update_connection-Alike id input p p' w w h h' r,
  )
