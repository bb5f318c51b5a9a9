-- ===== src/Connections.antt =====
-- Connections to databases: stashConnPassword, createConnection, updateConnection, deleteConnection
-- and testConnection of apps/automate-api/internal/httpapi/handlers_write.go, and the DSN of a
-- connection of apps/automate-api/internal/store/store.go.
pub mod Sealed
mod Tests
use Prim.Native.Nat.{ℕ}
use Prim.Native.String.{String, ◌++◌}
use mathlib.Core.Bool.{Bool, true, false, ◌||◌, not}
use mathlib.Core.Option.{Option, none, some}
use mathlib.Core.List.{List}
use text.Mathlib.Text.{◌==◌}
use mywork_automate.Prelude.{ℤ, pos, negsuc, leb, if◌then◌else◌}
use mywork_automate.Prelude.Chars.{decimal}
use mywork_automate.Prelude.Results.{Result, ok, err}
use mywork_automate.Lifecycle.Handlers.{StoreError, not_found, other_error}

pub record Connection : Type 0 where
  pub id : String
  pub name : String
  pub type : String
  pub host : String
  pub port : ℤ
  pub database : String
  pub username : String
  pub ssl_mode : String
  pub secret_ref : String
  pub status : String
  pub allowed_roles : List String

pub record ConnectionInput : Type 0 where
  pub name : String
  pub type : String
  pub host : String
  pub port : ℤ
  pub database : String
  pub username : String
  pub ssl_mode : String
  pub secret_ref : String
  pub password : String
  pub allowed_roles : List String

-- An audit entry about a connection; the name and the type are its detail, empty for a deletion.
pub record Entry : Type 0 where
  pub action : String
  pub resource_id : String
  pub name : String
  pub type : String

-- An answer: the connection with its code, no content, the outcome of a test by its status, or an
-- error envelope by its code and its kind.
pub data Response : Type 0 where
  connection : ℕ → Connection → Response
  no_content : Response
  tested : String → Response
  envelope : ℕ → String → Response

-- The collaborators over the world `W`. The writer, the resolver of secrets and the dialer are there or
-- not; `ping` and `resolve_secret` give nothing where they fail.
pub record Backend (W : Type 0) : Type 0 where
  pub has_writer : Bool
  pub has_resolver : Bool
  pub has_dialer : Bool
  pub write_secret : String → String → W → W × Option String
  pub resolve_secret : String → W → Option String
  pub ping : String → W → Bool
  pub get_connection : String → W → Result StoreError Connection
  pub create : ConnectionInput → W → W × Result StoreError Connection
  pub update : String → ConnectionInput → W → W × Result StoreError Connection
  pub delete : String → W → W × Option StoreError
  pub record_entry : Entry → W → W

abbrev pub store_error : StoreError → Response
store_error not_found = envelope 404 "not_found"
store_error other_error = envelope 500 "internal"

abbrev pub is_zero : ℤ → Bool
is_zero (pos n) = leb n 0
is_zero (negsuc n) = false

-- `Connection.DSN`; `escape` is `url.QueryEscape`.
unfoldable pub dsn : (String → String) → Connection → String → String
unfolding decimal
dsn escape c password =
    let port = if is_zero c.port then pos 5432 else c.port in
    let ssl = if c.ssl_mode == "" then "disable" else c.ssl_mode in
    if not (c.type == "postgres") || (c.host == "" || (c.database == "" || c.username == ""))
    then ""
    else "postgres://"
      ++ escape c.username
      ++ ":"
      ++ escape password
      ++ "@"
      ++ c.host
      ++ ":"
      ++ decimal port
      ++ "/"
      ++ c.database
      ++ "?sslmode="
      ++ ssl

-- `fresh` is the name that the random bytes give.
module _ {W : Type 0} (b : Backend W) (fresh : String) where
  abbrev pub secret_name : ConnectionInput → String
  secret_name input = if input.secret_ref == "" then fresh else input.secret_ref

  abbrev pub sealed : ConnectionInput → ConnectionInput
  sealed input = record input { secret_ref = secret_name input; password = "" }

  -- `stashConnPassword`: nothing where it is not ok.
  unfoldable pub stash : ConnectionInput → W → W × Option ConnectionInput
  stash input w =
      let written = b.write_secret (secret_name input) input.password w in
      if input.password == ""
      then (w, some input)
      else if b.has_writer
      then (elim written.1 [ some e ↦ (written.0, none) | none ↦ (written.0, some (sealed input)) ])
      else (w, none)

  abbrev pub audited : String → Connection → Entry
  audited action conn = record {
    action = action;
    resource_id = conn.id;
    name = conn.name;
    type = conn.type;
  }

  unfoldable pub create_sealed : ConnectionInput → W → W × Response
  create_sealed input w =
      let created = b.create input w in
      elim created.1 [
        | err e ↦ (created.0, envelope 500 "internal")
        | ok conn ↦
            (b.record_entry (audited "connection.create" conn) created.0, connection 201 conn)
      ]

  abbrev pub bad_request : Response
  bad_request = envelope 400 "bad_request"

  -- The body is nothing where it is no JSON of its type.
  unfoldable pub create_connection : Option ConnectionInput → W → W × Response
  unfolding stash create_sealed
  create_connection none w = (w, bad_request)
  create_connection (some input) w =
      let stashed = stash input w in
      if input.name == "" || input.type == "" then (w, bad_request) else elim stashed.1 [
        | none ↦ (stashed.0, bad_request)
        | some out ↦ create_sealed out stashed.0
      ]

  unfoldable pub update_sealed : String → ConnectionInput → W → W × Response
  update_sealed id input w =
      let updated = b.update id input w in
      elim updated.1 [
        | err e ↦ (updated.0, store_error e)
        | ok conn ↦
            (b.record_entry (audited "connection.update" conn) updated.0, connection 200 conn)
      ]

  unfoldable pub update_connection : String → Option ConnectionInput → W → W × Response
  unfolding stash update_sealed
  update_connection id none w = (w, bad_request)
  update_connection id (some input) w =
      let stashed = stash input w in
      elim stashed.1 [ none ↦ (stashed.0, bad_request) | some out ↦ update_sealed id out stashed.0 ]

  unfoldable pub delete_connection : String → W → W × Response
  delete_connection id w =
      let deleted = b.delete id w in
      elim deleted.1 [
        | some e ↦ (deleted.0, store_error e)
        | none ↦ (
          b.record_entry
              (record { action = "connection.delete"; resource_id = id; name = ""; type = "" })
              deleted.0,
          no_content,
        )
      ]

  -- The password of a connection, or nothing where it cannot be had.
  unfoldable pub password_of : Connection → W → Option String
  password_of conn w =
      if conn.secret_ref == ""
      then some ""
      else if b.has_resolver
      then b.resolve_secret conn.secret_ref w
      else none

  unfoldable pub dial : (String → String) → Connection → Option String → W → String
  unfolding dsn
  dial escape conn none w = "error"
  dial escape conn (some password) w =
      if dsn escape conn password == ""
      then "error"
      else if b.ping (dsn escape conn password) w
      then "ok"
      else "error"

  unfoldable pub test_connection : (String → String) → String → W → Response
  unfolding password_of dial
  test_connection escape id w = elim (b.get_connection id w) [
    | err e ↦ store_error e
    | ok conn ↦
        if b.has_dialer then tested (dial escape conn (password_of conn w) w) else tested "unknown"
  ]
