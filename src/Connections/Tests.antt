-- ===== src/Connections/Tests.antt =====
-- Tests of the DSN, and a store that keeps the inputs it was given.
use Prim.Native.String.{String}
use mathlib.Core.Path.{◌≡◌, refl, ap}
use mathlib.Core.Bool.{true, false}
use mathlib.Core.Option.{none, some}
use mathlib.Core.List.{List, [], ◌∷◌}
use mywork_automate.Prelude.{pos}
use mywork_automate.Prelude.Chars.{digits, decimal}
use mywork_automate.Prelude.Results.{ok, err}
use mywork_automate.Lifecycle.Handlers.{not_found}
use mywork_automate.Connections.{
  Connection, ConnectionInput, Backend, dsn, stash, create_sealed, create_connection,
  update_connection,
}
use mywork_automate.Connections.Sealed.{IsBlind, Alike, with_password, connections_are_sealed}

abbrev payroll : Connection
payroll = record {
  id = "c1";
  name = "Payroll";
  type = "postgres";
  host = "db";
  port = pos 0;
  database = "hr";
  username = "reader";
  ssl_mode = "";
  secret_ref = "connpw_1";
  status = "ok";
  allowed_roles = [];
}

full_text : dsn (λ s. s) payroll "pw" ≡ "postgres://reader:pw@db:5432/hr?sslmode=disable"
unfolding dsn digits decimal
full_text = refl

no_host : dsn (λ s. s) (record payroll { host = "" }) "pw" ≡ ""
unfolding dsn
no_host = refl

abbrev input : ConnectionInput
input = record {
  name = "Payroll";
  type = "postgres";
  host = "db";
  port = pos 5432;
  database = "hr";
  username = "reader";
  ssl_mode = "";
  secret_ref = "";
  password = "pw";
  allowed_roles = [];
}

-- The world is the secrets that were written and the inputs that the store was given.
abbrev World : Type 0
World = List (String × String) × List ConnectionInput

abbrev toy : Backend World
toy = record {
  has_writer = true;
  has_resolver = false;
  has_dialer = false;
  write_secret = λ name secret w. (((name, secret) ∷ w.0, w.1), none);
  resolve_secret = λ name w. none;
  ping = λ d w. false;
  get_connection = λ id w. err not_found;
  create = λ i w. ((w.0, i ∷ w.1), ok payroll);
  update = λ id i w. ((w.0, i ∷ w.1), ok payroll);
  delete = λ id w. (w, none);
  record_entry = λ e w. w;
}

-- The names of the secrets and the inputs that the store was given are the same.
abbrev names : List (String × String) → List String
names [] = []
names (x ∷ xs) = x.0 ∷ names xs

abbrev SameBut : World → World → Type 0
SameBut w w' = (names w.0 ≡ names w'.0) × (w.1 ≡ w'.1)

written : (create_connection toy "connpw_1" (some input) ([], [])).0.0 ≡ ("connpw_1", "pw") ∷ []
unfolding create_connection stash create_sealed
written = refl

toy-IsBlind : IsBlind toy SameBut
toy-IsBlind = record {
  blind-secret = λ name s s' w w' r. ((ap (λ l. name ∷ l) r.0, r.1), refl);
  blind-entry = λ e w w' r. r;
  blind-create = λ i w w' r. ((r.0, ap (λ l. i ∷ l) r.1), refl);
  blind-update = λ id i w w' r. ((r.0, ap (λ l. i ∷ l) r.1), refl);
}

connections_are_sealed_example :
    Alike toy "connpw_1" SameBut toy-IsBlind
      (create_connection toy "connpw_1" (some (with_password "pw" input)) ([], []))
      (create_connection toy "connpw_1" (some (with_password "other" input)) ([], []))
    × Alike toy "connpw_1" SameBut toy-IsBlind
        (update_connection toy "connpw_1" "c1" (some (with_password "pw" input)) ([], []))
        (update_connection toy "connpw_1" "c1" (some (with_password "other" input)) ([], []))
connections_are_sealed_example =
    connections_are_sealed toy "connpw_1" SameBut toy-IsBlind "c1" input "pw" "other" ([], []) refl
      refl (refl, refl)
