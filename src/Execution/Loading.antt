-- ===== src/Execution/Loading.antt =====
-- What the handlers of runs work on, and loadRunnable with resolveConnections of
-- apps/automate-api/internal/httpapi/handlers_write.go.
use Prim.Native.Nat.{ℕ}
use Prim.Native.String.{String}
use mathlib.Core.Bool.{Bool, true, false, ◌||◌, not}
use mathlib.Core.Option.{Option, none, some}
use mathlib.Core.List.{List, [], ◌∷◌}
use text.Mathlib.Text.{◌==◌}
use mywork_automate.Prelude.{ℤ, if◌then◌else◌}
use mywork_automate.Prelude.Results.{Result, ok, err}
use mywork_automate.Value.{Value, str, int, Fields, end, field}
use mywork_automate.Flow.{RawMessage, NodeDef, Settings, NotificationSettings, FlowDef}
use mywork_automate.Lifecycle.Handlers.{StoreError, not_found, other_error}
use mywork_automate.Publish.{FlowSummary}
use mywork_automate.Execution.Steps.{ExecutionStep, RunInput, value_of_key}

-- A row of the store, less its duration and its steps; `started_at` is the text of the clock.
pub record Execution : Type 0 where
  pub id : String
  pub flow_id : String
  pub flow_name : String
  pub status : String
  pub trigger : String
  pub started_at : String
  pub version : ℤ

-- The dial fields of a connection.
pub record Connection : Type 0 where
  pub host : String
  pub port : ℤ
  pub database : String
  pub username : String
  pub ssl_mode : String
  pub secret_ref : String

pub record FailureNotice : Type 0 where
  pub flow_name : String
  pub execution_id : String
  pub error : String
  pub recipients : List String

pub record Entry : Type 0 where
  pub action : String
  pub resource_type : String
  pub resource_id : String
  pub execution_id : String

pub data Response : Type 0 where
  accepted : String → Response
  cancelled : Response
  envelope : ℕ → String → Response

-- A body that is no JSON of its type, or its params.
pub data Body : Type 0 where
  malformed : Body
  with_params : Fields → Body

-- The collaborators over the world `W`. `run` only starts the workflow; its end is reported by `on_done`.
pub record Backend (W : Type 0) : Type 0 where
  pub get_definition : String → W → Result StoreError FlowDef
  pub get_flow : String → W → Result StoreError FlowSummary
  pub get_execution : String → W → Result StoreError Execution
  pub get_connection : String → W → Result StoreError Connection
  pub create_execution : Execution → W → W × Option StoreError
  pub finish_execution : String → String → ℤ → List ExecutionStep → W → W × Option StoreError
  pub run : String → RunInput → W → W × Option String
  pub cancel_run : String → W → W × Option String
  pub set_status : String → String → W → W × Option StoreError
  pub run_failed : FailureNotice → W → W × Option String
  pub record_entry : Entry → W → W
  pub info : String → String → String → ℤ → W → W
  pub warn : String → String → W → W

-- `json.Unmarshal` and `json.Marshal` of a node's config.
pub record Codec : Type 0 where
  pub unmarshal : RawMessage → Option Fields
  pub marshal : Fields → Option RawMessage

abbrev pub store_error : StoreError → Response
store_error not_found = envelope 404 "not_found"
store_error other_error = envelope 500 "internal"

-- `cfg[key] = v`
unfoldable pub set_key : String → Value → Fields → Fields
set_key key v end = field key v end
set_key key v (field k u fs) = if k == key then field k v fs else field k u (set_key key v fs)

unfoldable pub with_connection : Connection → Fields → Fields
unfolding set_key
with_connection conn cfg = set_key "connSecret" (str conn.secret_ref) (
    set_key "connSslMode" (str conn.ssl_mode) (
      set_key "connUsername" (str conn.username) (
        set_key "connDatabase" (str conn.database)
          (set_key "connPort" (int conn.port) (set_key "connHost" (str conn.host) cfg)))))

abbrev pub text_or_empty : Option Value → String
text_or_empty (some (str s)) = s
text_or_empty _ = ""

-- `failureRecipients`
abbrev pub recipients_of : Option NotificationSettings → List String
recipients_of none = []
recipients_of (some n) = n.failure_emails

unfoldable pub failure_recipients : Option Settings → List String
failure_recipients none = []
failure_recipients (some s) = recipients_of s.notification

module _ {W : Type 0} (b : Backend W) (codec : Codec) where
  -- The node with the dial fields of the connection that its config names, or none on an error.
  unfoldable pub dial : NodeDef → Fields → W → Option NodeDef
  unfolding with_connection
  dial n cfg w = elim (b.get_connection (text_or_empty (value_of_key "connectionId" cfg)) w) [
    | err e ↦ none
    | ok conn ↦ elim (codec.marshal (with_connection conn cfg)) [
      | none ↦ none
      | some raw ↦ some (record n { config = raw })
    ]
  ]

  unfoldable pub resolve_config : NodeDef → Option Fields → W → Option NodeDef
  unfolding dial
  resolve_config n none w = some n
  resolve_config n (some cfg) w =
      if text_or_empty (value_of_key "connectionId" cfg) == "" then some n else dial n cfg w

  abbrev pub is_empty : RawMessage → Bool
  is_empty [] = true
  is_empty (x ∷ xs) = false

  unfoldable pub resolve_node : NodeDef → W → Option NodeDef
  unfolding resolve_config
  resolve_node n w =
      if not (n.type == "db.query") || is_empty n.config
      then some n
      else resolve_config n (codec.unmarshal n.config) w

  unfoldable pub resolve_nodes : List NodeDef → W → Option (List NodeDef)
  unfolding resolve_node
  resolve_nodes [] w = some []
  resolve_nodes (n ∷ ns) w =
      let rest = resolve_nodes ns w in
      elim (resolve_node n w) [
        | none ↦ none
        | some m ↦ elim rest [ none ↦ none | some ms ↦ some (m ∷ ms) ]
      ]

  -- `loadRunnable`, with `resolveConnections`.
  unfoldable pub load_runnable : String → W → Result Response (FlowDef × FlowSummary)
  unfolding resolve_nodes
  load_runnable id w = elim (b.get_definition id w) [
    | err e ↦ err (store_error e)
    | ok def ↦ elim (b.get_flow id w) [
      | err e ↦ err (store_error e)
      | ok flow ↦ elim (resolve_nodes def.nodes w) [
        | none ↦ err (envelope 400 "bad_request")
        | some nodes ↦ ok (record def { nodes = nodes }, flow)
      ]
    ]
  ]
