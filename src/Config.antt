-- ===== src/Config.antt =====
-- internal/config/config.go: the configuration from the process environment.
pub mod Guarded
mod Tests
use Prim.Native.String.{String}
use mathlib.Core.Bool.{Bool, true, false, not, ◌&&◌, ◌||◌}
use mathlib.Core.Option.{Option, none, some}
use mathlib.Core.List.{List, [], ◌∷◌}
use text.Mathlib.Text.{◌==◌}
use mywork_automate.Prelude.{if◌then◌else◌, contains, lookup}
use mywork_automate.Prelude.Results.{Result, ok, err, ◌>>=◌, refuse_if}
use mywork_automate.Prelude.Chars.{trim_space}

abbrev pub file_store_local : String
file_store_local = "local"

abbrev pub file_store_azure_blob : String
file_store_azure_blob = "azureblob"

abbrev pub env_dev : String
env_dev = "dev"

abbrev pub env_sit : String
env_sit = "sit"

abbrev pub env_uat : String
env_uat = "uat"

abbrev pub env_prod : String
env_prod = "prod"

pub record Config : Type 0 where
  pub env : String
  pub http_addr : String
  pub database_url : String
  pub temporal_host_port : String
  pub file_store : String
  pub auth_local_enabled : Bool

pub data ConfigError : Type 0 where
  invalid_auth_local : String → ConfigError
  unknown_app_env : String → ConfigError
  unknown_file_store : String → ConfigError
  empty_http_addr : ConfigError
  local_auth_in_protected_env : ConfigError

abbrev pub protected_envs : List String
protected_envs = env_sit ∷ env_uat ∷ env_prod ∷ []

unfoldable pub is_protected_env : Config → Bool
is_protected_env c = contains c.env protected_envs

-- `strconv.ParseBool`, after the default for a blank text.
unfoldable pub parse_bool : String → Bool → Result ConfigError Bool
parse_bool v def =
    if trim_space v == ""
    then ok def
    else if contains v ("1" ∷ "t" ∷ "T" ∷ "true" ∷ "TRUE" ∷ "True" ∷ [])
    then ok true
    else if contains v ("0" ∷ "f" ∷ "F" ∷ "false" ∷ "FALSE" ∷ "False" ∷ [])
    then ok false
    else err (invalid_auth_local v)

unfoldable pub validate : Config → Result ConfigError (Unit {0})
validate c = do
  _ ←
      refuse_if (not (contains c.env (env_dev ∷ env_sit ∷ env_uat ∷ env_prod ∷ [])))
        (unknown_app_env c.env)
  _ ←
      refuse_if (not (contains c.file_store (file_store_local ∷ file_store_azure_blob ∷ [])))
        (unknown_file_store c.file_store)
  _ ← refuse_if (c.http_addr == "") empty_http_addr
  refuse_if (c.auth_local_enabled && is_protected_env c) local_auth_in_protected_env

-- The process environment.
module _ (environ : List (String × String)) where
  abbrev pub getenv : String → String
  getenv key = elim (lookup key environ) [ none ↦ "" | some v ↦ v ]

  unfoldable pub getenv_default : String → String → String
  getenv_default key def = elim (lookup key environ) [
    | none ↦ def
    | some v ↦ if not (trim_space v == "") then v else def
  ]

  -- The configuration before it is validated.
  abbrev pub config_from : Bool → Config
  config_from local = record {
    env = getenv_default "APP_ENV" env_dev;
    http_addr = getenv_default "HTTP_ADDR" ":8080";
    database_url = getenv "DATABASE_URL";
    temporal_host_port = getenv_default "TEMPORAL_HOSTPORT" "localhost:7233";
    file_store = getenv_default "FILE_STORE" file_store_local;
    auth_local_enabled = local;
  }

  unfoldable pub load_from_env : Result ConfigError Config
  load_from_env = do
    local ← parse_bool (getenv "AUTH_LOCAL_ENABLED") false
    _ ← validate (config_from local)
    ok (config_from local)
