-- ===== src/Config/Tests.antt =====
-- Environments that are accepted and refused, and the theorem at one.
use Prim.Native.String.{String}
use mathlib.Core.Path.{◌≡◌, refl}
use mathlib.Core.Bool.{true}
use mathlib.Core.List.{List, [], ◌∷◌}
use mywork_automate.Prelude.{contains, lookup}
use mywork_automate.Prelude.Results.{ok, err}
use mywork_automate.Prelude.Chars.{trim_space}
use mywork_automate.Config.{
  Config, local_auth_in_protected_env, is_protected_env, parse_bool, validate, getenv_default,
  load_from_env,
}
use mywork_automate.Config.Guarded.{IsGuarded, load_from_env-IsGuarded}

loading : Unit {0}
unfolding load_from_env getenv_default validate parse_bool is_protected_env contains lookup
    trim_space
loading = tt

abbrev dev_environ : List (String × String)
dev_environ = ("AUTH_LOCAL_ENABLED", "true") ∷ ("HTTP_ADDR", " ") ∷ []

abbrev dev : Config
dev = record {
  env = "dev";
  http_addr = ":8080";
  database_url = "";
  temporal_host_port = "localhost:7233";
  file_store = "local";
  auth_local_enabled = true;
}

dev_loads : load_from_env dev_environ ≡ ok dev
unfolding loading
dev_loads = refl

prod_refused :
    load_from_env (("APP_ENV", "prod") ∷ ("AUTH_LOCAL_ENABLED", "1") ∷ [])
    ≡ err local_auth_in_protected_env
unfolding loading
prod_refused = refl

load_from_env-IsGuarded_example : IsGuarded dev
load_from_env-IsGuarded_example = load_from_env-IsGuarded dev_environ dev dev_loads
