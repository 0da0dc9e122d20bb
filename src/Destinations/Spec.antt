-- ===== src/Destinations/Spec.antt =====
-- The destination of a sync file as the configuration that Connect is given: syncDestToConnCfg of
-- internal/engine/run.go for a run, and the literal of cmd/vortara/cmd/replay.go for a replay.
pub mod Auth
pub mod Tests
use vortara.Base.{
  String, Bool, false, List, [], ◌∷◌, Option, none, some, Assoc, insert, insert_all, pos,
}
use vortara.Config.Environment.{expand_env}
use vortara.Destinations.Connect.{DestinationConfig}
use vortara.Http.Auth.{AuthConfig}
use vortara.Http.Retry.{RetryConfig}
use vortara.Value.{join}

-- AuthConfig of pkg/config/sync/config.go
pub record AuthSpec : Type 0 where
  pub type : String
  pub token : String
  pub client_id : String
  pub client_secret : String
  pub token_url : String
  pub scopes : List String
  pub key : String
  pub value : String
  pub in_header : Bool
  pub username : String
  pub password : String

-- DestinationConfig of pkg/config/sync/config.go, as far as the modelled destinations can see it
pub record DestinationSpec : Type 0 where
  pub type : String
  pub url : String
  pub auth : Option AuthSpec
  pub object : String
  pub table : String
  pub match_on : List String
  pub options : Assoc String

-- applyEnvAuth and applyEnvDest of pkg/config/sync/env.go
unfoldable pub apply_env_auth : (String → Option String) → AuthSpec → AuthSpec
unfolding expand_env
apply_env_auth env a = record a {
  token = expand_env env a.token;
  client_id = expand_env env a.client_id;
  client_secret = expand_env env a.client_secret;
  token_url = expand_env env a.token_url;
  key = expand_env env a.key;
  value = expand_env env a.value;
  username = expand_env env a.username;
  password = expand_env env a.password;
}

unfoldable pub expand_options : (String → Option String) → Assoc String → Assoc String
unfolding expand_env
expand_options env [] = []
expand_options env ((k, v) ∷ rest) = (k, expand_env env v) ∷ expand_options env rest

abbrev expand_auth : (String → Option String) → Option AuthSpec → Option AuthSpec
expand_auth env none = none
expand_auth env (some a) = some (apply_env_auth env a)

unfoldable pub apply_env_dest : (String → Option String) → DestinationSpec → DestinationSpec
unfolding expand_env expand_options apply_env_auth
apply_env_dest env d = record d {
  url = expand_env env d.url;
  auth = expand_auth env d.auth;
  options = expand_options env d.options;
}

-- Go's zero values of the parts that neither command sets.
abbrev no_auth : AuthConfig
no_auth = record {
  type = "";
  token = "";
  key = "";
  value = "";
  in_header = false;
  username = "";
  password = "";
  client_id = "";
  client_secret = "";
  token_url = "";
  scopes = [];
  in_header_set = false;
}

abbrev no_retry : RetryConfig
no_retry = record { attempts = pos 0; backoff_ms = pos 0; backoff_on = []; drop_on = [] }

-- The fields of `Auth` that both commands copy.
unfoldable pub auth_config : Option AuthSpec → AuthConfig
auth_config none = no_auth
auth_config (some a) = record (no_auth) {
  type = a.type;
  token = a.token;
  client_id = a.client_id;
  client_secret = a.client_secret;
  token_url = a.token_url;
  username = a.username;
  password = a.password;
}

abbrev base_options : DestinationSpec → Assoc String
base_options d = insert "object" d.object (insert "table" d.table [])

abbrev config_of : DestinationSpec → String → Assoc String → DestinationConfig
config_of d match_on options = record {
  url = d.url;
  match_on = match_on;
  method = "";
  headers = [];
  options = options;
  auth = auth_config d.auth;
  retry = no_retry;
  requests = pos 0;
  period = "";
  threshold = pos 0;
  cooldown_ms = pos 0;
}

-- syncDestToConnCfg
unfoldable pub run_config : DestinationSpec → DestinationConfig
unfolding auth_config join
run_config d = config_of d (join "," d.match_on) (insert_all d.options (base_options d))

-- `destCfg` of runReplay
unfoldable pub replay_config : DestinationSpec → DestinationConfig
unfolding auth_config
replay_config d = config_of d "" (base_options d)
