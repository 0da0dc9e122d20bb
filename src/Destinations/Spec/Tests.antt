-- ===== src/Destinations/Spec/Tests.antt =====
-- A sync file that asks for an API key.
use vortara.Config.Environment.{expand_env}
use vortara.Base.{none, Option, ◌==◌, if◌then◌else◌, ℤ, pos, String, true, [], ◌∷◌, some, ◌≡◌, refl}
use vortara.Destinations.Intercom
use vortara.Destinations.RestApi.Connect.{connect}
use vortara.Destinations.Zendesk
use vortara.Destinations.Spec.{AuthSpec, DestinationSpec, run_config}
use vortara.Destinations.Spec.Auth.{Refused, run_config-api_key}
use vortara.Errors.{Result, ok}
use vortara.Text.{to_lower, trim_space, trim_left, trim_right, is_white}

abbrev key_spec : AuthSpec
key_spec = record {
  type = "api_key";
  token = "";
  client_id = "";
  client_secret = "";
  token_url = "";
  scopes = [];
  key = "X-Api-Key";
  value = "secret";
  in_header = true;
  username = "";
  password = "";
}

abbrev crm_spec : DestinationSpec
crm_spec = record {
  type = "restapi";
  url = "https://api.example.com";
  auth = some key_spec;
  object = "";
  table = "";
  match_on = "email" ∷ [];
  options = [];
}

abbrev no_duration : String → Result ℤ
no_duration s = ok (pos 0)

run_config-api_key_example :
    Refused (connect no_duration (λ uri. none) (run_config crm_spec))
    × Refused (Zendesk.connect no_duration (run_config crm_spec))
    × Refused (Intercom.connect no_duration (run_config crm_spec))
unfolding to_lower trim_space trim_left trim_right is_white
run_config-api_key_example =
    run_config-api_key no_duration (λ uri. none) crm_spec key_spec refl refl

abbrev with_token : String → Option String
with_token name = if name == "TOKEN" then some "secret" else none

expanded : expand_env with_token "Bearer ${TOKEN}, ${OTHER} ${}" ≡ "Bearer secret, ${OTHER} ${}"
unfolding expand_env
expanded = refl
