-- ===== src/Destinations/Klaviyo.antt =====
-- internal/connector/destination/klaviyo.go
pub mod Unsent
use vortara.Base.{
  ℕ, ℤ, String, concat, Bool, true, false, ◌||◌, List, [], ◌∷◌, Option, none, some, Assoc, insert,
  eqb, ◌==◌, has, if◌then◌else◌,
}
use vortara.Destinations.Batches.{Batches, load}
use vortara.Destinations.Client.{Web, Client, do_request, header}
use vortara.Destinations.Connect.{DestinationConfig, match_field_of}
use vortara.Destinations.Loading.{Loading}
use vortara.Destinations.RestApi.{Request, Wire}
use vortara.Errors.{GoError, Result, ok, err, connect_required}
use vortara.Http.Breaker.{CircuitBreaker, new_circuit_breaker}
use vortara.Http.RateLimit.{RateLimiter, new_rate_limiter}
use vortara.Http.Retry.{RetryConfig}
use vortara.Row.{Row}
use vortara.State.{StateStore}
use vortara.Text.{trim_space}
use vortara.Value.{
  Value, Items, no_items, item, Payload, str, arr, obj, to_fields, Fields, field, no_fields,
}

pub record Klaviyo : Type 0 where
  pub retry : RetryConfig
  pub rate_limiter : Option RateLimiter
  pub breaker : Option CircuitBreaker
  pub api_key : String
  pub match_field : String

-- The key of `cfg.Auth`
unfoldable pub api_key_of : DestinationConfig → String
unfolding trim_space
api_key_of cfg =
    if cfg.auth.type == "bearer"
    then trim_space cfg.auth.token
    else if cfg.auth.type == "api_key"
    then trim_space cfg.auth.value
    else ""

-- Connect
unfoldable pub connect : (String → Result ℤ) → DestinationConfig → Result Klaviyo
unfolding api_key_of match_field_of new_rate_limiter new_circuit_breaker trim_space
connect parse cfg =
    if trim_space cfg.match_on == ""
    then err (connect_required "klaviyo" "match_on")
    else if api_key_of cfg == ""
    then err (connect_required "klaviyo" "auth token")
    else elim (new_rate_limiter parse cfg.requests cfg.period) [
      | err e ↦ err e
      | ok limiter ↦ ok (record {
        retry = cfg.retry;
        rate_limiter = limiter;
        breaker = new_circuit_breaker cfg.threshold cfg.cooldown_ms;
        api_key = api_key_of cfg;
        match_field = match_field_of cfg;
      })
    ]

-- klaviyoIdentifiers
abbrev identifier : String → Bool
identifier k =
    k == "email"
    || k == "phone_number"
    || k == "external_id"
    || k == "first_name"
    || k == "last_name"

-- The identifiers of a row, and its other fields.
unfoldable pub split_fields : Payload → Payload × Payload
split_fields [] = ([], [])
split_fields ((k, v) ∷ rest) =
    let (attrs, props) = split_fields rest in
    if identifier k then ((k, v) ∷ attrs, props) else (attrs, (k, v) ∷ props)

abbrev with_properties : Payload × Payload → Payload
with_properties (attrs, []) = attrs
with_properties (attrs, p ∷ props) = insert "properties" (obj (to_fields (p ∷ props))) attrs

abbrev profile : Payload → Value
profile data_of_row = obj (
    field "type" (str "profile")
      (field "attributes" (obj (to_fields (with_properties (split_fields data_of_row)))) no_fields))

-- The profiles of the rows that have the match field.
unfoldable pub profiles : String → List Row → Items
unfolding split_fields to_fields
profiles match_field [] = no_items
profiles match_field (row ∷ rows) =
    let rest = profiles match_field rows in
    if has row.fields match_field then item (profile row.fields) rest else rest

-- buildPayload before json.Marshal
unfoldable pub build_payload : String → List Row → Value
unfolding profiles
build_payload match_field rows = obj (
    field "data"
      (obj (
        field "type" (str "profile-bulk-upsert-job") (
          field "attributes"
            (obj (
              field "profiles" (obj (field "data" (arr (profiles match_field rows)) no_fields))
                no_fields))
            no_fields)))
      no_fields)

module _ {O : Type 0} (web : Web O) (k : Klaviyo) where
  abbrev pub upsert_request : String → Request
  upsert_request payload = record {
    method = "POST";
    url = "https://a.klaviyo.com/api/profile-bulk-upsert-jobs/";
    headers = header web.net "Content-Type" "application/vnd.api+json" (
        header web.net "revision" "2024-02-15"
          (header web.net "Authorization" (concat "Klaviyo-API-Key " k.api_key) []));
    body = payload;
  }

  abbrev accepted_or_ok : ℕ → Bool
  accepted_or_ok code = eqb code 202 || eqb code 200

  abbrev klaviyo_client : Client
  klaviyo_client = record {
    retry = k.retry;
    limited = elim k.rate_limiter [ none ↦ false | some r ↦ true ];
    authenticated = false;
  }

  unfoldable pub upsert_chunk : List Row → Wire O → Wire O × Option GoError
  unfolding build_payload do_request
  upsert_chunk rows w = elim (web.encode (build_payload k.match_field rows)) [
    | err e ↦ (w, some e)
    | ok payload ↦ do_request web "klaviyo" accepted_or_ok klaviyo_client (upsert_request payload) w
  ]

  abbrev pub batches : Batches O
  batches = record { more = 999; check = λ row. none; send_chunk = upsert_chunk }

  -- Load
  abbrev pub load_rows :
      {S : Type 0}
      → StateStore S
      → String
      → String
      → List Row
      → Wire O
      → S
      → Loading O S × Option GoError
  load_rows store pipeline destination rows w s =
      load store pipeline destination web.net batches rows w s
