-- ===== src/Destinations/Connect.antt =====
-- internal/connector/destination: what the Connect methods share. The http.Client and its transport are
-- not modelled.
use vortara.Base.{ℤ, String, Option, none, some, Assoc, lookup, is_some, ◌==◌, if◌then◌else◌}
use vortara.Destinations.Client.{Client}
use vortara.Errors.{GoError, Result, ok, err, missing_field}
use vortara.Http.Auth.{AuthConfig, Authenticator, new_authenticator}
use vortara.Http.Breaker.{CircuitBreaker, new_circuit_breaker}
use vortara.Http.RateLimit.{RateLimiter, new_rate_limiter}
use vortara.Http.Retry.{RetryConfig}
use vortara.Row.{Row}
use vortara.Text.{trim_space, to_lower, before_comma}

-- config.DestinationConfig, as far as these destinations read it
pub record DestinationConfig : Type 0 where
  pub url : String
  pub match_on : String
  pub method : String
  pub headers : Assoc String
  pub options : Assoc String
  pub auth : AuthConfig
  pub retry : RetryConfig
  pub requests : ℤ
  pub period : String
  pub threshold : ℤ
  pub cooldown_ms : ℤ

-- The fields that every Connect fills.
pub record Connected : Type 0 where
  pub retry : RetryConfig
  pub auth : Option Authenticator
  pub rate_limiter : Option RateLimiter
  pub breaker : Option CircuitBreaker

abbrev pub client_of : Connected → Client
client_of c = record {
  retry = c.retry;
  limited = is_some c.rate_limiter;
  authenticated = is_some c.auth;
}

-- `cfg.Options[k]`
abbrev pub option_of : DestinationConfig → String → String
option_of cfg k = elim (lookup k cfg.options) [ none ↦ "" | some s ↦ s ]

-- A text, or what stands for an empty one.
abbrev pub or_text : String → String → String
or_text s t = if s == "" then t else s

-- `strings.ToLower(strings.TrimSpace(cfg.Options["object"]))` and its default
unfoldable pub object_of : DestinationConfig → String → String
unfolding trim_space to_lower
object_of cfg d = or_text (to_lower (trim_space (option_of cfg "object"))) d

-- The first of the match keys
unfoldable pub match_field_of : DestinationConfig → String
unfolding trim_space before_comma
match_field_of cfg = trim_space (before_comma cfg.match_on)

-- NewAuthenticator, NewRateLimiter and NewCircuitBreaker, with `time.ParseDuration` a parameter
unfoldable pub connected : (String → Result ℤ) → DestinationConfig → Result Connected
unfolding new_authenticator new_rate_limiter new_circuit_breaker
connected parse cfg = elim (new_authenticator cfg.auth) [
  | err e ↦ err e
  | ok auth ↦ elim (new_rate_limiter parse cfg.requests cfg.period) [
    | err e ↦ err e
    | ok limiter ↦ ok (record {
      retry = cfg.retry;
      auth = auth;
      rate_limiter = limiter;
      breaker = new_circuit_breaker cfg.threshold cfg.cooldown_ms;
    })
  ]
]

-- `_, ok := rw.Data[field]; !ok`
unfoldable pub missing_match : String → String → Row → Option GoError
missing_match name field row = elim (lookup field row.fields) [
  | none ↦ some (missing_field name field)
  | some v ↦ none
]
