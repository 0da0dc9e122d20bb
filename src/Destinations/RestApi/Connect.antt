-- ===== src/Destinations/RestApi/Connect.antt =====
-- internal/connector/destination/restapi.go: Connect. `url.ParseRequestURI` is a parameter by its error.
use vortara.Base.{ℤ, String, Option, none, some, is_some, ◌==◌, if◌then◌else◌}
use vortara.Destinations.Connect.{DestinationConfig, Connected, connected}
use vortara.Destinations.RestApi.{RestApi}
use vortara.Errors.{GoError, Result, ok, err, connect_required}
use vortara.Text.{trim_space}

-- The connected destination, and the parts that its requests share.
unfoldable pub connect :
    (String → Result ℤ)
    → (String → Option GoError)
    → DestinationConfig
    → Result (RestApi × Connected)
unfolding trim_space connected
connect parse parse_uri cfg =
    if trim_space cfg.url == ""
    then err (connect_required "rest api" "url")
    else elim (parse_uri cfg.url) [
      | some e ↦ err e
      | none ↦ elim (connected parse cfg) [
        | err e ↦ err e
        | ok c ↦ ok (
          record {
            method = if trim_space cfg.method == "" then "POST" else cfg.method;
            url = cfg.url;
            headers = cfg.headers;
            retry = cfg.retry;
            limited = is_some c.rate_limiter;
            authenticated = is_some c.auth;
          },
          c,
        )
      ]
    ]
