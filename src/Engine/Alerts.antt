-- ===== src/Engine/Alerts.antt =====
-- internal/engine/alerts.go. The logs of a refused or unanswered alert are not modelled: no answer changes
-- what the run returns.
use vortara.Base.{ℕ, String, Option, none, some, [], ◌∷◌, ◌==◌, if◌then◌else◌}
use vortara.Destinations.Client.{Web}
use vortara.Destinations.RestApi.{Request}
use vortara.Errors.{GoError, ok, err}
use vortara.Value.{Value, str, time, obj, field, no_fields}

-- failureAlert
abbrev failure_alert : String → String → ℕ → Value
failure_alert sync_name message now = obj (
    field "sync" (str sync_name) (
      field "status" (str "failed")
        (field "error" (str message) (field "failed_at" (time now) no_fields))))

module _ {O : Type 0} (web : Web O) (error_text : GoError → String) where
  abbrev alert_request : String → String → Request
  alert_request url payload = record {
    method = "POST";
    url = url;
    body = payload;
    headers = (web.net.canonical "Content-Type", "application/json") ∷ [];
  }

  -- sendFailureAlert, with the error of the run
  unfoldable pub send_failure_alert : String → String → Option GoError → O → O
  send_failure_alert sync_name url none o = o
  send_failure_alert sync_name url (some cause) o =
      let (o', now) = web.net.now o in
      if url == "" then o else elim (web.encode (failure_alert sync_name (error_text cause) now)) [
        | err e ↦ o'
        | ok payload ↦ elim (web.net.refuse "POST" url) [
          | some e ↦ o'
          | none ↦ (web.reply (alert_request url payload) o').0
        ]
      ]
