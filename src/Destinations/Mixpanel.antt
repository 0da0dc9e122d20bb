-- ===== src/Destinations/Mixpanel.antt =====
-- internal/connector/destination/mixpanel.go. The decoder of the answer's `status` and `error` is a parameter.
use vortara.Base.{
  ℕ, ℤ, pos, negsuc, String, Bool, false, not, ◌||◌, List, [], ◌∷◌, Option, none, some, delete, eqb,
  ◌==◌, if◌then◌else◌,
}
use vortara.Destinations.Batches.{Batches, load}
use vortara.Destinations.Client.{Web, call, body_snip, header}
use vortara.Destinations.Connect.{
  DestinationConfig, Connected, client_of, option_of, or_text, connected, missing_match,
}
use vortara.Destinations.Intercom.{data_at}
use vortara.Destinations.Loading.{Loading}
use vortara.Destinations.RestApi.{Request, Wire}
use vortara.Errors.{
  GoError, Result, ok, err, connect_required, unknown_operation, bad_status, answer_error,
}
use vortara.Row.{Row}
use vortara.Runtime.{Runtime}
use vortara.State.{StateStore}
use vortara.Text.{trim_space}
use vortara.Value.{Items, no_items, item, str, arr, obj, sprint, to_fields, field, no_fields}

pub record Mixpanel : Type 0 where
  pub with : Connected
  pub project_token : String
  pub distinct_id : String
  pub operation : String

abbrev is_operation : String → Bool
is_operation s =
    s == "$set"
    || s == "$set_once"
    || s == "$union"
    || s == "$add"
    || s == "$append"
    || s == "$remove"
    || s == "$unset"

-- Connect
unfoldable pub connect : (String → Result ℤ) → DestinationConfig → Result Mixpanel
unfolding trim_space connected
connect parse cfg =
    let token = trim_space (option_of cfg "project_token") in
    let operation = or_text (trim_space (option_of cfg "operation")) "$set" in
    if token == ""
    then err (connect_required "mixpanel" "options.project_token")
    else if not (is_operation operation)
    then err (unknown_operation "mixpanel" operation)
    else elim (connected parse cfg) [
      | err e ↦ err e
      | ok c ↦ ok (record {
        with = c;
        project_token = token;
        distinct_id = or_text (trim_space (option_of cfg "distinct_id")) "distinct_id";
        operation = operation;
      })
    ]

-- The records of a batch.
unfoldable pub records : Runtime → Mixpanel → List Row → Items
unfolding sprint to_fields delete
records rt m [] = no_items
records rt m (row ∷ rows) =
    item
      (obj (
        field "$token" (str m.project_token) (
          field "$distinct_id" (str (sprint rt (data_at row.fields m.distinct_id)))
            (field m.operation (obj (to_fields (delete m.distinct_id row.fields))) no_fields))))
      (records rt m rows)

abbrev is_one : ℤ → Bool
is_one (pos n) = eqb n 1
is_one (negsuc n) = false

-- What an answer with `status` and `error` means.
abbrev status_error : Option (ℤ × String) → Option GoError
status_error none = none
status_error (some (status, msg)) =
    if is_one status then none else some (answer_error "mixpanel" (or_text msg "unknown error"))

unfoldable pub judge : (String → Option (ℤ × String)) → ℕ → String → Option GoError
unfolding body_snip
judge decode_status code body =
    if eqb code 200
    then status_error (decode_status body)
    else some (bad_status "mixpanel" code (body_snip body))

module _ {O : Type 0} (rt : Runtime) (web : Web O) (decode_status : String → Option (ℤ × String))
    (m : Mixpanel) where
  abbrev pub engage_request : String → Request
  engage_request payload = record {
    method = "POST";
    url = "https://api.mixpanel.com/engage";
    headers =
        header web.net "Accept" "text/plain" (header web.net "Content-Type" "application/json" []);
    body = payload;
  }

  unfoldable pub send_batch : List Row → Wire O → Wire O × Option GoError
  unfolding records judge call
  send_batch rows w = elim (web.encode (arr (records rt m rows))) [
    | err e ↦ (w, some e)
    | ok payload ↦
        let (p, e) =
          call web {V = Unit {0}} (judge decode_status) (λ code body v. v) (client_of m.with)
            (engage_request payload) w tt in
        (p.0, e)
  ]

  abbrev pub batches : Batches O
  batches = record {
    more = 1999;
    check = missing_match "mixpanel" m.distinct_id;
    send_chunk = send_batch;
  }

  -- Load
  abbrev pub load_rows :
      {S : Type 0}
      → StateStore S
      → String
      → String
      → List Row
      → Wire O
      → S
      → Loading O S × Option GoError
  load_rows store pipeline destination rows w s =
      load store pipeline destination web.net batches rows w s
