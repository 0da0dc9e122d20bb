-- ===== src/Destinations/Zendesk.antt =====
-- internal/connector/destination/zendesk.go
pub mod Bodies
use vortara.Base.{
  ℤ, String, concat, Bool, true, false, not, ◌&&◌, List, [], ◌∷◌, Option, none, some, Assoc, lookup,
  insert, ◌==◌, if◌then◌else◌,
}
use vortara.Destinations.Client.{Web, Io, created_or_ok, do_request, header}
use vortara.Destinations.Connect.{
  DestinationConfig, Connected, client_of, object_of, match_field_of, connected, missing_match,
}
use vortara.Destinations.Loading.{Loading}
use vortara.Destinations.RestApi.{Request, Wire}
use vortara.Destinations.Upserts.{Upserts, load}
use vortara.Errors.{GoError, Result, ok, err, connect_required, unknown_object}
use vortara.Row.{Row}
use vortara.Runtime.{Runtime}
use vortara.State.{StateStore}
use vortara.Text.{trim_space, trim_slashes}
use vortara.Value.{Value, Payload, str, obj, sprint, to_fields, Fields, field, no_fields}

pub record Zendesk : Type 0 where
  pub with : Connected
  pub base_url : String
  pub object : String
  pub match_field : String

-- Connect
unfoldable pub connect : (String → Result ℤ) → DestinationConfig → Result Zendesk
unfolding trim_space trim_slashes object_of match_field_of connected
connect parse cfg =
    let base = trim_slashes (trim_space cfg.url) in
    let object = object_of cfg "users" in
    if base == ""
    then err (connect_required "zendesk" "url")
    else if not (object == "users") && not (object == "tickets")
    then err (unknown_object "zendesk" object)
    else if trim_space cfg.match_on == ""
    then err (connect_required "zendesk" "match_on")
    else elim (connected parse cfg) [
      | err e ↦ err e
      | ok c ↦
          ok (record {
            with = c;
            base_url = base;
            object = object;
            match_field = match_field_of cfg;
          })
    ]

-- The object that is sent: `external_id` is the key of the match.
unfoldable pub body_of : Runtime → Zendesk → Payload → Payload
unfolding sprint
body_of rt z row = if z.match_field == "external_id" then row else elim (lookup z.match_field row) [
  | none ↦ row
  | some v ↦ insert "external_id" (str (sprint rt v)) row
]

module _ {O : Type 0} (rt : Runtime) (web : Web O) (z : Zendesk) where
  abbrev pub post : String → String → Request
  post url payload = record {
    method = "POST";
    url = url;
    body = payload;
    headers = header web.net "Content-Type" "application/json" [];
  }

  -- doRequest
  abbrev do_post : String → String → Wire O → Wire O × Option GoError
  do_post url payload w =
      do_request web "zendesk" created_or_ok (client_of z.with) (post url payload) w

  abbrev send_object : String → String → Row → Wire O → Wire O × Option GoError
  send_object key path row w =
      elim (web.encode (obj (field key (obj (to_fields (body_of rt z row.fields))) no_fields))) [
        | err e ↦ (w, some e)
        | ok payload ↦ do_post (concat z.base_url path) payload w
      ]

  unfoldable pub upsert_one : Row → Wire O → Wire O × Option GoError
  unfolding body_of to_fields do_request
  upsert_one row w =
      if z.object == "tickets"
      then send_object "ticket" "/api/v2/tickets/create_or_update" row w
      else send_object "user" "/api/v2/users/create_or_update" row w

  abbrev pub upserts : Upserts O
  upserts = record { check = missing_match "zendesk" z.match_field; upsert_one = upsert_one }

  -- Load
  abbrev pub load_rows :
      {S : Type 0}
      → StateStore S
      → String
      → String
      → (List Row → List Row)
      → List Row
      → Wire O
      → S
      → Loading O S × Option GoError
  load_rows store pipeline destination order rows w s =
      load store pipeline destination web.net upserts order rows w s
