-- ===== src/Destinations/Pipedrive.antt =====
-- internal/connector/destination/pipedrive.go. `url.Values.Encode` is a parameter.
use vortara.Base.{
  ℤ, String, concat, List, [], ◌∷◌, Option, none, some, Assoc, lookup, ◌==◌, if◌then◌else◌,
}
use vortara.Destinations.Client.{Web, created_or_ok, do_request, call, body_snip, header}
use vortara.Destinations.Connect.{
  DestinationConfig, Connected, client_of, object_of, match_field_of, option_of, or_text, connected,
  missing_match,
}
use vortara.Destinations.Intercom.{data_at, found_id, search_judge}
use vortara.Destinations.Loading.{Loading}
use vortara.Destinations.RestApi.{Request, Wire}
use vortara.Destinations.Upserts.{Upserts, load}
use vortara.Errors.{GoError, Result, ok, err, connect_required, unknown_object}
use vortara.Row.{Row}
use vortara.Runtime.{Runtime}
use vortara.State.{StateStore}
use vortara.Text.{trim_space, trim_slashes}
use vortara.Value.{obj, sprint, to_fields}

pub record Pipedrive : Type 0 where
  pub with : Connected
  pub base_url : String
  pub object_path : String
  pub match_field : String
  pub search_field : String

-- pipedriveObjects
abbrev pipedrive_objects : Assoc String
pipedrive_objects =
    ("persons", "/api/v2/persons")
    ∷ ("deals", "/api/v2/deals")
    ∷ ("organizations", "/api/v2/organizations")
    ∷ ("leads", "/api/v2/leads")
    ∷ []

-- Connect
unfoldable pub connect : (String → Result ℤ) → DestinationConfig → Result Pipedrive
unfolding trim_space trim_slashes object_of match_field_of connected
connect parse cfg =
    let object = object_of cfg "persons" in
    elim (lookup object pipedrive_objects) [
      | none ↦ err (unknown_object "pipedrive" object)
      | some path ↦
          if trim_space cfg.match_on == ""
          then err (connect_required "pipedrive" "match_on")
          else elim (connected parse cfg) [
            | err e ↦ err e
            | ok c ↦ ok (record {
              with = c;
              base_url = or_text (trim_slashes (trim_space cfg.url)) "https://api.pipedrive.com";
              object_path = path;
              match_field = match_field_of cfg;
              search_field =
                  or_text (trim_space (option_of cfg "search_field")) (match_field_of cfg);
            })
          ]
    ]

module _ {O : Type 0} (rt : Runtime) (web : Web O) (decode_ids : String → Option (List String))
    (encode_query : Assoc String → String) (p : Pipedrive) where
  abbrev search_request : String → Request
  search_request term = record {
    method = "GET";
    url = concat p.base_url (
        concat p.object_path (
          concat "/search?"
            (encode_query (("term", term) ∷ ("fields", p.search_field) ∷ ("limit", "1") ∷ []))));
    headers = [];
    body = "";
  }

  -- searchOne, with the identifier that it captures
  unfoldable pub search_one : String → Wire O → (Wire O × String) × Option GoError
  unfolding call body_snip
  search_one term w =
      call web (search_judge "pipedrive") (found_id decode_ids) (client_of p.with)
        (search_request term) w ""

  -- The request for a row whose identifier at Pipedrive is known, or empty.
  abbrev pub write_of : String → String → Request
  write_of existing payload =
      let all = concat p.base_url p.object_path in
      let headers = header web.net "Content-Type" "application/json" [] in
      if existing == ""
      then record { method = "POST"; url = all; headers = headers; body = payload }
      else record {
        method = "PATCH";
        url = concat all (concat "/" existing);
        headers = headers;
        body = payload;
      }

  -- doRequest
  abbrev do_write : Request → Wire O → Wire O × Option GoError
  do_write req w = do_request web "pipedrive" created_or_ok (client_of p.with) req w

  unfoldable pub upsert_one : Row → Wire O → Wire O × Option GoError
  unfolding search_one to_fields sprint do_request
  upsert_one row w =
      let (q, e) = search_one (sprint rt (data_at row.fields p.match_field)) w in
      elim e [
        | some cause ↦ (q.0, some cause)
        | none ↦ elim (web.encode (obj (to_fields row.fields))) [
          | err cause ↦ (q.0, some cause)
          | ok payload ↦ do_write (write_of q.1 payload) q.0
        ]
      ]

  abbrev pub upserts : Upserts O
  upserts = record { check = missing_match "pipedrive" p.match_field; upsert_one = upsert_one }

  -- Load
  abbrev pub load_rows :
      {S : Type 0}
      → StateStore S
      → String
      → String
      → (List Row → List Row)
      → List Row
      → Wire O
      → S
      → Loading O S × Option GoError
  load_rows store pipeline destination order rows w s =
      load store pipeline destination web.net upserts order rows w s
