-- ===== src/Destinations/Intercom.antt =====
-- internal/connector/destination/intercom.go
pub mod Bodies
use vortara.Base.{
  ℕ, ℤ, pos, String, concat, Bool, true, false, not, ◌&&◌, ◌||◌, List, [], ◌∷◌, Option, none, some,
  Assoc, lookup, insert, eqb, ◌==◌, if◌then◌else◌,
}
use vortara.Destinations.Client.{Web, created_or_ok, do_request, call, body_snip, header}
use vortara.Destinations.Connect.{
  DestinationConfig, Connected, client_of, object_of, match_field_of, connected, missing_match,
}
use vortara.Destinations.Loading.{Loading}
use vortara.Destinations.RestApi.{Request, Wire}
use vortara.Destinations.Upserts.{Upserts, load}
use vortara.Errors.{GoError, Result, ok, err, connect_required, unknown_object, bad_status}
use vortara.Row.{Row}
use vortara.Runtime.{Runtime}
use vortara.State.{StateStore}
use vortara.Text.{trim_space}
use vortara.Value.{Value, Payload, null, int, str, obj, sprint, to_fields, Fields, field, no_fields}

pub record Intercom : Type 0 where
  pub with : Connected
  pub base_url : String
  pub object : String
  pub match_field : String

-- Connect
unfoldable pub connect : (String → Result ℤ) → DestinationConfig → Result Intercom
unfolding trim_space object_of match_field_of connected
connect parse cfg =
    let object = object_of cfg "contacts" in
    if not (object == "contacts") && not (object == "companies")
    then err (unknown_object "intercom" object)
    else if trim_space cfg.match_on == ""
    then err (connect_required "intercom" "match_on")
    else elim (connected parse cfg) [
      | err e ↦ err e
      | ok c ↦ ok (record {
        with = c;
        base_url = "https://api.intercom.io";
        object = object;
        match_field = match_field_of cfg;
      })
    ]

-- intercomTopFields
abbrev top_field : String → Bool
top_field k =
    k == "email"
    || k == "external_id"
    || k == "role"
    || k == "name"
    || k == "phone"
    || k == "avatar"
    || k == "signed_up_at"
    || k == "last_seen_at"
    || k == "unsubscribed_from_emails"

-- The fields that are sent at the top, and the custom attributes.
unfoldable pub split_fields : String → Payload → Payload × Payload
split_fields object [] = ([], [])
split_fields object ((k, v) ∷ rest) =
    let (top, custom) = split_fields object rest in
    if object == "contacts" && not (top_field k)
    then (top, (k, v) ∷ custom)
    else ((k, v) ∷ top, custom)

abbrev pub with_custom : Payload × Payload → Payload
with_custom (top, []) = top
with_custom (top, c ∷ custom) = insert "custom_attributes" (obj (to_fields (c ∷ custom))) top

-- The body of a contact or company, before it is encoded.
unfoldable pub body_of : String → Payload → Value
unfolding split_fields to_fields
body_of object row = obj (to_fields (with_custom (split_fields object row)))

abbrev search_query : String → String → Value
search_query queried value = obj (
    field "query"
      (obj (
        field "field" (str queried)
          (field "operator" (str "=") (field "value" (str value) no_fields))))
      (field "pagination" (obj (field "per_page" (int (pos 1)) no_fields)) no_fields))

-- `rw.Data[k]`, nil where the key is missing
abbrev pub data_at : Payload → String → Value
data_at row k = elim (lookup k row) [ none ↦ null | some v ↦ v ]

-- The identifier that a search leaves: what was there unless the answer names one.
abbrev pub found_id : (String → Option (List String)) → ℕ → String → String → String
found_id decode_ids code body existing =
    if eqb code 200
    then elim (decode_ids body) [
      | none ↦ existing
      | some ids ↦ elim ids [ [] ↦ existing | id ∷ more ↦ id ]
    ]
    else existing

-- The judgement of a search.
abbrev pub search_judge : String → ℕ → String → Option GoError
search_judge name code body =
    if eqb code 200 then none else some (bad_status (concat name ": search") code (body_snip body))

module _ {O : Type 0} (rt : Runtime) (web : Web O) (decode_ids : String → Option (List String))
    (ic : Intercom) where
  abbrev pub request_of : String → String → String → Request
  request_of method url payload = record {
    method = method;
    url = url;
    body = payload;
    headers = header web.net "Intercom-Version" "2.10" (
        header web.net "Accept" "application/json"
          (header web.net "Content-Type" "application/json" []));
  }

  abbrev search_url : String
  search_url = concat ic.base_url (concat "/" (concat ic.object "/search"))

  -- searchContact, with the identifier that it captures
  unfoldable pub search_contact : String → Wire O → (Wire O × String) × Option GoError
  unfolding call body_snip
  search_contact value w =
      let queried = if ic.object == "companies" then "company_id" else ic.match_field in
      elim (web.encode (search_query queried value)) [
        | err e ↦ ((w, ""), some e)
        | ok payload ↦
            call web (search_judge "intercom") (found_id decode_ids) (client_of ic.with)
              (request_of "POST" search_url payload) w ""
      ]

  -- The request for a row whose identifier at Intercom is known, or empty.
  abbrev pub write_of : String → String → Request
  write_of existing payload =
      let all = concat ic.base_url (concat "/" ic.object) in
      if existing == ""
      then request_of "POST" all payload
      else request_of "PUT" (concat all (concat "/" existing)) payload

  -- doRequest
  abbrev do_write : Request → Wire O → Wire O × Option GoError
  do_write req w = do_request web "intercom" created_or_ok (client_of ic.with) req w

  unfoldable pub upsert_one : Row → Wire O → Wire O × Option GoError
  unfolding search_contact body_of sprint do_request
  upsert_one row w =
      let (p, e) = search_contact (sprint rt (data_at row.fields ic.match_field)) w in
      elim e [
        | some cause ↦ (p.0, some cause)
        | none ↦ elim (web.encode (body_of ic.object row.fields)) [
          | err cause ↦ (p.0, some cause)
          | ok payload ↦ do_write (write_of p.1 payload) p.0
        ]
      ]

  abbrev pub upserts : Upserts O
  upserts = record { check = missing_match "intercom" ic.match_field; upsert_one = upsert_one }

  -- Load
  abbrev pub load_rows :
      {S : Type 0}
      → StateStore S
      → String
      → String
      → (List Row → List Row)
      → List Row
      → Wire O
      → S
      → Loading O S × Option GoError
  load_rows store pipeline destination order rows w s =
      load store pipeline destination web.net upserts order rows w s
