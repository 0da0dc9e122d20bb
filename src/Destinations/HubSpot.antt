-- ===== src/Destinations/HubSpot.antt =====
-- internal/connector/destination/hubspot.go. The decoders of its answers are parameters.
pub mod Requests
pub mod Load
pub mod Refusals
pub mod Outcomes
pub mod Ledger
pub mod Tests
use vortara.Base.{
  ℕ, suc, ℤ, pos, String, concat, Bool, true, false, ◌||◌, List, [], ◌∷◌, ◌++◌, Option, none, some,
  is_some, Assoc, lookup, insert, ◌==◌, if◌then◌else◌,
}
use vortara.Destinations.Client.{Web}
use vortara.Destinations.Connect.{DestinationConfig, option_of, or_text, match_field_of}
use vortara.Destinations.HubSpot.Requests.{do_with_retry, marshalled}
use vortara.Destinations.Intercom.{data_at}
use vortara.Destinations.Loading.{Loading, failed_row, skip_row, poll, start}
use vortara.Destinations.RestApi.{Wire}
use vortara.Errors.{
  GoError, Result, ok, err, connect_required, hubspot_error, hubspot_no_match, hubspot_duplicate,
}
use vortara.Http.Auth.{Authenticator, new_authenticator}
use vortara.Http.Breaker.{is_zero}
use vortara.Http.RateLimit.{RateLimiter, new_rate_limiter}
use vortara.Row.{Row}
use vortara.Runtime.{Runtime}
use vortara.State.{StateStore, EntityState}
use vortara.Text.{trim_space, trim_slashes}
use vortara.Value.{
  Value, Items, no_items, item, Payload, null, int, str, arr, obj, sprint, to_fields, Fields, field,
  no_fields,
}

pub record HubSpot : Type 0 where
  pub auth : Option Authenticator
  pub rate_limiter : Option RateLimiter
  pub base_url : String
  pub object : String
  pub match_on : String

-- The limit that is set where none is configured
abbrev rate_or_default : DestinationConfig → ℤ × String
rate_or_default cfg = if is_zero cfg.requests then (pos 5, "1s") else (cfg.requests, cfg.period)

-- Connect
unfoldable pub connect : (String → Result ℤ) → DestinationConfig → Result HubSpot
unfolding trim_space trim_slashes match_field_of new_authenticator new_rate_limiter
connect parse cfg =
    if trim_space cfg.auth.token == ""
    then err (connect_required "hubspot" "auth.token")
    else elim (new_authenticator cfg.auth) [
      | err e ↦ err e
      | ok auth ↦
          let (requests, period) = rate_or_default cfg in
          elim (new_rate_limiter parse requests period) [
            | err e ↦ err e
            | ok limiter ↦ ok (record {
              auth = auth;
              rate_limiter = limiter;
              base_url = or_text (trim_slashes (trim_space cfg.url)) "https://api.hubapi.com";
              object = or_text (trim_space (option_of cfg "object")) "contacts";
              match_on = or_text (match_field_of cfg) "email";
            })
          ]
    ]

-- What deliver returns: the id of the contact, an error of the row, or one that ends the run.
pub data Outcome : Type 0 where
  delivered_as : String → Outcome
  row_failed : GoError → Outcome
  fatal : GoError → Outcome

abbrev pub is_auth : GoError → Bool
is_auth (hubspot_error class status message) = class == "auth_failed"
is_auth _ = false

-- classifyErr
unfoldable pub classify_err : GoError → Outcome
classify_err e = if is_auth e then fatal e else row_failed e

-- The properties of a contact: the values that are not nil, as texts.
unfoldable pub properties : Runtime → Payload → Payload
unfolding sprint
properties rt [] = []
properties rt ((k, null) ∷ rest) = properties rt rest
properties rt ((k, v) ∷ rest) = (k, str (sprint rt v)) ∷ properties rt rest

abbrev pub stored_id_of : Result (Option EntityState) → String
stored_id_of (ok (some es)) = es.destination_id
stored_id_of r = ""

-- `rw.Metadata["_action"] == "delete"`, of a text
abbrev pub is_delete : Option Value → Bool
is_delete (some (str s)) = s == "delete"
is_delete v = false

abbrev pub search_body : String → String → Value
search_body name value = obj (
    field "filterGroups"
      (arr (
        item
          (obj (
            field "filters"
              (arr (
                item
                  (obj (
                    field "propertyName" (str name)
                      (field "operator" (str "EQ") (field "value" (str value) no_fields))))
                  no_items))
              no_fields))
          no_items))
      (field "properties" (arr (item (str name) no_items)) (field "limit" (int (pos 2)) no_fields)))

abbrev pub is_null : Value → Bool
is_null null = true
is_null v = false

-- What a search finds.
pub data Found : Type 0 where
  no_contact several : Found
  one_contact : String → Found

abbrev found_of : List String → Found
found_of [] = no_contact
found_of (id ∷ []) = one_contact id
found_of (id ∷ more ∷ ids) = several

module _ {O : Type 0} (rt : Runtime) (web : Web O)
    (decode_error : String → Option (String × String)) (decode_ids : String → Result (List String))
    (decode_id : String → Result String) (h : HubSpot) where
  abbrev pub objects_url : String
  objects_url = concat h.base_url (concat "/crm/v3/objects/" h.object)

  abbrev pub ask :
      {A : Type 0} → A → (String → Result A) → String → String → String → O → O × Result A
  ask nothing decode =
      do_with_retry web decode_error (is_some h.rate_limiter) (is_some h.auth) nothing decode

  abbrev contact_body : Payload → String
  contact_body props = marshalled web (obj (field "properties" (obj (to_fields props)) no_fields))

  unfoldable pub search_by_field : String → String → O → O × Result Found
  unfolding do_with_retry
  search_by_field name value o =
      let (o', r) =
        ask [] decode_ids "POST" (concat objects_url "/search")
          (marshalled web (search_body name value)) o in
      elim r [ err e ↦ (o', err e) | ok ids ↦ (o', ok (found_of ids)) ]

  unfoldable pub create_contact : Payload → O → O × Result String
  unfolding do_with_retry to_fields
  create_contact props o = ask "" decode_id "POST" objects_url (contact_body props) o

  unfoldable pub update_contact : String → Payload → O → O × Result (Unit {0})
  unfolding do_with_retry to_fields
  update_contact id props o =
      ask tt (λ body. ok tt) "PATCH" (concat objects_url (concat "/" id)) (contact_body props) o

  unfoldable pub archive_contact : String → O → O × Result (Unit {0})
  unfolding do_with_retry
  archive_contact id o = ask tt (λ body. ok tt) "DELETE" (concat objects_url (concat "/" id)) "" o

  -- An outcome of a request on the contact with an id.
  abbrev pub written : {A : Type 0} → O × Result A → (A → String) → O × Outcome
  written (o, err e) id = (o, classify_err e)
  written (o, ok a) id = (o, delivered_as (id a))

  -- The part of deliver behind a search.
  unfoldable pub write_found : Payload → String → O × Result Found → O × Outcome
  unfolding create_contact update_contact classify_err
  write_found props text (o, err e) = (o, classify_err e)
  write_found props text (o, ok several) = (o, row_failed (hubspot_duplicate h.match_on text))
  write_found props text (o, ok no_contact) = written (create_contact props o) (λ id. id)
  write_found props text (o, ok (one_contact id)) =
      if id == ""
      then written (create_contact props o) (λ new. new)
      else written (update_contact id props o) (λ done. id)

  -- The part of deliver for a row without a stored id.
  unfoldable pub resolve : Row → Payload → O → O × Outcome
  unfolding write_found search_by_field sprint
  resolve row props o =
      let text = sprint rt (data_at row.fields h.match_on) in
      if is_null (data_at row.fields h.match_on) || text == ""
      then (o, row_failed (hubspot_no_match h.match_on row.primary_key))
      else write_found props text (search_by_field h.match_on text o)

  -- The part of deliver behind the look-up of the stored id.
  unfoldable pub deliver_to : Row → String → O → O × Outcome
  unfolding resolve archive_contact update_contact properties
  deliver_to row stored o =
      let props = properties rt row.fields in
      if is_delete (lookup "_action" row.metadata)
      then (if stored == ""
          then (o, delivered_as "")
          else written (archive_contact stored o) (λ done. stored))
      else if stored == ""
      then resolve row props o
      else written (update_contact stored props o) (λ done. stored)
