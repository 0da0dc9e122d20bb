-- ===== src/Destinations/HubSpot/Tests.antt =====
-- HubSpot on a server that answers with the codes of a list, and the memory store.
use vortara.Base.{List, [], ◌∷◌, none, some, length, ◌≡◌, refl, lookup, insert}
use vortara.Destinations.HubSpot.{HubSpot}
use vortara.Destinations.HubSpot.Ledger.{Ends, hubspot-Ends}
use vortara.Destinations.HubSpot.Load.{load}
use vortara.Destinations.Tests.{wire}
use vortara.Destinations.Upserts.Tests.{web, row_with}
use vortara.Errors.{ok, hubspot_error}
use vortara.Row.{Row}
use vortara.Samples.{rt}
use vortara.State.Memory.{
  memory_store, new_memory_store, is_delivered, mark_delivered, get_entity_state, entity_state_key,
  delivery_key,
}
use vortara.Text.{trim_space, trim_left, trim_right, is_white}
use vortara.Value.{str}

abbrev hubspot : HubSpot
hubspot = record {
  auth = none;
  rate_limiter = none;
  base_url = "https://api.hubapi.com";
  object = "contacts";
  match_on = "email";
}

abbrev contacts : List Row
contacts = row_with "a" (("email", str "a@b.c") ∷ []) ∷ row_with "b" [] ∷ []

-- The first row is searched for after a retry and created, the second has no email.
counts_of_load :
    let (l, e) =
      load rt web
        (λ body. none)
        (λ body. ok [])
        (λ body. ok "17")
        hubspot
        memory_store
        "crm"
        "hubspot"
        contacts
        (wire (503 ∷ 200 ∷ 201 ∷ []))
        new_memory_store in
    (l.result.loaded ≡ 1)
    × (length l.result.errors ≡ 1)
    × (l.result.destination_ids ≡ ("a", "17") ∷ [])
    × (e ≡ none)
unfolding load new_memory_store is_delivered mark_delivered get_entity_state lookup insert
    entity_state_key delivery_key trim_space trim_left trim_right is_white
counts_of_load = (refl, refl, refl, refl)

-- An answer 401 ends the run.
unauthorized :
    (load rt web
      (λ body. none)
      (λ body. ok [])
      (λ body. ok "17")
      hubspot
      memory_store
      "crm"
      "hubspot"
      contacts
      (wire (401 ∷ []))
      new_memory_store).1
    ≡ some (hubspot_error "auth_failed" 401 "invalid or missing private app token")
unfolding load new_memory_store is_delivered mark_delivered get_entity_state lookup insert
    entity_state_key delivery_key trim_space trim_left trim_right is_white
unauthorized = refl

hubspot-Ends_example : Ends web 2 (
    load rt web
      (λ body. none)
      (λ body. ok [])
      (λ body. ok "17")
      hubspot
      memory_store
      "crm"
      "hubspot"
      contacts
      (wire (503 ∷ 200 ∷ 201 ∷ []))
      new_memory_store)
hubspot-Ends_example =
    hubspot-Ends rt web (λ body. none) (λ body. ok []) (λ body. ok "17") hubspot memory_store "crm"
      "hubspot" contacts (wire (503 ∷ 200 ∷ 201 ∷ [])) new_memory_store
