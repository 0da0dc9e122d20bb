-- ===== src/Destinations/Upserts/Tests.antt =====
-- Zendesk and Intercom on a server that answers with the codes of a list, and the memory store.
use vortara.Base.{ℕ, pos, String, List, [], ◌∷◌, none, some, ◌+◌, length, ◌≡◌, refl, lookup}
use vortara.Destinations.Client.{Web}
use vortara.Destinations.Connect.{Connected, missing_match}
use vortara.Destinations.Intercom.{body_of}
use vortara.Destinations.Intercom.Bodies.{value_at, body_of-value_at}
use vortara.Destinations.Loading.Marks.{Quiet}
use vortara.Destinations.Tests.{net, row_of, wire, one_by_one, memory_remembers}
use vortara.Destinations.Upserts.{load}
use vortara.Destinations.Upserts.Ledger.{upserts-accounted}
use vortara.Destinations.Upserts.Once.{upserts-again}
use vortara.Destinations.Zendesk.{Zendesk, upserts, upsert_one}
use vortara.Errors.{Result, ok, err, external}
use vortara.Http.Breaker.{new_circuit_breaker, allow_request, record_failure, record_success}
use vortara.Row.{Row}
use vortara.Samples.{rt}
use vortara.State.Memory.{MemoryStore, memory_store, new_memory_store, is_delivered, mark_delivered}
use vortara.Value.{Payload, str}

abbrev reply_with : List ℕ → List ℕ × Result (ℕ × String)
reply_with [] = ([], err (external "EOF"))
reply_with (c ∷ cs) = (cs, ok (c, "{}"))

abbrev pub web : Web (List ℕ)
web = record { net = net; reply = λ req o. reply_with o; encode = λ v. ok "{}" }

abbrev pub sample_connection : Connected
sample_connection = record {
  retry = record { attempts = pos 2; backoff_ms = pos 10; backoff_on = []; drop_on = [] };
  auth = none;
  rate_limiter = none;
  breaker = new_circuit_breaker (pos 3) (pos 0);
}

abbrev zendesk : Zendesk
zendesk = record {
  with = sample_connection;
  base_url = "https://crm.zendesk.com";
  object = "users";
  match_field = "email";
}

abbrev pub row_with : String → Payload → Row
row_with id fields = record (row_of id) { fields = fields }

abbrev contact : Row
contact = row_with "a" (("email", str "a@b.c") ∷ [])

abbrev contacts : List Row
contacts = contact ∷ row_of "b" ∷ contact ∷ []

abbrev counted_load : ℕ × ℕ × ℕ
counted_load =
    let res =
      (load memory_store "crm" "zendesk" net (upserts rt web zendesk) one_by_one contacts
        (wire (503 ∷ 201 ∷ 404 ∷ [])) new_memory_store).0.result in
    (res.loaded, res.skipped, length res.errors)

-- One row after a retry, one without the match field, and one that is refused.
counts_of_load : counted_load ≡ (1, 0, 2)
unfolding load is_delivered new_memory_store mark_delivered lookup new_circuit_breaker allow_request
    record_failure record_success missing_match upsert_one
counts_of_load = refl

upserts-accounted_example :
    let res =
      (load memory_store "crm" "zendesk" net
        (upserts rt web zendesk)
        one_by_one
        contacts
        (wire (503 ∷ 201 ∷ 404 ∷ []))
        new_memory_store).0.result in
    res.loaded + res.skipped + length res.errors ≡ 3
upserts-accounted_example =
    upserts-accounted net memory_store (upserts rt web zendesk) "crm" "zendesk" one_by_one
      (λ rows. refl) contacts (wire (503 ∷ 201 ∷ 404 ∷ [])) new_memory_store refl

abbrev once : MemoryStore
once =
    (load memory_store "crm" "zendesk" net (upserts rt web zendesk) (λ rows. rows) (contact ∷ [])
      (wire (503 ∷ 201 ∷ [])) new_memory_store).0.store

one_upserted :
    (load memory_store "crm" "zendesk" net
      (upserts rt web zendesk)
      (λ rows. rows)
      (contact ∷ [])
      (wire (503 ∷ 201 ∷ []))
      new_memory_store).0.result.loaded
    ≡ 1
unfolding load is_delivered new_memory_store mark_delivered lookup new_circuit_breaker allow_request
    record_failure record_success missing_match upsert_one
one_upserted = refl

upserts-again_example :
    Quiet net
      (wire (200 ∷ []))
      once
      (load memory_store "crm" "zendesk" net
        (upserts rt web zendesk)
        one_by_one
        (contact ∷ [])
        (wire (200 ∷ []))
        once).0
upserts-again_example =
    upserts-again net memory_store (upserts rt web zendesk) "crm" "zendesk" memory_remembers contact
      (wire (503 ∷ 201 ∷ [])) (wire (200 ∷ [])) new_memory_store one_upserted

abbrev person : Payload
person = ("email", str "a@b.c") ∷ ("plan", str "pro") ∷ []

body_of-value_at_example :
    value_at "plan" (value_at "custom_attributes" (some (body_of "contacts" person)))
    ≡ some (str "pro")
unfolding lookup
body_of-value_at_example = body_of-value_at "contacts" "plan" person
