-- ===== src/Destinations/Batches/Tests.antt =====
-- Klaviyo and Slack on a server that answers with the codes of a list, and the memory store.
use vortara.Base.{ℕ, List, [], ◌∷◌, none, some, ◌≡◌, refl, lookup}
use vortara.Destinations.Batches.{Batches, load}
use vortara.Destinations.Klaviyo.{Klaviyo, upsert_chunk, load_rows}
use vortara.Destinations.Klaviyo.Unsent.{unsent-loaded}
use vortara.Destinations.Slack.{Slack}
use vortara.Destinations.Tests.{net, row_of, wire}
use vortara.Destinations.Upserts.Tests.{web, sample_connection}
use vortara.Errors.{deadline_exceeded}
use vortara.Http.Breaker.{new_circuit_breaker, allow_request}
use vortara.Row.{Row}
use vortara.State.Memory.{memory_store, new_memory_store, is_delivered, mark_delivered}

abbrev klaviyo : Klaviyo
klaviyo = record {
  retry = sample_connection.retry;
  rate_limiter = none;
  breaker = none;
  api_key = "k";
  match_field = "email";
}

abbrev five : List Row
five = row_of "a" ∷ row_of "b" ∷ row_of "c" ∷ row_of "d" ∷ row_of "e" ∷ []

-- The http.Client's own timeout is a DeadlineExceeded of a context that is not done: the rows are in none of
-- the counts, and there is no error.
abbrev timing_out : Batches (List ℕ)
timing_out = record {
  more = 1;
  check = λ row. none;
  send_chunk = λ rows w. (w, some deadline_exceeded);
}

lost_rows :
    let (l, e) = load memory_store "crm" "klaviyo" net timing_out five (wire []) new_memory_store in
    (l.result.loaded ≡ 0) × (l.result.errors ≡ []) × (e ≡ none)
unfolding load is_delivered new_memory_store mark_delivered lookup
lost_rows = (refl, refl, refl)

unsent-loaded_example :
    load_rows web klaviyo memory_store "crm" "klaviyo"
      (row_of "a" ∷ [])
      (wire (202 ∷ []))
      new_memory_store
    ≡ (
      record {
        wire = (upsert_chunk web klaviyo [] (wire (202 ∷ []))).0;
        store = mark_delivered new_memory_store "a" "crm" "klaviyo";
        result = record { loaded = 1; skipped = 0; errors = []; destination_ids = [] };
      },
      none,
    )
unfolding is_delivered new_memory_store lookup upsert_chunk new_circuit_breaker allow_request
unsent-loaded_example =
    unsent-loaded web klaviyo memory_store "crm" "klaviyo" (row_of "a") (wire (202 ∷ []))
      new_memory_store refl refl refl refl refl

abbrev slack : Slack
slack = record {
  webhook_url = "https://hooks";
  template = "{{ row.email }} signed up";
  rate_limiter = none;
}
