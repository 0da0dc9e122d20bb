-- ===== src/Replay/Tests.antt =====
-- A replay to a REST API over the memory store.
use vortara.Base.{ℕ, List, [], ◌∷◌, ◌≡◌, refl, lookup, insert}
use vortara.Destinations.RestApi.{Wire}
use vortara.Destinations.Tests.{net, api, wire, one_by_one}
use vortara.Destinations.RestApi.Load.{load}
use vortara.Http.Breaker.{new_circuit_breaker, allow_request, record_failure, record_success}
use vortara.Engine.{DlqRecord}
use vortara.Errors.{external}
use vortara.Replay.{Replay, replay_records}
use vortara.Replay.Once.{rest_destination, Marked, Quiet, replay_records-again}
use vortara.Samples.{rt}
use vortara.State.Memory.{
  MemoryStore, memory_store, new_memory_store, delivery_key, is_delivered, mark_delivered,
  get_entity_state, save_entity_state,
}
use vortara.Value.{str}
use vortara.Base.Sort.{sort_by}

abbrev letter : DlqRecord
letter = record {
  row_id = "r";
  sync_name = "crm";
  entity_key = "k";
  error = external "EOF";
  failed_at = 1000;
  fields = ("email", str "a@b.c") ∷ [];
}

abbrev at_start : Replay MemoryStore (Wire (List ℕ))
at_start = record {
  dest = wire (201 ∷ 201 ∷ []);
  store = new_memory_store;
  loaded = 0;
  errored = 0;
}

abbrev first_sent : Replay MemoryStore (Wire (List ℕ))
first_sent =
    replay_records rt memory_store (rest_destination memory_store net api one_by_one) 0 "crm"
      "restapi" (letter ∷ []) at_start

-- The first of two records that are the same is sent and marked.
marks_first :
    (first_sent.loaded ≡ 1)
    × Marked rt memory_store net api one_by_one 0 "crm" "restapi" first_sent.store letter
unfolding replay_records load is_delivered new_memory_store mark_delivered get_entity_state
    save_entity_state lookup insert new_circuit_breaker allow_request record_failure record_success
    delivery_key sort_by
marks_first = (refl, refl)

replay_records-again_example :
    Quiet rt memory_store net api one_by_one 0 "crm" "restapi" first_sent (
      replay_records rt memory_store
        (rest_destination memory_store net api one_by_one)
        0
        "crm"
        "restapi"
        (letter ∷ letter ∷ [])
        at_start)
replay_records-again_example =
    replay_records-again rt memory_store net api one_by_one 0 "crm" "restapi" (letter ∷ [])
      (letter ∷ []) at_start (marks_first.1, tt)
