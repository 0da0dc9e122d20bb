-- ===== src/State/Tests.antt =====
-- Tests of internal/state/memory.go.
use vortara.Base.{◌+◌, [], ◌∷◌, none, some, false, ◌||◌, lookup, ltb, ◌≡◌, refl, if◌then◌else◌}
use vortara.Errors.{already_running}
use vortara.State.{EntityState}
use vortara.State.Memory.{
  MemoryStore, LockEntry, new_memory_store, begin_batch, commit_batch, mark_delivered, is_delivered,
  lock_run, delivery_key,
}
use vortara.State.Memory.Batch.{Marks, mark_all, marked, commit-begin}
use vortara.State.Memory.Lock.{lock_run-lock_run}

-- One delivery was marked before the batch, one is marked in it.
abbrev earlier : MemoryStore
earlier = mark_delivered new_memory_store "r0" "contacts" "http"

abbrev marks : Marks
marks = ("r1", "contacts", "http") ∷ []

not_in_batch : earlier.in_batch ≡ false
unfolding mark_delivered new_memory_store
not_in_batch = refl

commit-begin_example :
    (is_delivered (commit_batch (mark_all marks (begin_batch earlier))) "r1" "contacts" "http" ≡ (
      marked marks (delivery_key "r1" "contacts" "http")
      || is_delivered earlier "r1" "contacts" "http"))
    × (is_delivered (mark_all marks (begin_batch earlier)) "r1" "contacts" "http" ≡ (
        marked marks (delivery_key "r1" "contacts" "http")
        || is_delivered earlier "r1" "contacts" "http"))
commit-begin_example = commit-begin marks earlier "r1" "contacts" "http" not_in_batch

free : (lock_run 5 new_memory_store "contacts" "host:1" 600).1 ≡ none
unfolding lock_run lookup new_memory_store
free = refl

lock_run-lock_run_example :
    (lock_run 300 (lock_run 5 new_memory_store "contacts" "host:1" 600).0 "contacts" "host:2" 600).1
    ≡ (if ltb 300 (5 + 600) then some (already_running "contacts" "host:1") else none)
lock_run-lock_run_example =
    lock_run-lock_run 5 new_memory_store "contacts" "host:1" 600 300 "host:2" 600 free

abbrev entry : LockEntry
entry = record { owner = "host:1"; expires_at = 605 }

abbrev held : MemoryStore
held = record new_memory_store { locks = ("contacts", entry) ∷ [] }

is_held : lookup "contacts" held.locks ≡ some entry
unfolding lookup
is_held = refl

abbrev ada : EntityState
ada = record {
  sync_name = "contacts";
  destination = "http";
  entity_key = "ada";
  destination_id = "";
  current_fingerprint = "f1";
  previous_fingerprint = "";
  current_payload = [];
  previous_payload = [];
  remembered_state = [];
  last_decision = "create";
  last_status = "success";
  consecutive_missing = 0;
  version = 1;
  updated_at = 0;
}
