-- ===== src/Engine/Tests.antt =====
-- Tests of internal/engine over the memory store and a destination that counts its calls.
use vortara.Base.{
  String, ℕ, ◌+◌, [], ◌∷◌, none, some, true, false, lookup, length, ◌==◌, ◌≡◌, refl, insert,
}
use vortara.Decision.{Plan, evaluate, eval_when, skipped}
use vortara.Engine.{Env, World, Destination, PendingDelivery}
use vortara.Engine.Decide.{
  Phase1, start_phase1, decide_rows, current_fingerprint, decision_input, decide_row, decide_entity,
  plan_entity, count_fields, mapped_payload,
}
use vortara.Engine.Decide.Ledger.{extracted_rows_are_settled}
use vortara.Engine.Decide.Quiet.{Undelivered-store}
use vortara.Engine.Deliver.{Phase2, deliver_all, load_failed}
use vortara.Engine.Deliver.Counts.{deliver_all-IsWithin}
use vortara.Engine.Deliver.Failed.{failed_delivery_hides_change}
use vortara.Engine.Mapping.{compute_approval_hash, apply_mapping}
use vortara.Engine.Missing.{missing_entity}
use vortara.Engine.Missing.Counter.{Counted, missing_entity-Counted}
use vortara.Engine.Run.{Outcome, lock_ttl, pending_counts, approval_gate, ratio_gate, locked}
use vortara.Engine.Run.Gates.{Refused, ratio_gate_refuses, approval_gate_refuses}
use vortara.Engine.Run.Locking.{locked_releases, memory_unlock-frees}
use vortara.Engine.Stats.{fresh_stats}
use vortara.Errors.{external, approval_required, creates_pending, field_ratio_exceeded}
use vortara.Row.{Row}
use vortara.Safety
use vortara.Safety.{
  no_counts, check_field_ratios, ratio_loop, approval_loop, pending_action, record_action,
}
use vortara.Safety.Limits.{IsWithin, no_counts-IsWithin}
use vortara.Samples.{rt, spec, safety}
use vortara.State.{EntityState}
use vortara.State.Memory.{
  MemoryStore, new_memory_store, memory_store, get_entity_state, has_rule_fired, lock_run,
}
use vortara.State.Memory.Entities.{memory_store_laws}
use vortara.State.Observe.{SameEntities-refl}
use vortara.Text.{to_lower}
use vortara.Diff.{compute}
use vortara.Fingerprint.{normalize_payload}
use vortara.Value.{str, sprint}

-- It loads every row, and its state is the number of the calls.
abbrev counting : Destination MemoryStore ℕ
counting = record {
  load = λ rows n d calls s. (
    calls + 1,
    s,
    record { loaded = length rows; skipped = 0; errors = []; destination_ids = [] },
    none,
  );
}

abbrev lead : Row
lead = record {
  id = "r1";
  primary_key = "ada";
  fields = ("email", str "ada") ∷ ("status", str "open") ∷ [];
  watermark = 7;
  metadata = [];
}

abbrev pub env : Env MemoryStore ℕ
env = record {
  spec = spec;
  rt = rt;
  store = memory_store;
  dest = some counting;
  dest_name = "http";
  dest_override = false;
  dry_run = false;
  approval_hash = "";
  open_dest_error = none;
  open_source_error = none;
  extract = λ from. (lead ∷ [], none);
  cancelled = λ n. false;
  now = 1000;
  now_text = "t";
  lock_owner = "host:1";
}

abbrev pub fresh : World MemoryStore ℕ
fresh = record {
  store = new_memory_store;
  dest = 0;
  polls = 0;
  stats = fresh_stats;
  dlq = [];
  artifacts = [];
  alerts = [];
}

abbrev start : Phase1 MemoryStore ℕ
start = start_phase1 none fresh

abbrev decided : Phase1 MemoryStore ℕ
decided = decide_rows env 1 (lead ∷ []) start

extracted_rows_are_settled_example :
    (decided.world.stats.rows_extracted
      ≡ decided.world.stats.rows_skipped
        + decided.world.stats.rows_errored
        + length decided.pending)
    × (decided.world.stats.rows_loaded ≡ 0)
extracted_rows_are_settled_example = extracted_rows_are_settled env 1 (lead ∷ []) none fresh refl

abbrev create_plan : Plan
create_plan = record {
  action = "create";
  triggered_rules = "welcome" ∷ [];
  reasons = "first_seen" ∷ [];
  remember = [];
}

abbrev pub pending : PendingDelivery
pending = record {
  row = lead;
  entity_key = "ada";
  mapped = lead.fields;
  prev_fp = "";
  cur_fp = current_fingerprint env lead.fields;
  prev_payload = [];
  es = none;
  plan = create_plan;
  is_first_seen = true;
  changed_fields = "email" ∷ "status" ∷ [];
}

abbrev phase2 : Phase2 MemoryStore ℕ
phase2 = record { world = fresh; counts = no_counts; first_error = none }

-- Two creates where one is allowed.
deliver_all-IsWithin_example :
    IsWithin safety (deliver_all env (pending ∷ pending ∷ []) phase2).counts
deliver_all-IsWithin_example =
    deliver_all-IsWithin env (pending ∷ pending ∷ []) phase2 (no_counts-IsWithin safety)

abbrev dry_env : Env MemoryStore ℕ
dry_env = record env { dry_run = true }

failed_delivery_hides_change_example :
    let i = decision_input env lead.fields (
      get_entity_state
        (load_failed env pending (external "503") phase2).world.store
        "contacts"
        "http"
        "ada") in
    (i.is_first_seen ≡ false) × (i.fingerprint_changed ≡ false) × (i.previous_payload ≡ lead.fields)
failed_delivery_hides_change_example =
    failed_delivery_hides_change env pending (external "503") phase2 refl refl refl
      (decision_input env lead.fields (
        get_entity_state (load_failed env pending (external "503") phase2).world.store "contacts"
          "http" "ada"))
      refl

-- The approval that the safety section of the sync asks for, with no hash given.
asks :
    Safety.approval_required rt safety (pending_counts decided.pending no_counts)
    ≡ some (creates_pending 1)
unfolding compute_approval_hash pending_counts decide_rows decide_row lookup sprint decide_entity
    evaluate has_rule_fired start_phase1 new_memory_store eval_when get_entity_state plan_entity
    skipped record_action Safety.approval_required approval_loop pending_action to_lower insert
    count_fields
asks = refl

no_hash :
    (env.approval_hash
      == compute_approval_hash rt "contacts" "http" (pending_counts decided.pending no_counts))
    ≡ false
unfolding compute_approval_hash pending_counts decide_rows decide_row lookup sprint decide_entity
    evaluate has_rule_fired start_phase1 new_memory_store eval_when get_entity_state plan_entity
    skipped record_action
no_hash = refl

approval_gate_refuses_example :
    let hash =
      compute_approval_hash rt "contacts" "http" (pending_counts decided.pending no_counts) in
    (o : Outcome MemoryStore ℕ) × (approval_gate env 1 1 decided decided.world ≡ some o)
    × (o.0.stats.approval_hash ≡ hash)
    × Refused env memory_store_laws 1 1 start.world (approval_required (creates_pending 1) hash) o
approval_gate_refuses_example =
    approval_gate_refuses env memory_store_laws 1 1 (lead ∷ []) start decided.world
      (creates_pending 1)
      (compute_approval_hash rt "contacts" "http" (pending_counts decided.pending no_counts))
      (Undelivered-store (SameEntities-refl _) refl refl refl) asks refl no_hash

-- No change of the status is accepted.
abbrev strict : Env MemoryStore ℕ
strict = record env {
  spec = record spec {
    safety = record safety { block_if_changed_field_ratio_above = ("status", 0) ∷ [] };
  };
}

abbrev strictly_decided : Phase1 MemoryStore ℕ
strictly_decided = decide_rows strict 1 (lead ∷ []) start

exceeded :
    check_field_ratios rt strict.spec.safety strictly_decided.field_change_counts
      strictly_decided.world.stats.rows_extracted
    ≡ some (field_ratio_exceeded "status" 1 1)
unfolding compute_approval_hash pending_counts decide_rows decide_row lookup sprint decide_entity
    evaluate has_rule_fired start_phase1 new_memory_store eval_when get_entity_state plan_entity
    skipped record_action check_field_ratios ratio_loop insert count_fields compute mapped_payload
    normalize_payload apply_mapping
exceeded = refl

ratio_gate_refuses_example :
    (o : Outcome MemoryStore ℕ) × (ratio_gate strict 1 1 strictly_decided ≡ some o)
    × Refused strict memory_store_laws 1 1 start.world (field_ratio_exceeded "status" 1 1) o
ratio_gate_refuses_example =
    ratio_gate_refuses strict memory_store_laws 1 1 (lead ∷ []) start
      (field_ratio_exceeded "status" 1 1) exceeded

abbrev gone : EntityState
gone = record {
  sync_name = "contacts";
  destination = "http";
  entity_key = "bob";
  destination_id = "";
  current_fingerprint = "f";
  previous_fingerprint = "";
  current_payload = [];
  previous_payload = [];
  remembered_state = [];
  last_decision = "create";
  last_status = "success";
  consecutive_missing = 1;
  version = 1;
  updated_at = 0;
}

-- In a dry run as well.
missing_entity-Counted_example :
    Counted dry_env 1 refl gone
      (missing_entity dry_env 1 gone (record { world = fresh; delete_count = 0 })).world.store
missing_entity-Counted_example =
    missing_entity-Counted dry_env 1 refl gone (record { world = fresh; delete_count = 0 })

-- Another run holds the lock.
abbrev taken : World MemoryStore ℕ
taken = record fresh {
  store = record new_memory_store {
    locks = ("contacts", record { owner = "host:2"; expires_at = 5000 }) ∷ [];
  };
}

is_taken :
    lookup "contacts" taken.store.locks ≡ some (record { owner = "host:2"; expires_at = 5000 })
unfolding lookup
is_taken = refl

grants : (env.store.lock_run env.now fresh.store env.spec.name env.lock_owner lock_ttl).1 ≡ none
unfolding lock_run lookup new_memory_store
grants = refl

-- The sync, without an action for missing entities.
abbrev unasked : Env MemoryStore ℕ
unasked = record env {
  spec = record (env.spec) { on_missing = record (env.spec.on_missing) { action = "" } };
}

locked_releases_example :
    (o : Outcome MemoryStore ℕ) × (locked unasked 0 fresh ≡ some o)
    × ((now : ℕ) (owner : String) (ttl : ℕ)
        → (lock_run now o.0.store "contacts" owner ttl).1 ≡ none)
locked_releases_example =
    locked_releases unasked 0 fresh refl
      (λ s now owner ttl. memory_unlock-frees s "contacts" now owner ttl) grants
