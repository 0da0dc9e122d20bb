-- ===== src/Engine/Decide.antt =====
-- internal/engine/run.go, phase 1 of runOnce: every row is decided, and nothing is delivered.
pub mod Ledger
pub mod Quiet
use vortara.Base.{
  ℕ, zero, suc, ◌+◌, String, Bool, true, false, not, ◌&&◌, ◌||◌, List, [], ◌∷◌, ◌++◌, map, Option,
  none, some, Assoc, lookup, insert, contains, length, ltb, ◌==◌, if◌then◌else◌,
}
use vortara.Config.{SyncSpec}
use vortara.Decision.{Input, Plan, skipped, evaluate, Checker}
use vortara.Diff
use vortara.Diff.{compute}
use vortara.Engine.{
  Env, World, PendingDelivery, Artifact, decision_artifact, skip_artifact, is_cancelled,
}
use vortara.Engine.Mapping.{missing_required_fields, apply_mapping, mapping_excludes, fp_fields}
use vortara.Errors.{GoError, Result, ok, err}
use vortara.Fingerprint.{fingerprint_of, normalize_payload}
use vortara.Row.{Row}
use vortara.Safety.{count_at}
use vortara.State.{EntityState, DecisionEvent, RunStats}
use vortara.Value.{Value, Payload, null, sprint}

-- The variables of the loop beside the world.
pub record Phase1 (S D : Type 0) : Type 0 where
  pub world : World S D
  pub seen_keys : List String
  pub pending : List PendingDelivery
  pub field_change_counts : Assoc ℕ
  pub max_watermark : ℕ
  pub extract_error : Option GoError

abbrev pub keys : Diff.Result → List String
keys = map (λ e. e.0)

unfoldable pub count_fields : List String → Assoc ℕ → Assoc ℕ
count_fields [] counts = counts
count_fields (f ∷ fs) counts = count_fields fs (insert f (count_at counts f + 1) counts)

abbrev pub add_skipped : RunStats → ℕ → RunStats
add_skipped st n = record st { rows_skipped = st.rows_skipped + n }

abbrev pub add_errored : RunStats → ℕ → RunStats
add_errored st n = record st { rows_errored = st.rows_errored + n }

abbrev pub add_loaded : RunStats → ℕ → RunStats
add_loaded st n = record st { rows_loaded = st.rows_loaded + n }

-- `r.Data[key]`, which is nil for a key that is not there, as `%v` prints it
abbrev pub entity_key_of : Option Value → Value
entity_key_of none = null
entity_key_of (some v) = v

abbrev pub fingerprint_before : Option EntityState → String
fingerprint_before none = ""
fingerprint_before (some es) = es.current_fingerprint

abbrev pub payload_before : Option EntityState → Payload
payload_before none = []
payload_before (some es) = es.current_payload

abbrev pub remembered_before : Option EntityState → Payload
remembered_before none = []
remembered_before (some es) = es.remembered_state

abbrev pub is_first : Option EntityState → Bool
is_first none = true
is_first (some es) = false

abbrev pub later : ℕ → ℕ → ℕ
later a b = if ltb a b then b else a

abbrev pub is_empty : List String → Bool
is_empty [] = true
is_empty (x ∷ xs) = false

module _ {S D : Type 0} where
  abbrev pub skip_row : Phase1 S D → Phase1 S D
  skip_row p = record p { world = record (p.world) { stats = add_skipped p.world.stats 1 } }

  abbrev pub error_row : Phase1 S D → Phase1 S D
  error_row p = record p { world = record (p.world) { stats = add_errored p.world.stats 1 } }

  abbrev pub polled : Phase1 S D → Phase1 S D
  polled p = record p { world = record (p.world) { polls = p.world.polls + 1 } }

module _ {S D : Type 0} (env : Env S D) where
  unfoldable pub fingerprint_excludes : List String
  unfolding mapping_excludes
  fingerprint_excludes = mapping_excludes env.spec.mapping ++ env.spec.fingerprint.exclude

  unfoldable pub current_fingerprint : Payload → String
  unfolding fingerprint_of fp_fields fingerprint_excludes
  current_fingerprint mapped =
      fingerprint_of env.rt (fp_fields mapped env.spec.fingerprint.include) fingerprint_excludes

  unfoldable pub mapped_payload : Row → Payload
  unfolding normalize_payload apply_mapping
  mapped_payload r = normalize_payload env.rt (apply_mapping r.fields env.spec.mapping)

  -- The input of the decision for an entity with the state that the store has of it.
  unfoldable pub decision_input : Payload → Option EntityState → Input
  decision_input mapped es = record {
    is_first_seen = is_first es;
    fingerprint_changed = not (current_fingerprint mapped == fingerprint_before es);
    diff = compute env.rt (payload_before es) mapped;
    previous_payload = payload_before es;
    current_payload = mapped;
    remembered_state = remembered_before es;
  }

  unfoldable pub pending_delivery :
      Row → String → Payload → Option EntityState → Plan → PendingDelivery
  pending_delivery r entity_key mapped es plan = record {
    row = r;
    entity_key = entity_key;
    mapped = mapped;
    prev_fp = fingerprint_before es;
    cur_fp = current_fingerprint mapped;
    prev_payload = payload_before es;
    es = es;
    plan = plan;
    is_first_seen = is_first es;
    changed_fields = keys (compute env.rt (payload_before es) mapped);
  }

module _ {S D : Type 0} (env : Env S D) (run_id : ℕ) where
  unfoldable pub decision_event : String → Plan → DecisionEvent
  decision_event entity_key plan = record {
    sync_name = env.spec.name;
    destination = env.dest_name;
    entity_key = entity_key;
    run_id = run_id;
    decision = plan.action;
    triggered_rules = plan.triggered_rules;
    reasons = plan.reasons;
  }

  -- From the recording of the decision to the end of the round. The store's error is dropped.
  unfoldable pub plan_entity :
      Row → String → Payload → Option EntityState → Plan → Phase1 S D → Phase1 S D
  unfolding decision_event pending_delivery
  plan_entity r entity_key mapped es plan p =
      let ev = decision_event entity_key plan in
      let w = record (p.world) {
        store = (env.store.record_decision p.world.store ev).0;
        artifacts = p.world.artifacts ++ decision_artifact ev ∷ [];
      } in
      if skipped plan
      then record p {
        world = record w {
          stats = add_skipped w.stats 1;
          artifacts = w.artifacts ++ skip_artifact entity_key ∷ [];
        };
      }
      else record p {
        world = w;
        pending = p.pending ++ pending_delivery env r entity_key mapped es plan ∷ [];
        field_change_counts =
            count_fields (keys (compute env.rt (payload_before es) mapped)) p.field_change_counts;
      }

  -- From the state of the entity to its plan.
  unfoldable pub decide_entity :
      Row → String → Payload → Option EntityState → Phase1 S D → Phase1 S D
  unfolding decision_input
  decide_entity r entity_key mapped es p =
      elim (evaluate env.rt env.now_text env.spec.decisions (decision_input env mapped es)
        (some (env.store.has_rule_fired p.world.store env.spec.name env.dest_name entity_key))) [
          | err e ↦ error_row p
          | ok plan ↦ plan_entity r entity_key mapped es plan p
        ]

  unfoldable pub key_entity : Row → String → Phase1 S D → Phase1 S D
  key_entity r entity_key p =
      if entity_key == "" || entity_key == "<nil>"
      then skip_row p
      else let q = record p { seen_keys = entity_key ∷ p.seen_keys } in
        elim (env.store.get_entity_state p.world.store env.spec.name env.dest_name entity_key) [
          | err e ↦ error_row q
          | ok es ↦ decide_entity r entity_key (mapped_payload env r) es q
        ]

  -- The row is counted, and its watermark is noted.
  abbrev pub counted_row : Row → Phase1 S D → Phase1 S D
  counted_row r p = record p {
    world = record (p.world) {
      stats = record (p.world.stats) { rows_extracted = p.world.stats.rows_extracted + 1 };
    };
    max_watermark = later p.max_watermark r.watermark;
  }

  abbrev pub row_key : Row → String
  row_key r = sprint env.rt (entity_key_of (lookup env.spec.source.entity_key r.fields))

  -- One round of the loop over the extracted rows, after the test of the context.
  unfoldable pub decide_row : Row → Phase1 S D → Phase1 S D
  unfolding key_entity missing_required_fields
  decide_row r p =
      if is_empty (missing_required_fields r.fields env.spec.required)
      then key_entity r (row_key r) (counted_row r p)
      else skip_row (counted_row r p)

  -- The loop over the channel, which a cancelled context breaks.
  unfoldable pub decide_rows : List Row → Phase1 S D → Phase1 S D
  decide_rows [] p = p
  decide_rows (r ∷ rows) p =
      let rest = decide_rows rows (decide_row r (polled p)) in
      if is_cancelled env p.world then polled p else rest

unfoldable pub start_phase1 : {S D : Type 0} → Option GoError → World S D → Phase1 S D
start_phase1 e w = record {
  world = w;
  seen_keys = [];
  pending = [];
  field_change_counts = [];
  max_watermark = 0;
  extract_error = e;
}
