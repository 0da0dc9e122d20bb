-- ===== src/State.antt =====
-- internal/state: models.go and the interface of store.go. A store is a state `S` with the
-- operations as functions of it; a Go error result is the state beside an optional error.
pub mod Tests
pub mod Backends
pub mod Memory
pub mod Observe
use vortara.Base.{ℕ, String, Bool, List, Option, none, some, Assoc}
use vortara.Errors.{GoError, Result}
use vortara.Value.{Value, Payload}

-- Times are nanoseconds, and 0 is the zero time.
pub record EntityState : Type 0 where
  pub sync_name : String
  pub destination : String
  pub entity_key : String
  pub destination_id : String
  pub current_fingerprint : String
  pub previous_fingerprint : String
  pub current_payload : Payload
  pub previous_payload : Payload
  pub remembered_state : Payload
  pub last_decision : String
  pub last_status : String
  pub consecutive_missing : ℕ
  pub version : ℕ
  pub updated_at : ℕ

pub record DecisionEvent : Type 0 where
  pub sync_name : String
  pub destination : String
  pub entity_key : String
  pub run_id : ℕ
  pub decision : String
  pub triggered_rules : List String
  pub reasons : List String

-- RunStats. `error` holds the error whose text the field has, `approval_hash` is empty if none.
pub record RunStats : Type 0 where
  pub rows_extracted : ℕ
  pub rows_loaded : ℕ
  pub rows_skipped : ℕ
  pub rows_errored : ℕ
  pub high_watermark : ℕ
  pub status : String
  pub error : Option GoError
  pub creates : ℕ
  pub updates : ℕ
  pub deletes : ℕ
  pub field_change_counts : Assoc ℕ
  pub approval_required : Bool
  pub approval_hash : String

pub record RunLog : Type 0 where
  pub id : ℕ
  pub sync_name : String
  pub mode : String
  pub started_at : ℕ
  pub finished_at : ℕ
  pub rows_extracted : ℕ
  pub rows_loaded : ℕ
  pub rows_skipped : ℕ
  pub rows_errored : ℕ
  pub high_watermark : ℕ
  pub status : String
  pub error : Option GoError

-- StateStore. The name of the sync, the destination and the entity come in the order of the source.
pub record StateStore (S : Type 0) : Type 0 where
  pub get_entity_state : S → String → String → String → Result (Option EntityState)
  pub save_entity_state : S → EntityState → S × Option GoError
  pub list_entity_states : S → String → String → ℕ → ℕ → Result (List EntityState)
  pub reset_entity_state : S → String → String → String → S × Option GoError
  pub has_rule_fired : S → String → String → String → String → Result Bool
  pub mark_rule_fired : ℕ → S → String → String → String → String → S × Option GoError
  pub record_decision : S → DecisionEvent → S × Option GoError
  pub start_run : ℕ → S → String → String → S × Result ℕ
  pub finish_run : ℕ → S → ℕ → RunStats → S × Option GoError
  pub get_run_history : S → String → ℕ → Result (List RunLog)
  pub is_delivered : S → String → String → String → Result Bool
  pub mark_delivered : S → String → String → String → S × Option GoError
  pub begin_batch : S → S × Option GoError
  pub commit_batch : S → S × Option GoError
  pub rollback_batch : S → S × Option GoError
  pub lock_run : ℕ → S → String → String → ℕ → S × Option GoError
  pub unlock_run : S → String → S × Option GoError
  pub heartbeat_lock : ℕ → S → String → String → ℕ → S × Option GoError
