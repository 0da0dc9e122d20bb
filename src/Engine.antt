-- ===== src/Engine.antt =====
-- internal/engine: what a run is given and what it changes.
pub mod Alerts
pub mod Mapping
pub mod Decide
pub mod Deliver
pub mod Missing
pub mod Run
pub mod Stats
pub mod Tests
use vortara.Base.{ℕ, suc, String, Bool, true, false, List, [], ◌∷◌, ◌++◌, Option, none, some, Assoc}
use vortara.Config.{SyncSpec}
use vortara.Decision.{Plan}
use vortara.Errors.{GoError}
use vortara.Row.{Row}
use vortara.Runtime.{Runtime}
use vortara.State.{StateStore, EntityState, DecisionEvent, RunStats}
use vortara.Value.{Payload}

-- internal/connector/destination/destination.go
pub record RowError : Type 0 where
  pub row_id : String
  pub error : GoError

pub record LoadResult : Type 0 where
  pub loaded : ℕ
  pub skipped : ℕ
  pub errors : List RowError
  pub destination_ids : Assoc String

-- Destination.Load on a destination's state `D` and the store, with its optional error.
pub record Destination (S D : Type 0) : Type 0 where
  pub load : List Row → String → String → D → S → D × S × LoadResult × Option GoError

-- DLQRecord; the file is the list of its lines, and an error is a value in place of its text.
pub record DlqRecord : Type 0 where
  pub row_id : String
  pub sync_name : String
  pub entity_key : String
  pub error : GoError
  pub failed_at : ℕ
  pub fields : Payload

-- What the run tells internal/artifacts.
pub data Artifact : Type 0 where
  decision_artifact : DecisionEvent → Artifact
  skip_artifact : String → Artifact
  create_artifact : String → Payload → Artifact
  update_artifact : String → Payload → List String → Artifact

-- pendingDelivery
pub record PendingDelivery : Type 0 where
  pub row : Row
  pub entity_key : String
  pub mapped : Payload
  pub prev_fp : String
  pub cur_fp : String
  pub prev_payload : Payload
  pub es : Option EntityState
  pub plan : Plan
  pub is_first_seen : Bool
  pub changed_fields : List String

-- The engine's settings and what surrounds one run: the rows that the source sends from a
-- watermark on before it closes the channel, and its error; the answers of `ctx.Err() != nil` in the order in which the run asks,
-- and the clock, which is read once.
pub record Env (S D : Type 0) : Type 0 where
  pub spec : SyncSpec
  pub rt : Runtime
  pub store : StateStore S
  pub dest : Option (Destination S D)
  pub dest_name : String
  pub dest_override : Bool
  pub dry_run : Bool
  pub approval_hash : String
  pub open_dest_error : Option GoError
  pub open_source_error : Option GoError
  pub extract : ℕ → List Row × Option GoError
  pub cancelled : ℕ → Bool
  pub now : ℕ
  pub now_text : String
  pub lock_owner : String

-- What a run changes. `polls` counts the questions put to the context, `alerts` the failure
-- webhooks.
pub record World (S D : Type 0) : Type 0 where
  pub store : S
  pub dest : D
  pub polls : ℕ
  pub stats : RunStats
  pub dlq : List DlqRecord
  pub artifacts : List Artifact
  pub alerts : List GoError

-- `ctx.Err() != nil`
abbrev pub is_cancelled : {S D : Type 0} → Env S D → World S D → Bool
is_cancelled env w = env.cancelled w.polls
