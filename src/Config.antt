-- ===== src/Config.antt =====
-- pkg/config/sync/config.go: the sync specification, as far as the engine reads it. YAML decoding
-- is not modelled; a Go `int` that may be negative is an ℤ, and a float64 its bits.
pub mod Validate
pub mod Defaults
pub mod Environment
pub mod Tests
use vortara.Base.{ℕ, ℤ, String, Bool, List, Option, Assoc, ◌==◌, if◌then◌else◌}

pub record MappingEntry : Type 0 where
  pub source : String
  pub dest : String
  pub exclude_from_fingerprint : Bool
  pub redacted : Bool

-- MappingEntry.DestName
unfoldable pub dest_name : MappingEntry → String
dest_name m = if m.dest == "" then m.source else m.dest

pub record TransitionedConfig : Type 0 where
  pub field : String
  pub from : String
  pub to : String

-- WhenConfig: any of its fields may be set. `Whens` is `[]*WhenConfig`, `WhenPtr` `*WhenConfig`.
mutual
  pub data WhenConfig : Type 0 where
    when :
        Bool → Bool → Option TransitionedConfig → List String → Whens → Whens → WhenPtr → WhenConfig

  pub data Whens : Type 0 where
    no_subs : Whens
    sub : WhenPtr → Whens → Whens

  pub data WhenPtr : Type 0 where
    nil_when : WhenPtr
    at : WhenConfig → WhenPtr

pub record RuleConfig : Type 0 where
  pub name : String
  pub when : WhenConfig
  pub once : Bool
  pub action : String
  pub remember : Assoc String

pub record DecisionsConfig : Type 0 where
  pub default : String
  pub rules : List RuleConfig

pub record OnMissingConfig : Type 0 where
  pub action : String
  pub fields : List String
  pub after_missing_runs : ℤ
  pub allow_destructive : Bool

pub record SafetyConfig : Type 0 where
  pub max_creates_per_run : ℤ
  pub max_updates_per_run : ℤ
  pub max_deletes_per_run : ℤ
  pub require_approval_above : ℕ
  pub dry_run_required : Bool
  pub block_if_changed_field_ratio_above : Assoc ℕ
  pub require_approval_for : List String

pub record ErrorsConfig : Type 0 where
  pub on_error : String
  pub dlq_path : String
  pub dlq_path_new : String
  pub failure_webhook_url : String

-- ErrorsConfig.ResolvedDLQPath: `dlq.path` (here `dlq_path_new`) before the deprecated `dlq_path`
unfoldable pub resolved_dlq_path : ErrorsConfig → String
resolved_dlq_path e = if e.dlq_path_new == "" then e.dlq_path else e.dlq_path_new

pub record SourceConfig : Type 0 where
  pub type : String
  pub url : String
  pub entity_key : String
  pub has_watermark : Bool

pub record FingerprintConfig : Type 0 where
  pub include : List String
  pub exclude : List String

pub record SyncSpec : Type 0 where
  pub name : String
  pub source : SourceConfig
  pub mapping : List MappingEntry
  pub required : List String
  pub destination_type : String
  pub fingerprint : FingerprintConfig
  pub decisions : DecisionsConfig
  pub on_missing : OnMissingConfig
  pub safety : SafetyConfig
  pub errors : ErrorsConfig
