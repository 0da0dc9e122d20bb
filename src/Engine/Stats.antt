-- ===== src/Engine/Stats.antt =====
-- The statistics that a run of internal/engine/run.go starts from.
use vortara.Base.{false, [], none}
use vortara.State.{RunStats}

abbrev pub fresh_stats : RunStats
fresh_stats = record {
  rows_extracted = 0;
  rows_loaded = 0;
  rows_skipped = 0;
  rows_errored = 0;
  high_watermark = 0;
  status = "success";
  error = none;
  creates = 0;
  updates = 0;
  deletes = 0;
  field_change_counts = [];
  approval_required = false;
  approval_hash = "";
}
