-- ===== src/Engine/Run/Gates.antt =====
-- The two gates between the phases: a run that one of them stops has delivered nothing.
use vortara.Base.{ℕ, String, false, List, some, ◌≡◌, refl, ◌==◌}
use vortara.Engine.{Env, World}
use vortara.Engine.Decide.{Phase1, decide_rows}
use vortara.Engine.Decide.Quiet.{
  Undelivered, Undelivered-trans, Undelivered-store, decide_rows-Undelivered,
}
use vortara.Engine.Mapping.{compute_approval_hash}
use vortara.Engine.Run.{Outcome, failed, pending_counts, approval_gate, ratio_gate}
use vortara.Errors.{GoError, ApprovalReason, approval_required}
use vortara.Row.{Row}
use vortara.Safety
use vortara.Safety.{no_counts, check_field_ratios}
use vortara.State.Observe.{StoreLaws}

module _ {S D : Type 0} (env : Env S D) (laws : StoreLaws env.store) (fuel run_id : ℕ) where
  -- The run's outcome is this error, reported in its status, with nothing delivered since `w`.
  pub record Refused (w : World S D) (e : GoError) (o : Outcome S D) : Type 0 where
    pub error_returned : o.1 ≡ some e
    pub status_failed : o.0.stats.status ≡ "failed"
    pub error_noted : o.0.stats.error ≡ some e
    pub undelivered : Undelivered env o.0 w

  -- A run whose extraction changes a field more often than its ratio allows fails with that error
  -- after the first phase: no destination is called, no dead letter and no alert is written, and
  -- the entity states and rule firings are those from before.
  pub ratio_gate_refuses :
      (rows : List Row) (p : Phase1 S D) (e : GoError)
      → check_field_ratios env.rt env.spec.safety
          (decide_rows env run_id rows p).field_change_counts
          (decide_rows env run_id rows p).world.stats.rows_extracted
        ≡ some e
      → (o : Outcome S D) × (ratio_gate env fuel run_id (decide_rows env run_id rows p) ≡ some o)
        × Refused p.world e o
  unfolding ratio_gate failed
  ratio_gate_refuses rows p e h =
      rw (h, ratio_gate)
        (
          _,
          refl,
          record {
            error_returned = refl;
            status_failed = refl;
            error_noted = refl;
            undelivered =
                Undelivered-trans (Undelivered-store (laws.rollback_batch _) refl refl refl)
                  (decide_rows-Undelivered env run_id laws rows p);
          },
        )

  -- A run whose pending deliveries need an approval, and that was given another hash or none, fails
  -- with the reason and the hash to approve, which its statistics hold as well: no destination is
  -- called, no dead letter and no alert is written, and the entity states and rule firings are those
  -- from before.
  pub approval_gate_refuses :
      (rows : List Row) (p : Phase1 S D) (w : World S D) (reason : ApprovalReason) (hash : String)
      → Undelivered env w (decide_rows env run_id rows p).world
      → Safety.approval_required env.rt env.spec.safety
          (pending_counts (decide_rows env run_id rows p).pending no_counts)
        ≡ some reason
      → compute_approval_hash env.rt env.spec.name env.dest_name
          (pending_counts (decide_rows env run_id rows p).pending no_counts)
        ≡ hash
      → (env.approval_hash == hash) ≡ false
      → (o : Outcome S D) × (approval_gate env fuel run_id (decide_rows env run_id rows p) w
          ≡ some o)
        × (o.0.stats.approval_hash ≡ hash)
        × Refused p.world (approval_required reason hash) o
  unfolding approval_gate failed
  approval_gate_refuses rows p w reason hash u hr hh ha =
      rw (hr, approval_gate)
        (rw (hh, ha)
          (
            _,
            refl,
            refl,
            record {
              error_returned = refl;
              status_failed = refl;
              error_noted = refl;
              undelivered =
                  Undelivered-trans (Undelivered-store (laws.rollback_batch _) refl refl refl)
                    (Undelivered-trans u (decide_rows-Undelivered env run_id laws rows p));
            },
          ))
