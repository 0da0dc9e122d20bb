-- ===== src/Engine/Run/Returns.antt =====
-- A run whose sync asks for nothing about missing entities returns, with any fuel.
use vortara.Base.{ℕ, ◌==◌, true, Option, some, ◌≡◌, refl, Bool-cases, Option-cases, inl, inr}
use vortara.Engine.{Env, World}
use vortara.Engine.Decide.{Phase1, decide_rows, start_phase1}
use vortara.Engine.Mapping.{compute_approval_hash}
use vortara.Engine.Run.{
  missing_stage, deliver_stage, approval_gate, ratio_gate, batch, started, pending_counts,
  previous_watermark,
}
use vortara.Errors.{Result-cases}
use vortara.Safety
use vortara.Safety.{no_counts, check_field_ratios}

abbrev pub Returns {ℓ} : {A : Type ℓ} → Option A → Type ℓ
Returns {A = A} r = (a : A) × (r ≡ some a)

module _ {S D : Type 0} (env : Env S D) (fuel : ℕ)
    (quiet : (env.spec.on_missing.action == "") ≡ true) where
  missing_stage-Returns :
      (run_id : ℕ) (p : Phase1 S D) (w : World S D) → Returns (missing_stage env fuel run_id p w)
  unfolding missing_stage
  missing_stage-Returns run_id p w = rw (quiet, missing_stage) (_, refl)

  deliver_stage-Returns :
      (run_id : ℕ) (p : Phase1 S D) (w : World S D) → Returns (deliver_stage env fuel run_id p w)
  unfolding deliver_stage
  deliver_stage-Returns run_id p w =
      rw ((missing_stage-Returns run_id p _).1, deliver_stage) (_, refl)

  approval_gate-Returns :
      (run_id : ℕ) (p : Phase1 S D) (w : World S D) → Returns (approval_gate env fuel run_id p w)
  unfolding approval_gate
  approval_gate-Returns run_id p w =
      let counts = pending_counts p.pending no_counts in
      let go = deliver_stage-Returns run_id p w in
      elim (Option-cases (Safety.approval_required env.rt env.spec.safety counts)) [
        | inl h ↦ rw (h, approval_gate) go
        | inr (reason, h) ↦
            elim (Bool-cases (
              env.approval_hash
              == compute_approval_hash env.rt env.spec.name env.dest_name counts)) [
                | inl g ↦ rw (h, approval_gate) (rw g go)
                | inr g ↦ rw (h, approval_gate) (rw g (_, refl))
              ]
      ]

  ratio_gate-Returns : (run_id : ℕ) (p : Phase1 S D) → Returns (ratio_gate env fuel run_id p)
  unfolding ratio_gate
  ratio_gate-Returns run_id p =
      elim (Option-cases (
        check_field_ratios env.rt env.spec.safety p.field_change_counts
          p.world.stats.rows_extracted)) [
            | inl h ↦ rw (h, ratio_gate) (approval_gate-Returns run_id p _)
            | inr (e, h) ↦ rw (h, ratio_gate) (_, refl)
          ]

  batch-Returns : (run_id : ℕ) (w : World S D) → Returns (batch env fuel run_id w)
  unfolding batch
  batch-Returns run_id w =
      let w' = record w { store = (env.store.begin_batch w.store).0 } in
      let sent = env.extract (previous_watermark env w') in
      elim (Option-cases (env.store.begin_batch w.store).1) [
        | inl h ↦
            rw (h, batch)
              (ratio_gate-Returns run_id (decide_rows env run_id sent.0 (start_phase1 sent.1 w')))
        | inr (e, h) ↦ rw (h, batch) (_, refl)
      ]

  pub started-Returns : (w : World S D) → Returns (started env fuel w)
  unfolding started
  started-Returns w =
      elim (Result-cases (env.store.start_run env.now w.store env.spec.name "batch").1) [
        | inl (e, h) ↦ rw (h, started) (_, refl)
        | inr (run_id, h) ↦ rw (h, started) (rw (batch-Returns run_id _).1 (_, refl))
      ]
