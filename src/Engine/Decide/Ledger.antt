-- ===== src/Engine/Decide/Ledger.antt =====
-- Every extracted row is skipped, counted as an error, or pending.
use vortara.Base.{
  ℕ, suc, ◌+◌, String, List, [], ◌∷◌, Option, some, length, length-append, ◌≡◌, refl, ap, arith,
  ◌∙◌, Bool-cases, inl, inr, ◌==◌, ◌||◌,
}
use vortara.Decision.{Plan, skipped, evaluate}
use vortara.Engine.{Env, World, is_cancelled}
use vortara.Engine.Decide.{
  Phase1, plan_entity, decide_entity, key_entity, decide_row, decide_rows, decision_input,
  pending_delivery, start_phase1, mapped_payload, polled, is_empty, counted_row, row_key,
}
use vortara.Engine.Mapping.{missing_required_fields}
use vortara.Engine.Stats.{fresh_stats}
use vortara.Errors.{GoError, Result-cases}
use vortara.Row.{Row}
use vortara.State.{EntityState, RunStats}
use vortara.Value.{Payload}

-- The rows that are accounted for.
abbrev pub settled : {S D : Type 0} → Phase1 S D → ℕ
settled p = p.world.stats.rows_skipped + p.world.stats.rows_errored + length p.pending

module _ {S D : Type 0} (env : Env S D) (run_id : ℕ) where
  -- One more row is settled, and no counter of extracted or loaded rows has moved.
  abbrev Settles : Phase1 S D → Phase1 S D → Type 0
  Settles p q =
      (settled q ≡ suc (settled p))
      × (q.world.stats.rows_extracted ≡ p.world.stats.rows_extracted)
      × (q.world.stats.rows_loaded ≡ p.world.stats.rows_loaded)

  plan_entity-Settles :
      (r : Row) (k : String) (mapped : Payload) (es : Option EntityState) (plan : Plan)
      (p : Phase1 S D)
      → Settles p (plan_entity env run_id r k mapped es plan p)
  unfolding plan_entity
  plan_entity-Settles r k mapped es plan p = elim (Bool-cases (skipped plan)) [
    | inl s ↦ rw (s, plan_entity) (omega arith, refl, refl)
    | inr d ↦
        rw (d, plan_entity)
          (
            omega (arith, length-append p.pending (pending_delivery env r k mapped es plan ∷ [])),
            refl,
            refl,
          )
  ]

  decide_entity-Settles :
      (r : Row) (k : String) (mapped : Payload) (es : Option EntityState) (p : Phase1 S D)
      → Settles p (decide_entity env run_id r k mapped es p)
  unfolding decide_entity
  decide_entity-Settles r k mapped es p =
      elim (Result-cases (
        evaluate env.rt env.now_text env.spec.decisions (decision_input env mapped es)
          (some (env.store.has_rule_fired p.world.store env.spec.name env.dest_name k)))) [
            | inl (e, h) ↦ rw (h, decide_entity) (omega arith, refl, refl)
            | inr (plan, h) ↦ rw (h, decide_entity) (plan_entity-Settles r k mapped es plan p)
          ]

  key_entity-Settles :
      (r : Row) (k : String) (p : Phase1 S D) → Settles p (key_entity env run_id r k p)
  unfolding key_entity
  key_entity-Settles r k p = elim (Bool-cases (k == "" || k == "<nil>")) [
    | inl h ↦ rw (h, key_entity) (omega arith, refl, refl)
    | inr h ↦
        elim (Result-cases
          (env.store.get_entity_state p.world.store env.spec.name env.dest_name k)) [
            | inl (e, g) ↦ rw (h, key_entity) (rw g (omega arith, refl, refl))
            | inr (es, g) ↦
                rw (h, key_entity) (rw g (decide_entity-Settles r k (mapped_payload env r) es _))
          ]
  ]

  decide_row_ledger :
      (r : Row) (p : Phase1 S D)
      → let q = decide_row env run_id r p in
        (settled q ≡ suc (settled p))
        × (q.world.stats.rows_extracted ≡ suc p.world.stats.rows_extracted)
        × (q.world.stats.rows_loaded ≡ p.world.stats.rows_loaded)
  unfolding decide_row
  decide_row_ledger r p =
      elim (Bool-cases (is_empty (missing_required_fields r.fields env.spec.required))) [
        | inl h ↦
            let t = key_entity-Settles r (row_key env run_id r) (counted_row env run_id r p) in
            rw (h, decide_row) (t.0, omega (arith, t.1), t.2)
        | inr h ↦ rw (h, decide_row) (omega arith, omega arith, refl)
      ]

  -- Over phase 1, as many rows are settled as are extracted, and none is loaded.
  pub decide_rows_ledger :
      (rows : List Row) (p : Phase1 S D)
      → let q = decide_rows env run_id rows p in
        (settled q + p.world.stats.rows_extracted ≡ q.world.stats.rows_extracted + settled p)
        × (q.world.stats.rows_loaded ≡ p.world.stats.rows_loaded)
  unfolding decide_rows
  decide_rows_ledger [] p = (omega arith, refl)
  decide_rows_ledger (r ∷ rows) p = elim (Bool-cases (is_cancelled env p.world)) [
    | inl h ↦ rw (h, decide_rows) (omega arith, refl)
    | inr h ↦
        let (a, b, c) = decide_row_ledger r (polled p) in
        let (d, e) = decide_rows_ledger rows (decide_row env run_id r (polled p)) in
        rw (h, decide_rows) (omega arith, e ∙ c)
  ]

  -- In a run that starts with fresh counters, the rows extracted are those skipped, those counted as
  -- errors and the pending deliveries together, however the rows, the store and the rules behave and
  -- wherever the context is cancelled; and nothing has been loaded.
  pub extracted_rows_are_settled :
      (rows : List Row) (e : Option GoError) (w : World S D)
      → w.stats ≡ fresh_stats
      → let q = decide_rows env run_id rows (start_phase1 e w) in
        (q.world.stats.rows_extracted
          ≡ q.world.stats.rows_skipped + q.world.stats.rows_errored + length q.pending)
        × (q.world.stats.rows_loaded ≡ 0)
  unfolding start_phase1
  extracted_rows_are_settled rows e w h =
      let (a, b) = decide_rows_ledger rows (start_phase1 e w) in
      let extracted : w.stats.rows_extracted ≡ 0 = ap (λ (s : RunStats). s.rows_extracted) h in
      let skipped : w.stats.rows_skipped ≡ 0 = ap (λ (s : RunStats). s.rows_skipped) h in
      let errored : w.stats.rows_errored ≡ 0 = ap (λ (s : RunStats). s.rows_errored) h in
      (omega arith, b ∙ ap (λ (s : RunStats). s.rows_loaded) h)
