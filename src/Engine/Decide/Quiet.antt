-- ===== src/Engine/Decide/Quiet.antt =====
-- Phase 1 delivers nothing and writes no entity state.
use vortara.Base.{
  ℕ, String, List, [], ◌∷◌, Option, some, ◌≡◌, refl, ◌∙◌, Bool-cases, inl, inr, ◌==◌, ◌||◌,
}
use vortara.Decision.{Plan, skipped, evaluate}
use vortara.Engine.{Env, World, is_cancelled}
use vortara.Engine.Decide.{
  Phase1, plan_entity, decide_entity, key_entity, decide_row, decide_rows, decision_input,
  mapped_payload, polled, is_empty, decision_event, counted_row, row_key,
}
use vortara.Engine.Mapping.{missing_required_fields}
use vortara.Errors.{Result-cases}
use vortara.Row.{Row}
use vortara.State.{EntityState}
use vortara.State.Observe.{SameEntities, SameEntities-refl, SameEntities-trans, StoreLaws}
use vortara.Value.{Payload}

-- The two worlds hold the same entity states and rule firings, and the same has been delivered,
-- dead-lettered and alerted.
pub record Undelivered {S D : Type 0} (env : Env S D) (w v : World S D) : Type 0 where
  pub same_store : SameEntities env.store w.store v.store
  pub same_dest : w.dest ≡ v.dest
  pub same_dlq : w.dlq ≡ v.dlq
  pub same_alerts : w.alerts ≡ v.alerts

module _ {S D : Type 0} {env : Env S D} where
  pub Undelivered-trans :
      {u v w : World S D} → Undelivered env u v → Undelivered env v w → Undelivered env u w
  Undelivered-trans a b = record {
    same_store = SameEntities-trans a.same_store b.same_store;
    same_dest = a.same_dest ∙ b.same_dest;
    same_dlq = a.same_dlq ∙ b.same_dlq;
    same_alerts = a.same_alerts ∙ b.same_alerts;
  }

  pub Undelivered-store :
      {v w : World S D}
      → SameEntities env.store w.store v.store
      → w.dest ≡ v.dest
      → w.dlq ≡ v.dlq
      → w.alerts ≡ v.alerts
      → Undelivered env w v
  Undelivered-store a b c d = record {
    same_store = a;
    same_dest = b;
    same_dlq = c;
    same_alerts = d;
  }

module _ {S D : Type 0} (env : Env S D) (run_id : ℕ) (laws : StoreLaws env.store) where
  plan_entity-Undelivered :
      (r : Row) (k : String) (mapped : Payload) (es : Option EntityState) (plan : Plan)
      (p : Phase1 S D)
      → Undelivered env (plan_entity env run_id r k mapped es plan p).world p.world
  unfolding plan_entity
  plan_entity-Undelivered r k mapped es plan p =
      let kept = laws.record_decision p.world.store (decision_event env run_id k plan) in
      elim (Bool-cases (skipped plan)) [
        | inl s ↦ rw (s, plan_entity) (Undelivered-store kept refl refl refl)
        | inr d ↦ rw (d, plan_entity) (Undelivered-store kept refl refl refl)
      ]

  decide_entity-Undelivered :
      (r : Row) (k : String) (mapped : Payload) (es : Option EntityState) (p : Phase1 S D)
      → Undelivered env (decide_entity env run_id r k mapped es p).world p.world
  unfolding decide_entity
  decide_entity-Undelivered r k mapped es p =
      elim (Result-cases (
        evaluate env.rt env.now_text env.spec.decisions (decision_input env mapped es)
          (some (env.store.has_rule_fired p.world.store env.spec.name env.dest_name k)))) [
            | inl (e, h) ↦
                rw (h, decide_entity) (Undelivered-store (SameEntities-refl _) refl refl refl)
            | inr (plan, h) ↦ rw (h, decide_entity) (plan_entity-Undelivered r k mapped es plan p)
          ]

  key_entity-Undelivered :
      (r : Row) (k : String) (p : Phase1 S D)
      → Undelivered env (key_entity env run_id r k p).world p.world
  unfolding key_entity
  key_entity-Undelivered r k p = elim (Bool-cases (k == "" || k == "<nil>")) [
    | inl h ↦ rw (h, key_entity) (Undelivered-store (SameEntities-refl _) refl refl refl)
    | inr h ↦
        elim (Result-cases
          (env.store.get_entity_state p.world.store env.spec.name env.dest_name k)) [
            | inl (e, g) ↦
                rw (h, key_entity) (rw g (Undelivered-store (SameEntities-refl _) refl refl refl))
            | inr (es, g) ↦
                rw (h, key_entity)
                  (rw g (
                    decide_entity-Undelivered r k (mapped_payload env r) es
                      (record p { seen_keys = k ∷ p.seen_keys })))
          ]
  ]

  decide_row-Undelivered :
      (r : Row) (p : Phase1 S D) → Undelivered env (decide_row env run_id r p).world p.world
  unfolding decide_row
  decide_row-Undelivered r p =
      elim (Bool-cases (is_empty (missing_required_fields r.fields env.spec.required))) [
        | inl h ↦
            rw (h, decide_row)
              (with_extracted
                (key_entity-Undelivered r (row_key env run_id r) (counted_row env run_id r p)))
        | inr h ↦ rw (h, decide_row) (Undelivered-store (SameEntities-refl _) refl refl refl)
      ]
    where
      with_extracted :
          {w : World S D}
          → Undelivered env w (counted_row env run_id r p).world
          → Undelivered env w p.world
      with_extracted u = record {
        same_store = u.same_store;
        same_dest = u.same_dest;
        same_dlq = u.same_dlq;
        same_alerts = u.same_alerts;
      }

  -- Phase 1 calls no destination, writes no dead letter, sends no alert, and leaves every entity
  -- state and rule firing as it was.
  pub decide_rows-Undelivered :
      (rows : List Row) (p : Phase1 S D)
      → Undelivered env (decide_rows env run_id rows p).world p.world
  unfolding decide_rows
  decide_rows-Undelivered [] p = Undelivered-store (SameEntities-refl _) refl refl refl
  decide_rows-Undelivered (r ∷ rows) p = elim (Bool-cases (is_cancelled env p.world)) [
    | inl h ↦ rw (h, decide_rows) (Undelivered-store (SameEntities-refl _) refl refl refl)
    | inr h ↦
        rw (h, decide_rows)
          (Undelivered-trans (decide_rows-Undelivered rows (decide_row env run_id r (polled p)))
            (asked (decide_row-Undelivered r (polled p))))
  ]
    where
      asked : {w : World S D} → Undelivered env w (polled p).world → Undelivered env w p.world
      asked u = record {
        same_store = u.same_store;
        same_dest = u.same_dest;
        same_dlq = u.same_dlq;
        same_alerts = u.same_alerts;
      }
