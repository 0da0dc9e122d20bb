-- ===== src/Engine/Deliver.antt =====
-- internal/engine/run.go, phase 2 of runOnce: the pending deliveries in order.
pub mod Dry
pub mod Counts
pub mod Failed
use vortara.Base.{
  ℕ, zero, suc, ◌+◌, String, Bool, true, false, not, ◌&&◌, ◌||◌, List, [], ◌∷◌, ◌++◌, Option, none,
  some, Assoc, lookup, length, ltb, eqb, ◌==◌, if◌then◌else◌,
}
use vortara.Config.{SyncSpec, RuleConfig, resolved_dlq_path}
use vortara.Engine.{
  Env, World, Destination, LoadResult, RowError, DlqRecord, PendingDelivery, Artifact,
  create_artifact, update_artifact, is_cancelled,
}
use vortara.Engine.Decide.{add_skipped, add_errored, add_loaded}
use vortara.Engine.Mapping.{
  build_entity_state, prior_destination_id, delivery_op_key, redacted_fields, redact_payload,
}
use vortara.Errors.{GoError}
use vortara.Row.{Row}
use vortara.Safety.{RunCounts, allow, record_action}
use vortara.State.{EntityState}
use vortara.Text.{to_lower}
use vortara.Value.{Payload}

-- The variables of the loop beside the world.
pub record Phase2 (S D : Type 0) : Type 0 where
  pub world : World S D
  pub counts : RunCounts
  pub first_error : Option GoError

module _ {S D : Type 0} (env : Env S D) where
  -- dlqWriter.Enabled
  abbrev pub dlq_enabled : Bool
  dlq_enabled = not (resolved_dlq_path env.spec.errors == "")

  -- dlqWriter.Write, which does nothing when it is not enabled
  unfoldable pub write_dlq : Row → String → GoError → World S D → World S D
  write_dlq r entity_key cause w =
      if dlq_enabled
      then record w {
        dlq =
            w.dlq
            ++ record {
              row_id = r.id;
              sync_name = env.spec.name;
              entity_key = entity_key;
              error = cause;
              failed_at = env.now;
              fields = r.fields;
            }
              ∷ [];
      }
      else w

  -- `store.SaveEntityState` with its error dropped
  unfoldable pub save_state : EntityState → World S D → World S D
  save_state es w = record w { store = (env.store.save_entity_state w.store es).0 }

  unfoldable pub op_key : PendingDelivery → String
  unfolding delivery_op_key
  op_key pd =
      delivery_op_key env.rt env.spec.name env.dest_name pd.entity_key pd.plan.action pd.cur_fp

  unfoldable pub delivery_row : PendingDelivery → Row
  delivery_row pd = record {
    id = op_key pd;
    primary_key = pd.entity_key;
    fields = pd.mapped;
    watermark = pd.row.watermark;
    metadata = [];
  }

  unfoldable pub state_after : PendingDelivery → String → String → EntityState
  unfolding build_entity_state
  state_after pd status id =
      build_entity_state env.spec.name env.dest_name pd.entity_key pd.prev_fp pd.cur_fp
        pd.prev_payload pd.mapped pd.es pd.plan status id

  -- The state that a failed delivery leaves, unless the run is dry.
  unfoldable pub save_failed : PendingDelivery → World S D → World S D
  unfolding save_state state_after
  save_failed pd w =
      if env.dry_run then w else save_state (state_after pd "failed" (prior_destination_id pd.es)) w

  -- The loop over `res.Errors`.
  unfoldable pub row_errors : PendingDelivery → List RowError → World S D → World S D
  unfolding write_dlq save_failed
  row_errors pd [] w = w
  row_errors pd (re ∷ res) w = row_errors pd res (
      save_failed pd (
        write_dlq (delivery_row pd) pd.entity_key re.error
          (record w { stats = add_errored w.stats 1 })))

  -- `res.DestinationIDs[opKey]` if it is there and not empty, else what was stored
  unfoldable pub delivered_id : PendingDelivery → Assoc String → String
  delivered_id pd ids = elim (lookup (op_key pd) ids) [
    | none ↦ prior_destination_id pd.es
    | some id ↦ if id == "" then prior_destination_id pd.es else id
  ]

  unfoldable pub mark_rule : String → String → World S D → World S D
  mark_rule entity_key rule w = record w {
    store =
        (env.store.mark_rule_fired env.now w.store env.spec.name env.dest_name entity_key rule).0;
  }

  -- The loop over the configured rules for one triggered rule.
  unfoldable pub mark_named : String → String → List RuleConfig → World S D → World S D
  unfolding mark_rule
  mark_named entity_key name [] w = w
  mark_named entity_key name (rc ∷ rules) w =
      mark_named entity_key name rules
        (if rc.name == name && rc.once then mark_rule entity_key name w else w)

  unfoldable pub mark_fired : String → List String → World S D → World S D
  unfolding mark_named
  mark_fired entity_key [] w = w
  mark_fired entity_key (name ∷ names) w =
      mark_fired entity_key names (mark_named entity_key name env.spec.decisions.rules w)

  -- The state and the rule firings of a delivered entity, unless the run is dry.
  unfoldable pub persist : PendingDelivery → Assoc String → World S D → World S D
  unfolding save_state state_after mark_fired delivered_id
  persist pd ids w =
      if env.dry_run
      then w
      else mark_fired pd.entity_key pd.plan.triggered_rules
          (save_state (state_after pd "success" (delivered_id pd ids)) w)

  abbrev sample : PendingDelivery → Artifact
  sample pd =
      let masked = redact_payload pd.mapped (redacted_fields env.spec.mapping) in
      if pd.is_first_seen
      then create_artifact pd.entity_key masked
      else update_artifact pd.entity_key masked pd.changed_fields

  -- The end of the round, which a delivered entity reaches.
  unfoldable pub succeed : PendingDelivery → Assoc String → Phase2 S D → Phase2 S D
  unfolding persist redact_payload redacted_fields
  succeed pd ids p =
      let w = persist pd ids p.world in
      record p {
        world = record w { artifacts = w.artifacts ++ sample pd ∷ [] };
        counts = record_action pd.plan.action p.counts;
      }

  -- A fatal error of Load: the dead-letter file, or the error of the run.
  unfoldable pub load_failed : PendingDelivery → GoError → Phase2 S D → Phase2 S D
  unfolding write_dlq save_failed
  load_failed pd e p =
      let w = record (p.world) { stats = add_errored p.world.stats 1 } in
      record p {
        world = save_failed pd (write_dlq (delivery_row pd) pd.entity_key e w);
        first_error =
            (if dlq_enabled || to_lower env.spec.errors.on_error == "skip"
              then p.first_error
              else elim p.first_error [ none ↦ some e | some e' ↦ some e' ]);
      }

  abbrev no_errors : List RowError → Bool
  no_errors [] = true
  no_errors (e ∷ es) = false

  -- What follows a call of Load that returned no error.
  unfoldable pub load_returned : PendingDelivery → LoadResult → Phase2 S D → Phase2 S D
  unfolding row_errors succeed
  load_returned pd res p =
      let p' = record p { world = row_errors pd res.errors p.world } in
      if eqb res.loaded 0 && ltb 0 res.skipped && no_errors res.errors
      then p
      else if not (no_errors res.errors) && eqb res.loaded 0
      then p'
      else succeed pd res.destination_ids p'

  -- The call of Load for one delivery.
  abbrev pub answer :
      Destination S D → PendingDelivery → Phase2 S D → D × S × LoadResult × Option GoError
  answer dest pd p =
      dest.load (delivery_row pd ∷ []) env.spec.name env.dest_name p.world.dest p.world.store

  abbrev pub after_load : D × S × LoadResult × Option GoError → Phase2 S D → Phase2 S D
  after_load (d, s, res, e) p = record p {
    world = record (p.world) {
      dest = d;
      store = s;
      stats = add_skipped (add_loaded p.world.stats res.loaded) res.skipped;
    };
  }

  unfoldable pub load_one : Destination S D → PendingDelivery → Phase2 S D → Phase2 S D
  unfolding load_failed load_returned delivery_row op_key
  load_one dest pd p =
      let a = answer dest pd p in
      elim a.3 [
        | some cause ↦ load_failed pd cause (after_load a p)
        | none ↦ load_returned pd a.2 (after_load a p)
      ]

  -- With no destination the delivery counts as loaded.
  abbrev pub loaded_nowhere : Phase2 S D → Phase2 S D
  loaded_nowhere p = record p { world = record (p.world) { stats = add_loaded p.world.stats 1 } }

  -- One round of the loop, after the test of the context.
  unfoldable pub deliver_one : PendingDelivery → Phase2 S D → Phase2 S D
  unfolding load_one succeed
  deliver_one pd p = elim (allow env.spec.safety pd.plan.action p.counts) [
    | some e ↦ record p { world = record (p.world) { stats = add_skipped p.world.stats 1 } }
    | none ↦ elim env.dest [
      | some dest ↦ load_one dest pd p
      | none ↦ succeed pd [] (loaded_nowhere p)
    ]
  ]

  unfoldable pub deliver_all : List PendingDelivery → Phase2 S D → Phase2 S D
  deliver_all [] p = p
  deliver_all (pd ∷ pds) p =
      let asked = record p { world = record (p.world) { polls = p.world.polls + 1 } } in
      let rest = deliver_all pds (deliver_one pd asked) in
      if is_cancelled env p.world then asked else rest
