-- ===== src/Engine/Deliver/Failed.antt =====
-- What a failed delivery leaves for the next run.
use vortara.Base.{false, some, ◌≡◌, refl, eq_refl}
use vortara.Decision.{Input}
use vortara.Engine.{Env, World, PendingDelivery}
use vortara.Engine.Decide.{current_fingerprint, decision_input}
use vortara.Engine.Deliver.{Phase2, load_failed, save_failed, save_state, state_after}
use vortara.Engine.Mapping.{prior_destination_id, build_entity_state}
use vortara.Errors.{GoError}
use vortara.State.Memory.{
  MemoryStore, memory_store, get_entity_state, save_entity_state, entity_state_key,
}
use vortara.State.Memory.Entities.{get-save_entity_state}

-- A run that is not dry saves the failed state.
save_failed-memory :
    {D : Type 0} (env : Env MemoryStore D) (pd : PendingDelivery) (w : World MemoryStore D)
    → env.store ≡ memory_store
    → env.dry_run ≡ false
    → (save_failed env pd w).store
      ≡ save_entity_state w.store (state_after env pd "failed" (prior_destination_id pd.es))
unfolding save_failed save_state
save_failed-memory env pd w hs hd = rw (hd, save_failed) (rw hs refl)

-- The store then returns it.
load_failed-memory :
    {D : Type 0} (env : Env MemoryStore D) (pd : PendingDelivery) (e : GoError)
    (p : Phase2 MemoryStore D)
    → env.store ≡ memory_store
    → env.dry_run ≡ false
    → get_entity_state
        (load_failed env pd e p).world.store
        env.spec.name
        env.dest_name
        pd.entity_key
      ≡ some (state_after env pd "failed" (prior_destination_id pd.es))
unfolding load_failed state_after build_entity_state
load_failed-memory env pd e p hs hd = rw (save_failed-memory env pd _ hs hd) (
    rw
      (
        get-save_entity_state _ (state_after env pd "failed" (prior_destination_id pd.es))
            env.spec.name env.dest_name pd.entity_key,
        eq_refl (entity_state_key env.spec.name env.dest_name pd.entity_key),
      )
      refl)

-- After a delivery for which Load failed in a run that is not dry, the memory store makes the next
-- run, if the source still has the payload that was not delivered, see an entity that is not new
-- and whose fingerprint has not changed: the state of a failed delivery keeps the new fingerprint.
pub failed_delivery_hides_change :
    {D : Type 0} (env : Env MemoryStore D) (pd : PendingDelivery) (e : GoError)
    (p : Phase2 MemoryStore D)
    → env.store ≡ memory_store
    → env.dry_run ≡ false
    → pd.cur_fp ≡ current_fingerprint env pd.mapped
    → (i : Input)
    → i
      ≡ decision_input env pd.mapped (
          get_entity_state
            (load_failed env pd e p).world.store
            env.spec.name
            env.dest_name
            pd.entity_key)
    → (i.is_first_seen ≡ false) × (i.fingerprint_changed ≡ false) × (i.previous_payload ≡ pd.mapped)
unfolding decision_input state_after build_entity_state
failed_delivery_hides_change env pd e p hs hd hf i hi =
    rw (hi, load_failed-memory env pd e p hs hd)
      (refl, rw (hf, eq_refl (current_fingerprint env pd.mapped)) refl, refl)
