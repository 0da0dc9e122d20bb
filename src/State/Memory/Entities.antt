-- ===== src/State/Memory/Entities.antt =====
-- The memory store fills the laws of a store, and reads back what it saves.
use vortara.Base.{String, some, lookup-insert, ◌≡◌, refl, arith, if◌then◌else◌, ◌==◌}
use vortara.State.{EntityState}
use vortara.State.Memory.{
  MemoryStore, memory_store, get_entity_state, save_entity_state, has_rule_fired, record_decision,
  start_run, finish_run, begin_batch, commit_batch, rollback_batch, lock_run, unlock_run,
  entity_state_key, mark_delivered,
}
use vortara.State.Observe.{SameEntities, StoreLaws}

-- A change of other fields.
same_fields :
    (s t : MemoryStore)
    → s.entity_states ≡ t.entity_states
    → s.rule_firings ≡ t.rule_firings
    → SameEntities memory_store s t
unfolding get_entity_state has_rule_fired
same_fields s t e f = record { states = λ n d k. rw e; firings = λ n d k r. rw f }

pub memory_store_laws : StoreLaws memory_store
unfolding record_decision start_run finish_run mark_delivered begin_batch commit_batch
    rollback_batch lock_run unlock_run
memory_store_laws = record {
  record_decision = λ s ev. same_fields _ s refl refl;
  start_run = λ now s n mode. same_fields _ s refl refl;
  finish_run = λ now s id stats. same_fields _ s (ground arith) (ground arith);
  mark_delivered = λ s r n d. same_fields _ s (ground arith) (ground arith);
  begin_batch = λ s. same_fields _ s refl refl;
  commit_batch = λ s. same_fields _ s refl refl;
  rollback_batch = λ s. same_fields _ s refl refl;
  lock_run = λ now s n o ttl. same_fields _ s (ground arith) (ground arith);
  unlock_run = λ s n. same_fields _ s refl refl;
}

-- After a save, the store returns the saved state for the key of its sync, destination and entity,
-- and what it returned before for any other key.
pub get-save_entity_state :
    (s : MemoryStore) (es : EntityState) (n d k : String)
    → get_entity_state (save_entity_state s es) n d k ≡ (
        if entity_state_key es.sync_name es.destination es.entity_key == entity_state_key n d k
        then some es
        else get_entity_state s n d k)
unfolding get_entity_state save_entity_state
get-save_entity_state s es n d k = lookup-insert _ _ es s.entity_states
