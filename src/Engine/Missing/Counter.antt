-- ===== src/Engine/Missing/Counter.antt =====
-- The counter of the runs that an entity has been missing from.
use vortara.Base.{
  ℕ, ◌+◌, not, ◌||◌, Option, some, ltb, ◌==◌, ◌≡◌, ◌⊎◌, inl, inr, refl, eq_refl, Bool-cases,
}
use vortara.Engine.{Env}
use vortara.Engine.Missing.{
  Missing, threshold, missing_action, missing_entity, missing_delete, missing_clear, touched,
}
use vortara.Safety.{reached}
use vortara.State.{EntityState}
use vortara.State.Memory.{MemoryStore, memory_store, get_entity_state, entity_state_key}
use vortara.State.Memory.Entities.{get-save_entity_state}

abbrev raised_of : EntityState → EntityState
raised_of es = record es { consecutive_missing = es.consecutive_missing + 1 }

-- What the memory store returns for the entity of `es`.
abbrev pub stored : MemoryStore → EntityState → Option EntityState
stored s es = get_entity_state s es.sync_name es.destination es.entity_key

module _ {D : Type 0} (env : Env MemoryStore D) (run_id : ℕ)
    (is_memory : env.store ≡ memory_store) where
  -- A state saved last is the one that the store returns.
  saved_last :
      (es : EntityState) (s : MemoryStore)
      → stored (env.store.save_entity_state s es).0 es ≡ some es
  saved_last es s = rw is_memory (
      rw
        (
          get-save_entity_state s es es.sync_name es.destination es.entity_key,
          eq_refl (entity_state_key es.sync_name es.destination es.entity_key),
        )
        refl)

  -- The state that the processing of a missing entity leaves has its counter raised by one, unless
  -- a delete has been decided, which sets it to zero.
  pub record Counted (es : EntityState) (s : MemoryStore) : Type 0 where
    pub state : EntityState
    pub is_stored : stored s es ≡ some state
    pub counter :
        (state.consecutive_missing ≡ es.consecutive_missing + 1)
        ⊎ ((state.last_decision ≡ "delete") × (state.consecutive_missing ≡ 0))

  raised :
      (es : EntityState) (s : MemoryStore)
      → Counted es (env.store.save_entity_state s (touched env run_id (raised_of es))).0
  raised es s = record {
    state = touched env run_id (raised_of es);
    is_stored = saved_last (touched env run_id (raised_of es)) s;
    counter = inl refl;
  }

  deleted :
      (es : EntityState) (m : Missing MemoryStore D)
      → Counted es (missing_delete env run_id (raised_of es) m).world.store
  unfolding missing_delete
  deleted es m =
      elim (Bool-cases (
        not env.spec.on_missing.allow_destructive
        || reached env.spec.safety.max_deletes_per_run m.delete_count)) [
          | inl g ↦ rw (g, missing_delete) (raised es _)
          | inr g ↦
              rw (g, missing_delete)
                (record {
                  state =
                      touched env run_id (record (raised_of es) {
                        last_decision = "delete";
                        consecutive_missing = 0;
                      });
                  is_stored =
                      saved_last
                        (touched env run_id (record (raised_of es) {
                          last_decision = "delete";
                          consecutive_missing = 0;
                        }))
                        _;
                  counter = inr (refl, refl);
                })
        ]

  -- An entity that is missing from the source has its counter raised in the memory store, or a
  -- delete recorded and the counter reset, with any action and whether the run is dry or not: the
  -- processing of missing entities does not ask if the run is dry.
  pub missing_entity-Counted :
      (es : EntityState) (m : Missing MemoryStore D)
      → Counted es (missing_entity env run_id es m).world.store
  unfolding missing_entity missing_delete missing_clear
  missing_entity-Counted es m =
      let es' = raised_of es in
      elim (Bool-cases (ltb es'.consecutive_missing (threshold env run_id))) [
        | inl h ↦ rw (h, missing_entity) (raised es _)
        | inr h ↦ elim (Bool-cases (missing_action env run_id == "delete")) [
          | inl d ↦ rw (h, missing_entity) (rw d (deleted es m))
          | inr d ↦ elim (Bool-cases (missing_action env run_id == "clear_fields")) [
            | inl c ↦
                rw (h, missing_entity)
                  (rw (d, c)
                    (record {
                      state =
                          touched env run_id
                            (record (raised_of es) { last_decision = "clear_fields" });
                      is_stored =
                          saved_last
                            (touched env run_id
                              (record (raised_of es) { last_decision = "clear_fields" }))
                            _;
                      counter = inl refl;
                    }))
            | inr c ↦ rw (h, missing_entity) (rw (d, c) (raised es _))
          ]
        ]
      ]
