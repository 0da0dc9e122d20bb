-- ===== src/Engine/Missing.antt =====
-- internal/engine/run.go, processMissingEntities: the entities that the store knows and that the
-- extraction did not show.
pub mod Counter
use vortara.Base.{
  ℕ, zero, suc, ◌+◌, ℤ, pos_part, positive, String, Bool, true, false, not, ◌&&◌, ◌||◌, List, [],
  ◌∷◌, ◌++◌, Option, none, some, Assoc, lookup, insert, contains, length, ltb, leb, ◌==◌,
  if◌then◌else◌,
}
use vortara.Engine.{Env, World, Destination, LoadResult}
use vortara.Engine.Decide.{add_loaded, add_errored}
use vortara.Engine.Deliver.{write_dlq, save_state}
use vortara.Errors.{GoError, list_entity_states, Result, ok, err}
use vortara.Row.{Row}
use vortara.Safety.{reached}
use vortara.State.{EntityState, DecisionEvent}
use vortara.Text.{to_lower}
use vortara.Value.{Value, Payload, null, str}

-- The world and `deleteCount`.
pub record Missing (S D : Type 0) : Type 0 where
  pub world : World S D
  pub delete_count : ℕ

abbrev pub page_size : ℕ
page_size = 500

unfoldable pub clear_all : List String → Payload → Payload
clear_all [] m = m
clear_all (f ∷ fs) m = clear_all fs (insert f null m)

module _ {S D : Type 0} (env : Env S D) (run_id : ℕ) where
  -- `threshold <= 0` means 1
  unfoldable pub threshold : ℕ
  threshold =
      if positive env.spec.on_missing.after_missing_runs
      then pos_part env.spec.on_missing.after_missing_runs
      else 1

  abbrev pub missing_action : String
  missing_action = to_lower env.spec.on_missing.action

  -- Load of one row, with what the code does with the result; true if there was no error.
  unfoldable pub load_missing : Destination S D → Row → String → World S D → World S D × Bool
  unfolding write_dlq
  load_missing dest r entity_key w =
      let (d, s, res, e) = dest.load (r ∷ []) env.spec.name env.dest_name w.dest w.store in
      let w' = record w { dest = d; store = s; stats = add_loaded w.stats res.loaded } in
      elim e [
        | none ↦ (w', true)
        | some cause ↦
            (write_dlq env r entity_key cause (record w' { stats = add_errored w'.stats 1 }), false)
      ]

  unfoldable pub record_missing : String → String → World S D → World S D
  record_missing decision entity_key w = record w {
    store =
        (env.store.record_decision w.store (record {
          sync_name = env.spec.name;
          destination = env.dest_name;
          entity_key = entity_key;
          run_id = run_id;
          decision = decision;
          triggered_rules = [];
          reasons = "missing from source" ∷ [];
        })).0;
  }

  abbrev pub touched : EntityState → EntityState
  touched es = record es { updated_at = env.now }

  unfoldable pub delete_row : EntityState → Row
  delete_row es = record {
    id = es.entity_key;
    primary_key = es.entity_key;
    fields = es.current_payload;
    watermark = 0;
    metadata = ("_action", str "delete") ∷ [];
  }

  unfoldable pub clear_row : EntityState → Row
  unfolding clear_all
  clear_row es = record {
    id = es.entity_key;
    primary_key = es.entity_key;
    fields = clear_all env.spec.on_missing.fields es.current_payload;
    watermark = 0;
    metadata = [];
  }

  -- The delivery of a delete, and the count of those that succeed.
  unfoldable pub send_delete : EntityState → Missing S D → Missing S D
  unfolding load_missing delete_row
  send_delete es m = elim env.dest [
    | none ↦ m
    | some dest ↦
        let (w, fine) = load_missing dest (delete_row es) es.entity_key m.world in
        record m { world = w; delete_count = (if fine then m.delete_count + 1 else m.delete_count) }
  ]

  -- `case "delete"`, with its two guards, each of which only saves the entity.
  unfoldable pub missing_delete : EntityState → Missing S D → Missing S D
  unfolding send_delete save_state record_missing
  missing_delete es m =
      if not env.spec.on_missing.allow_destructive
        || reached env.spec.safety.max_deletes_per_run m.delete_count
      then record m { world = save_state env (touched es) m.world }
      else let sent = send_delete es m in
        record sent {
          world =
              save_state env
                (touched (record es { last_decision = "delete"; consecutive_missing = 0 }))
                (record_missing "delete" es.entity_key sent.world);
        }

  abbrev has_fields : List String → Bool
  has_fields [] = false
  has_fields (f ∷ fs) = true

  unfoldable pub send_clear : EntityState → World S D → World S D
  unfolding load_missing clear_row
  send_clear es w =
      if has_fields env.spec.on_missing.fields
      then elim env.dest [
        | none ↦ w
        | some dest ↦ (load_missing dest (clear_row es) es.entity_key w).0
      ]
      else w

  unfoldable pub missing_clear : EntityState → Missing S D → Missing S D
  unfolding send_clear save_state record_missing
  missing_clear es m = record m {
    world =
        save_state env (touched (record es { last_decision = "clear_fields" }))
          (record_missing "clear_fields" es.entity_key (send_clear es m.world));
  }

  -- The entity with its counter raised, and what its action does when the threshold is met.
  unfoldable pub missing_entity : EntityState → Missing S D → Missing S D
  unfolding missing_delete missing_clear save_state
  missing_entity es m =
      let es' = record es { consecutive_missing = es.consecutive_missing + 1 } in
      if ltb es'.consecutive_missing (threshold)
      then record m { world = save_state env (touched es') m.world }
      else if missing_action == "delete"
      then missing_delete es' m
      else if missing_action == "clear_fields"
      then missing_clear es' m
      else record m { world = save_state env (touched es') m.world }

  unfoldable pub missing_page : List String → List EntityState → Missing S D → Missing S D
  unfolding missing_entity
  missing_page seen [] m = m
  missing_page seen (es ∷ page) m =
      missing_page seen page (if contains seen es.entity_key then m else missing_entity es m)

  -- The loop over the pages, on fuel; `none` means that the fuel ran out.
  unfoldable pub missing_pages :
      ℕ → List String → ℕ → Missing S D → Option (Missing S D × Option GoError)
  missing_pages zero seen offset m = none
  missing_pages (suc fuel) seen offset m =
      elim (env.store.list_entity_states m.world.store env.spec.name env.dest_name page_size
        offset) [
          | err e ↦ some (m, some (list_entity_states e))
          | ok page ↦
              let m' = missing_page seen page m in
              let rest = missing_pages fuel seen (offset + page_size) m' in
              if ltb (length page) page_size then some (m', none) else rest
        ]
