-- ===== src/Engine/Run.antt =====
-- internal/engine/run.go, runOnce: the phases in their order, with the deferred calls at every
-- return. Opening the connectors is given by their errors; runCron is not modelled.
pub mod Gates
pub mod Locking
pub mod Returns
use vortara.Base.{
  ℕ, zero, suc, ◌+◌, String, Bool, true, false, not, ◌&&◌, ◌||◌, List, [], ◌∷◌, ◌++◌, Option, none,
  some, Assoc, lookup, length, ltb, eqb, ◌==◌, if◌then◌else◌,
}
use vortara.Engine.{Env, World, PendingDelivery, is_cancelled}
use vortara.Engine.Decide.{Phase1, start_phase1, decide_rows}
use vortara.Engine.Deliver.{Phase2, deliver_all}
use vortara.Engine.Mapping.{compute_approval_hash}
use vortara.Engine.Missing.{Missing, missing_pages}
use vortara.Engine.Stats.{fresh_stats}
use vortara.Errors.{
  GoError, canceled, deadline_exceeded, dry_run_required, approval_required, Result, ok, err,
}
use vortara.Safety
use vortara.Safety.{RunCounts, no_counts, record_action, check_field_ratios}
use vortara.State.{RunStats, RunLog}

-- The run ends with this world and this error.
abbrev pub Outcome : Type 0 → Type 0 → Type 0
Outcome S D = World S D × Option GoError

abbrev pub lock_ttl : ℕ
lock_ttl = 600000000000

unfoldable pub failed : {S D : Type 0} → GoError → World S D → World S D
failed e w = record w { stats = record (w.stats) { status = "failed"; error = some e } }

-- The counts of the pending deliveries, for the approval.
unfoldable pub pending_counts : List PendingDelivery → RunCounts → RunCounts
pending_counts [] counts = counts
pending_counts (pd ∷ pds) counts = pending_counts pds (record_action pd.plan.action counts)

-- `errors.Is(err, context.Canceled) || errors.Is(err, context.DeadlineExceeded)`
abbrev pub is_context_error : GoError → Bool
is_context_error canceled = true
is_context_error deadline_exceeded = true
is_context_error _ = false

abbrev pub or_first : Option GoError → Option GoError → Option GoError
or_first (some e) extract = some e
or_first none (some e) = if is_context_error e then none else some e
or_first none none = none

module _ {S D : Type 0} (env : Env S D) where
  abbrev pub rollback : World S D → World S D
  rollback w = record w { store = (env.store.rollback_batch w.store).0 }

  abbrev pub poll : World S D → World S D
  poll w = record w { polls = w.polls + 1 }

  -- sendFailureAlert, if there is an address to send it to
  unfoldable pub alert : Option GoError → World S D → World S D
  alert none w = w
  alert (some e) w =
      if env.spec.errors.failure_webhook_url == ""
      then w
      else record w { alerts = w.alerts ++ e ∷ [] }

  -- After the commit: the error of the run, its status and the alert.
  unfoldable pub conclude : Option GoError → Option GoError → World S D → Outcome S D
  unfolding alert failed
  conclude extract_error first w =
      let asked = poll w in
      let first' = or_first first extract_error in
      let settled =
        if is_cancelled env w
        then record asked { stats = record (asked.stats) { status = "timeout" } }
        else elim first' [ none ↦ asked | some e ↦ failed e asked ] in
      (alert first' settled, first')

  unfoldable pub commit : Option GoError → Option GoError → World S D → Outcome S D
  unfolding conclude failed
  commit extract_error first w =
      let (s, e) = env.store.commit_batch w.store in
      let w' = record w { store = s } in
      elim e [ none ↦ conclude extract_error first w' | some x ↦ (failed x (rollback w'), some x) ]

  -- The missing entities, unless there is no action or the context is cancelled; an error of theirs
  -- is only logged.
  unfoldable pub missing_stage : ℕ → ℕ → Phase1 S D → World S D → Option (World S D)
  missing_stage fuel run_id p w =
      if env.spec.on_missing.action == ""
      then some w
      else if is_cancelled env w
      then some (poll w)
      else elim (missing_pages env run_id fuel p.seen_keys 0
          (record { world = poll w; delete_count = 0 })) [
            | none ↦ none
            | some (m, e) ↦ some m.world
          ]

  unfoldable pub deliver_stage : ℕ → ℕ → Phase1 S D → World S D → Option (Outcome S D)
  unfolding missing_stage commit
  deliver_stage fuel run_id p w =
      let q =
        deliver_all env p.pending (record { world = w; counts = no_counts; first_error = none }) in
      let counted = record (q.world) {
        stats = record (q.world.stats) {
          creates = q.counts.creates;
          updates = q.counts.updates;
          deletes = q.counts.deletes;
        };
      } in
      elim (missing_stage fuel run_id p counted) [
        | none ↦ none
        | some w' ↦ some (commit p.extract_error q.first_error w')
      ]

  -- The two gates between the phases: each refusal rolls the batch back.
  unfoldable pub approval_gate : ℕ → ℕ → Phase1 S D → World S D → Option (Outcome S D)
  unfolding deliver_stage failed pending_counts
  approval_gate fuel run_id p w =
      let counts = pending_counts p.pending no_counts in
      let hash = compute_approval_hash env.rt env.spec.name env.dest_name counts in
      let go = deliver_stage fuel run_id p w in
      elim (Safety.approval_required env.rt env.spec.safety counts) [
        | none ↦ go
        | some reason ↦
            if env.approval_hash == hash
            then go
            else let e = approval_required reason hash in
              let w' = failed e (rollback w) in
              some (
                record w' {
                  stats = record (w'.stats) { approval_required = true; approval_hash = hash };
                },
                some e,
              )
      ]

  unfoldable pub ratio_gate : ℕ → ℕ → Phase1 S D → Option (Outcome S D)
  unfolding approval_gate failed
  ratio_gate fuel run_id p =
      let w = record (p.world) {
        stats = record (p.world.stats) {
          high_watermark = p.max_watermark;
          field_change_counts = p.field_change_counts;
        };
      } in
      let go = approval_gate fuel run_id p w in
      elim (check_field_ratios env.rt env.spec.safety p.field_change_counts
        w.stats.rows_extracted) [ some e ↦ some (failed e (rollback w), some e) | none ↦ go ]

  -- The high watermark of the last successful run among ten, for an incremental extraction.
  unfoldable pub last_watermark : List RunLog → ℕ
  last_watermark [] = 0
  last_watermark (run ∷ runs) =
      let rest = last_watermark runs in
      if run.status == "success" && ltb 0 run.high_watermark then run.high_watermark else rest

  unfoldable pub previous_watermark : World S D → ℕ
  unfolding last_watermark
  previous_watermark w =
      if env.spec.source.has_watermark
      then elim (env.store.get_run_history w.store env.spec.name 10) [
        | err e ↦ 0
        | ok runs ↦ last_watermark runs
      ]
      else 0

  -- From BeginBatch to the return.
  unfoldable pub batch : ℕ → ℕ → World S D → Option (Outcome S D)
  unfolding ratio_gate failed previous_watermark
  batch fuel run_id w =
      let (s, e) = env.store.begin_batch w.store in
      let w' = record w { store = s } in
      let (rows, extract_error) = env.extract (previous_watermark w') in
      let go =
        ratio_gate fuel run_id (decide_rows env run_id rows (start_phase1 extract_error w')) in
      elim e [ some x ↦ some (failed x w', some x) | none ↦ go ]

  -- The deferred FinishRun, then the deferred UnlockRun.
  unfoldable pub finish : ℕ → Outcome S D → Outcome S D
  finish run_id (w, e) =
      (record w { store = (env.store.finish_run env.now w.store run_id w.stats).0 }, e)

  unfoldable pub unlock : Outcome S D → Outcome S D
  unlock (w, e) = (record w { store = (env.store.unlock_run w.store env.spec.name).0 }, e)

  abbrev pub map_option : (Outcome S D → Outcome S D) → Option (Outcome S D) → Option (Outcome S D)
  map_option f none = none
  map_option f (some o) = some (f o)

  unfoldable pub started : ℕ → World S D → Option (Outcome S D)
  unfolding batch finish
  started fuel w =
      let (s, r) = env.store.start_run env.now w.store env.spec.name "batch" in
      let w' = record w { store = s; stats = fresh_stats } in
      elim r [
        | err e ↦ some (w', some e)
        | ok run_id ↦ map_option (finish run_id) (batch fuel run_id w')
      ]

  unfoldable pub locked : ℕ → World S D → Option (Outcome S D)
  unfolding started unlock
  locked fuel w =
      let (s, e) = env.store.lock_run env.now w.store env.spec.name env.lock_owner lock_ttl in
      let w' = record w { store = s } in
      let go = map_option unlock (started fuel w') in
      elim e [ some x ↦ some (w', some x) | none ↦ go ]

  abbrev is_some_dest : Bool
  is_some_dest = elim env.dest [ none ↦ false | some d ↦ true ]

  -- runOnce
  unfoldable pub run_once : ℕ → World S D → Option (Outcome S D)
  unfolding locked
  run_once fuel w =
      let go = locked fuel w in
      elim env.open_dest_error [
        | some e ↦ some (w, some e)
        | none ↦
            if env.spec.safety.dry_run_required && is_some_dest && not env.dest_override
            then some (w, some dry_run_required)
            else elim env.open_source_error [ some e ↦ some (w, some e) | none ↦ go ]
      ]
