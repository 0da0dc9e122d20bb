-- ===== src/State/Memory.antt =====
-- internal/state/memory.go. The maps are association lists; a key that the code joins with NUL
-- bytes is the joined text. The clock is the argument `now`. A mutex has no model: each method runs
-- whole.
pub mod Batch
pub mod Lock
pub mod Entities
use Prim.Native.Char.{Char, nul}
use vortara.Base.{
  ℕ, suc, ◌+◌, ◌≤◌, String, concat, Bool, true, false, not, ◌&&◌, List, [], ◌∷◌, ◌++◌, Option, none,
  some, Assoc, lookup, insert, delete, insert_all, has, length, take, drop, leb, ltb, eqb, ◌==◌,
  if◌then◌else◌, map,
}
use mathlib.Core.List.{reverse}
use vortara.Base.Sort.{sort_by}
use vortara.Errors.{GoError, run_not_found, already_running, no_runs, Result, ok, err}
use vortara.State.{EntityState, DecisionEvent, RunStats, RunLog, StateStore}
use vortara.Value.{join}

pub record LockEntry : Type 0 where
  pub owner : String
  pub expires_at : ℕ

pub record MemoryStore : Type 0 where
  pub entity_states : Assoc EntityState
  pub rule_firings : Assoc ℕ
  pub decisions : List DecisionEvent
  pub runs : List (ℕ × RunLog)
  pub next_run_id : ℕ
  pub deliveries : Assoc Bool
  pub pending : Assoc Bool
  pub in_batch : Bool
  pub locks : Assoc LockEntry

unfoldable pub new_memory_store : MemoryStore
new_memory_store = record {
  entity_states = [];
  rule_firings = [];
  decisions = [];
  runs = [];
  next_run_id = 0;
  deliveries = [];
  pending = [];
  in_batch = false;
  locks = [];
}

-- "\x00"
abbrev pub nul_text : String
nul_text = String.◌∷◌ nul String.[]

unfoldable pub entity_state_key : String → String → String → String
unfolding join
entity_state_key sync_name destination entity_key =
    join nul_text (sync_name ∷ destination ∷ entity_key ∷ [])

unfoldable pub rule_firing_key : String → String → String → String → String
unfolding join
rule_firing_key sync_name destination entity_key rule =
    join nul_text (sync_name ∷ destination ∷ entity_key ∷ rule ∷ [])

unfoldable pub delivery_key : String → String → String → String
delivery_key row_id sync_name destination =
    concat row_id (concat nul_text (concat sync_name (concat nul_text destination)))

unfoldable pub get_entity_state : MemoryStore → String → String → String → Option EntityState
get_entity_state s sync_name destination entity_key =
    lookup (entity_state_key sync_name destination entity_key) s.entity_states

unfoldable pub save_entity_state : MemoryStore → EntityState → MemoryStore
save_entity_state s es = record s {
  entity_states =
      insert (entity_state_key es.sync_name es.destination es.entity_key) es s.entity_states;
}

-- The states of one sync and destination, in the order of the map.
unfoldable pub states_of : String → String → Assoc EntityState → List EntityState
states_of sync_name destination [] = []
states_of sync_name destination ((k, es) ∷ m) =
    let rest = states_of sync_name destination m in
    if es.sync_name == sync_name && es.destination == destination then es ∷ rest else rest

-- `all[i].UpdatedAt.After(all[j].UpdatedAt)`
abbrev pub newer : EntityState → EntityState → Bool
newer a b = ltb b.updated_at a.updated_at

abbrev pub limited {ℓ} : {A : Type ℓ} → ℕ → List A → List A
limited limit xs = if ltb 0 limit && ltb limit (length xs) then take limit xs else xs

unfoldable pub list_entity_states : MemoryStore → String → String → ℕ → ℕ → List EntityState
list_entity_states s sync_name destination limit offset =
    let all = sort_by newer (states_of sync_name destination s.entity_states) in
    if leb (length all) offset then [] else limited limit (drop offset all)

unfoldable pub reset_entity_state : MemoryStore → String → String → String → MemoryStore
reset_entity_state s sync_name destination entity_key = record s {
  entity_states = delete (entity_state_key sync_name destination entity_key) s.entity_states;
}

unfoldable pub has_rule_fired : MemoryStore → String → String → String → String → Bool
has_rule_fired s sync_name destination entity_key rule =
    has s.rule_firings (rule_firing_key sync_name destination entity_key rule)

unfoldable pub mark_rule_fired : ℕ → MemoryStore → String → String → String → String → MemoryStore
mark_rule_fired now s sync_name destination entity_key rule = record s {
  rule_firings = insert (rule_firing_key sync_name destination entity_key rule) now s.rule_firings;
}

unfoldable pub record_decision : MemoryStore → DecisionEvent → MemoryStore
record_decision s event = record s { decisions = s.decisions ++ event ∷ [] }

-- The loop of GetDecisionHistory, over the events newest first.
unfoldable pub history_loop :
    String → String → String → ℕ → List DecisionEvent → List DecisionEvent → List DecisionEvent
history_loop sync_name destination entity_key limit [] out = out
history_loop sync_name destination entity_key limit (ev ∷ evs) out =
    let out' = out ++ ev ∷ [] in
    let rest = history_loop sync_name destination entity_key limit evs out in
    let rest' = history_loop sync_name destination entity_key limit evs out' in
    if ev.sync_name == sync_name && ev.destination == destination && ev.entity_key == entity_key
    then (if ltb 0 limit && leb limit (length out') then out' else rest')
    else rest

unfoldable pub get_decision_history :
    MemoryStore → String → String → String → ℕ → List DecisionEvent
unfolding history_loop
get_decision_history s sync_name destination entity_key limit =
    history_loop sync_name destination entity_key limit (reverse s.decisions) []

unfoldable pub start_run : ℕ → MemoryStore → String → String → MemoryStore × ℕ
start_run now s sync_name mode =
    let id = s.next_run_id + 1 in
    (
      record s {
        next_run_id = id;
        runs =
            (
              id,
              record {
                id = id;
                sync_name = sync_name;
                mode = mode;
                started_at = now;
                finished_at = 0;
                rows_extracted = 0;
                rows_loaded = 0;
                rows_skipped = 0;
                rows_errored = 0;
                high_watermark = 0;
                status = "running";
                error = none;
              },
            )
            ∷ s.runs;
      },
      id,
    )

-- `s.runs[id]`
unfoldable pub find_run : ℕ → List (ℕ × RunLog) → Option RunLog
find_run id [] = none
find_run id ((i, run) ∷ runs) = if eqb i id then some run else find_run id runs

-- `s.runs[id] = run` for an id that is there
unfoldable pub set_run : ℕ → RunLog → List (ℕ × RunLog) → List (ℕ × RunLog)
set_run id run [] = []
set_run id run ((i, r) ∷ runs) = if eqb i id then (i, run) ∷ runs else (i, r) ∷ set_run id run runs

unfoldable pub finished : ℕ → RunStats → RunLog → RunLog
finished now stats run = record run {
  finished_at = now;
  rows_extracted = stats.rows_extracted;
  rows_loaded = stats.rows_loaded;
  rows_skipped = stats.rows_skipped;
  rows_errored = stats.rows_errored;
  high_watermark = stats.high_watermark;
  status = stats.status;
  error = stats.error;
}

unfoldable pub finish_run : ℕ → MemoryStore → ℕ → RunStats → MemoryStore × Option GoError
unfolding find_run set_run finished
finish_run now s run_id stats = elim (find_run run_id s.runs) [
  | none ↦ (s, some (run_not_found run_id))
  | some run ↦ (record s { runs = set_run run_id (finished now stats run) s.runs }, none)
]

unfoldable pub runs_of : String → List (ℕ × RunLog) → List RunLog
runs_of sync_name [] = []
runs_of sync_name ((i, run) ∷ runs) =
    let rest = runs_of sync_name runs in if run.sync_name == sync_name then run ∷ rest else rest

abbrev pub started_later : RunLog → RunLog → Bool
started_later a b = ltb b.started_at a.started_at

unfoldable pub get_run_history : MemoryStore → String → ℕ → List RunLog
unfolding runs_of
get_run_history s sync_name limit = limited limit (sort_by started_later (runs_of sync_name s.runs))

unfoldable pub get_last_run : MemoryStore → String → Result RunLog
get_last_run s sync_name = elim (get_run_history s sync_name 1) [
  | [] ↦ err (no_runs sync_name)
  | run ∷ _ ↦ ok run
]

-- A key of a `map[string]bool` that is there holds true.
unfoldable pub is_delivered : MemoryStore → String → String → String → Bool
is_delivered s row_id sync_name destination =
    let key = delivery_key row_id sync_name destination in
    if s.in_batch && has s.pending key then true else has s.deliveries key

unfoldable pub mark_delivered : MemoryStore → String → String → String → MemoryStore
mark_delivered s row_id sync_name destination =
    let key = delivery_key row_id sync_name destination in
    if s.in_batch
    then record s { pending = insert key true s.pending }
    else record s { deliveries = insert key true s.deliveries }

unfoldable pub begin_batch : MemoryStore → MemoryStore
begin_batch s = record s { pending = []; in_batch = true }

unfoldable pub commit_batch : MemoryStore → MemoryStore
commit_batch s = record s {
  pending = [];
  in_batch = false;
  deliveries = insert_all s.pending s.deliveries;
}

unfoldable pub rollback_batch : MemoryStore → MemoryStore
rollback_batch s = record s { pending = []; in_batch = false }

-- `entry.expiresAt.After(now)` refuses the lock.
unfoldable pub lock_run : ℕ → MemoryStore → String → String → ℕ → MemoryStore × Option GoError
lock_run now s sync_name owner ttl =
    let taken = record s {
      locks = insert sync_name (record { owner = owner; expires_at = now + ttl }) s.locks;
    } in
    elim (lookup sync_name s.locks) [
      | none ↦ (taken, none)
      | some entry ↦
          if ltb now entry.expires_at
          then (s, some (already_running sync_name entry.owner))
          else (taken, none)
    ]

unfoldable pub unlock_run : MemoryStore → String → MemoryStore
unlock_run s sync_name = record s { locks = delete sync_name s.locks }

unfoldable pub heartbeat_lock : ℕ → MemoryStore → String → String → ℕ → MemoryStore
heartbeat_lock now s sync_name owner ttl = elim (lookup sync_name s.locks) [
  | none ↦ s
  | some entry ↦
      if entry.owner == owner
      then record s { locks = insert sync_name (record entry { expires_at = now + ttl }) s.locks }
      else s
]

-- The memory store as a StateStore.
abbrev pub memory_store : StateStore MemoryStore
memory_store = record {
  get_entity_state = λ s n d k. ok (get_entity_state s n d k);
  save_entity_state = λ s es. (save_entity_state s es, none);
  list_entity_states = λ s n d limit offset. ok (list_entity_states s n d limit offset);
  reset_entity_state = λ s n d k. (reset_entity_state s n d k, none);
  has_rule_fired = λ s n d k r. ok (has_rule_fired s n d k r);
  mark_rule_fired = λ now s n d k r. (mark_rule_fired now s n d k r, none);
  record_decision = λ s ev. (record_decision s ev, none);
  start_run = λ now s n mode. ((start_run now s n mode).0, ok (start_run now s n mode).1);
  finish_run = finish_run;
  get_run_history = λ s n limit. ok (get_run_history s n limit);
  is_delivered = λ s r n d. ok (is_delivered s r n d);
  mark_delivered = λ s r n d. (mark_delivered s r n d, none);
  begin_batch = λ s. (begin_batch s, none);
  commit_batch = λ s. (commit_batch s, none);
  rollback_batch = λ s. (rollback_batch s, none);
  lock_run = lock_run;
  unlock_run = λ s n. (unlock_run s n, none);
  heartbeat_lock = λ now s n o ttl. (heartbeat_lock now s n o ttl, none);
}
