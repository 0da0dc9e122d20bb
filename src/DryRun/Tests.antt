-- ===== src/DryRun/Tests.antt =====
-- A dry run over the memory store.
use vortara.Base.{false, List, [], ◌∷◌, none, length, ◌≡◌, refl}
use vortara.DryRun.{Printed, print_destination, set_dry_run_destination}
use vortara.DryRun.Store.{print_run-store}
use vortara.Engine.{Env}
use vortara.Engine.Deliver.{Phase2, deliver_one, deliver_all}
use vortara.Engine.Tests.{env, fresh, pending}
use vortara.Safety.{no_counts, allow}
use vortara.State.Memory.{MemoryStore, memory_store, new_memory_store}

abbrev print_env : Env MemoryStore (List Printed)
print_env = record {
  spec = env.spec;
  rt = env.rt;
  store = memory_store;
  dest = none;
  dest_name = "slack";
  dest_override = false;
  dry_run = false;
  approval_hash = "";
  open_dest_error = none;
  open_source_error = none;
  extract = λ from. ([], none);
  cancelled = λ n. false;
  now = 1000;
  now_text = "t";
  lock_owner = "host:1";
}

abbrev print_phase : Phase2 MemoryStore (List Printed)
print_phase = record {
  world = record {
    store = new_memory_store;
    dest = [];
    polls = 0;
    stats = fresh.stats;
    dlq = [];
    artifacts = [];
    alerts = [];
  };
  counts = no_counts;
  first_error = none;
}

-- The row is printed and counted as loaded.
prints :
    let p =
      deliver_all
        (set_dry_run_destination (print_destination "slack") print_env)
        (pending ∷ [])
        print_phase in
    (length p.world.dest ≡ 1) × (p.world.store ≡ new_memory_store)
unfolding deliver_all print_destination set_dry_run_destination deliver_one allow new_memory_store
prints = (refl, refl)

print_run-store_example :
    (deliver_all
      (set_dry_run_destination (print_destination "slack") print_env)
      (pending ∷ [])
      print_phase).world.store
    ≡ new_memory_store
print_run-store_example = print_run-store "slack" print_env (pending ∷ []) print_phase
