-- ===== src/Engine/Run/Locking.antt =====
-- The run's lock: a run that is refused it does nothing, and a run that has it gives it up.
use vortara.Base.{
  ap, ℕ, ◌==◌, false, true, ltb, String, none, some, lookup, lookup-delete, ◌≡◌, refl, arith,
  eq_refl,
}
use vortara.Engine.{Env, World}
use vortara.Engine.Run.{run_once, Outcome, lock_ttl, locked, unlock}
use vortara.Errors.{GoError, already_running}
use vortara.State.Memory.{MemoryStore, LockEntry, memory_store, lock_run, unlock_run}
use vortara.Engine.Run.Returns.{started-Returns}

-- A run that the store refuses the lock has called no destination.
locked_refused :
    {S D : Type 0} (env : Env S D) (fuel : ℕ) (w : World S D) (e : GoError)
    → (env.store.lock_run env.now w.store env.spec.name env.lock_owner lock_ttl).0 ≡ w.store
    → (env.store.lock_run env.now w.store env.spec.name env.lock_owner lock_ttl).1 ≡ some e
    → locked env fuel w ≡ some (w, some e)
unfolding locked
locked_refused env fuel w e same h = rw (h, locked) (rw same refl)

held :
    (now : ℕ) (s : MemoryStore) (n owner : String) (entry : LockEntry)
    → lookup n s.locks ≡ some entry
    → ltb now entry.expires_at ≡ true
    → lock_run now s n owner lock_ttl ≡ (s, some (already_running n entry.owner))
unfolding lock_run
held now s n owner entry h l = rw (h, lock_run) (rw l refl)

-- UnlockRun leaves the lock to whoever asks next.
abbrev pub UnlockFrees : {S D : Type 0} → Env S D → Type 0
UnlockFrees {S} env =
    (s : S) (now : ℕ) (owner : String) (ttl : ℕ)
    → (env.store.lock_run now (env.store.unlock_run s env.spec.name).0 env.spec.name owner ttl).1
      ≡ none

-- A run that takes the lock, of a sync without an action for missing entities, returns, and when it does,
-- with an error or without, the lock is free: whoever asks next gets it. Unlocking the store is to free the
-- lock.
pub locked_releases :
    {S D : Type 0} (env : Env S D) (fuel : ℕ) (w : World S D)
    → (env.spec.on_missing.action == "") ≡ true
    → UnlockFrees env
    → (env.store.lock_run env.now w.store env.spec.name env.lock_owner lock_ttl).1 ≡ none
    → (o : Outcome S D) × (locked env fuel w ≡ some o)
      × ((now : ℕ) (owner : String) (ttl : ℕ)
          → (env.store.lock_run now o.0.store env.spec.name owner ttl).1 ≡ none)
unfolding locked unlock
locked_releases env fuel w quiet frees h =
    let w' = record w {
      store = (env.store.lock_run env.now w.store env.spec.name env.lock_owner lock_ttl).0;
    } in
    let (o, e) = started-Returns env fuel quiet w' in
    rw (h, locked) (rw e (_, refl, λ now owner ttl. frees o.0.store now owner ttl))

-- The memory store frees the lock so.
pub memory_unlock-frees :
    (s : MemoryStore) (n : String) (now : ℕ) (owner : String) (ttl : ℕ)
    → (lock_run now (unlock_run s n) n owner ttl).1 ≡ none
unfolding lock_run unlock_run
memory_unlock-frees s n now owner ttl = ground (arith, lookup-delete n n s.locks, eq_refl n)

-- Over the memory store, a run whose lock another run holds returns with an error that names the
-- sync and the owner of the lock, and has changed nothing, not even in the store.
run_once_busy :
    {D : Type 0} (env : Env MemoryStore D) (fuel : ℕ) (w : World MemoryStore D) (entry : LockEntry)
    → env.store ≡ memory_store
    → env.open_dest_error ≡ none
    → env.spec.safety.dry_run_required ≡ false
    → env.open_source_error ≡ none
    → lookup env.spec.name w.store.locks ≡ some entry
    → ltb env.now entry.expires_at ≡ true
    → run_once env fuel w ≡ some (w, some (already_running env.spec.name entry.owner))
unfolding run_once
run_once_busy env fuel w entry hs hd hr ho hl ht =
    let refused : env.store.lock_run env.now w.store env.spec.name env.lock_owner lock_ttl
        ≡ (w.store, some (already_running env.spec.name entry.owner)) =
      rw hs (held env.now w.store env.spec.name env.lock_owner entry hl ht) in
    rw (hd, hr, ho, run_once)
      (locked_refused env fuel w (already_running env.spec.name entry.owner) (ap (λ x. x.0) refused)
        (ap (λ x. x.1) refused))
