-- ===== src/State/Memory/Lock.antt =====
-- The run locks of the memory store: one owner at a time, until the lock expires.
use vortara.Base.{
  ℕ, ◌+◌, String, none, some, lookup, lookup-insert_self, ltb, ◌==◌, ◌≡◌, arith, if◌then◌else◌,
  Option-cases, Bool-cases, inl, inr,
}
use vortara.Errors.{already_running}
use vortara.State.Memory.{MemoryStore, LockEntry, lock_run, heartbeat_lock}

-- Asking for a lock that is held answers the owner that has it until it expires; from then on the
-- lock is granted.
lock_held :
    (now : ℕ) (s : MemoryStore) (n o : String) (ttl : ℕ) (entry : LockEntry)
    → lookup n s.locks ≡ some entry
    → (lock_run now s n o ttl).1
      ≡ (if ltb now entry.expires_at then some (already_running n entry.owner) else none)
unfolding lock_run
lock_held now s n o ttl entry h = ground arith

taken :
    (t : ℕ) (s : MemoryStore) (n o : String) (ttl : ℕ)
    → (lock_run t s n o ttl).1 ≡ none
    → lookup n (lock_run t s n o ttl).0.locks ≡ some (record { owner = o; expires_at = t + ttl })
unfolding lock_run
taken t s n o ttl h = elim (Option-cases (lookup n s.locks)) [
  | inl e ↦ rw (e, lock_run) (lookup-insert_self n _ s.locks)
  | inr (entry, e) ↦ elim (Bool-cases (ltb t entry.expires_at)) [
    | inl l ↦ let h' = rw (e, l, lock_run) at h in ground arith
    | inr l ↦ rw (e, l, lock_run) (lookup-insert_self n _ s.locks)
  ]
]

-- A lock that has been granted at `t` for `ttl` refuses every owner, the one that has it as well,
-- until `t + ttl`, naming the owner that has it, and is granted again from then on.
pub lock_run-lock_run :
    (t : ℕ) (s : MemoryStore) (n o : String) (ttl : ℕ) (now : ℕ) (o' : String) (ttl' : ℕ)
    → (lock_run t s n o ttl).1 ≡ none
    → (lock_run now (lock_run t s n o ttl).0 n o' ttl').1
      ≡ (if ltb now (t + ttl) then some (already_running n o) else none)
lock_run-lock_run t s n o ttl now o' ttl' h =
    lock_held now (lock_run t s n o ttl).0 n o' ttl' (record { owner = o; expires_at = t + ttl })
      (taken t s n o ttl h)

-- The heartbeat of the owner that has the lock moves its expiry to `t + ttl`; that of another owner
-- changes nothing.
pub heartbeat_lock-lock_run :
    (t : ℕ) (s : MemoryStore) (n o : String) (ttl : ℕ) (now : ℕ) (o' : String) (ttl' : ℕ)
    (entry : LockEntry)
    → lookup n s.locks ≡ some entry
    → (lock_run now (heartbeat_lock t s n o ttl) n o' ttl').1 ≡ (
        if ltb now (if entry.owner == o then t + ttl else entry.expires_at)
        then some (already_running n entry.owner)
        else none)
unfolding heartbeat_lock
heartbeat_lock-lock_run t s n o ttl now o' ttl' entry h = elim (Bool-cases (entry.owner == o)) [
  | inl e ↦
      rw (h, heartbeat_lock)
        (rw e (
          lock_held now _ n o' ttl' (record entry { expires_at = t + ttl })
            (lookup-insert_self n _ s.locks)))
  | inr e ↦ rw (h, heartbeat_lock) (rw e (lock_held now s n o' ttl' entry h))
]
