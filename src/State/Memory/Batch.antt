-- ===== src/State/Memory/Batch.antt =====
-- The delivery marks of the memory store: a batch keeps them apart until it is committed.
use vortara.Base.{
  String, Bool, true, false, ◌||◌, List, [], ◌∷◌, Assoc, lookup, insert, insert_all, has,
  lookup-insert, ◌==◌, ◌≡◌, refl, ◌∙◌, arith,
}
use vortara.State.Memory.{
  MemoryStore, delivery_key, is_delivered, mark_delivered, begin_batch, commit_batch,
  rollback_batch,
}

-- The marks of one run: row, sync and destination.
abbrev pub Marks : Type 0
Marks = List (String × String × String)

unfoldable pub mark_all : Marks → MemoryStore → MemoryStore
mark_all [] s = s
mark_all ((r, n, d) ∷ marks) s = mark_all marks (mark_delivered s r n d)

-- One of the marks has this key.
unfoldable pub marked : Marks → String → Bool
marked [] k = false
marked ((r, n, d) ∷ marks) k = delivery_key r n d == k || marked marks k

has-insert : (k j : String) (m : Assoc Bool) → has (insert k true m) j ≡ ((k == j) || has m j)
has-insert k j m = ground (arith, lookup-insert k j true m)

has-insert_all : (p m : Assoc Bool) (k : String) → has (insert_all p m) k ≡ (has p k || has m k)
unfolding insert_all lookup
has-insert_all [] m k = refl
has-insert_all ((j, v) ∷ p) m k =
    ground (arith, has-insert_all p (insert j v m) k, lookup-insert j k v m)

mark_delivered-in_batch :
    (s : MemoryStore) (r n d : String)
    → s.in_batch ≡ true
    → mark_delivered s r n d ≡ record s { pending = insert (delivery_key r n d) true s.pending }
unfolding mark_delivered
mark_delivered-in_batch s r n d h = rw (h, mark_delivered) refl

-- Inside a batch, the marks go to `pending` and nothing else changes.
mark_all-pending :
    (marks : Marks) (s : MemoryStore) (k : String)
    → s.in_batch ≡ true
    → (has (mark_all marks s).pending k ≡ (marked marks k || has s.pending k))
      × ((mark_all marks s).in_batch ≡ true)
      × ((mark_all marks s).deliveries ≡ s.deliveries)
unfolding mark_all marked mark_delivered
mark_all-pending [] s k h = (refl, h, refl)
mark_all-pending ((r, n, d) ∷ marks) s k h =
    let s' = record s { pending = insert (delivery_key r n d) true s.pending } in
    let (a, b, c) = mark_all-pending marks s' k h in
    rw (mark_delivered-in_batch s r n d h, mark_all)
      (a ∙ rw (has-insert (delivery_key r n d) k s.pending) (ground arith), b, c)

-- Marks that are rolled back leave no trace: whatever a batch has marked, after the rollback the
-- store tells the same deliveries as before the batch.
pub rollback-begin :
    (marks : Marks) (s : MemoryStore) (r n d : String)
    → s.in_batch ≡ false
    → is_delivered (rollback_batch (mark_all marks (begin_batch s))) r n d ≡ is_delivered s r n d
unfolding is_delivered rollback_batch begin_batch
rollback-begin marks s r n d h =
    let (a, b, c) = mark_all-pending marks (begin_batch s) (delivery_key r n d) refl in
    rw (h, is_delivered) (rw c refl)

told :
    (marks : Marks) (s : MemoryStore) (r n d : String)
    → s.in_batch ≡ false
    → ((marked marks (delivery_key r n d) || false) || has s.deliveries (delivery_key r n d))
      ≡ (marked marks (delivery_key r n d) || is_delivered s r n d)
unfolding is_delivered
told marks s r n d h = rw h (ground arith)

-- After the commit the store tells as delivered what it told before the batch and what the batch
-- has marked, and nothing else; before the commit it tells the same.
pub commit-begin :
    (marks : Marks) (s : MemoryStore) (r n d : String)
    → s.in_batch ≡ false
    → (is_delivered (commit_batch (mark_all marks (begin_batch s))) r n d
        ≡ (marked marks (delivery_key r n d) || is_delivered s r n d))
      × (is_delivered (mark_all marks (begin_batch s)) r n d
          ≡ (marked marks (delivery_key r n d) || is_delivered s r n d))
unfolding is_delivered commit_batch begin_batch lookup
commit-begin marks s r n d h =
    let (a, b, c) = mark_all-pending marks (begin_batch s) (delivery_key r n d) refl in
    let ia =
      has-insert_all (mark_all marks (begin_batch s)).pending s.deliveries (delivery_key r n d) in
    (rw (c, ia, a) (told marks s r n d h), rw (b, c, is_delivered) (rw (a, h) (ground arith)))
