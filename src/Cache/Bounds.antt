-- ===== src/Cache/Bounds.antt =====
-- The cache never holds more than its capacity, nor a key twice.
use vortara.Base.{
  ℕ, suc, ◌+◌, ◌≤◌, ◌<◌, ℤ, String, false, List, [], ◌∷◌, some, Assoc, lookup, delete, length, has,
  HasDistinctKeys, length-delete, delete_absent, delete-HasDistinctKeys, lookup-delete, eq_refl,
  leb, ◌≡◌, refl, arith, Option-cases, Bool-cases, inl, inr, is_some, ap,
}
use vortara.Cache.{Entry, Lru, new_lru, evict_oldest, set, get, remove, is_expired}

-- The calls of the clients, in the order in which the mutex lets them run.
pub data Call {ℓ} (V : Type ℓ) : Type ℓ where
  sets : ℕ → String → V → ℤ → Call V
  gets : ℕ → String → Call V
  removes : String → Call V

module _ {ℓ} {V : Type ℓ} where
  -- No key twice, and at least room for one and no more entries than there is room for.
  pub record IsBounded (c : Lru V) : Type ℓ where
    pub distinct : HasDistinctKeys c.items
    pub room : 0 < c.cap
    pub within : length c.items ≤ c.cap

  pub new_lru-IsBounded : (cap : ℤ) → IsBounded (new_lru cap)
  unfolding new_lru
  new_lru-IsBounded cap = record { distinct = tt; room = ground arith; within = omega arith }

  length-evict_oldest :
      (items : Assoc (Entry V))
      → 0 < length items
      → suc (length (evict_oldest items)) ≡ length items
  unfolding evict_oldest
  length-evict_oldest [] h = omega (arith, h)
  length-evict_oldest (e ∷ []) h = refl
  length-evict_oldest (e ∷ f ∷ items) h =
      omega (arith, length-evict_oldest (f ∷ items) (omega arith))

  absent-evict_oldest :
      (k : String) (items : Assoc (Entry V))
      → has items k ≡ false
      → has (evict_oldest items) k ≡ false
  unfolding evict_oldest lookup
  absent-evict_oldest k [] h = refl
  absent-evict_oldest k (e ∷ []) h = refl
  absent-evict_oldest k (e ∷ f ∷ items) h = ground (arith, absent-evict_oldest k (f ∷ items))

  evict_oldest-HasDistinctKeys :
      (items : Assoc (Entry V)) → HasDistinctKeys items → HasDistinctKeys (evict_oldest items)
  unfolding evict_oldest
  evict_oldest-HasDistinctKeys [] h = tt
  evict_oldest-HasDistinctKeys (e ∷ []) h = tt
  evict_oldest-HasDistinctKeys (e ∷ f ∷ items) h =
      (absent-evict_oldest e.0 (f ∷ items) h.0, evict_oldest-HasDistinctKeys (f ∷ items) h.1)

  moved :
      (k : String) (items : Assoc (Entry V))
      → HasDistinctKeys items
      → (has (delete k items) k ≡ false) × HasDistinctKeys (delete k items)
  moved k items h = (rw (lookup-delete k k items, eq_refl k) refl, delete-HasDistinctKeys k items h)

  length_moved :
      (k : String) (e : Entry V) (items : Assoc (Entry V))
      → HasDistinctKeys items
      → lookup k items ≡ some e
      → length (delete k items) + 1 ≡ length items
  length_moved k e items h p = length-delete k items h (ap is_some p)

  pub set-IsBounded :
      (now : ℕ) (key : String) (value : V) (ttl : ℤ) (c : Lru V)
      → IsBounded c
      → IsBounded (set now key value ttl c)
  unfolding set
  set-IsBounded now key value ttl c b = elim (Option-cases (lookup key c.items)) [
    | inr (old, h) ↦
        rw (h, set)
          (record {
            distinct = moved key c.items b.distinct;
            room = b.room;
            within = omega (arith, length_moved key old c.items b.distinct h, b.within);
          })
    | inl h ↦ elim (Bool-cases (leb c.cap (length c.items))) [
      | inl full ↦
          rw (h, set)
            (rw full (record {
              distinct = (
                absent-evict_oldest key c.items (ap is_some h),
                evict_oldest-HasDistinctKeys c.items b.distinct,
              );
              room = b.room;
              within = ground (arith, length-evict_oldest c.items, b.within, b.room);
            }))
      | inr free ↦
          rw (h, set)
            (rw free (record {
              distinct = (ap is_some h, b.distinct);
              room = b.room;
              within = ground arith;
            }))
    ]
  ]

  get-IsBounded : (now : ℕ) (key : String) (c : Lru V) → IsBounded c → IsBounded (get now key c).0
  unfolding get
  get-IsBounded now key c b = elim (Option-cases (lookup key c.items)) [
    | inl h ↦ rw (h, get) b
    | inr (ent, h) ↦
        let shorter = length_moved key ent c.items b.distinct h in
        elim (Bool-cases (is_expired now ent)) [
          | inl old ↦
              rw (h, get)
                (rw old (record {
                  distinct = delete-HasDistinctKeys key c.items b.distinct;
                  room = b.room;
                  within = omega (arith, shorter, b.within);
                }))
          | inr fresh ↦
              rw (h, get)
                (rw fresh (record {
                  distinct = moved key c.items b.distinct;
                  room = b.room;
                  within = omega (arith, shorter, b.within);
                }))
        ]
  ]

  remove-IsBounded : (key : String) (c : Lru V) → IsBounded c → IsBounded (remove key c)
  unfolding remove
  remove-IsBounded key c b = elim (Option-cases (lookup key c.items)) [
    | inl h ↦ record {
      distinct = delete-HasDistinctKeys key c.items b.distinct;
      room = b.room;
      within = rw (delete_absent key c.items (ap is_some h)) b.within;
    }
    | inr (ent, h) ↦ record {
      distinct = delete-HasDistinctKeys key c.items b.distinct;
      room = b.room;
      within = omega (arith, length_moved key ent c.items b.distinct h, b.within);
    }
  ]

  unfoldable pub call : Call V → Lru V → Lru V
  call (sets now key value ttl) c = set now key value ttl c
  call (gets now key) c = (get now key c).0
  call (removes key) c = remove key c

  unfoldable pub calls : List (Call V) → Lru V → Lru V
  calls [] c = c
  calls (o ∷ os) c = calls os (call o c)

  call-IsBounded : (o : Call V) (c : Lru V) → IsBounded c → IsBounded (call o c)
  unfolding call
  call-IsBounded (sets now key value ttl) c b = set-IsBounded now key value ttl c b
  call-IsBounded (gets now key) c b = get-IsBounded now key c b
  call-IsBounded (removes key) c b = remove-IsBounded key c b

  calls_keep : (os : List (Call V)) (c : Lru V) → IsBounded c → IsBounded (calls os c)
  unfolding calls
  calls_keep [] c b = b
  calls_keep (o ∷ os) c b = calls_keep os (call o c) (call-IsBounded o c b)

  -- After any sequence of calls on a new cache of any configured capacity, the cache holds no key
  -- twice and at most as many entries as its capacity, which is at least one.
  pub calls-IsBounded : (cap : ℤ) (os : List (Call V)) → IsBounded (calls os (new_lru cap))
  calls-IsBounded cap os = calls_keep os (new_lru cap) (new_lru-IsBounded cap)
