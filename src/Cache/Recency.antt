-- ===== src/Cache/Recency.antt =====
-- What the cache returns, and which entry it gives up.
use vortara.Base.{
  ℕ, ◌≤◌, ◌<◌, ℤ, String, true, false, [], ◌∷◌, ◌++◌, none, some, Assoc, lookup, delete,
  lookup-delete, length, eq_refl, eq_iff, leb, ◌≡◌, refl, arith, if◌then◌else◌, Option-cases,
  Bool-cases, inl, inr, ◌==◌, ap,
}
use vortara.Cache.{Entry, Lru, evict_oldest, set, get, is_expired, expiry_after}

leb-true : (m n : ℕ) → m ≤ n → leb m n ≡ true
leb-true m n h = ground arith

module _ {ℓ} {V : Type ℓ} where
  set-front :
      (now : ℕ) (key : String) (value : V) (ttl : ℤ) (c : Lru V)
      → lookup key (set now key value ttl c).items
        ≡ some (record { value = value; expiry = expiry_after now ttl })
  unfolding set lookup
  set-front now key value ttl c = elim (Option-cases (lookup key c.items)) [
    | inl h ↦ ground (arith, eq_refl key)
    | inr (old, h) ↦ ground (arith, eq_refl key)
  ]

  -- A key that has been set is returned with its value, until the time of its expiry has passed; with
  -- no positive `ttl` it does not expire.
  pub get-set :
      (now later : ℕ) (key : String) (value : V) (ttl : ℤ) (c : Lru V)
      → (get later key (set now key value ttl c)).1 ≡ (
          if is_expired later (record { value = value; expiry = expiry_after now ttl })
          then none
          else some value)
  unfolding get
  get-set now later key value ttl c = rw (set-front now key value ttl c, get) (ground arith)

  evict_oldest-last :
      (items : Assoc (Entry V)) (e : String × Entry V) → evict_oldest (items ++ e ∷ []) ≡ items
  unfolding evict_oldest
  evict_oldest-last [] e = refl
  evict_oldest-last (f ∷ []) e = refl
  evict_oldest-last (f ∷ g ∷ items) e = ap (λ xs. f ∷ xs) (evict_oldest-last (g ∷ items) e)

  -- Setting a new key in a full cache gives up the key at the end of the list, the least recently
  -- used one, and no other.
  pub set_full :
      (now : ℕ) (key : String) (value : V) (ttl : ℤ) (c : Lru V) (items : Assoc (Entry V))
      (oldest : String × Entry V)
      → c.items ≡ items ++ oldest ∷ []
      → lookup key c.items ≡ none
      → c.cap ≤ length c.items
      → (set now key value ttl c).items
        ≡ (key, record { value = value; expiry = expiry_after now ttl }) ∷ items
  unfolding set
  set_full now key value ttl c items oldest e h full =
      rw (h, set)
        (rw (leb-true c.cap (length c.items) full) (rw (e, evict_oldest-last items oldest) refl))

  stays_in_front :
      (key : String) (ent : Entry V) (rest : Assoc (Entry V))
      → 1 < length ((key, ent) ∷ rest)
      → lookup key (evict_oldest ((key, ent) ∷ rest)) ≡ some ent
  unfolding evict_oldest lookup
  stays_in_front key ent [] h = absurd (omega (arith, h))
  stays_in_front key ent (f ∷ rest) h = ground (arith, eq_refl key)

  absent_moved :
      (key other : String) (ent : Entry V) (items : Assoc (Entry V))
      → (other == key) ≡ false
      → lookup other items ≡ none
      → lookup other ((key, ent) ∷ delete key items) ≡ none
  unfolding lookup
  absent_moved key other ent items ne new =
      ground (arith, eq_iff key other, eq_iff other key, lookup-delete key other items)

  past_other :
      (key other : String) (x ent : Entry V) (items : Assoc (Entry V))
      → (other == key) ≡ false
      → lookup key items ≡ some ent
      → lookup key ((other, x) ∷ items) ≡ some ent
  unfolding lookup
  past_other key other x ent items ne h = rw ne h

  first :
      (key : String) (ent : Entry V) (items : Assoc (Entry V))
      → lookup key ((key, ent) ∷ items) ≡ some ent
  unfolding lookup
  first key ent items = rw (eq_refl key) refl

  -- With room for two, a key that has been read and has not expired is not the one that the setting
  -- of another, new key gives up, full or not.
  pub read_key_stays :
      (now later : ℕ) (key other : String) (value : V) (ttl : ℤ) (c : Lru V) (ent : Entry V)
      → lookup key c.items ≡ some ent
      → is_expired now ent ≡ false
      → (other == key) ≡ false
      → lookup other c.items ≡ none
      → 1 < c.cap
      → lookup key (set later other value ttl (get now key c).0).items ≡ some ent
  unfolding set get
  read_key_stays now later key other value ttl c ent h fresh ne new room =
      let items = (key, ent) ∷ delete key c.items in
      rw (h, get)
        (rw fresh (
          rw (absent_moved key other ent c.items ne new, set)
            (elim (Bool-cases (leb c.cap (length items))) [
              | inl full ↦ rw full (
                  past_other key other _ ent _ ne
                    (stays_in_front key ent (delete key c.items) (ground (arith, room))))
              | inr free ↦ rw free (past_other key other _ ent _ ne (first key ent _))
            ])))
