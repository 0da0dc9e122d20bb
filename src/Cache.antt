-- ===== src/Cache.antt =====
-- internal/cache/lru.go. The linked list and the map of its elements are one association list, the
-- most recently used key first: each element of the list is the entry of its own key in the map. The
-- expiry 0 is the zero time. A mutex has no model: each method runs whole.
pub mod Bounds
pub mod Recency
pub mod Tests
use vortara.Base.{
  ℕ, zero, suc, ◌+◌, ℤ, pos_part, positive, String, Bool, true, false, not, ◌&&◌, List, [], ◌∷◌,
  Option, none, some, Assoc, lookup, delete, length, ltb, leb, eqb, if◌then◌else◌,
}

pub record Entry {ℓ} (V : Type ℓ) : Type ℓ where
  pub value : V
  pub expiry : ℕ

pub record Lru {ℓ} (V : Type ℓ) : Type ℓ where
  pub cap : ℕ
  pub items : Assoc (Entry V)

-- `time.Now().Add(ttl)` where there is a positive `ttl`, else the zero time
abbrev pub expiry_after : ℕ → ℤ → ℕ
expiry_after now ttl = if positive ttl then now + pos_part ttl else 0

module _ {ℓ} {V : Type ℓ} where
  -- New
  unfoldable pub new_lru : ℤ → Lru V
  new_lru cap = record { cap = (if positive cap then pos_part cap else 1); items = [] }

  -- Without the last element, which is the least recently used one; nothing happens to an empty list.
  unfoldable pub evict_oldest : Assoc (Entry V) → Assoc (Entry V)
  evict_oldest [] = []
  evict_oldest (e ∷ []) = []
  evict_oldest (e ∷ f ∷ items) = e ∷ evict_oldest (f ∷ items)

  unfoldable pub set : ℕ → String → V → ℤ → Lru V → Lru V
  unfolding evict_oldest
  set now key value ttl c =
      let ent : Entry V = record { value = value; expiry = expiry_after now ttl } in
      elim (lookup key c.items) [
        | some old ↦ record c { items = (key, ent) ∷ delete key c.items }
        | none ↦
            if leb c.cap (length c.items)
            then record c { items = (key, ent) ∷ evict_oldest c.items }
            else record c { items = (key, ent) ∷ c.items }
      ]

  -- `!ent.expiry.IsZero() && time.Now().After(ent.expiry)`
  abbrev pub is_expired : ℕ → Entry V → Bool
  is_expired now ent = not (eqb ent.expiry 0) && ltb ent.expiry now

  -- Get, with the cache that it leaves.
  unfoldable pub get : ℕ → String → Lru V → Lru V × Option V
  get now key c = elim (lookup key c.items) [
    | none ↦ (c, none)
    | some ent ↦
        if is_expired now ent
        then (record c { items = delete key c.items }, none)
        else (record c { items = (key, ent) ∷ delete key c.items }, some ent.value)
  ]

  -- Delete
  unfoldable pub remove : String → Lru V → Lru V
  remove key c = record c { items = delete key c.items }

  unfoldable pub len : Lru V → ℕ
  len c = length c.items
