-- ===== src/Base/Maps.antt =====
-- Go's `map[string]V` as an association list. A key that is written again keeps its place, so a
-- map built by `insert` has each key once; what is proved of a map is mostly about `lookup`.
use Prim.Native.Nat.{◌+◌}
use Prim.Native.String.{String}
use mathlib.Core.Path.{◌≡◌, refl}
use mathlib.Core.Bool.{Bool, true, false}
use mathlib.Core.List.{List, [], ◌∷◌}
use mathlib.Core.Option.{Option, none, some}
use native.Mathlib.Omega.{arith}
use text.Mathlib.Text.{◌==◌}
use text.Mathlib.TextEquality.{eq_iff}
use text.Mathlib.TextPositions.{eq_refl}
use vortara.Base.Tests.{if◌then◌else◌}
use vortara.Base.Lists.{length}

abbrev pub Assoc {ℓ} : Type ℓ → Type ℓ
Assoc V = List (String × V)

abbrev pub is_some {ℓ} : {A : Type ℓ} → Option A → Bool
is_some none = false
is_some (some a) = true

module _ {ℓ} {V : Type ℓ} where
  unfoldable pub lookup : String → Assoc V → Option V
  lookup k [] = none
  lookup k ((at, v) ∷ rest) = if at == k then some v else lookup k rest

  unfoldable pub insert : String → V → Assoc V → Assoc V
  insert k v [] = (k, v) ∷ []
  insert k v ((at, x) ∷ rest) = if at == k then (k, v) ∷ rest else (at, x) ∷ insert k v rest

  unfoldable pub delete : String → Assoc V → Assoc V
  delete k [] = []
  delete k ((at, x) ∷ rest) = if at == k then delete k rest else (at, x) ∷ delete k rest

  -- `_, ok := m[k]`
  abbrev pub has : Assoc V → String → Bool
  has rest k = is_some (lookup k rest)

  -- The writes of `for k, v := range n { m[k] = v }`.
  unfoldable pub insert_all : Assoc V → Assoc V → Assoc V
  insert_all [] rest = rest
  insert_all ((k, v) ∷ n) rest = insert_all n (insert k v rest)

  -- A key once at most.
  abbrev pub HasDistinctKeys : Assoc V → Type 0
  HasDistinctKeys [] = Unit
  HasDistinctKeys ((k, v) ∷ rest) = (has rest k ≡ false) × HasDistinctKeys rest

  pub lookup-insert :
      (k at : String) (v : V) (rest : Assoc V)
      → lookup at (insert k v rest) ≡ (if k == at then some v else lookup at rest)
  unfolding lookup insert
  lookup-insert k at v [] = refl
  lookup-insert k at v ((i, x) ∷ rest) =
      ground (arith, eq_iff k at, eq_iff i k, eq_iff i at, lookup-insert k at v rest)

  pub lookup-insert_self :
      (k : String) (v : V) (rest : Assoc V) → lookup k (insert k v rest) ≡ some v
  lookup-insert_self k v rest = simp (lookup-insert, eq_refl)

  pub lookup-delete :
      (k at : String) (rest : Assoc V)
      → lookup at (delete k rest) ≡ (if k == at then none else lookup at rest)
  unfolding lookup delete
  lookup-delete k at [] = ground arith
  lookup-delete k at ((i, x) ∷ rest) =
      ground (arith, eq_iff k at, eq_iff i k, eq_iff i at, lookup-delete k at rest)

  pub insert-HasDistinctKeys :
      (k : String) (v : V) (rest : Assoc V)
      → HasDistinctKeys rest
      → HasDistinctKeys (insert k v rest)
  unfolding insert lookup
  insert-HasDistinctKeys k v [] h = (refl, tt)
  insert-HasDistinctKeys k v ((i, x) ∷ rest) h =
      ground
        (arith, eq_iff i k, eq_iff k i, lookup-insert k i v rest, insert-HasDistinctKeys k v rest)

  pub delete-HasDistinctKeys :
      (k : String) (rest : Assoc V) → HasDistinctKeys rest → HasDistinctKeys (delete k rest)
  unfolding delete lookup
  delete-HasDistinctKeys k [] h = tt
  delete-HasDistinctKeys k ((i, x) ∷ rest) h =
      ground (arith, eq_iff i k, lookup-delete k i rest, delete-HasDistinctKeys k rest)

  pub delete_absent : (k : String) (rest : Assoc V) → has rest k ≡ false → delete k rest ≡ rest
  unfolding delete lookup
  delete_absent k [] h = refl
  delete_absent k ((i, x) ∷ rest) h = ground (arith, delete_absent k rest)

  -- Deleting a key that is there makes a map with distinct keys one shorter.
  pub length-delete :
      (k : String) (rest : Assoc V)
      → HasDistinctKeys rest
      → has rest k ≡ true
      → length (delete k rest) + 1 ≡ length rest
  unfolding delete lookup
  length-delete k [] h p = ground arith
  length-delete k ((i, x) ∷ rest) h p =
      ground (arith, eq_iff i k, delete_absent k rest, length-delete k rest)
