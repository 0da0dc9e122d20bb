-- ===== src/Base/Sort.antt =====
-- `sort.Strings` and `sort.Slice` as an insertion sort; the order of texts is that of their bytes.
use Prim.Native.String.{String, compare}
use Prim.Native.Nat.{Ordering}
use mathlib.Core.Bool.{Bool, true, false}
use mathlib.Core.List.{List, [], ◌∷◌}
use vortara.Base.Tests.{if◌then◌else◌}
use vortara.Base.Maps.{Assoc}

-- `s < t` on Go's strings
abbrev pub str_lt : String → String → Bool
str_lt s t = elim (compare s t) [ Ordering.lt ↦ true | _ ↦ false ]

module _ {ℓ} {A : Type ℓ} (less : A → A → Bool) where
  unfoldable pub insert_by : A → List A → List A
  insert_by x [] = x ∷ []
  insert_by x (y ∷ ys) = if less y x then y ∷ insert_by x ys else x ∷ y ∷ ys

  unfoldable pub sort_by : List A → List A
  unfolding insert_by
  sort_by [] = []
  sort_by (x ∷ xs) = insert_by x (sort_by xs)

-- The entries of a map in the order of their keys.
abbrev pub entry_lt {ℓ} : {V : Type ℓ} → String × V → String × V → Bool
entry_lt a b = str_lt a.0 b.0

abbrev pub sort_entries {ℓ} : {V : Type ℓ} → Assoc V → Assoc V
sort_entries m = sort_by entry_lt m
