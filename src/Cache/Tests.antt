-- ===== src/Cache/Tests.antt =====
-- Tests of the cache, with room for two.
use vortara.Base.{ℕ, pos, List, [], ◌∷◌, none, some, lookup, ◌≡◌, refl}
use vortara.Cache.{Entry, Lru, new_lru}
use vortara.Cache.Bounds.{Call, sets, gets, removes, calls, IsBounded, calls-IsBounded}

abbrev history : List (Call ℕ)
history =
    sets 1 "a" 10 (pos 0)
    ∷ sets 2 "b" 20 (pos 5)
    ∷ gets 3 "a"
    ∷ sets 4 "c" 30 (pos 0)
    ∷ removes "a"
    ∷ []

calls-IsBounded_example : IsBounded (calls history (new_lru (pos 2)))
calls-IsBounded_example = calls-IsBounded (pos 2) history

abbrev twenty : ℕ
twenty = 20

abbrev ten : Entry ℕ
ten = record { value = 10; expiry = 0 }

abbrev full : Lru ℕ
full = record { cap = 2; items = ("a", ten) ∷ ("b", ten) ∷ [] }

is_new : lookup "c" full.items ≡ none
unfolding lookup
is_new = refl

has_a : lookup "a" full.items ≡ some ten
unfolding lookup
has_a = refl
