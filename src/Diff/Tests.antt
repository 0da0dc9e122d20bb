-- ===== src/Diff/Tests.antt =====
-- Tests of internal/diff on two payloads of a contact.
use vortara.Base.{
  [], ◌∷◌, lookup, has, contains, true, false, HasDistinctKeys, IsDistinct, ne_of_test, ◌≡◌, refl,
}
use vortara.Base.Lists.{length}
use vortara.Diff
use vortara.Diff.{compute, is_empty, only_contains, transitioned}
use vortara.Diff.Changes.{change, lookup-compute}
use vortara.Diff.Fields.{only_contains_repeated}
use vortara.Samples.{rt, before, after}
use vortara.Value.{str}

before_distinct : HasDistinctKeys before
unfolding lookup
before_distinct = (refl, (refl, tt))

after_distinct : HasDistinctKeys after
unfolding lookup
after_distinct = (refl, (refl, tt))

lookup-compute_example :
    lookup "status" (compute rt before after)
    ≡ change rt (lookup "status" before) (lookup "status" after)
lookup-compute_example = lookup-compute rt before after "status" before_distinct after_distinct

abbrev two_changes : Diff.Result
two_changes =
    ("plan", record { previous = str "free"; current = str "pro" })
    ∷ ("status", record { previous = str "open"; current = str "won" })
    ∷ []

two_changes_distinct : HasDistinctKeys two_changes
unfolding lookup
two_changes_distinct = (refl, (refl, tt))

names-IsDistinct : IsDistinct ("status" ∷ "plan" ∷ [])
names-IsDistinct = (refl, (refl, tt))

has_plan : has two_changes "plan" ≡ true
unfolding lookup
has_plan = refl

has_status : has two_changes "status" ≡ true
unfolding lookup
has_status = refl

two : length two_changes ≡ 2
unfolding length
two = refl

only_contains_repeated_example :
    (only_contains two_changes ("plan" ∷ "plan" ∷ []) ≡ true)
    × (contains ("plan" ∷ "plan" ∷ []) "status" ≡ false)
only_contains_repeated_example =
    only_contains_repeated two_changes "plan" "status" two has_plan has_status
      (ne_of_test "plan" "status" refl)
