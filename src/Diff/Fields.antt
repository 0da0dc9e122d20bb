-- ===== src/Diff/Fields.antt =====
-- `OnlyContains`: right when the listed fields are distinct, and wrong when one is listed twice.
use vortara.Base.{
  String, true, false, List, [], ◌∷◌, lookup, delete, has, HasDistinctKeys, IsDistinct, contains,
  length, lookup-delete, delete-HasDistinctKeys, length-delete, ◌≡◌, ◌↔◌, refl, arith, eq_iff,
  eq_refl, ◌==◌, if◌then◌else◌, ◌∙◌, ◌≢◌,
}
use vortara.Diff.{Result, only_contains, contains_all}

has-delete : (r : Result) (f k : String) → has (delete f r) k ≡ (if f == k then false else has r k)
has-delete r f k = ground (arith, lookup-delete f k r)

contains_all-delete :
    (r : Result) (f : String) (fs : List String)
    → contains fs f ≡ false
    → contains_all r fs ≡ true
    → contains_all (delete f r) fs ≡ true
contains_all-delete r f [] n h = refl
contains_all-delete r f (g ∷ fs) n h =
    ground (arith, has-delete r f g, eq_iff f g, eq_iff g f, contains_all-delete r f fs)

-- A map with as many keys as there are distinct fields, all of them in it, has no other key.
no_other_key :
    (r : Result) (fs : List String) (k : String)
    → HasDistinctKeys r
    → IsDistinct fs
    → length r ≡ length fs
    → contains_all r fs ≡ true
    → has r k ≡ true
    → contains fs k ≡ true
unfolding lookup
no_other_key [] [] k hr hf e c h = cc
no_other_key (x ∷ r) [] k hr hf e c h = absurd (omega arith)
no_other_key r (f ∷ fs) k hr hf e c h = ground (
  arith,
  has-delete r f k,
  eq_iff f k,
  length-delete f r hr,
  contains_all-delete r f fs hf.0,
  no_other_key (delete f r) fs k (delete-HasDistinctKeys f r hr) hf.1,
)

contains_all-has :
    (r : Result) (fs : List String) (k : String)
    → contains_all r fs ≡ true
    → contains fs k ≡ true
    → has r k ≡ true
contains_all-has r [] k h c = cc
contains_all-has r (f ∷ fs) k h c = ground (arith, eq_iff f k, contains_all-has r fs k)

contains_all_of_has :
    (r : Result) (fs : List String)
    → ((k : String) → contains fs k ≡ true → has r k ≡ true)
    → contains_all r fs ≡ true
contains_all_of_has r [] h = refl
contains_all_of_has r (f ∷ fs) h =
    ground (arith, h f, eq_refl f, contains_all_of_has r fs (λ k c. h k (ground arith)))

length_of_same_keys :
    (r : Result) (fs : List String)
    → HasDistinctKeys r
    → IsDistinct fs
    → ((k : String) → has r k ≡ contains fs k)
    → length r ≡ length fs
unfolding lookup
length_of_same_keys [] [] hr hf h = refl
length_of_same_keys ((k, c) ∷ r) [] hr hf h = ground (arith, h k, eq_refl k)
length_of_same_keys r (f ∷ fs) hr hf h = ground (
  arith,
  h f,
  eq_refl f,
  length-delete f r hr,
  length_of_same_keys (delete f r) fs (delete-HasDistinctKeys f r hr) hf.1
      (λ k. ground (arith, h k, has-delete r f k, eq_iff f k)),
)

-- For distinct changed fields and distinct listed fields, `only_contains` holds exactly when the changed fields are the listed
-- ones and no others.
pub only_contains_iff :
    (r : Result) (fields : List String)
    → HasDistinctKeys r
    → IsDistinct fields
    → (only_contains r fields ≡ true) ↔ ((k : String) → has r k ≡ contains fields k)
unfolding only_contains
only_contains_iff r fields hr hf = (
  λ h k. ground (arith, no_other_key r fields k hr hf, contains_all-has r fields k),
  λ h.
      ground (
        arith,
        length_of_same_keys r fields hr hf h,
        contains_all_of_has r fields (λ k c. h k ∙ c),
      ),
)

-- A field listed twice stands for any second change: with two changed fields, `only_contains` of
-- one of them, listed twice, holds, although the other is not listed.
pub only_contains_repeated :
    (r : Result) (f g : String)
    → length r ≡ 2
    → has r f ≡ true
    → has r g ≡ true
    → f ≢ g
    → (only_contains r (f ∷ f ∷ []) ≡ true) × (contains (f ∷ f ∷ []) g ≡ false)
unfolding only_contains
only_contains_repeated r f g e hf hg ne = (ground arith, ground (arith, eq_iff f g))
