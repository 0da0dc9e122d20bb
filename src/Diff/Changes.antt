-- ===== src/Diff/Changes.antt =====
-- What a difference holds at each field, and when it is empty or shows a transition.
use vortara.Base.{
  String, true, [], ◌∷◌, Option, none, some, lookup, insert, has, HasDistinctKeys, lookup-insert,
  insert-HasDistinctKeys, Bool-cases, ◌≡◌, ◌≢◌, ◌↔◌, refl, arith, eq_iff, eq_refl, ◌==◌,
  if◌then◌else◌, inl, inr, sym, ◌∙◌,
}
use vortara.Runtime.{Runtime}
use vortara.Value.{Value, Payload, null, sprint}
use vortara.Diff.{
  FieldChange, Result, equal, note_current, note_all_current, note_removed, compute, is_empty,
  transitioned, moved,
}

-- The change of one field, from what the two payloads hold there.
abbrev pub change : Runtime → Option Value → Option Value → Option FieldChange
change rt none none = none
change rt (some prev) none = some (record { previous = prev; current = null })
change rt none (some cur) = some (record { previous = null; current = cur })
change rt (some prev) (some cur) =
    if equal rt prev cur then none else some (record { previous = prev; current = cur })

abbrev or_else : Option FieldChange → Option FieldChange → Option FieldChange
or_else none o = o
or_else (some c) o = some c

-- The part of `change` that the first loop finds.
abbrev change_current : Runtime → Option Value → Option Value → Option FieldChange
change_current rt p none = none
change_current rt p (some cur) = change rt p (some cur)

abbrev change_removed : Option Value → Option Value → Option FieldChange
change_removed none c = none
change_removed (some prev) none = some (record { previous = prev; current = null })
change_removed (some prev) (some cur) = none

lookup-note_current :
    (rt : Runtime) (p : Option Value) (k j : String) (cur : Value) (out : Result)
    → lookup j (note_current rt p k cur out)
      ≡ (if k == j then or_else (change rt p (some cur)) (lookup j out) else lookup j out)
unfolding note_current
lookup-note_current rt none k j cur out =
    ground (arith, lookup-insert k j (record { previous = null; current = cur }) out)
lookup-note_current rt (some prev) k j cur out =
    ground (arith, lookup-insert k j (record { previous = prev; current = cur }) out)

lookup-note_all_current :
    (rt : Runtime) (previous current : Payload) (out : Result) (j : String)
    → HasDistinctKeys current
    → lookup j (note_all_current rt previous current out)
      ≡ or_else (change_current rt (lookup j previous) (lookup j current)) (lookup j out)
unfolding note_all_current lookup
lookup-note_all_current rt previous [] out j h = refl
lookup-note_all_current rt previous ((k, cur) ∷ current) out j h = ground (
  arith,
  eq_iff k j,
  lookup-note_current rt (lookup k previous) k j cur out,
  lookup-note_all_current rt previous current (note_current rt (lookup k previous) k cur out) j h.1,
)

lookup-note_removed :
    (current previous : Payload) (out : Result) (j : String)
    → HasDistinctKeys previous
    → lookup j (note_removed current previous out)
      ≡ or_else (change_removed (lookup j previous) (lookup j current)) (lookup j out)
unfolding note_removed lookup
lookup-note_removed current [] out j h = refl
lookup-note_removed current ((k, prev) ∷ previous) out j h = ground (
  arith,
  eq_iff k j,
  lookup-insert k j (record { previous = prev; current = null }) out,
  lookup-note_removed current previous out j h.1,
  lookup-note_removed current previous (insert k (record { previous = prev; current = null }) out) j
      h.1,
)

-- For payloads that hold each field once, the computed difference is at every field exactly the
-- change between the two payloads there.
pub lookup-compute :
    (rt : Runtime) (previous current : Payload) (k : String)
    → HasDistinctKeys previous
    → HasDistinctKeys current
    → lookup k (compute rt previous current) ≡ change rt (lookup k previous) (lookup k current)
unfolding compute lookup
lookup-compute rt previous current k hp hc = ground (
  arith,
  lookup-note_removed current previous (note_all_current rt previous current []) k hp,
  lookup-note_all_current rt previous current [] k hc,
)

-- A map is empty exactly when it holds nothing at any key.
empty_of_lookup : (r : Result) → ((k : String) → lookup k r ≡ none) → is_empty r ≡ true
unfolding is_empty lookup
empty_of_lookup [] h = refl
empty_of_lookup ((k, c) ∷ r) h = ground (arith, h k, eq_refl k)

lookup_of_empty : (r : Result) (k : String) → is_empty r ≡ true → lookup k r ≡ none
unfolding is_empty lookup
lookup_of_empty [] k h = refl
lookup_of_empty (e ∷ r) k h = ground arith

-- The text that a field shows, and nothing for a field that is not there.
abbrev pub shown : Runtime → Option Value → Option String
shown rt none = none
shown rt (some v) = some (sprint rt v)

change-eq-none_iff :
    (rt : Runtime) (p c : Option Value) → (change rt p c ≡ none) ↔ (shown rt p ≡ shown rt c)
unfolding equal
change-eq-none_iff rt none none = (λ h. refl, λ h. refl)
change-eq-none_iff rt none (some c) = (λ h. cc, λ h. cc)
change-eq-none_iff rt (some p) none = (λ h. cc, λ h. cc)
change-eq-none_iff rt (some p) (some c) = (
  λ h. ground (arith, eq_iff (sprint rt p) (sprint rt c)),
  λ h. ground (arith, eq_iff (sprint rt p) (sprint rt c)),
)

-- For payloads that hold each field once, the difference is empty exactly when both have the same
-- fields and each prints alike: values that differ only in their type are not a change.
pub is_empty-compute :
    (rt : Runtime) (previous current : Payload)
    → HasDistinctKeys previous
    → HasDistinctKeys current
    → (is_empty (compute rt previous current) ≡ true)
      ↔ ((k : String) → shown rt (lookup k previous) ≡ shown rt (lookup k current))
is_empty-compute rt previous current hp hc = (
  λ e k.
      (change-eq-none_iff rt _ _).0
        (rw (← lookup-compute rt previous current k hp hc) (lookup_of_empty _ k e)),
  λ e.
      empty_of_lookup _
        λ k. rw (lookup-compute rt previous current k hp hc) ((change-eq-none_iff rt _ _).1 (e k)),
)

-- How `%v` prints a field, an absent one as nil.
abbrev pub printed : Runtime → Option Value → String
printed rt none = sprint rt null
printed rt (some v) = sprint rt v

moved-change :
    (rt : Runtime) (from to : String) (p c : Option Value)
    → from ≢ to
    → (moved rt from to (change rt p c) ≡ true) ↔ ((printed rt p ≡ from) × (printed rt c ≡ to))
unfolding equal
moved-change rt from to none none ne = (λ h. cc, λ h. absurd (ne (sym h.0 ∙ h.1)))
moved-change rt from to none (some c) ne =
    ground (arith, eq_iff (sprint rt null) from, eq_iff (sprint rt c) to)
moved-change rt from to (some p) none ne =
    ground (arith, eq_iff (sprint rt p) from, eq_iff (sprint rt null) to)
moved-change rt from to (some p) (some c) ne =
    ground (
      arith,
      eq_iff (sprint rt p) from,
      eq_iff (sprint rt c) to,
      eq_iff (sprint rt p) (sprint rt c),
    )

-- For payloads that hold each field once and distinct values, `transitioned` says exactly that the field printed as `from` in the
-- previous payload and prints as `to` in the current one; an absent field prints as nil.
pub transitioned-compute :
    (rt : Runtime) (previous current : Payload) (field from to : String)
    → HasDistinctKeys previous
    → HasDistinctKeys current
    → from ≢ to
    → (transitioned rt (compute rt previous current) field from to ≡ true)
      ↔ ((printed rt (lookup field previous) ≡ from) × (printed rt (lookup field current) ≡ to))
unfolding transitioned
transitioned-compute rt previous current field from to hp hc ne =
    rw (lookup-compute rt previous current field hp hc) (moved-change rt from to _ _ ne)

note_current-HasDistinctKeys :
    (rt : Runtime) (p : Option Value) (k : String) (cur : Value) (out : Result)
    → HasDistinctKeys out
    → HasDistinctKeys (note_current rt p k cur out)
unfolding note_current
note_current-HasDistinctKeys rt none k cur out h = insert-HasDistinctKeys k _ out h
note_current-HasDistinctKeys rt (some p) k cur out h = elim (Bool-cases (equal rt p cur)) [
  | inl e ↦ rw e h
  | inr n ↦ rw n (insert-HasDistinctKeys k _ out h)
]

note_all_current-HasDistinctKeys :
    (rt : Runtime) (previous current : Payload) (out : Result)
    → HasDistinctKeys out
    → HasDistinctKeys (note_all_current rt previous current out)
unfolding note_all_current
note_all_current-HasDistinctKeys rt previous [] out h = h
note_all_current-HasDistinctKeys rt previous ((k, cur) ∷ current) out h =
    note_all_current-HasDistinctKeys rt previous current _
      (note_current-HasDistinctKeys rt (lookup k previous) k cur out h)

note_removed-HasDistinctKeys :
    (current previous : Payload) (out : Result)
    → HasDistinctKeys out
    → HasDistinctKeys (note_removed current previous out)
unfolding note_removed
note_removed-HasDistinctKeys current [] out h = h
note_removed-HasDistinctKeys current ((k, prev) ∷ previous) out h =
    note_removed-HasDistinctKeys current previous _ (elim (Bool-cases (has current k)) [
      | inl e ↦ rw e h
      | inr n ↦ rw n (insert-HasDistinctKeys k _ out h)
    ])

pub compute-HasDistinctKeys :
    (rt : Runtime) (previous current : Payload) → HasDistinctKeys (compute rt previous current)
unfolding compute
compute-HasDistinctKeys rt previous current =
    note_removed-HasDistinctKeys current previous _
      (note_all_current-HasDistinctKeys rt previous current [] tt)
