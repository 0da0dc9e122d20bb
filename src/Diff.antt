-- ===== src/Diff.antt =====
-- internal/diff/diff.go: the field-level difference of two payloads.
pub mod Tests
pub mod Changes
pub mod Fields
use vortara.Base.{
  ℕ, String, Bool, true, false, List, [], ◌∷◌, Option, none, some, Assoc, lookup, insert, has,
  length, ◌==◌, ◌&&◌, eqb, if◌then◌else◌,
}
use vortara.Runtime.{Runtime}
use vortara.Value.{Value, Payload, null, sprint}

pub record FieldChange : Type 0 where
  pub previous : Value
  pub current : Value

abbrev pub Result : Type 0
Result = Assoc FieldChange

-- Values are compared by how they print.
unfoldable pub equal : Runtime → Value → Value → Bool
equal rt a b = sprint rt a == sprint rt b

-- One round of the loop over `current`; the first argument is `previous[k]`.
unfoldable pub note_current : Runtime → Option Value → String → Value → Result → Result
note_current rt none k cur out = insert k (record { previous = null; current = cur }) out
note_current rt (some prev) k cur out =
    if equal rt prev cur then out else insert k (record { previous = prev; current = cur }) out

unfoldable pub note_all_current : Runtime → Payload → Payload → Result → Result
note_all_current rt previous [] out = out
note_all_current rt previous ((k, cur) ∷ current) out =
    note_all_current rt previous current (note_current rt (lookup k previous) k cur out)

-- The loop over `previous`, for the fields that `current` lacks.
unfoldable pub note_removed : Payload → Payload → Result → Result
note_removed current [] out = out
note_removed current ((k, prev) ∷ previous) out =
    note_removed current previous
      (if has current k then out else insert k (record { previous = prev; current = null }) out)

unfoldable pub compute : Runtime → Payload → Payload → Result
unfolding note_all_current note_removed note_current
compute rt previous current =
    note_removed current previous (note_all_current rt previous current [])

unfoldable pub is_empty : Result → Bool
is_empty r = eqb (length r) 0

abbrev pub contains_all : Result → List String → Bool
contains_all r [] = true
contains_all r (f ∷ fs) = has r f && contains_all r fs

unfoldable pub only_contains : Result → List String → Bool
only_contains r fields = if eqb (length r) (length fields) then contains_all r fields else false

abbrev pub moved : Runtime → String → String → Option FieldChange → Bool
moved rt from to none = false
moved rt from to (some ch) = sprint rt ch.previous == from && sprint rt ch.current == to

unfoldable pub transitioned : Runtime → Result → String → String → String → Bool
transitioned rt r field from to = moved rt from to (lookup field r)
