-- ===== src/Steps/Pipeline.antt =====
-- internal/steps/steps.go: the transform steps of a pipeline on the data of a row. A map is iterated in
-- the order of its list. The theorems hold for any evaluation of `add` expressions and any flattening.
pub mod Mask
use vortara.Base.{
  String, Bool, true, false, List, [], ◌∷◌, ◌++◌, Option, none, some, Assoc, lookup, insert, delete,
  has, ◌==◌, if◌then◌else◌,
}
use vortara.Errors.{GoError, Result, ok, err, unexpected_token}
use vortara.Runtime.{Runtime}
use vortara.Steps.Eval.{eval}
use vortara.Steps.Expr.{Expr}
use vortara.Steps.Parser.{Outcome, done, failed, out_of_fuel, parse_expr}
use vortara.Text.{trim_space}
use vortara.Value.{Value, Payload, null, bool, int, float64, str, time, arr, obj}

-- TransformStep
pub record TransformStep : Type 0 where
  pub filter : String
  pub rename : Assoc String
  pub add : Assoc String
  pub drop : List String
  pub mask : List String
  pub trim : List String
  pub flatten : String

-- stepFn, on `r.Data`
abbrev pub StepFn : Type 0
StepFn = Payload → Payload × Bool

unfoldable pub rename_all : Assoc String → Payload → Payload
rename_all [] row = row
rename_all ((old, new_name) ∷ renames) row =
    rename_all renames
      (elim (lookup old row) [ none ↦ row | some v ↦ delete old (insert new_name v row) ])

unfoldable pub add_all : (String → Payload → Value) → Assoc String → Payload → Payload
add_all add_value [] row = row
add_all add_value ((name, expr) ∷ adds) row =
    add_all add_value adds (insert name (add_value expr row) row)

unfoldable pub drop_all : List String → Payload → Payload
drop_all [] row = row
drop_all (name ∷ drops) row = drop_all drops (delete name row)

-- The value trimmed if it is a text.
unfoldable pub trimmed : Value → Value
unfolding trim_space
trimmed (str s) = str (trim_space s)
trimmed v = v

unfoldable pub trim_values : Payload → Payload
unfolding trimmed
trim_values [] = []
trim_values ((k, v) ∷ row) = (k, trimmed v) ∷ trim_values row

unfoldable pub trim_all : List String → Payload → Payload
unfolding trimmed
trim_all [] row = row
trim_all (name ∷ trims) row =
    trim_all trims (elim (lookup name row) [ none ↦ row | some v ↦ insert name (trimmed v) row ])

-- A single "*" stands for every field.
unfoldable pub trim_fields : List String → Payload → Payload
unfolding trim_values trim_all
trim_fields (name ∷ []) row = if name == "*" then trim_values row else trim_all (name ∷ []) row
trim_fields names row = trim_all names row

unfoldable pub mask_all : List String → Payload → Payload
mask_all [] row = row
mask_all (name ∷ masks) row =
    mask_all masks (if has row name then insert name (str "***") row else row)

abbrev pub no_entries {ℓ} : {A : Type ℓ} → List A → Bool
no_entries [] = true
no_entries (a ∷ more) = false

abbrev pub mutating : (Payload → Payload) → StepFn
mutating f row = (f row, true)

-- A function for the rest of a step's `if`s, unless the part is not configured.
abbrev pub unless : Bool → StepFn → List StepFn
unless absent f = if absent then [] else f ∷ []

-- The parser's outcome; it never runs out of fuel.
abbrev pub compiled : Outcome Expr → Result Expr
compiled (done e) = ok e
compiled (failed e) = err e
compiled out_of_fuel = err (unexpected_token "")

module _ (rt : Runtime) (add_value : String → Payload → Value)
    (flatten_into : String → Payload → Payload) where
  -- The functions of a step behind its filter.
  unfoldable pub mutations : TransformStep → List StepFn
  unfolding rename_all add_all drop_all trim_fields mask_all
  mutations step =
      unless (no_entries step.rename) (mutating (rename_all step.rename))
      ++ unless (no_entries step.add) (mutating (add_all add_value step.add))
      ++ unless (no_entries step.drop) (mutating (drop_all step.drop))
      ++ unless (no_entries step.trim) (mutating (trim_fields step.trim))
      ++ unless (step.flatten == "") (mutating (flatten_into step.flatten))
      ++ unless (no_entries step.mask) (mutating (mask_all step.mask))

  abbrev pub filtering : Expr → StepFn
  filtering e row = (row, eval rt row e)

  abbrev pub with_filter : TransformStep → Result Expr → Result (List StepFn)
  with_filter step (err e) = err e
  with_filter step (ok e) = ok (filtering e ∷ mutations step)

  unfoldable pub step_fns : TransformStep → Result (List StepFn)
  unfolding mutations eval parse_expr
  step_fns step =
      if step.filter == ""
      then ok (mutations step)
      else with_filter step (compiled (parse_expr rt step.filter))

  abbrev pub join_fns : Result (List StepFn) → Result (List StepFn) → Result (List StepFn)
  join_fns (err e) rest = err e
  join_fns (ok fns) (err e) = err e
  join_fns (ok fns) (ok more) = ok (fns ++ more)

  -- New
  unfoldable pub new : List TransformStep → Result (List StepFn)
  unfolding step_fns
  new [] = ok []
  new (step ∷ steps) = join_fns (step_fns step) (new steps)

-- Apply: the functions in order, up to the first that does not keep the row.
unfoldable pub apply : List StepFn → Payload → Payload × Bool
apply [] row = (row, true)
apply (f ∷ fns) row =
    let (row', keep) = f row in let rest = apply fns row' in if keep then rest else (row', false)
