-- ===== src/Steps/Eval.antt =====
-- internal/steps/expr.go: the evaluation of a compiled condition on a row's data.
pub mod Comparable
use vortara.Base.{
  ℕ, String, Bool, true, false, not, ◌&&◌, ◌||◌, Option, none, some, lookup, pos, negsuc, ◌==◌,
  if◌then◌else◌,
}
use vortara.Base.Sort.{str_lt}
use vortara.Runtime.{Runtime}
use vortara.Steps.Expr.{
  Operator, op_eq, op_ne, op_gt, op_gte, op_lt, op_lte, Literal, text_literal, float_literal,
  bool_literal, Expr, cmp_expr, and_expr, or_expr, not_expr, contains_expr, starts_with_expr,
}
use vortara.Text.{contains, has_prefix}
use vortara.Value.{Value, Payload, null, bool, int, float64, str, time, arr, obj}

-- toFloat64
abbrev pub to_float64 : Runtime → Value → Option ℕ
to_float64 rt (int (pos n)) = some (rt.float_of_nat n)
to_float64 rt (int (negsuc n)) = some (rt.float_of_neg n)
to_float64 rt (float64 x) = some x
to_float64 rt _ = none

abbrev pub compare_text : Operator → String → String → Bool
compare_text op_eq ls rv = ls == rv
compare_text op_ne ls rv = not (ls == rv)
compare_text op_gt ls rv = str_lt rv ls
compare_text op_gte ls rv = not (str_lt ls rv)
compare_text op_lt ls rv = str_lt ls rv
compare_text op_lte ls rv = not (str_lt rv ls)

-- A NaN is neither less than, equal to nor greater than a number.
abbrev pub compare_float : Runtime → Operator → ℕ → ℕ → Bool
compare_float rt op_eq lf rv = rt.float_eq lf rv
compare_float rt op_ne lf rv = not (rt.float_eq lf rv)
compare_float rt op_gt lf rv = rt.float_lt rv lf
compare_float rt op_gte lf rv = rt.float_lt rv lf || rt.float_eq lf rv
compare_float rt op_lt lf rv = rt.float_lt lf rv
compare_float rt op_lte lf rv = rt.float_lt lf rv || rt.float_eq lf rv

abbrev same_bool : Bool → Bool → Bool
same_bool lb rv = if lb then rv else not rv

abbrev pub compare_bool : Operator → Bool → Bool → Bool
compare_bool op_eq lb rv = same_bool lb rv
compare_bool op_ne lb rv = not (same_bool lb rv)
compare_bool _ lb rv = false

abbrev pub compare_number : Runtime → Operator → Option ℕ → ℕ → Bool
compare_number rt op none rv = false
compare_number rt op (some lf) rv = compare_float rt op lf rv

-- The switch of cmpExpr.eval on the literal, with the type assertions on the field's value.
abbrev pub compare_value : Runtime → Operator → Value → Literal → Bool
compare_value rt op (str ls) (text_literal rv) = compare_text op ls rv
compare_value rt op left (text_literal rv) = false
compare_value rt op left (float_literal rv) = compare_number rt op (to_float64 rt left) rv
compare_value rt op (bool lb) (bool_literal rv) = compare_bool op lb rv
compare_value rt op left (bool_literal rv) = false

-- A lookup and a type assertion that both have to succeed.
abbrev pub on_value : Option Value → (Value → Bool) → Bool
on_value none p = false
on_value (some v) p = p v

abbrev pub on_text : (String → Bool) → Value → Bool
on_text p (str s) = p s
on_text p _ = false

unfoldable pub eval : Runtime → Payload → Expr → Bool
unfolding contains has_prefix
eval rt row (cmp_expr field op value) =
    on_value (lookup field row) λ left. compare_value rt op left value
eval rt row (and_expr l r) = eval rt row l && eval rt row r
eval rt row (or_expr l r) = eval rt row l || eval rt row r
eval rt row (not_expr inner) = not (eval rt row inner)
eval rt row (contains_expr field substr) =
    on_value (lookup field row) (on_text λ s. contains s substr)
eval rt row (starts_with_expr field prefix) =
    on_value (lookup field row) (on_text λ s. has_prefix s prefix)
