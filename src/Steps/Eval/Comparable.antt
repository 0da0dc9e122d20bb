-- ===== src/Steps/Eval/Comparable.antt =====
-- Where the comparison of a field with a literal has a meaning.
use vortara.Base.{
  String, Bool, true, false, not, ◌||◌, lookup, ◌≡◌, refl, arith, Option-cases, inl, inr,
}
use vortara.Runtime.{Runtime}
use vortara.Steps.Eval.{eval, compare_value, on_value}
use vortara.Steps.Expr.{
  op_eq, op_ne, Literal, text_literal, float_literal, bool_literal, cmp_expr, not_expr,
}
use vortara.Value.{Value, Payload, bool, int, float64, str}

-- The value has the literal's type: a text, a number or a Boolean.
abbrev pub comparable : Value → Literal → Bool
comparable (str s) (text_literal t) = true
comparable (int z) (float_literal y) = true
comparable (float64 x) (float_literal y) = true
comparable (bool a) (bool_literal b) = true
comparable _ _ = false

abbrev pub field_comparable : Payload → String → Literal → Bool
field_comparable row field value = on_value (lookup field row) λ left. comparable left value

or_false : (b : Bool) → b ≡ b || false
or_false true = refl
or_false false = refl

value_ne :
    (rt : Runtime) (left : Value) (value : Literal)
    → not (compare_value rt op_eq left value)
      ≡ compare_value rt op_ne left value || not (comparable left value)
value_ne rt left value = grind (arith, or_false)

-- `NOT f == v` and `f != v` differ in just one case: where the row has no field f or its value is not
-- of the literal's type, the first holds and the second does not.
eval-not_eq :
    (rt : Runtime) (row : Payload) (field : String) (value : Literal)
    → eval rt row (not_expr (cmp_expr field op_eq value))
      ≡ eval rt row (cmp_expr field op_ne value) || not (field_comparable row field value)
unfolding eval
eval-not_eq rt row field value = elim (Option-cases (lookup field row)) [
  | inl h ↦ rw h refl
  | inr (left, h) ↦ rw h (value_ne rt left value)
]
