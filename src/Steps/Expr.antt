-- ===== src/Steps/Expr.antt =====
-- internal/steps/expr.go: what a condition compiles to.
use vortara.Base.{ℕ, String, Bool}

-- `op`, which the parser takes from one of six tokens.
pub data Operator : Type 0 where
  op_eq op_ne op_gt op_gte op_lt op_lte : Operator

-- The literal of a comparison: a string, a float64 or a bool.
pub data Literal : Type 0 where
  text_literal : String → Literal
  float_literal : ℕ → Literal
  bool_literal : Bool → Literal

pub data Expr : Type 0 where
  cmp_expr : String → Operator → Literal → Expr
  and_expr or_expr : Expr → Expr → Expr
  not_expr : Expr → Expr
  contains_expr starts_with_expr : String → String → Expr
