-- ===== src/Steps/Parser/Decides.antt =====
-- The parser against the grammar.
use vortara.Base.{arith, String, ◌≡◌, refl, ap, sym, ◌∙◌, ◌⊎◌, inl, inr}
use vortara.Errors.{GoError}
use vortara.Runtime.{Runtime}
use vortara.Steps.Expr.{Expr}
use vortara.Steps.Parser.{Outcome, done, failed, out_of_fuel, parse_expr}
use vortara.Steps.Parser.Complete.{parse_expr_complete}
use vortara.Steps.Parser.Leaves.{Answers}
use vortara.Steps.Parser.Sound.{Condition, parse_expr-Answers}

failed-done : {A : Type 0} (err : GoError) (a : A) → ¬ (failed err ≡ done a)
failed-done err a h = ground arith

-- The two ways a run ends when its answers are known.
Answers-cases :
    {A : Type 0} (Q : A → Type 0) (m : Outcome A)
    → Answers Q m
    → ((a : A) × m ≡ done a × Q a) ⊎ ((err : GoError) × m ≡ failed err)
Answers-cases Q (done a) h = inl (a, refl, h)
Answers-cases Q (failed err) h = inr (err, refl)
Answers-cases Q out_of_fuel h = elim h [ ]

-- Parsing always ends. Either it returns an expression that the grammar derives from the condition's
-- tokens, or it returns an error and the grammar derives no expression from them.
pub parse_expr-decides :
    (rt : Runtime) (condition : String)
    → ((e : Expr) × parse_expr rt condition ≡ done e × Condition rt condition e)
      ⊎ ((err : GoError) × parse_expr rt condition ≡ failed err
          × ((e : Expr) → ¬ Condition rt condition e))
parse_expr-decides rt condition =
    elim (Answers-cases (Condition rt condition) (parse_expr rt condition)
      (parse_expr-Answers rt condition)) [
        | inl h ↦ inl h
        | inr (err, h) ↦ inr (
          err,
          h,
          λ e (ts, c, r, z, d).
              failed-done err e (sym h ∙ parse_expr_complete rt condition ts e c r z d),
        )
      ]

-- The grammar gives a condition at most one expression.
pub Condition-unique :
    (rt : Runtime) (condition : String) (e e' : Expr)
    → Condition rt condition e
    → Condition rt condition e'
    → e ≡ e'
Condition-unique rt condition e e' (ts, c, r, z, d) (ts', c', r', z', d') = done-injective (
    sym (parse_expr_complete rt condition ts e c r z d)
    ∙ parse_expr_complete rt condition ts' e' c' r' z' d')
  where
    value : Outcome Expr → Expr
    value (done a) = a
    value _ = e

    done-injective : done e ≡ done e' → e ≡ e'
    done-injective h = ap value h
