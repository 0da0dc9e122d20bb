-- ===== src/Steps/Tests.antt =====
-- Conditions, parsed and evaluated.
use vortara.Text.{contains}
use vortara.Base.{lookup, insert, delete, List, ◌++◌, String, true, false, [], ◌∷◌, ◌≡◌, refl, ◌⊎◌}
use vortara.Errors.{GoError, ok, unexpected_token}
use vortara.Samples.{rt}
use vortara.Steps.Eval.{eval}
use vortara.Steps.Expr.{
  Expr, op_eq, op_lt, text_literal, bool_literal, cmp_expr, and_expr, or_expr, not_expr,
  contains_expr,
}
use vortara.Steps.Lexer.{lex_next}
use vortara.Steps.Pipeline.{TransformStep, StepFn, new, apply, rename_all, mask_all, mutating}
use vortara.Steps.Pipeline.Mask.{IsMasked, apply-IsMasked}
use vortara.Steps.Parser.{parse_expr, done, failed}
use vortara.Steps.Parser.Decides.{parse_expr-decides}
use vortara.Steps.Parser.Sound.{Condition}
use vortara.Value.{Value, Payload, str, bool}

abbrev condition : String
condition = "plan == 'pro' OR NOT vip == true AND contains(name, 'a')"

-- AND binds closer than OR, and NOT closer than both.
precedence :
    parse_expr rt condition
    ≡ done (
        or_expr (cmp_expr "plan" op_eq (text_literal "pro")) (
          and_expr
            (not_expr (cmp_expr "vip" op_eq (bool_literal true)))
            (contains_expr "name" "a")))
unfolding parse_expr lex_next
precedence = refl

-- A byte that begins no token ends the input, so what follows it is dropped without an error.
dropped :
    parse_expr rt "plan == 'pro' && vip == true" ≡ done (cmp_expr "plan" op_eq (text_literal "pro"))
unfolding parse_expr lex_next
dropped = refl

unclosed : parse_expr rt "(plan == 'pro'" ≡ failed (unexpected_token "")
unfolding parse_expr lex_next
unclosed = refl

abbrev ann : Payload
ann = ("name", str "ann") ∷ ("vip", bool false) ∷ []

found : eval rt ann (contains_expr "name" "nn") ≡ true
unfolding eval lookup contains
found = refl

below : eval rt ann (cmp_expr "name" op_lt (text_literal "bob")) ≡ true
unfolding eval lookup contains
below = refl

parse_expr-decides_example :
    ((e : Expr) × parse_expr rt condition ≡ done e × Condition rt condition e)
    ⊎ ((err : GoError) × parse_expr rt condition ≡ failed err
        × ((e : Expr) → ¬ Condition rt condition e))
parse_expr-decides_example = parse_expr-decides rt condition

abbrev no_step : TransformStep
no_step = record {
  filter = "";
  rename = [];
  add = [];
  drop = [];
  mask = [];
  trim = [];
  flatten = "";
}

abbrev keep_value : String → Payload → Value
keep_value expr row = str expr

abbrev keep_row : String → Payload → Payload
keep_row sep row = row

abbrev steps : List TransformStep
steps = record no_step { rename = ("mail", "email") ∷ [] } ∷ []

abbrev masking : TransformStep
masking = record no_step { mask = "email" ∷ [] }

abbrev fns : List StepFn
fns = mutating (rename_all (("mail", "email") ∷ [])) ∷ mutating (mask_all ("email" ∷ [])) ∷ []

built : new rt keep_value keep_row (steps ++ masking ∷ []) ≡ ok fns
unfolding new
built = refl

kept : apply fns (("mail", str "a@b.c") ∷ []) ≡ (("email", str "***") ∷ [], true)
unfolding apply rename_all mask_all lookup insert delete
kept = refl

apply-IsMasked_example : IsMasked "email" (("email", str "***") ∷ [])
apply-IsMasked_example =
    apply-IsMasked rt keep_value keep_row steps masking fns "email" (("mail", str "a@b.c") ∷ [])
      (("email", str "***") ∷ []) built refl kept
