-- ===== src/Steps/Parser.antt =====
-- internal/steps/expr.go, the parser. Its state is the current token and the lexer's input. The
-- functions call one another on what is left of the input, so each call costs a unit of fuel.
pub mod Grammar
pub mod Complete
pub mod Leaves
pub mod Sound
pub mod Progress
pub mod Decides
use vortara.Base.{
  ℕ, zero, suc, ◌+◌, ◌*◌, String, Bool, true, false, Option, none, some, ◌==◌, if◌then◌else◌,
}
use vortara.Errors.{
  GoError, unexpected_token, expected_field, expected_string, unknown_function, expected_operator,
  invalid_number, expected_literal,
}
use vortara.Runtime.{Runtime}
use vortara.Steps.Expr.{
  Operator, op_eq, op_ne, op_gt, op_gte, op_lt, op_lte, Literal, text_literal, float_literal,
  bool_literal, Expr, cmp_expr, and_expr, or_expr, not_expr, contains_expr, starts_with_expr,
}
use vortara.Steps.Lexer.{
  TokenKind, tok_string, tok_number, tok_bool, tok_eq, tok_ne, tok_gt, tok_gte, tok_lt, tok_lte,
  tok_and, tok_or, tok_not, tok_lparen, tok_rparen, tok_comma, tok_ident, tok_eof, Token, lex_next,
}
use vortara.Text.{to_lower}

-- What a parse returns: a value, an error, or nothing when the fuel is spent.
pub data Outcome {ℓ} (A : Type ℓ) : Type ℓ where
  done : A → Outcome A
  failed : GoError → Outcome A
  out_of_fuel : Outcome A

module _ {ℓ κ} {A : Type ℓ} {B : Type κ} where
  infixl 5 ◌>>=◌
  abbrev pub ◌>>=◌ : Outcome A → (A → Outcome B) → Outcome B
  done a >>= f = f a
  failed e >>= f = failed e
  out_of_fuel >>= f = out_of_fuel

-- `cur`, and what the lexer has left.
abbrev pub Cursor : Type 0
Cursor = Token × String

abbrev pub Parsed : Type 0
Parsed = Outcome (Expr × Cursor)

-- parser.next
abbrev pub next : Cursor → Cursor
next c = lex_next c.1

abbrev pub is_or : TokenKind → Bool
is_or tok_or = true
is_or _ = false

abbrev pub is_and : TokenKind → Bool
is_and tok_and = true
is_and _ = false

abbrev pub is_not : TokenKind → Bool
is_not tok_not = true
is_not _ = false

abbrev pub is_lparen : TokenKind → Bool
is_lparen tok_lparen = true
is_lparen _ = false

abbrev pub is_rparen : TokenKind → Bool
is_rparen tok_rparen = true
is_rparen _ = false

abbrev pub is_comma : TokenKind → Bool
is_comma tok_comma = true
is_comma _ = false

abbrev pub is_string : TokenKind → Bool
is_string tok_string = true
is_string _ = false

abbrev pub is_name : TokenKind → Bool
is_name tok_ident = true
is_name _ = false

abbrev pub is_eof : TokenKind → Bool
is_eof tok_eof = true
is_eof _ = false

-- `p.expect(kind)` before the rest, which begins behind the token
abbrev expect {ℓ} : {A : Type ℓ} → (TokenKind → Bool) → Cursor → (Cursor → Outcome A) → Outcome A
expect is_kind c k = if is_kind c.0.kind then k (next c) else failed (unexpected_token c.0.val)

-- The comparison tokens, and tokenKind.String.
abbrev pub operator : TokenKind → Option Operator
operator tok_eq = some op_eq
operator tok_ne = some op_ne
operator tok_gt = some op_gt
operator tok_gte = some op_gte
operator tok_lt = some op_lt
operator tok_lte = some op_lte
operator _ = none

-- The literal that a token stands for.
unfoldable pub literal : Runtime → Token → Outcome Literal
literal rt t = elim t.kind [
  | tok_string ↦ done (text_literal t.val)
  | tok_number ↦ elim (rt.parse_float t.val) [
    | none ↦ failed (invalid_number t.val)
    | some x ↦ done (float_literal x)
  ]
  | tok_bool ↦ done (bool_literal (t.val == "true"))
  | _ ↦ failed (expected_literal t.val)
]

-- parseComparison, with parseValue
unfoldable pub parse_comparison : Runtime → String → Cursor → Parsed
unfolding literal
parse_comparison rt field c = elim (operator c.0.kind) [
  | none ↦ failed (expected_operator field)
  | some op ↦ literal rt (next c).0 >>= λ v. done (cmp_expr field op v, next (next c))
]

-- The switch on the function's name.
unfoldable pub call : String → String → String → Outcome Expr
unfolding to_lower
call name field arg =
    if to_lower name == "contains"
    then done (contains_expr field arg)
    else if to_lower name == "startswith"
    then done (starts_with_expr field arg)
    else failed (unknown_function name)

-- parseFunctionCall, at the opening parenthesis
unfoldable pub parse_function_call : String → Cursor → Parsed
unfolding call
parse_function_call name c =
    let c1 = next c in
    if is_name c1.0.kind
    then expect is_comma (next c1) (λ c2.
      if is_string c2.0.kind
      then expect is_rparen (next c2) (λ c3. call name c1.0.val c2.0.val >>= λ e. done (e, c3))
      else failed (expected_string name))
    else failed (expected_field name)

abbrev pub named : Runtime → String → Cursor → Parsed
named rt name c =
    if is_lparen c.0.kind then parse_function_call name c else parse_comparison rt name c

unfoldable mutual
  unfolding parse_function_call parse_comparison

  -- parseOr and its loop
  pub parse_or : Runtime → ℕ → Cursor → Parsed
  parse_or rt zero c = out_of_fuel
  parse_or rt (suc f) c = parse_and rt f c >>= λ r. or_loop rt f r.0 r.1

  pub or_loop : Runtime → ℕ → Expr → Cursor → Parsed
  or_loop rt zero left c = out_of_fuel
  or_loop rt (suc f) left c =
      let more = parse_and rt f (next c) >>= λ r. or_loop rt f (or_expr left r.0) r.1 in
      if is_or c.0.kind then more else done (left, c)

  -- parseAnd and its loop
  pub parse_and : Runtime → ℕ → Cursor → Parsed
  parse_and rt zero c = out_of_fuel
  parse_and rt (suc f) c = parse_not rt f c >>= λ r. and_loop rt f r.0 r.1

  pub and_loop : Runtime → ℕ → Expr → Cursor → Parsed
  and_loop rt zero left c = out_of_fuel
  and_loop rt (suc f) left c =
      let more = parse_not rt f (next c) >>= λ r. and_loop rt f (and_expr left r.0) r.1 in
      if is_and c.0.kind then more else done (left, c)

  pub parse_not : Runtime → ℕ → Cursor → Parsed
  parse_not rt zero c = out_of_fuel
  parse_not rt (suc f) c =
      let inner = parse_not rt f (next c) >>= λ r. done (not_expr r.0, r.1) in
      let primary = parse_primary rt f c in if is_not c.0.kind then inner else primary

  pub parse_primary : Runtime → ℕ → Cursor → Parsed
  parse_primary rt zero c = out_of_fuel
  parse_primary rt (suc f) c =
      let inner = parse_or rt f (next c) >>= λ r. expect is_rparen r.1 λ c'. done (r.0, c') in
      if is_lparen c.0.kind
      then inner
      else if is_name c.0.kind
      then named rt c.0.val (next c)
      else failed (unexpected_token c.0.val)

-- The number of a text's characters.
abbrev pub size : String → ℕ
size String.[] = 0
size (String.◌∷◌ c s) = suc (size s)

abbrev pub enough : ℕ → ℕ
enough n = 4 * n + 5

abbrev pub whole : Expr × Cursor → Outcome Expr
whole (e, c) = if is_eof c.0.kind then done e else failed (unexpected_token c.0.val)

-- parseExpr
unfoldable pub parse_expr : Runtime → String → Outcome Expr
unfolding parse_or
parse_expr rt condition = parse_or rt (enough (size condition)) (lex_next condition) >>= whole
