-- ===== src/Steps/Parser/Leaves.antt =====
-- The parts of the parser that do not call themselves: each answers with an error or with what the
-- grammar derives.
use vortara.Base.{
  String, true, false, List, [], ◌∷◌, ◌++◌, some, ◌≡◌, refl, arith, Bool-cases, Option-cases, inl,
  inr,
}
use vortara.Runtime.{Runtime}
use vortara.Steps.Expr.{Operator, Literal, Expr}
use vortara.Steps.Lexer.{
  TokenKind, Token, tok_or, tok_and, tok_not, tok_lparen, tok_rparen, tok_comma, tok_string,
  tok_ident, tok_eof,
}
use vortara.Steps.Parser.{
  Cursor, next, operator, literal, call, named, done, failed, out_of_fuel, Outcome, ◌>>=◌,
  parse_comparison, parse_function_call, is_or, is_and, is_not, is_lparen, is_rparen, is_comma,
  is_string, is_name, is_eof,
}
use vortara.Steps.Parser.Grammar.{Reads, nothing, reads, IsPrimary, compared, called}

-- The outcome is an error, or a value of which `Q` holds.
abbrev pub Answers {ℓ} : {A : Type ℓ} → (A → Type 0) → Outcome A → Type 0
Answers Q (done a) = Q a
Answers Q (failed e) = Unit
Answers Q out_of_fuel = ⊥

pub Answers-bind {ℓ κ} :
    {A : Type ℓ} {B : Type κ} (P : A → Type 0) (Q : B → Type 0) (m : Outcome A) (f : A → Outcome B)
    → Answers P m
    → ((a : A) → P a → Answers Q (f a))
    → Answers Q (m >>= f)
Answers-bind P Q (done a) f h k = k a h
Answers-bind P Q (failed e) f h k = tt
Answers-bind P Q out_of_fuel f h k = elim h [ ]

-- A weaker fact about the value.
pub Answers-map :
    {A : Type 0} (P Q : A → Type 0) (m : Outcome A)
    → Answers P m
    → ((a : A) → P a → Q a)
    → Answers Q m
Answers-map P Q (done a) h k = k a h
Answers-map P Q (failed e) h k = tt
Answers-map P Q out_of_fuel h k = h

-- The value may be taken with the equation that it satisfies.
answered : {A : Type 0} (m : Outcome A) → Answers (λ a. Unit {0}) m → Answers (λ a. m ≡ done a) m
answered (done a) h = refl
answered (failed e) h = tt
answered out_of_fuel h = h

-- Tokens from `c` on that some form of the grammar derives.
abbrev pub Derived : (List Token → Expr → Type 0) → Cursor → Expr × Cursor → Type 0
Derived F c r = (ts : List Token) × Reads c ts r.1 × F ts r.0

pub Reads-append :
    {ts us : List Token} {c m c' : Cursor} → Reads c ts m → Reads m us c' → Reads c (ts ++ us) c'
Reads-append nothing r = r
Reads-append (reads e z a) r = reads e z (Reads-append a r)

pub or_of_test : (k : TokenKind) → is_or k ≡ true → k ≡ tok_or
or_of_test k h = ground arith

pub and_of_test : (k : TokenKind) → is_and k ≡ true → k ≡ tok_and
and_of_test k h = ground arith

pub not_of_test : (k : TokenKind) → is_not k ≡ true → k ≡ tok_not
not_of_test k h = ground arith

pub lparen_of_test : (k : TokenKind) → is_lparen k ≡ true → k ≡ tok_lparen
lparen_of_test k h = ground arith

pub rparen_of_test : (k : TokenKind) → is_rparen k ≡ true → k ≡ tok_rparen
rparen_of_test k h = ground arith

comma_of_test : (k : TokenKind) → is_comma k ≡ true → k ≡ tok_comma
comma_of_test k h = ground arith

string_of_test : (k : TokenKind) → is_string k ≡ true → k ≡ tok_string
string_of_test k h = ground arith

pub name_of_test : (k : TokenKind) → is_name k ≡ true → k ≡ tok_ident
name_of_test k h = ground arith

pub eof_of_test : (k : TokenKind) → is_eof k ≡ true → k ≡ tok_eof
eof_of_test k h = ground arith

-- Reading the current token, whose kind is known not to be the end.
pub Reads-one :
    {c c' : Cursor} {ts : List Token} (k : TokenKind)
    → c.0.kind ≡ k
    → is_eof k ≡ false
    → Reads (next c) ts c'
    → Reads c (c.0 ∷ ts) c'
Reads-one k h z r = reads refl (rw h z) r

module _ (rt : Runtime) where
  literal_kind : (t : Token) (v : Literal) → literal rt t ≡ done v → is_eof t.kind ≡ false
  unfolding literal
  literal_kind t v h = ground arith

  literal-Answers : (t : Token) → Answers (λ v. Unit {0}) (literal rt t)
  unfolding literal
  literal-Answers t = ground arith

  operator_kind : (k : TokenKind) (op : Operator) → operator k ≡ some op → is_eof k ≡ false
  operator_kind k op h = ground arith

  comparison-Derived :
      (c : Cursor)
      → c.0.kind ≡ tok_ident
      → Answers (Derived (IsPrimary rt) c) (parse_comparison rt c.0.val (next c))
  unfolding parse_comparison
  comparison-Derived c h = elim (Option-cases (operator (next c).0.kind)) [
    | inl e ↦ rw (e, parse_comparison) tt
    | inr (op, e) ↦
        rw (e, parse_comparison)
          (Answers-bind (λ v. literal rt (next (next c)).0 ≡ done v) (Derived (IsPrimary rt) c) _ _
            (answered (literal rt (next (next c)).0) (literal-Answers (next (next c)).0))
            (λ v hv. (
              c.0 ∷ (next c).0 ∷ (next (next c)).0 ∷ [],
              reads refl (rw h refl) (
                  reads refl (operator_kind (next c).0.kind op e)
                    (reads refl (literal_kind (next (next c)).0 v hv) nothing)),
              compared c.0 (next c).0 (next (next c)).0 h e hv,
            )))
  ]

  call-Answers : (name field arg : String) → Answers (λ e. Unit {0}) (call name field arg)
  unfolding call
  call-Answers name field arg = ground arith

  call-Derived :
      (c : Cursor)
      → c.0.kind ≡ tok_ident
      → (next c).0.kind ≡ tok_lparen
      → Answers (Derived (IsPrimary rt) c) (parse_function_call c.0.val (next c))
  unfolding parse_function_call
  call-Derived c h p =
      let c2 = next (next c) in
      let c3 = next c2 in
      let c4 = next c3 in
      let c5 = next c4 in
      elim (Bool-cases (is_name c2.0.kind)) [
        | inr a ↦ rw (a, parse_function_call) tt
        | inl a ↦ elim (Bool-cases (is_comma c3.0.kind)) [
          | inr b ↦ rw (a, parse_function_call) (rw b tt)
          | inl b ↦ elim (Bool-cases (is_string c4.0.kind)) [
            | inr d ↦ rw (a, parse_function_call) (rw (b, d) tt)
            | inl d ↦ elim (Bool-cases (is_rparen c5.0.kind)) [
              | inr g ↦ rw (a, parse_function_call) (rw (b, d, g) tt)
              | inl g ↦
                  rw (a, parse_function_call)
                    (rw (b, d, g)
                      (Answers-bind (λ e. call c.0.val c2.0.val c4.0.val ≡ done e)
                        (Derived (IsPrimary rt) c) _ _
                        (answered (call c.0.val c2.0.val c4.0.val)
                          (call-Answers c.0.val c2.0.val c4.0.val))
                        (λ e he. (
                          c.0 ∷ (next c).0 ∷ c2.0 ∷ c3.0 ∷ c4.0 ∷ c5.0 ∷ [],
                          Reads-one tok_ident h refl (
                              Reads-one tok_lparen p refl (
                                Reads-one tok_ident (name_of_test c2.0.kind a) refl (
                                  Reads-one tok_comma (comma_of_test c3.0.kind b) refl (
                                    Reads-one tok_string (string_of_test c4.0.kind d) refl (
                                      Reads-one tok_rparen (rparen_of_test c5.0.kind g) refl
                                        nothing))))),
                          called c.0 (next c).0 c2.0 c3.0 c4.0 c5.0 h p (name_of_test c2.0.kind a)
                              (comma_of_test c3.0.kind b) (string_of_test c4.0.kind d)
                              (rparen_of_test c5.0.kind g) he,
                        ))))
            ]
          ]
        ]
      ]

  pub named-Derived :
      (c : Cursor)
      → c.0.kind ≡ tok_ident
      → Answers (Derived (IsPrimary rt) c) (named rt c.0.val (next c))
  named-Derived c h = elim (Bool-cases (is_lparen (next c).0.kind)) [
    | inl p ↦ rw p (call-Derived c h (lparen_of_test (next c).0.kind p))
    | inr p ↦ rw p (comparison-Derived c h)
  ]
