-- ===== src/Steps/Parser/Sound.antt =====
-- What the parser accepts the grammar derives, and with enough fuel it always answers.
use vortara.Base.{
  ℕ, zero, suc, ◌+◌, ◌*◌, ◌≤◌, ◌<◌, String, List, [], ◌∷◌, ◌++◌, length, length-append, ◌≡◌, refl,
  arith, ap, Bool-cases, inl, inr,
}
use vortara.Runtime.{Runtime}
use vortara.Steps.Expr.{Expr, and_expr, or_expr}
use vortara.Steps.Lexer.{Token, tok_or, tok_and, tok_not, tok_lparen, tok_rparen, tok_eof, lex_next}
use vortara.Steps.Lexer.Progress.{weight, weight-lex_next}
use vortara.Steps.Parser.{
  Cursor, next, parse_or, or_loop, parse_and, and_loop, parse_not, parse_primary, is_or, is_and,
  is_not, is_lparen, is_rparen, is_name, is_eof, size, parse_expr, enough, whole,
}
use vortara.Steps.Parser.Grammar.{
  Reads, nothing, IsOr, ors, IsOrTail, or_end, or_more, IsAnd, ands, IsAndTail, and_end, and_more,
  IsNot, negated, positive, IsPrimary, grouped, compared, called,
}
use vortara.Steps.Parser.Progress.{weight-next, Reads-length}
use vortara.Steps.Parser.Leaves.{
  Answers, Answers-bind, Answers-map, Derived, Reads-append, Reads-one, and_of_test, eof_of_test,
  lparen_of_test, name_of_test, named-Derived, not_of_test, or_of_test, rparen_of_test,
}

module _ (rt : Runtime) where
  -- What is derived from some tokens on leaves less to read.
  mutual
    or_length : {ts : List Token} {e : Expr} → IsOr rt ts e → 1 ≤ length ts
    or_length (ors {ts} {us} a d) = omega (arith, length-append ts us, and_length a)

    and_length : {ts : List Token} {e : Expr} → IsAnd rt ts e → 1 ≤ length ts
    and_length (ands {ts} {us} a d) = omega (arith, length-append ts us, not_length a)

    not_length : {ts : List Token} {e : Expr} → IsNot rt ts e → 1 ≤ length ts
    not_length (negated h d) = omega arith
    not_length (positive d) = primary_length d

    primary_length : {ts : List Token} {e : Expr} → IsPrimary rt ts e → 1 ≤ length ts
    primary_length (grouped t u ht d hu) = omega arith
    primary_length (compared f o v hf ho hv) = omega arith
    primary_length (called m p f k s q hm hp hf hk hs hq he) = omega arith

  mutual
    unfolding parse_or

    IsOr-Derived :
        (n : ℕ) (c : Cursor)
        → 4 * weight c + 3 < n
        → Answers (Derived (IsOr rt) c) (parse_or rt n c)
    IsOr-Derived zero c b = absurd (omega arith)
    IsOr-Derived (suc n) c b =
        Answers-bind (Derived (IsAnd rt) c) (Derived (IsOr rt) c) (parse_and rt n c) _
          (IsAnd-Derived n c (omega arith))
          (λ r (ts, read, d).
            Answers-map (Derived (IsOrTail rt r.0) r.1) (Derived (IsOr rt) c) _
              (IsOrTail-Derived n r.0 r.1 (omega (arith, Reads-length read, and_length d)))
              (λ q (us, read', d'). (ts ++ us, Reads-append read read', ors d d')))

    IsOrTail-Derived :
        (n : ℕ) (l : Expr) (c : Cursor)
        → 4 * weight c + 2 < n
        → Answers (Derived (IsOrTail rt l) c) (or_loop rt n l c)
    IsOrTail-Derived zero l c b = absurd (omega arith)
    IsOrTail-Derived (suc n) l c b = elim (Bool-cases (is_or c.0.kind)) [
      | inr h ↦ rw h ([], nothing, or_end)
      | inl h ↦
          let k = or_of_test c.0.kind h in
          rw h (
            Answers-bind (Derived (IsAnd rt) (next c)) (Derived (IsOrTail rt l) c)
              (parse_and rt n (next c)) _
              (IsAnd-Derived n (next c) (omega (arith, weight-next c (ap is_eof k))))
              (λ r (ts, read, d).
                Answers-map (Derived (IsOrTail rt (or_expr l r.0)) r.1) (Derived (IsOrTail rt l) c)
                  _
                  (IsOrTail-Derived n (or_expr l r.0) r.1
                    (omega (arith, weight-next c (ap is_eof k), Reads-length read)))
                  (λ q (us, read', d'). (
                    c.0 ∷ ts ++ us,
                    Reads-one tok_or k refl (Reads-append read read'),
                    or_more k d d',
                  ))))
    ]

    IsAnd-Derived :
        (n : ℕ) (c : Cursor)
        → 4 * weight c + 2 < n
        → Answers (Derived (IsAnd rt) c) (parse_and rt n c)
    IsAnd-Derived zero c b = absurd (omega arith)
    IsAnd-Derived (suc n) c b =
        Answers-bind (Derived (IsNot rt) c) (Derived (IsAnd rt) c) (parse_not rt n c) _
          (IsNot-Derived n c (omega arith))
          (λ r (ts, read, d).
            Answers-map (Derived (IsAndTail rt r.0) r.1) (Derived (IsAnd rt) c) _
              (IsAndTail-Derived n r.0 r.1 (omega (arith, Reads-length read, not_length d)))
              (λ q (us, read', d'). (ts ++ us, Reads-append read read', ands d d')))

    IsAndTail-Derived :
        (n : ℕ) (l : Expr) (c : Cursor)
        → 4 * weight c + 1 < n
        → Answers (Derived (IsAndTail rt l) c) (and_loop rt n l c)
    IsAndTail-Derived zero l c b = absurd (omega arith)
    IsAndTail-Derived (suc n) l c b = elim (Bool-cases (is_and c.0.kind)) [
      | inr h ↦ rw h ([], nothing, and_end)
      | inl h ↦
          let k = and_of_test c.0.kind h in
          rw h (
            Answers-bind (Derived (IsNot rt) (next c)) (Derived (IsAndTail rt l) c)
              (parse_not rt n (next c)) _
              (IsNot-Derived n (next c) (omega (arith, weight-next c (ap is_eof k))))
              (λ r (ts, read, d).
                Answers-map (Derived (IsAndTail rt (and_expr l r.0)) r.1)
                  (Derived (IsAndTail rt l) c) _
                  (IsAndTail-Derived n (and_expr l r.0) r.1
                    (omega (arith, weight-next c (ap is_eof k), Reads-length read)))
                  (λ q (us, read', d'). (
                    c.0 ∷ ts ++ us,
                    Reads-one tok_and k refl (Reads-append read read'),
                    and_more k d d',
                  ))))
    ]

    IsNot-Derived :
        (n : ℕ) (c : Cursor)
        → 4 * weight c + 1 < n
        → Answers (Derived (IsNot rt) c) (parse_not rt n c)
    IsNot-Derived zero c b = absurd (omega arith)
    IsNot-Derived (suc n) c b = elim (Bool-cases (is_not c.0.kind)) [
      | inr h ↦ rw h (
          Answers-map (Derived (IsPrimary rt) c) (Derived (IsNot rt) c) _
            (IsPrimary-Derived n c (omega arith)) (λ r (ts, read, d). (ts, read, positive d)))
      | inl h ↦
          let k = not_of_test c.0.kind h in
          rw h (
            Answers-bind (Derived (IsNot rt) (next c)) (Derived (IsNot rt) c)
              (parse_not rt n (next c)) _
              (IsNot-Derived n (next c) (omega (arith, weight-next c (ap is_eof k))))
              (λ r (ts, read, d). (c.0 ∷ ts, Reads-one tok_not k refl read, negated k d)))
    ]

    IsPrimary-Derived :
        (n : ℕ) (c : Cursor)
        → 4 * weight c < n
        → Answers (Derived (IsPrimary rt) c) (parse_primary rt n c)
    IsPrimary-Derived zero c b = absurd (omega arith)
    IsPrimary-Derived (suc n) c b = elim (Bool-cases (is_lparen c.0.kind)) [
      | inr h ↦ elim (Bool-cases (is_name c.0.kind)) [
        | inr g ↦ rw (h, g) tt
        | inl g ↦ rw (h, g) (named-Derived rt c (name_of_test c.0.kind g))
      ]
      | inl h ↦
          let k = lparen_of_test c.0.kind h in
          rw h (
            Answers-bind (Derived (IsOr rt) (next c)) (Derived (IsPrimary rt) c)
              (parse_or rt n (next c)) _
              (IsOr-Derived n (next c) (omega (arith, weight-next c (ap is_eof k))))
              (λ r (ts, read, d). elim (Bool-cases (is_rparen r.1.0.kind)) [
                | inr g ↦ rw g tt
                | inl g ↦
                    let q = rparen_of_test r.1.0.kind g in
                    rw g (
                      c.0 ∷ ts ++ r.1.0 ∷ [],
                      Reads-one tok_lparen k refl
                          (Reads-append read (Reads-one tok_rparen q refl nothing)),
                      grouped c.0 r.1.0 k d q,
                    )
              ]))
    ]

-- `e` is derived from the tokens of the condition, all of them up to the end.
abbrev pub Condition : Runtime → String → Expr → Type 0
Condition rt condition e =
    (ts : List Token) × (c : Cursor) × Reads (lex_next condition) ts c
    × c.0.kind ≡ tok_eof
    × IsOr rt ts e

pub parse_expr-Answers :
    (rt : Runtime) (condition : String) → Answers (Condition rt condition) (parse_expr rt condition)
unfolding parse_expr
parse_expr-Answers rt condition =
    Answers-bind (Derived (IsOr rt) (lex_next condition)) (Condition rt condition) _ whole
      (IsOr-Derived rt (enough (size condition)) (lex_next condition)
        (omega (arith, weight-lex_next condition)))
      (λ r (ts, read, d). elim (Bool-cases (is_eof r.1.0.kind)) [
        | inl h ↦ rw h (ts, r.1, read, eof_of_test r.1.0.kind h, d)
        | inr h ↦ rw h tt
      ])
