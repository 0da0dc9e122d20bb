-- ===== src/Steps/Parser/Complete.antt =====
-- The parser reads what the grammar derives.
use vortara.Base.{
  ℕ, zero, suc, ◌+◌, ◌*◌, ◌<◌, String, false, List, [], ◌∷◌, ◌++◌, some, length, length-append, ◌≡◌,
  refl, arith, ap,
}
use vortara.Runtime.{Runtime}
use vortara.Steps.Expr.{Operator, Literal, Expr, cmp_expr}
use vortara.Steps.Lexer.Progress.{weight-lex_next}
use vortara.Steps.Parser.Progress.{Reads-length}
use vortara.Steps.Lexer.{
  tok_eof, lex_next, TokenKind, Token, tok_lparen, tok_rparen, tok_comma, tok_string, tok_ident,
}
use vortara.Steps.Parser.{
  Cursor, next, operator, literal, call, done, parse_or, or_loop, parse_and, and_loop, parse_not,
  parse_primary, parse_comparison, parse_function_call, is_or, is_and, is_not, is_lparen, is_eof,
  size, parse_expr, enough,
}
use vortara.Steps.Parser.Grammar.{
  Reads, nothing, reads, IsOr, ors, IsOrTail, or_end, or_more, IsAnd, ands, IsAndTail, and_end,
  and_more, IsNot, negated, positive, IsPrimary, grouped, compared, called,
}

-- The cursor between two stretches of tokens.
split :
    (ts us : List Token) {c c' : Cursor}
    → Reads c (ts ++ us) c'
    → (m : Cursor) × Reads c ts m × Reads m us c'
split [] us {c} r = (c, nothing, r)
split (t ∷ ts) us (reads e z r) = let (m, a, b) = split ts us r in (m, reads e z a, b)

-- The first of some tokens is current, and the rest follow.
first :
    {t : Token} {ts : List Token} {c c' : Cursor}
    → Reads c (t ∷ ts) c'
    → (c.0 ≡ t) × (is_eof t.kind ≡ false) × Reads (next c) ts c'
first (reads e z r) = (e, z, r)

-- No tokens are read in no step.
stays : {c c' : Cursor} → Reads c [] c' → c ≡ c'
stays nothing = refl

not_lparen : (k : TokenKind) (op : Operator) → operator k ≡ some op → is_lparen k ≡ false
not_lparen k op h = ground arith

module _ (rt : Runtime) where
  compared-parses :
      (f o v : Token) (op : Operator) (lit : Literal) {c c' : Cursor} (n : ℕ)
      → f.kind ≡ tok_ident
      → operator o.kind ≡ some op
      → literal rt v ≡ done lit
      → Reads c (f ∷ o ∷ v ∷ []) c'
      → parse_primary rt (suc n) c ≡ done (cmp_expr f.val op lit, c')
  unfolding parse_primary parse_comparison
  compared-parses f o v op lit n hf ho hv (reads e1 z1 (reads e2 z2 (reads e3 z3 nothing))) =
      rw (e1, hf, parse_primary)
        (rw (e2, not_lparen o.kind op ho) (rw (ho, parse_comparison) (rw (e3, hv) refl)))

  called-parses :
      (m p f k s q : Token) (e : Expr) {c c' : Cursor} (n : ℕ)
      → m.kind ≡ tok_ident
      → p.kind ≡ tok_lparen
      → f.kind ≡ tok_ident
      → k.kind ≡ tok_comma
      → s.kind ≡ tok_string
      → q.kind ≡ tok_rparen
      → call m.val f.val s.val ≡ done e
      → Reads c (m ∷ p ∷ f ∷ k ∷ s ∷ q ∷ []) c'
      → parse_primary rt (suc n) c ≡ done (e, c')
  unfolding parse_primary parse_function_call
  called-parses m p f k s q e n hm hp hf hk hs hq he
        (reads e1 z1
          (reads e2 z2 (reads e3 z3 (reads e4 z4 (reads e5 z5 (reads e6 z6 nothing)))))) =
      rw (e1, hm, parse_primary)
        (rw (e2, hp)
          (rw (e3, hf, parse_function_call) (rw (e4, hk) (rw (e5, hs) (rw (e6, hq) (rw he refl))))))

  -- Behind a sum comes no AND, as no NOT begins an operand.
  or_tail-first :
      {l e : Expr} {ts : List Token}
      → IsOrTail rt l ts e
      → {c c' : Cursor} → Reads c ts c'
      → is_and c'.0.kind ≡ false
      → is_and c.0.kind ≡ false
  or_tail-first or_end nothing h = h
  or_tail-first (or_more ht a d) (reads e z r) h = rw (e, ht) refl

  primary-first :
      {ts : List Token} {e : Expr}
      → IsPrimary rt ts e
      → {c c' : Cursor} → Reads c ts c'
      → is_not c.0.kind ≡ false
  primary-first (grouped t u ht d hu) (reads e z r) = rw (e, ht) refl
  primary-first (compared f o v hf ho hv) (reads e z r) = rw (e, hf) refl
  primary-first (called m p f k s q hm hp hf hk hs hq he) (reads e z r) = rw (e, hm) refl

  mutual
    unfolding parse_or

    or-parses :
        {ts : List Token} {e : Expr}
        → IsOr rt ts e
        → {c c' : Cursor} (n : ℕ) → Reads c ts c'
        → is_or c'.0.kind ≡ false
        → is_and c'.0.kind ≡ false
        → 4 * length ts + 3 < n
        → parse_or rt n c ≡ done (e, c')
    or-parses d zero r ho ha b = absurd (omega arith)
    or-parses (ors {ts} {us} a d) (suc n) r ho ha b =
        let (m, ra, rd) = split ts us r in
        rw (and-parses a n ra (or_tail-first d rd ha) (omega (arith, length-append ts us)))
          (or_tail-parses d n rd ho ha (omega (arith, length-append ts us)))

    or_tail-parses :
        {l e : Expr} {ts : List Token}
        → IsOrTail rt l ts e
        → {c c' : Cursor} (n : ℕ) → Reads c ts c'
        → is_or c'.0.kind ≡ false
        → is_and c'.0.kind ≡ false
        → 4 * length ts + 2 < n
        → or_loop rt n l c ≡ done (e, c')
    or_tail-parses d zero r ho ha b = absurd (omega arith)
    or_tail-parses or_end (suc n) nothing ho ha b = rw ho refl
    or_tail-parses (or_more {ts = ts} {us = us} ht a d) (suc n) (reads e1 z r) ho ha b =
        let (m, ra, rd) = split ts us r in
        rw (e1, ht)
          (rw (and-parses a n ra (or_tail-first d rd ha) (omega (arith, length-append ts us)))
            (or_tail-parses d n rd ho ha (omega (arith, length-append ts us))))

    and-parses :
        {ts : List Token} {e : Expr}
        → IsAnd rt ts e
        → {c c' : Cursor} (n : ℕ) → Reads c ts c'
        → is_and c'.0.kind ≡ false
        → 4 * length ts + 2 < n
        → parse_and rt n c ≡ done (e, c')
    and-parses d zero r ha b = absurd (omega arith)
    and-parses (ands {ts} {us} a d) (suc n) r ha b =
        let (m, ra, rd) = split ts us r in
        rw (not-parses a n ra (omega (arith, length-append ts us)))
          (and_tail-parses d n rd ha (omega (arith, length-append ts us)))

    and_tail-parses :
        {l e : Expr} {ts : List Token}
        → IsAndTail rt l ts e
        → {c c' : Cursor} (n : ℕ) → Reads c ts c'
        → is_and c'.0.kind ≡ false
        → 4 * length ts + 1 < n
        → and_loop rt n l c ≡ done (e, c')
    and_tail-parses d zero r ha b = absurd (omega arith)
    and_tail-parses and_end (suc n) nothing ha b = rw ha refl
    and_tail-parses (and_more {ts = ts} {us = us} ht a d) (suc n) (reads e1 z r) ha b =
        let (m, ra, rd) = split ts us r in
        rw (e1, ht)
          (rw (not-parses a n ra (omega (arith, length-append ts us)))
            (and_tail-parses d n rd ha (omega (arith, length-append ts us))))

    not-parses :
        {ts : List Token} {e : Expr}
        → IsNot rt ts e
        → {c c' : Cursor} (n : ℕ) → Reads c ts c'
        → 4 * length ts + 1 < n
        → parse_not rt n c ≡ done (e, c')
    not-parses d zero r b = absurd (omega arith)
    not-parses (negated ht d) (suc n) (reads e1 z r) b =
        rw (e1, ht) (rw (not-parses d n r (omega arith)) refl)
    not-parses (positive d) (suc n) r b =
        rw (primary-first d r) (primary-parses d n r (omega arith))

    primary-parses :
        {ts : List Token} {e : Expr}
        → IsPrimary rt ts e
        → {c c' : Cursor} (n : ℕ) → Reads c ts c'
        → 4 * length ts < n
        → parse_primary rt n c ≡ done (e, c')
    primary-parses d zero r b = absurd (omega arith)
    primary-parses (compared f o v hf ho hv) (suc n) r b = compared-parses f o v _ _ n hf ho hv r
    primary-parses (called m p f k s q hm hp hf hk hs hq he) (suc n) r b =
        called-parses m p f k s q _ n hm hp hf hk hs hq he r
    primary-parses (grouped {ts} {e} t u ht d hu) (suc n) (reads e1 z r) b =
        let (m, rd, ru) = split ts (u ∷ []) r in
        let (e2, z2, r2) = first ru in
        rw (e1, ht)
          (rw
            (or-parses d n rd (rw (e2, hu) refl) (rw (e2, hu) refl)
              (omega (arith, length-append ts (u ∷ []))))
            (rw (e2, hu) (ap (λ c. done (e, c)) (stays r2))))

-- The parser accepts a condition whose tokens up to the end the grammar derives, with the expression
-- that it derives.
pub parse_expr_complete :
    (rt : Runtime) (condition : String) (ts : List Token) (e : Expr) (c : Cursor)
    → Reads (lex_next condition) ts c
    → c.0.kind ≡ tok_eof
    → IsOr rt ts e
    → parse_expr rt condition ≡ done e
unfolding parse_expr
parse_expr_complete rt condition ts e c r h d =
    rw
      (or-parses rt d (enough (size condition)) r (rw h refl) (rw h refl)
        (omega (arith, Reads-length r, weight-lex_next condition)))
      (rw h refl)
