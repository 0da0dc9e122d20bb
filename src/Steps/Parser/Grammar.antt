-- ===== src/Steps/Parser/Grammar.antt =====
-- The language of conditions as a grammar over tokens, independent of the parser: OR binds loosest,
-- then AND, then NOT; OR and AND group to the left.
use vortara.Base.{false, List, [], ◌∷◌, ◌++◌, some, ◌≡◌}
use vortara.Runtime.{Runtime}
use vortara.Steps.Expr.{Operator, Literal, Expr, cmp_expr, and_expr, or_expr, not_expr}
use vortara.Steps.Lexer.{
  Token, tok_or, tok_and, tok_not, tok_lparen, tok_rparen, tok_comma, tok_string, tok_ident,
}
use vortara.Steps.Parser.{Cursor, next, operator, literal, call, done, is_eof}

-- From the first cursor the lexer gives these tokens, none of them the end, and is then at the second
-- cursor.
pub data Reads : Cursor → List Token → Cursor → Type 0 where
  nothing : {c : Cursor} → Reads c [] c
  reads :
      {c c' : Cursor} {t : Token} {ts : List Token}
      → c.0 ≡ t
      → is_eof t.kind ≡ false
      → Reads (next c) ts c'
      → Reads c (t ∷ ts) c'

mutual
  pub data IsOr (rt : Runtime) : List Token → Expr → Type 0 where
    ors :
        {ts us : List Token} {l e : Expr}
        → IsAnd rt ts l
        → IsOrTail rt l us e
        → IsOr rt (ts ++ us) e

  -- What may follow the left operand `l`, and the expression that comes of it.
  pub data IsOrTail (rt : Runtime) : Expr → List Token → Expr → Type 0 where
    or_end : {l : Expr} → IsOrTail rt l [] l
    or_more :
        {l r e : Expr} {ts us : List Token} {t : Token}
        → t.kind ≡ tok_or
        → IsAnd rt ts r
        → IsOrTail rt (or_expr l r) us e
        → IsOrTail rt l (t ∷ ts ++ us) e

  pub data IsAnd (rt : Runtime) : List Token → Expr → Type 0 where
    ands :
        {ts us : List Token} {l e : Expr}
        → IsNot rt ts l
        → IsAndTail rt l us e
        → IsAnd rt (ts ++ us) e

  pub data IsAndTail (rt : Runtime) : Expr → List Token → Expr → Type 0 where
    and_end : {l : Expr} → IsAndTail rt l [] l
    and_more :
        {l r e : Expr} {ts us : List Token} {t : Token}
        → t.kind ≡ tok_and
        → IsNot rt ts r
        → IsAndTail rt (and_expr l r) us e
        → IsAndTail rt l (t ∷ ts ++ us) e

  pub data IsNot (rt : Runtime) : List Token → Expr → Type 0 where
    negated :
        {ts : List Token} {e : Expr} {t : Token}
        → t.kind ≡ tok_not
        → IsNot rt ts e
        → IsNot rt (t ∷ ts) (not_expr e)
    positive : {ts : List Token} {e : Expr} → IsPrimary rt ts e → IsNot rt ts e

  pub data IsPrimary (rt : Runtime) : List Token → Expr → Type 0 where
    grouped :
        {ts : List Token} {e : Expr} (t u : Token)
        → t.kind ≡ tok_lparen
        → IsOr rt ts e
        → u.kind ≡ tok_rparen
        → IsPrimary rt (t ∷ ts ++ u ∷ []) e
    compared :
        (f o v : Token) {op : Operator} {lit : Literal}
        → f.kind ≡ tok_ident
        → operator o.kind ≡ some op
        → literal rt v ≡ done lit
        → IsPrimary rt (f ∷ o ∷ v ∷ []) (cmp_expr f.val op lit)
    called :
        (n p f k s q : Token) {e : Expr}
        → n.kind ≡ tok_ident
        → p.kind ≡ tok_lparen
        → f.kind ≡ tok_ident
        → k.kind ≡ tok_comma
        → s.kind ≡ tok_string
        → q.kind ≡ tok_rparen
        → call n.val f.val s.val ≡ done e
        → IsPrimary rt (n ∷ p ∷ f ∷ k ∷ s ∷ q ∷ []) e
