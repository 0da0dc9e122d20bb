-- ===== src/Steps/Parser/Progress.antt =====
-- How far the tokens read have moved the cursor.
use vortara.Base.{suc, ◌+◌, ◌≤◌, false, List, length, ◌≡◌, arith}
use vortara.Steps.Lexer.{Token}
use vortara.Steps.Lexer.Progress.{weight, weight-lex_next}
use vortara.Steps.Parser.{Cursor, next, is_eof}
use vortara.Steps.Parser.Grammar.{Reads, nothing, reads}

pub weight-next : (c : Cursor) → is_eof c.0.kind ≡ false → suc (weight (next c)) ≤ weight c
weight-next c h = ground (arith, weight-lex_next c.1)

pub Reads-length :
    {ts : List Token} {c c' : Cursor} → Reads c ts c' → length ts + weight c' ≤ weight c
Reads-length nothing = omega arith
Reads-length {c = c} (reads e z r) = omega (arith, Reads-length r, weight-next c (rw e z))
