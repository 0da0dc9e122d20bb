-- ===== src/Steps/Lexer/Progress.antt =====
-- Each token takes something off the input.
use Prim.Native.Char.{Char}
use Prim.Native.String.{String}
use vortara.Base.{
  ℕ, suc, ◌+◌, ◌≤◌, Bool, true, false, if◌then◌else◌, ◌≡◌, refl, arith, Bool-cases, inl, inr,
}
use vortara.Steps.Lexer.{
  Token, is_digit, is_number, is_ident, not_quote, span, skip_space, tail, scan_string, scan_number,
  scan_word, lex_byte, lex_skipped, lex_next,
}
use vortara.Steps.Parser.{size, is_eof}

-- A current token that is not the end counts as one character.
abbrev pub weight : Token × String → ℕ
weight c = (if is_eof c.0.kind then 0 else 1) + size c.1

weight-le-suc : (c : Token × String) → weight c ≤ suc (size c.1)
weight-le-suc c = ground arith

size-tail : (s : String) → size (tail s) ≤ size s
size-tail String.[] = omega arith
size-tail (String.◌∷◌ c s) = omega arith

size-span : (p : Char → Bool) (s : String) → size (span p s).1 ≤ size s
unfolding span
size-span p String.[] = omega arith
size-span p (String.◌∷◌ c s) = ground (arith, size-span p s)

size-span_first :
    (p : Char → Bool) (c : Char) (s : String)
    → p c ≡ true
    → size (span p (String.◌∷◌ c s)).1 ≤ size s
unfolding span
size-span_first p c s h = ground (arith, size-span p s)

span_stop :
    (p : Char → Bool) (c : Char) (s : String)
    → p c ≡ false
    → span p (String.◌∷◌ c s) ≡ (String.[], String.◌∷◌ c s)
unfolding span
span_stop p c s h = rw (h, span) refl

size-skip_space : (s : String) → size (skip_space s) ≤ size s
unfolding skip_space
size-skip_space String.[] = omega arith
size-skip_space (String.◌∷◌ c s) = ground (arith, size-skip_space s)

weight-scan_string : (s : String) → weight (scan_string s) ≤ suc (size s)
unfolding scan_string
weight-scan_string s = omega (arith, size-tail (span not_quote s).1, size-span not_quote s)

weight-scan_number :
    (c : Char) (s : String)
    → is_digit c ≡ true
    → weight (scan_number (String.◌∷◌ c s)) ≤ suc (size s)
unfolding scan_number is_number
weight-scan_number c s h = omega (arith, size-span_first is_number c s (ground arith))

weight-scan_word : (c : Char) (s : String) → weight (scan_word c s) ≤ suc (size s)
unfolding scan_word
weight-scan_word c s = elim (Bool-cases (is_ident c)) [
  | inl h ↦ ground (arith, size-span_first is_ident c s h)
  | inr h ↦ rw (span_stop is_ident c s h, scan_word) (omega arith)
]

weight-lex_byte : (c : Char) (s : String) → weight (lex_byte c s) ≤ suc (size s)
unfolding lex_byte
weight-lex_byte c s =
    ground (arith, size-tail s, weight-scan_string s, weight-scan_number c s, weight-scan_word c s)

weight-lex_skipped : (s : String) → weight (lex_skipped s) ≤ size s
weight-lex_skipped String.[] = omega arith
weight-lex_skipped (String.◌∷◌ c s) = weight-lex_byte c s

pub weight-lex_next : (s : String) → weight (lex_next s) ≤ size s
unfolding lex_next
weight-lex_next s = omega (arith, weight-lex_skipped (skip_space s), size-skip_space s)
