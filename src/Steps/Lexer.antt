-- ===== src/Steps/Lexer.antt =====
-- internal/steps/expr.go, the lexer. Its state is the input from `pos` on. A text is read as its
-- bytes, so `unicode`'s classes are those of the code points below 256.
pub mod Progress
use Prim.Native.Char.{Char, code}
use Prim.Native.String.{String}
use vortara.Base.{ℕ, ◌+◌, concat, Bool, true, false, ◌&&◌, ◌||◌, leb, eqb, ◌==◌, if◌then◌else◌}
use vortara.Text.{to_lower, to_upper}

pub data TokenKind : Type 0 where
  tok_field tok_string tok_number tok_bool : TokenKind
  tok_eq tok_ne tok_gt tok_gte tok_lt tok_lte : TokenKind
  tok_and tok_or tok_not tok_lparen tok_rparen tok_comma tok_ident tok_eof : TokenKind

pub record Token : Type 0 where
  pub kind : TokenKind
  pub val : String

abbrev pub token : TokenKind → String → Token
token k v = record { kind = k; val = v }

abbrev within : ℕ → ℕ → ℕ → Bool
within lo hi c = leb lo c && leb c hi

unfoldable pub is_space : Char → Bool
is_space c = within 9 13 (code c) || eqb (code c) 32 || eqb (code c) 133 || eqb (code c) 160

unfoldable pub is_digit : Char → Bool
is_digit c = within b'0' b'9' (code c)

unfoldable pub is_letter : Char → Bool
is_letter c =
    within b'a' b'z' (code c)
    || within b'A' b'Z' (code c)
    || eqb (code c) 170
    || eqb (code c) 181
    || eqb (code c) 186
    || within 192 214 (code c)
    || within 216 246 (code c)
    || within 248 255 (code c)

unfoldable pub is_ident : Char → Bool
unfolding is_letter is_digit
is_ident c = is_letter c || is_digit c || eqb (code c) b'_' || eqb (code c) b'.'

unfoldable pub is_number : Char → Bool
unfolding is_digit
is_number c = is_digit c || eqb (code c) b'.'

abbrev pub not_quote : Char → Bool
not_quote c = if eqb (code c) b'\'' then false else true

-- The longest run of bytes of a class, and what follows it.
unfoldable pub span : (Char → Bool) → String → String × String
span p String.[] = (String.[], String.[])
span p (String.◌∷◌ c s) =
    let rest = span p s in
    if p c then (String.◌∷◌ c rest.0, rest.1) else (String.[], String.◌∷◌ c s)

-- skipSpace
unfoldable pub skip_space : String → String
unfolding is_space
skip_space String.[] = String.[]
skip_space (String.◌∷◌ c s) = let rest = skip_space s in if is_space c then rest else String.◌∷◌ c s

-- peek
unfoldable pub peek : ℕ → String → Bool
peek expected String.[] = false
peek expected (String.◌∷◌ c s) = eqb (code c) expected

abbrev pub tail : String → String
tail String.[] = String.[]
tail (String.◌∷◌ c s) = s

-- scanString, behind the opening quote; the closing one may be missing.
unfoldable pub scan_string : String → Token × String
unfolding span
scan_string s = let (val, rest) = span not_quote s in (token tok_string val, tail rest)

-- scanNumber
unfoldable pub scan_number : String → Token × String
unfolding span is_number
scan_number s = let (val, rest) = span is_number s in (token tok_number val, rest)

-- The switch on the upper-case form of an identifier.
unfoldable pub keyword : String → Token
unfolding to_upper
keyword ident =
    if to_upper ident == "AND"
    then token tok_and ident
    else if to_upper ident == "OR"
    then token tok_or ident
    else if to_upper ident == "NOT"
    then token tok_not ident
    else if to_upper ident == "TRUE" || to_upper ident == "FALSE"
    then token tok_bool (to_lower ident)
    else token tok_ident ident

-- scanIdent and what follows it; a byte that begins no token ends the input. On ASCII bytes `string(ch)` is the
-- byte itself.
unfoldable pub scan_word : Char → String → Token × String
unfolding span is_ident keyword
scan_word c s =
    let (ident, rest) = span is_ident (String.◌∷◌ c s) in
    if ident == "" then (token tok_eof (String.◌∷◌ c String.[]), s) else (keyword ident, rest)

abbrev number_or_word : Char → String → Token × String
number_or_word c s = if is_digit c then scan_number (String.◌∷◌ c s) else scan_word c s

-- The switch of `next` on the byte `c`, with the input `s` behind it.
unfoldable pub lex_byte : Char → String → Token × String
unfolding is_digit scan_string scan_number scan_word peek
lex_byte c s =
    if eqb (code c) b'('
    then (token tok_lparen "(", s)
    else if eqb (code c) b')'
    then (token tok_rparen ")", s)
    else if eqb (code c) b','
    then (token tok_comma ",", s)
    else if eqb (code c) b'=' && peek b'=' s
    then (token tok_eq "==", tail s)
    else if eqb (code c) b'!' && peek b'=' s
    then (token tok_ne "!=", tail s)
    else if eqb (code c) b'>'
    then (if peek b'=' s then (token tok_gte ">=", tail s) else (token tok_gt ">", s))
    else if eqb (code c) b'<'
    then (if peek b'=' s then (token tok_lte "<=", tail s) else (token tok_lt "<", s))
    else if eqb (code c) b'\''
    then scan_string s
    else number_or_word c s

abbrev pub lex_skipped : String → Token × String
lex_skipped String.[] = (token tok_eof "", String.[])
lex_skipped (String.◌∷◌ c s) = lex_byte c s

-- lexer.next
unfoldable pub lex_next : String → Token × String
unfolding skip_space lex_byte
lex_next s = lex_skipped (skip_space s)
