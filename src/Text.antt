-- ===== src/Text.antt =====
-- Functions of Go's package strings that the code calls, on texts of ASCII bytes.
use Prim.Native.Char.{Char, code}
use Prim.Native.String.{String, slice, begins}
use vortara.Base.{
  List, [], ◌∷◌, ◌==◌, ◌||◌, Bool, true, eqb, ◌-◌, ◌+◌, leb, ◌&&◌, if◌then◌else◌, concat,
}

-- The lower-case letter of an ASCII letter, as a text.
abbrev lower_text : Char → String → String
lower_text c rest =
    if leb b'A' (code c) && leb (code c) b'Z'
    then concat (slice "abcdefghijklmnopqrstuvwxyz" (code c - b'A') (code c - b'A' + 1)) rest
    else String.◌∷◌ c rest

-- `strings.ToLower`
unfoldable pub to_lower : String → String
to_lower String.[] = String.[]
to_lower (String.◌∷◌ c s) = lower_text c (to_lower s)

-- The upper-case letter of an ASCII letter, as a text.
abbrev upper_text : Char → String → String
upper_text c rest =
    if leb b'a' (code c) && leb (code c) b'z'
    then concat (slice "ABCDEFGHIJKLMNOPQRSTUVWXYZ" (code c - b'a') (code c - b'a' + 1)) rest
    else String.◌∷◌ c rest

-- `strings.ToUpper`
unfoldable pub to_upper : String → String
to_upper String.[] = String.[]
to_upper (String.◌∷◌ c s) = upper_text c (to_upper s)

-- `strings.HasPrefix`
unfoldable pub has_prefix : String → String → Bool
has_prefix s prefix = eqb (begins s prefix 1 0) 1

-- `strings.Contains`: the substring is a prefix of what is left at some place.
unfoldable pub contains : String → String → Bool
unfolding has_prefix
contains String.[] substr = has_prefix String.[] substr
contains (String.◌∷◌ c s) substr =
    let rest = contains s substr in if has_prefix (String.◌∷◌ c s) substr then true else rest

-- What `unicode.IsSpace` holds of among the code points below 256
unfoldable pub is_white : Char → Bool
is_white c =
    (leb 9 (code c) && leb (code c) 13) || eqb (code c) 32 || eqb (code c) 133 || eqb (code c) 160

unfoldable pub trim_left : String → String
unfolding is_white
trim_left String.[] = String.[]
trim_left (String.◌∷◌ c s) = let rest = trim_left s in if is_white c then rest else String.◌∷◌ c s

-- Without the white space at the end: a white character stays if something is left behind it.
unfoldable pub trim_right : String → String
unfolding is_white
trim_right String.[] = String.[]
trim_right (String.◌∷◌ c s) =
    let rest = trim_right s in if is_white c && rest == "" then String.[] else String.◌∷◌ c rest

-- `strings.TrimSpace`
unfoldable pub trim_space : String → String
unfolding trim_left trim_right
trim_space s = trim_left (trim_right s)

-- `strings.TrimRight(s, "/")`
unfoldable pub trim_slashes : String → String
trim_slashes String.[] = String.[]
trim_slashes (String.◌∷◌ c s) =
    let rest = trim_slashes s in
    if eqb (code c) b'/' && rest == "" then String.[] else String.◌∷◌ c rest

-- `strings.Split(s, ",")[0]`
unfoldable pub before_comma : String → String
before_comma String.[] = String.[]
before_comma (String.◌∷◌ c s) =
    let rest = before_comma s in if eqb (code c) b',' then String.[] else String.◌∷◌ c rest

-- A byte before the first of some parts.
abbrev before_part : Char → List String → List String
before_part c [] = String.◌∷◌ c String.[] ∷ []
before_part c (part ∷ parts) = String.◌∷◌ c part ∷ parts

-- `strings.Split(s, ",")`
unfoldable pub split_commas : String → List String
split_commas String.[] = String.[] ∷ []
split_commas (String.◌∷◌ c s) =
    let rest = split_commas s in if eqb (code c) b',' then String.[] ∷ rest else before_part c rest
