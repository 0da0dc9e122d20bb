-- ===== src/Config/Environment.antt =====
-- pkg/config/sync/env.go: the expansion of `${VAR}`, on texts of ASCII bytes. The environment is a function.
use Prim.Native.Char.{code}
use Prim.Native.String.{slice, len}
use vortara.Base.{ℕ, zero, suc, String, concat, ◌&&◌, Option, none, some, eqb, ltb, if◌then◌else◌}
use vortara.Text.{has_prefix}

-- The text before the first closing brace, if there is one.
unfoldable pub before_brace : String → Option String
before_brace String.[] = none
before_brace (String.◌∷◌ c s) =
    let rest = before_brace s in
    if eqb (code c) b'}'
    then some String.[]
    else elim rest [ none ↦ none | some name ↦ some (String.◌∷◌ c name) ]

-- The name in a match of envRe at the beginning of a text.
unfoldable pub variable : String → Option String
unfolding before_brace has_prefix
variable s = elim (before_brace (slice s 2 (len s))) [
  | none ↦ none
  | some name ↦ if has_prefix s "${" && ltb 0 (len name) then some name else none
]

abbrev pub value_of : (String → Option String) → String → String
value_of env name = elim (env name) [ none ↦ concat "${" (concat name "}") | some v ↦ v ]

-- The text behind the first `skip` bytes, expanded.
unfoldable pub expand_from : (String → Option String) → String → ℕ → String
unfolding variable
expand_from env String.[] skip = String.[]
expand_from env (String.◌∷◌ c s) (suc skip) = expand_from env s skip
expand_from env (String.◌∷◌ c s) zero = elim (variable (String.◌∷◌ c s)) [
  | none ↦ String.◌∷◌ c (expand_from env s zero)
  | some name ↦ concat (value_of env name) (expand_from env s (suc (suc (len name))))
]

unfoldable pub expand_env : (String → Option String) → String → String
unfolding expand_from
expand_env env s = expand_from env s zero
