-- ===== src/Value.antt =====
-- The dynamic values of a row (`any` in `map[string]any`), and `fmt.Sprintf("%v", x)` on them.
use Prim.Native.String.{slice}
use vortara.Base.{
  ℕ, zero, suc, ◌+◌, ◌/◌, ◌%◌, String, concat, Bool, true, false, List, [], ◌∷◌, map, Assoc, ℤ, pos,
  negsuc, eqb, if◌then◌else◌,
}
use vortara.Base.Sort.{sort_entries}
use vortara.Runtime.{Runtime}

-- `float64` holds the 64 bits of the float, `time` a `time.Time`.
mutual
  pub data Value : Type 0 where
    null : Value
    bool : Bool → Value
    int : ℤ → Value
    float64 : ℕ → Value
    str : String → Value
    time : ℕ → Value
    arr : Items → Value
    obj : Fields → Value

  pub data Items : Type 0 where
    no_items : Items
    item : Value → Items → Items

  pub data Fields : Type 0 where
    no_fields : Fields
    field : String → Value → Fields → Fields

-- `map[string]any`
abbrev pub Payload : Type 0
Payload = Assoc Value

unfoldable pub to_fields : Payload → Fields
to_fields [] = no_fields
to_fields ((k, v) ∷ m) = field k v (to_fields m)

-- A number in decimal; `f` bounds the number of digits.
unfoldable pub decimal_digits : ℕ → ℕ → String
decimal_digits zero n = ""
decimal_digits (suc f) n =
    let rest = decimal_digits f (n / 10) in
    let digit = slice "0123456789" (n % 10) (n % 10 + 1) in
    if eqb (n / 10) 0 then digit else concat rest digit

unfoldable pub decimal : ℕ → String
unfolding decimal_digits
decimal n = decimal_digits (suc n) n

unfoldable pub int_text : ℤ → String
unfolding decimal
int_text (pos n) = decimal n
int_text (negsuc n) = concat "-" (decimal (suc n))

-- `strings.Join`
unfoldable pub join : String → List String → String
join sep [] = ""
join sep (s ∷ []) = s
join sep (s ∷ t ∷ ss) = concat s (concat sep (join sep (t ∷ ss)))

abbrev pub pair_text : String × String → String
pair_text e = concat e.0 (concat ":" e.1)

-- `%v`: a map is printed in the order of its keys.
unfoldable mutual
  unfolding int_text join

  pub sprint : Runtime → Value → String
  sprint rt null = "<nil>"
  sprint rt (bool true) = "true"
  sprint rt (bool false) = "false"
  sprint rt (int z) = int_text z
  sprint rt (float64 x) = rt.float_text x
  sprint rt (str s) = s
  sprint rt (time t) = rt.time_text t
  sprint rt (arr xs) = concat "[" (concat (join " " (sprint_items rt xs)) "]")
  sprint rt (obj fs) =
      concat "map[" (concat (join " " (map pair_text (sort_entries (sprint_fields rt fs)))) "]")

  pub sprint_items : Runtime → Items → List String
  sprint_items rt no_items = []
  sprint_items rt (item x xs) = sprint rt x ∷ sprint_items rt xs

  pub sprint_fields : Runtime → Fields → List (String × String)
  sprint_fields rt no_fields = []
  sprint_fields rt (field k v fs) = (k, sprint rt v) ∷ sprint_fields rt fs
