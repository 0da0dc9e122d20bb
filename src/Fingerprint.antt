-- ===== src/Fingerprint.antt =====
-- internal/fingerprint/fingerprint.go: the canonical JSON of a payload, its hash, and the form in
-- which payloads are compared and stored.
use vortara.Base.{
  String, concat, Bool, true, false, List, [], ◌∷◌, contains, map, if◌then◌else◌, ◌==◌, not,
}
use vortara.Base.Sort.{sort_entries}
use vortara.Runtime.{Runtime}
use vortara.Value.{
  Value, Items, Fields, Payload, null, bool, int, float64, str, time, arr, obj, no_items, item,
  no_fields, field, int_text, join,
}

-- A key and the JSON of its value, as `"k":v`.
abbrev pub member_json : Runtime → String × String → String
member_json rt e = concat (rt.json_quote e.0) (concat ":" e.1)

abbrev pub object_json : Runtime → List (String × String) → String
object_json rt members =
    concat "{" (concat (join "," (map (member_json rt) (sort_entries members))) "}")

-- writeCanonical below the top level, where no key is left out; a leaf is `json.Marshal`'s.
unfoldable mutual
  unfolding int_text join

  pub canonical : Runtime → Value → String
  canonical rt null = "null"
  canonical rt (bool true) = "true"
  canonical rt (bool false) = "false"
  canonical rt (int z) = int_text z
  canonical rt (float64 x) = rt.float_json x
  canonical rt (str s) = rt.json_quote s
  canonical rt (time t) = rt.time_json t
  canonical rt (arr xs) = concat "[" (concat (join "," (canonical_items rt xs)) "]")
  canonical rt (obj fs) = object_json rt (canonical_fields rt fs)

  pub canonical_items : Runtime → Items → List String
  canonical_items rt no_items = []
  canonical_items rt (item x xs) = canonical rt x ∷ canonical_items rt xs

  pub canonical_fields : Runtime → Fields → List (String × String)
  canonical_fields rt no_fields = []
  canonical_fields rt (field k v fs) = (k, canonical rt v) ∷ canonical_fields rt fs

-- The members of the top-level object, without the excluded keys.
unfoldable pub members : Runtime → List String → Payload → List (String × String)
unfolding canonical
members rt exclude [] = []
members rt exclude ((k, v) ∷ m) =
    let rest = members rt exclude m in
    if contains exclude k then rest else (k, canonical rt v) ∷ rest

unfoldable pub canonical_payload : Runtime → List String → Payload → String
unfolding members
canonical_payload rt exclude m = object_json rt (members rt exclude m)

-- Of
unfoldable pub fingerprint_of : Runtime → Payload → List String → String
unfolding canonical_payload
fingerprint_of rt m exclude = rt.sha256_hex (canonical_payload rt exclude m)

-- Changed
unfoldable pub changed : Runtime → Payload → Payload → List String → Bool
changed rt a b exclude = not (fingerprint_of rt a exclude == fingerprint_of rt b exclude)

unfoldable mutual
  pub normalize_value : Runtime → Value → Value
  normalize_value rt (time t) = str (rt.rfc3339 t)
  normalize_value rt (arr xs) = arr (normalize_items rt xs)
  normalize_value rt (obj fs) = obj (normalize_fields rt fs)
  normalize_value rt null = null
  normalize_value rt (bool b) = bool b
  normalize_value rt (int z) = int z
  normalize_value rt (float64 x) = float64 x
  normalize_value rt (str s) = str s

  pub normalize_items : Runtime → Items → Items
  normalize_items rt no_items = no_items
  normalize_items rt (item x xs) = item (normalize_value rt x) (normalize_items rt xs)

  pub normalize_fields : Runtime → Fields → Fields
  normalize_fields rt no_fields = no_fields
  normalize_fields rt (field k v fs) = field k (normalize_value rt v) (normalize_fields rt fs)

-- NormalizePayload
unfoldable pub normalize_payload : Runtime → Payload → Payload
unfolding normalize_value
normalize_payload rt [] = []
normalize_payload rt ((k, v) ∷ m) = (k, normalize_value rt v) ∷ normalize_payload rt m
